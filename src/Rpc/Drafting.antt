-- ===== src/Rpc/Drafting.antt =====
-- internal/rpc/drafts.go, messagesSaveDraft: the stored drafts, and the sync to the caller's sessions.
use teled.Prelude.{
  ◌≡◌, subst, refl, sym, ap, ◌∙◌, inl, inr, [], ◌∷◌, ◌++◌, map, Option, some, none, Bool, true,
  false, Str, Int64, Map, keep, get, put, delete, get-put, get-put_self, get-put_ne, get-delete,
  or_else, ite, if_pos, if_neg, ℕ_discrete, Bool-cases, Option-cases, if◌then◌else◌,
}
use teled.Types.{Time, User, Draft, unix}
use teled.Memory.State.{Db}
use teled.Memory.Rows.{inner, delete_inner, save_draft}
use teled.Rpc.Reply.{Exec, reply, save, return, ◌>>=◌, ◌>>◌}
use teled.Rpc.Caller.{InputPeer, caller_user, resolve_peer_user}
use teled.Rpc.Registry.{live}
use teled.Rpc.Server.{Context, draft_message, Updates, Server, on_db, seen_by, peer_of, push}
use teled.Rpc.Server.Calls.{bind-caller_of, bind-peer_of}
use teled.Rpc.Pushing.{push_lem}
use teled.Rpc.Drafts.{is_blank, messages_save_draft}

-- The draft of a user for a peer.
abbrev pub draft_at : Db → Int64 → Int64 → Option Draft
draft_at d user_id peer_id = get ℕ_discrete peer_id (inner user_id d.drafts)

-- What is stored for the peer after a text was saved.
abbrev pub saved : Bool → Int64 → Str → Time → Option Draft
saved blank peer_id text now =
    if blank then none else some (record { peer_user_id = peer_id; text = text; date = now })

inner-put :
    (u : Int64) (new : Map Int64 Draft) (m : Map Int64 (Map Int64 Draft)) (v j : Int64)
    → get ℕ_discrete j (inner v (put ℕ_discrete u new m))
      ≡ ite (ℕ_discrete v u) (get ℕ_discrete j new) (get ℕ_discrete j (inner v m))
inner-put u new m v j = elim (ℕ_discrete v u) [
  | yes e ↦ rw e (
      ap (λ o. get ℕ_discrete j (or_else o [])) (get-put_self ℕ_discrete u new m)
      ∙ sym (if_pos (ℕ_discrete u u) refl _ _))
  | no ne ↦
      ap (λ o. get ℕ_discrete j (or_else o [])) (get-put_ne ℕ_discrete u v new m ne)
      ∙ sym (if_neg (ℕ_discrete v u) ne _ _)
]

inner_same :
    (u v i j : Int64) (o x : Option Draft) (m : Map Int64 (Map Int64 Draft))
    → ite (ℕ_discrete v u) (ite (ℕ_discrete j i) o (get ℕ_discrete j (inner u m))) x
      ≡ ite (ℕ_discrete v u) (ite (ℕ_discrete j i) o (get ℕ_discrete j (inner v m))) x
inner_same u v i j o x m = elim (ℕ_discrete v u) [
  | yes e ↦ rw e refl
  | no ne ↦ if_neg (ℕ_discrete v u) ne _ _ ∙ sym (if_neg (ℕ_discrete v u) ne _ _)
]

draft_at-put :
    (u i : Int64) (t : Draft) (d : Db) (v j : Int64)
    → get ℕ_discrete j (inner v (put ℕ_discrete u (put ℕ_discrete i t (inner u d.drafts)) d.drafts))
      ≡ ite (ℕ_discrete v u) (ite (ℕ_discrete j i) (some t) (draft_at d v j)) (draft_at d v j)
draft_at-put u i t d v j =
    inner-put u (put ℕ_discrete i t (inner u d.drafts)) d.drafts v j
    ∙ ap (λ o. ite (ℕ_discrete v u) o (draft_at d v j))
        (get-put ℕ_discrete i j t (inner u d.drafts))
    ∙ inner_same u v i j (some t) (draft_at d v j) d.drafts

-- A user without drafts has none to delete.
draft_at-absent :
    (u i : Int64) (d : Db) (v j : Int64)
    → get ℕ_discrete u d.drafts ≡ none
    → draft_at d v j
      ≡ ite (ℕ_discrete v u) (ite (ℕ_discrete j i) none (draft_at d v j)) (draft_at d v j)
unfolding get
draft_at-absent u i d v j away = elim (ℕ_discrete v u) [
  | yes e ↦
      let nothing : draft_at d v j ≡ none =
        ap (λ x. get ℕ_discrete j (inner x d.drafts)) e
        ∙ ap (λ o. get ℕ_discrete j (or_else o [])) away in
      elim (ℕ_discrete j i) [
        | yes q ↦
            nothing ∙ sym (if_pos (ℕ_discrete j i) q _ _) ∙ sym (if_pos (ℕ_discrete v u) e _ _)
        | no q ↦ sym (if_neg (ℕ_discrete j i) q _ _) ∙ sym (if_pos (ℕ_discrete v u) e _ _)
      ]
  | no ne ↦ sym (if_neg (ℕ_discrete v u) ne _ _)
]

draft_at-delete :
    (u i : Int64) (d : Db) (v j : Int64)
    → get ℕ_discrete j (inner v (delete_inner u i d.drafts))
      ≡ ite (ℕ_discrete v u) (ite (ℕ_discrete j i) none (draft_at d v j)) (draft_at d v j)
draft_at-delete u i d v j = elim (Option-cases (get ℕ_discrete u d.drafts)) [
  | inl e ↦
      ap
        (λ o. get ℕ_discrete j (
          inner v (elim o [
            | none ↦ d.drafts
            | some s ↦ put ℕ_discrete u (delete ℕ_discrete i s) d.drafts
          ])))
        e
      ∙ draft_at-absent u i d v j e
  | inr (s, e) ↦
      ap
        (λ o. get ℕ_discrete j (
          inner v (elim o [
            | none ↦ d.drafts
            | some s ↦ put ℕ_discrete u (delete ℕ_discrete i s) d.drafts
          ])))
        e
      ∙ inner-put u (delete ℕ_discrete i s) d.drafts v j
      ∙ ap (λ o. ite (ℕ_discrete v u) o (draft_at d v j))
          (get-delete ℕ_discrete i j s
            ∙ ap (λ x. ite (ℕ_discrete j i) none (get ℕ_discrete j x))
                (sym (ap (λ o. or_else o []) e)))
      ∙ inner_same u v i j none (draft_at d v j) d.drafts
]

draft_at-save_draft :
    (blank : Str → Bool) (u i : Int64) (text : Str) (now : Time) (d : Db) (v j : Int64)
    → draft_at (save_draft blank u i text now d).1 v j
      ≡ ite
          (ℕ_discrete v u)
          (ite (ℕ_discrete j i) (saved (blank text) i text now) (draft_at d v j))
          (draft_at d v j)
unfolding save_draft
draft_at-save_draft blank u i text now d v j = elim (Bool-cases (blank text)) [
  | inl e ↦ rw (e, save_draft) (draft_at-delete u i d v j)
  | inr e ↦
      rw (e, save_draft)
        (draft_at-put u i (record { peer_user_id = i; text = text; date = now }) d v j)
]

-- The date that is stored is the date that is told.
dated :
    (blank : Str → Bool) (u i : Int64) (text : Str) (now : Time) (d : Db)
    → saved (blank text) i text (save_draft blank u i text now d).0 ≡ saved (blank text) i text now
unfolding save_draft
dated blank u i text now d = elim (Bool-cases (blank text)) [
  | inl e ↦ rw (e, save_draft) refl
  | inr e ↦ rw (e, save_draft) refl
]

-- What the caller's sessions are told.
abbrev pub sync : Context → User → User → Option Draft → Server → Updates
sync c caller to draft h = record {
  updates = draft_message to.id draft ∷ [];
  users = seen_by c h caller true ∷ seen_by c h to false ∷ [];
  date = unix c.now;
}

-- A logged-in caller saves a text as its draft for a peer. The call answers true. The text is the caller's draft for
-- the peer then, or there is none where the text is blank; all other drafts, of the caller and of others, stay. Each
-- live session of the caller that can be reached, the requesting one included, is told of the draft, or that
-- there is none.
pub messages_save_draft_lem :
    (c : Context) (peer : InputPeer) (text : Str) (h : Server) (caller to : User) (v j : Int64)
    → caller_user c.key c.now h.db ≡ some caller
    → resolve_peer_user caller peer h.db ≡ (reply to, h.db)
    → let draft = saved (is_blank c text) to.id text c.now in
      let h' = (messages_save_draft c peer text h).1 in
      (messages_save_draft c peer text h ≡ (reply true, h'))
      × (draft_at h'.db v j
          ≡ ite
              (ℕ_discrete v caller.id)
              (ite (ℕ_discrete j to.id) draft (draft_at h.db v j))
              (draft_at h.db v j))
      × (h'.pushed
          ≡ h.pushed
            ++ map
                (λ s. (s, sync c caller to draft h))
                (keep c.reaches (live caller.id h.sessions)))
unfolding messages_save_draft
messages_save_draft_lem c peer text h caller to v j me them =
    let tell : User → User → Time → Exec Server Bool = λ a w date.
      save (λ x.
        push c a.id
          (sync c a w
            (if is_blank c text
              then none
              else some (record { peer_user_id = w.id; text = text; date = date }))
            x)
          x)
      >> return true in
    let store : User → User → Exec Server Time = λ a w.
      on_db (λ d. let (t, d') = save_draft (is_blank c) a.id w.id text c.now d in (reply t, d')) in
    let rest : User → User → Exec Server Bool = λ a w. store a w >>= tell a w in
    let (date, d) = save_draft (is_blank c) caller.id to.id text c.now h.db in
    let draft = saved (is_blank c text) to.id text c.now in
    let h₁ : Server = record h { db = d } in
    let h₂ = push c caller.id (sync c caller to draft h₁) h₁ in
    let p = push_lem c caller.id (sync c caller to draft h₁) h₁ v j in
    let e : messages_save_draft c peer text h ≡ (reply true, h₂) =
      bind-caller_of c (λ a. peer_of a peer >>= rest a) h caller me
      ∙ bind-peer_of caller to peer (rest caller) h them
      ∙ ap (λ x. (reply true, push c caller.id (sync c caller to x h₁) h₁))
          (dated (is_blank c) caller.id to.id text c.now h.db) in
    let q =
      subst
        (λ x.
          (messages_save_draft c peer text h ≡ (reply true, x))
          × (draft_at x.db v j
              ≡ ite (ℕ_discrete v caller.id) (ite (ℕ_discrete j to.id) draft (draft_at h.db v j))
                  (draft_at h.db v j))
          × (x.pushed
              ≡ h.pushed
                ++ map (λ s. (s, sync c caller to draft h))
                    (keep c.reaches (live caller.id h.sessions))))
        (sym (ap (λ x. x.1) e))
        (
          e,
          ap (λ (x : Db). draft_at x v j) p.3
              ∙ draft_at-save_draft (is_blank c) caller.id to.id text c.now h.db v j,
          p.0,
        ) in
    q
