-- ===== src/Rpc/Pushing.antt =====
-- internal/rpc/messages.go, push: who takes the updates, and which sessions are dropped.
use teled.Prelude.{
  Option, ◌≡◌, inl, inr, refl, sym, ◌∙◌, arith, List, [], ◌∷◌, ◌++◌, append_assoc, append-nil, map,
  Bool, true, false, not, ◌&&◌, ◌||◌, ◌==◌, none, Int64, keep, some_in, ite, if_pos, if_neg,
  ℕ_discrete, Bool-cases, if◌then◌else◌,
}
use teled.Rpc.Registry.{Session, untrack, live, last_seen_at}
use teled.Rpc.Live.{session_at, session_at-untrack, last_seen_at-untrack}
use teled.Rpc.Server.{Context, Updates, Server, push_one, push_each, push}

-- Whether a session of the list with the id does not take the push.
abbrev pub lost : (Session → Bool) → Int64 → List Session → Bool
lost reaches j sessions = some_in (λ s. (s.id == j) && not (reaches s)) sessions

pushed-push_each :
    (reaches : Session → Bool) (u : Int64) (wrap : Updates) (sessions : List Session) (h : Server)
    → (push_each reaches u wrap sessions h).pushed
      ≡ h.pushed ++ map (λ s. (s, wrap)) (keep reaches sessions)
unfolding push_each push_one keep
pushed-push_each reaches u wrap [] h = sym (append-nil h.pushed)
pushed-push_each reaches u wrap (s ∷ rest) h = elim (Bool-cases (reaches s)) [
  | inl takes ↦
      rw (takes, push_each, keep)
        (pushed-push_each reaches u wrap rest (record h { pushed = h.pushed ++ (s, wrap) ∷ [] })
          ∙ append_assoc h.pushed _ _)
  | inr drops ↦
      rw (drops, push_each, keep)
        (pushed-push_each reaches u wrap rest (record h { sessions = untrack u s.id h.sessions }))
]

same-push_each :
    (reaches : Session → Bool) (u : Int64) (wrap : Updates) (sessions : List Session) (h : Server)
    → let h' = push_each reaches u wrap sessions h in
      (h'.db ≡ h.db) × (h'.store ≡ h.store) × (h'.staging ≡ h.staging)
unfolding push_each push_one
same-push_each reaches u wrap [] h = (refl, refl, refl)
same-push_each reaches u wrap (s ∷ rest) h = elim (Bool-cases (reaches s)) [
  | inl takes ↦
      rw (takes, push_each)
        (same-push_each reaches u wrap rest (record h { pushed = h.pushed ++ (s, wrap) ∷ [] }))
  | inr drops ↦
      rw (drops, push_each)
        (same-push_each reaches u wrap rest (record h { sessions = untrack u s.id h.sessions }))
]

-- A dropped session, then those of the rest.
lost_step :
    (u v i j : Int64) (reached lose : Bool) (o o₁ : Option Session)
    → o₁ ≡ (if reached then o else ite (ℕ_discrete v u) (ite (ℕ_discrete j i) none o) o)
    → ite (ℕ_discrete v u) (if lose then none else o₁) o₁
      ≡ ite (ℕ_discrete v u) (if ((i == j) && not reached) || lose then none else o) o
lost_step u v i j reached lose o o₁ e = ground arith

sessions-push_each :
    (reaches : Session → Bool) (u : Int64) (wrap : Updates) (sessions : List Session) (h : Server)
    (v j : Int64)
    → let h' = push_each reaches u wrap sessions h in
      (session_at h'.sessions v j
        ≡ ite
            (ℕ_discrete v u)
            (if lost reaches j sessions then none else session_at h.sessions v j)
            (session_at h.sessions v j))
      × (last_seen_at v h'.sessions ≡ last_seen_at v h.sessions)
unfolding push_each push_one some_in
sessions-push_each reaches u wrap [] h v j = elim (ℕ_discrete v u) [
  | yes e ↦ (sym (if_pos (ℕ_discrete v u) e _ _), refl)
  | no ne ↦ (sym (if_neg (ℕ_discrete v u) ne _ _), refl)
]
sessions-push_each reaches u wrap (s ∷ rest) h v j = elim (Bool-cases (reaches s)) [
  | inl takes ↦
      rw (takes, push_each, push_one)
        (let ih =
            sessions-push_each reaches u wrap rest
              (record h { pushed = h.pushed ++ (s, wrap) ∷ [] }) v j in
          (ih.0 ∙ lost_step u v s.id j true (lost reaches j rest) _ _ refl, ih.1))
  | inr drops ↦
      let h₁ : Server = record h { sessions = untrack u s.id h.sessions } in
      let ih = sessions-push_each reaches u wrap rest h₁ v j in
      let here = session_at-untrack u s.id h.sessions v j in
      let seen = last_seen_at-untrack u s.id h.sessions v in
      rw (drops, push_each, push_one)
        (ih.0 ∙ lost_step u v s.id j false (lost reaches j rest) _ _ here, ih.1 ∙ seen)
]

-- A push to a user's sessions: every live session of the user that the connection reaches gets the updates
-- once, in the order of the list, after all that was pushed before. A session of the user is dropped exactly if
-- a live session with its id is not reached. The sessions of other users, the times of last activity, the
-- database, the store and the uploads stay as they are.
pub push_lem :
    (c : Context) (u : Int64) (wrap : Updates) (h : Server) (v j : Int64)
    → let h' = push c u wrap h in
      let sessions = live u h.sessions in
      (h'.pushed ≡ h.pushed ++ map (λ s. (s, wrap)) (keep c.reaches sessions))
      × (session_at h'.sessions v j
          ≡ ite
              (ℕ_discrete v u)
              (if lost c.reaches j sessions then none else session_at h.sessions v j)
              (session_at h.sessions v j))
      × (last_seen_at v h'.sessions ≡ last_seen_at v h.sessions)
      × (h'.db ≡ h.db)
      × (h'.store ≡ h.store)
      × (h'.staging ≡ h.staging)
unfolding push
push_lem c u wrap h v j =
    let sessions = live u h.sessions in
    let kept = sessions-push_each c.reaches u wrap sessions h v j in
    let same = same-push_each c.reaches u wrap sessions h in
    (pushed-push_each c.reaches u wrap sessions h, kept.0, kept.1, same.0, same.1, same.2)
