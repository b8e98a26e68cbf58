-- ===== src/Memory/Account/Edit.antt =====
-- memory/db.go, EditMessage: it keeps the database valid, and what it answers.
use teled.Prelude.{
  ◌+◌, ◌<◌, ◌≡◌, ◌≢◌, ◌⊎◌, inl, inr, refl, sym, ◌∙◌, [], ◌∷◌, ◌++◌, some, none, true, false, arith,
  Int64, int0, int, word, add_len, get-put_self, get-put_ne, get, ℕ_discrete, Str, ==_false,
  Option-cases,
}
use teled.Types.{
  Time, EditResult, UpdateType, no_extra, UpdateLogEntry, ok, err, message_id_invalid,
}
use teled.Memory.State.{Db, MemUser, MemMessage, MemRef, user_of, message_of, refs_of, updates_of}
use teled.Memory.Messages.{log_update, ref_by_global}
use teled.Memory.Revisions.{put_message, editable, edited, edit_peer, edit_stored, edit_message}
use teled.Memory.Account.{IsValid, SameElsewhere}
use teled.Memory.Account.Extend.{Extends-IsValid, Extends-put_same}
use teled.Memory.Account.Advance.{
  logged, advanced, allocate_pts-ok, updates_of-advanced, advanced-SameElsewhere, advanced-IsValid,
}

-- A new version of a stored message, between the same accounts, keeps the database valid.
pub put_message-IsValid :
    (g : Int64) (m m' : MemMessage) (d : Db)
    → message_of d g ≡ some m
    → m'.global_id ≡ m.global_id
    → m'.from ≡ m.from
    → m'.peer ≡ m.peer
    → IsValid d
    → IsValid (put_message g m' d)
put_message-IsValid g m m' d found name from peer valid =
    Extends-IsValid d _ d.msg_seq
      (Extends-put_same d.messages d.msg_seq g m m' found name from peer) (omega arith) valid

-- The log entry of an edit.
abbrev pub edit_entry : Int64 → Int64 → Time → UpdateLogEntry
edit_entry pts global_id now = logged pts (int 1) UpdateType.edit (some global_id) no_extra now

module _ (self local_id g : Int64) (m : MemMessage) (text : Str) (now : Time) (d : Db)
    (mu : MemUser) (found : user_of d self ≡ some mu) (stored : message_of d g ≡ some m)
    (valid : IsValid d) (room : mu.pts + 1 < word) where
  abbrev rewritten : Db
  rewritten = put_message g (edited m text now) d

  abbrev self_done : Db
  self_done = advanced self mu (mu.pts + 1) (edit_entry (mu.pts + 1) m.global_id now) rewritten

  abbrev answer : EditResult
  answer = record {
    self_local_id = local_id;
    self_pts = mu.pts + 1;
    peer_user_id = m.peer;
    peer_local_id = int0;
    peer_pts = int0;
    date = m.date;
    edit_date = now;
  }

  self_done-IsValid : IsValid self_done
  self_done-IsValid =
      advanced-IsValid self mu rewritten found (mu.pts + 1) _ (omega arith) (omega arith)
        (omega arith) (put_message-IsValid g m (edited m text now) d stored refl refl refl valid)

  self_advance : SameElsewhere self rewritten self_done
  self_advance =
      advanced-SameElsewhere self mu rewritten found (mu.pts + 1)
        (edit_entry (mu.pts + 1) m.global_id now)

  edit_stored_self :
      edit_stored self local_id g m text now d ≡ edit_peer answer self m.global_id now self_done
  unfolding edit_stored log_update
  edit_stored_self =
      let e : add_len mu.pts 1 ≡ mu.pts + 1 = omega arith in
      rw (allocate_pts-ok self mu rewritten found 1) (rw e)

  module _ (mp : MemUser) (found' : user_of d m.peer ≡ some mp) (differ : m.peer ≢ self)
      (room' : mp.pts + 1 < word) where
    peer_found : user_of self_done m.peer ≡ some mp
    peer_found = self_advance.users m.peer differ ∙ found'

    abbrev peer_done : Db
    peer_done = advanced m.peer mp (mp.pts + 1) (edit_entry (mp.pts + 1) m.global_id now) self_done

    abbrev full_answer : EditResult
    full_answer = record answer {
      peer_local_id = elim (ref_by_global m.peer m.global_id self_done) [
        | none ↦ int0
        | some pr ↦ pr.local_id
      ];
      peer_pts = mp.pts + 1;
    }

    edit_stored-peer : edit_stored self local_id g m text now d ≡ ok (full_answer, peer_done)
    unfolding edit_peer log_update
    edit_stored-peer =
        let e : add_len mp.pts 1 ≡ mp.pts + 1 = omega arith in
        rw (edit_stored_self, ==_false m.peer self differ)
          (rw (allocate_pts-ok m.peer mp self_done peer_found 1) (rw e))

    peer_advance : SameElsewhere m.peer self_done peer_done
    peer_advance =
        advanced-SameElsewhere m.peer mp self_done peer_found (mp.pts + 1)
          (edit_entry (mp.pts + 1) m.global_id now)

    self_log :
        updates_of peer_done self
        ≡ updates_of d self ++ edit_entry (mu.pts + 1) m.global_id now ∷ []
    self_log =
        peer_advance.updates self (λ e. differ (sym e))
        ∙ updates_of-advanced self mu rewritten found (mu.pts + 1)
            (edit_entry (mu.pts + 1) m.global_id now)

    peer_log :
        updates_of peer_done m.peer
        ≡ updates_of d m.peer ++ edit_entry (mp.pts + 1) m.global_id now ∷ []
    peer_log =
        updates_of-advanced m.peer mp self_done peer_found (mp.pts + 1)
          (edit_entry (mp.pts + 1) m.global_id now)
        ∙ rw (self_advance.updates m.peer differ)

    peer_done-IsValid : IsValid peer_done
    peer_done-IsValid =
        advanced-IsValid m.peer mp self_done peer_found (mp.pts + 1) _ (omega arith) (omega arith)
          (omega arith) self_done-IsValid

pub edit_message-allowed :
    (self local_id : Int64) (text : Str) (now : Time) (d : Db) (r : MemRef) (m : MemMessage)
    → get ℕ_discrete local_id (refs_of d self) ≡ some r
    → message_of d r.global_id ≡ some m
    → editable self m ≡ true
    → edit_message self local_id text now d ≡ edit_stored self local_id r.global_id m text now d
unfolding edit_message
edit_message-allowed self l text now d r m ref stored may =
    rw (ref, edit_message) (rw (stored, edit_message) (rw may))

-- EditMessage answers MESSAGE_ID_INVALID when every message that the local id reaches is deleted or
-- another's, which includes that there is no ref or no message.
pub edit_message-refused :
    (self local_id : Int64) (text : Str) (now : Time) (d : Db)
    → ((r : MemRef) (m : MemMessage)
        → get ℕ_discrete local_id (refs_of d self) ≡ some r
        → message_of d r.global_id ≡ some m
        → (m.deleted ≡ true) ⊎ (m.from ≢ self))
    → edit_message self local_id text now d ≡ err message_id_invalid
unfolding edit_message
edit_message-refused self l text now d barred =
    elim (Option-cases (get ℕ_discrete l (refs_of d self))) [
      | inl e ↦ rw (e, edit_message)
      | inr (r, e) ↦ elim (Option-cases (message_of d r.global_id)) [
        | inl e' ↦ rw (e, edit_message) (rw (e', edit_message))
        | inr (m, e') ↦
            let no_edit : editable self m ≡ false = ground (arith, barred r m e e') in
            rw (e, edit_message) (rw (e', edit_message) (rw no_edit))
      ]
    ]

-- In a valid database, the sender of a stored message to another account that is not deleted may edit
-- it, where both accounts exist and neither's pts wraps. Both accounts then advance by one and log the edit, the stored message has the new text and edit date, no other message changes, and
-- the database stays valid.
pub edit_message-edits :
    (self local_id : Int64) (text : Str) (now : Time) (d : Db) (mu mp : MemUser) (r : MemRef)
    (m : MemMessage)
    → IsValid d
    → user_of d self ≡ some mu
    → get ℕ_discrete local_id (refs_of d self) ≡ some r
    → message_of d r.global_id ≡ some m
    → m.deleted ≡ false
    → m.from ≡ self
    → m.peer ≢ self
    → user_of d m.peer ≡ some mp
    → mu.pts + 1 < word
    → mp.pts + 1 < word
    → (res : EditResult) × (d' : Db) × (edit_message self local_id text now d ≡ ok (res, d'))
      × (res.self_pts ≡ mu.pts + 1)
      × (res.peer_pts ≡ mp.pts + 1)
      × (message_of d' r.global_id ≡ some (record m { text = text; edit_date = now }))
      × ((h : Int64) → h ≢ r.global_id → message_of d' h ≡ message_of d h)
      × (updates_of d' self ≡ updates_of d self ++ edit_entry (mu.pts + 1) m.global_id now ∷ [])
      × (updates_of d' m.peer ≡ updates_of d m.peer ++ edit_entry (mp.pts + 1) m.global_id now ∷ [])
      × IsValid d'
edit_message-edits self l text now d mu mp r m valid found ref stored live mine other found' room
      room' =
    let g = r.global_id in
    (
      full_answer self l g m text now d mu found stored valid room mp found' other room',
      peer_done self l g m text now d mu found stored valid room mp found' other room',
      edit_message-allowed self l text now d r m ref stored (ground arith)
          ∙ edit_stored-peer self l g m text now d mu found stored valid room mp found' other room',
      refl,
      refl,
      get-put_self ℕ_discrete g _ d.messages,
      λ h ne. get-put_ne ℕ_discrete g h _ d.messages ne,
      self_log self l g m text now d mu found stored valid room mp found' other room',
      peer_log self l g m text now d mu found stored valid room mp found' other room',
      peer_done-IsValid self l g m text now d mu found stored valid room mp found' other room',
    )
