-- ===== src/Memory/Revisions.antt =====
-- memory/db.go, the changes to stored messages: EditMessage and DeleteMessages.
use teled.Prelude.{
  List, [], ◌∷◌, none, some, Bool, true, ◌||◌, not, Str, Int64, int0, int, length, get, put, ◌==◌,
  if◌then◌else◌, ℕ_discrete,
}
use teled.Types.{
  Time, EditResult, DeleteResult, UpdateType, no_extra, encode_deleted, Result, ok, err, ◌>>=◌,
  message_id_invalid,
}
use teled.Memory.State.{Db, MemMessage, message_of, refs_of}
use teled.Memory.Messages.{allocate_pts, log_update, ref_by_global}

abbrev pub put_message : Int64 → MemMessage → Db → Db
put_message key m d = record d { messages = put ℕ_discrete key m d.messages }

-- A stored message that EditMessage accepts: neither deleted nor sent by another.
abbrev pub editable : Int64 → MemMessage → Bool
editable self m = not (m.deleted || not (m.from == self))

-- The peer's share of an edit: its pts, its log entry and the local id of its copy.
unfoldable pub edit_peer : EditResult → Int64 → Int64 → Time → Db → Result (EditResult × Db)
unfolding allocate_pts log_update ref_by_global
edit_peer res self global_id now d = if res.peer_user_id == self then ok (res, d) else do
  (pts, d') ← allocate_pts res.peer_user_id 1 d
  ok (
    record res {
      peer_local_id = elim (ref_by_global res.peer_user_id global_id d) [
        | none ↦ int0
        | some pr ↦ pr.local_id
      ];
      peer_pts = pts;
    },
    log_update res.peer_user_id pts (int 1) UpdateType.edit (some global_id) no_extra now d',
  )

abbrev pub edited : MemMessage → Str → Time → MemMessage
edited m text now = record m { text = text; edit_date = now }

-- The body of EditMessage behind its guards.
unfoldable pub edit_stored :
    Int64 → Int64 → Int64 → MemMessage → Str → Time → Db → Result (EditResult × Db)
unfolding allocate_pts log_update edit_peer
edit_stored self local_id key m text now d = do
  (pts, d₁) ← allocate_pts self 1 (put_message key (edited m text now) d)
  edit_peer
      (record {
        self_local_id = local_id;
        self_pts = pts;
        peer_user_id = m.peer;
        peer_local_id = int0;
        peer_pts = int0;
        date = m.date;
        edit_date = now;
      })
      self m.global_id now
      (log_update self pts (int 1) UpdateType.edit (some m.global_id) no_extra now d₁)

unfoldable pub edit_message : Int64 → Int64 → Str → Time → Db → Result (EditResult × Db)
unfolding edit_stored
edit_message self local_id text now d = elim (get ℕ_discrete local_id (refs_of d self)) [
  | none ↦ err message_id_invalid
  | some r ↦ elim (message_of d r.global_id) [
    | none ↦ err message_id_invalid
    | some m ↦
        if editable self m
        then edit_stored self local_id r.global_id m text now d
        else err message_id_invalid
  ]
]

-- m.deleted = true, where there is such a message.
unfoldable pub mark_deleted : Int64 → Db → Db
mark_deleted global_id d = elim (message_of d global_id) [
  | none ↦ d
  | some m ↦ put_message global_id (record m { deleted = true }) d
]

-- The loop of DeleteMessages: the local ids that the caller has, and the marked messages.
unfoldable pub delete_each : Int64 → List Int64 → Db → List Int64 × Db
unfolding mark_deleted
delete_each self [] d = ([], d)
delete_each self (local_id ∷ ids) d = elim (get ℕ_discrete local_id (refs_of d self)) [
  | none ↦ delete_each self ids d
  | some r ↦
      let (deleted, d') = delete_each self ids (mark_deleted r.global_id d) in
      (local_id ∷ deleted, d')
]

-- What follows the loop.
unfoldable pub log_deleted : Int64 → List Int64 → Time → Db → Result (DeleteResult × Db)
unfolding allocate_pts log_update
log_deleted self [] now d = ok (record { pts = int0; pts_count = int0; local_ids = [] }, d)
log_deleted self (i ∷ ids) now d = do
  let deleted = i ∷ ids
  let count = int (length deleted)
  (pts, d') ← allocate_pts self (length deleted) d
  ok (
    record { pts = pts; pts_count = count; local_ids = deleted },
    log_update self pts count UpdateType.delete none (encode_deleted deleted) now d',
  )

unfoldable pub delete_messages : Int64 → List Int64 → Time → Db → Result (DeleteResult × Db)
unfolding delete_each log_deleted
delete_messages self local_ids now d =
    let (deleted, d') = delete_each self local_ids d in log_deleted self deleted now d'
