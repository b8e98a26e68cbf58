-- ===== src/Postgres/Revisions.antt =====
-- internal/db/edit_delete.go: EditMessage and DeleteMessages.
use teled.Prelude.{
  List, [], ◌∷◌, Option, none, some, Bool, true, ◌&&◌, not, Str, Int64, int0, int, length, ◌==◌,
  if◌then◌else◌,
}
use teled.Types.{
  Time, EditResult, DeleteResult, UpdateType, no_extra, encode_deleted, message_id_invalid,
}
use teled.Memory.Messages.{find}
use teled.Postgres.Tables.{MessageRow, RefRow, Tables}
use teled.Postgres.Sql.{
  Fault, reported, done, fault, Sql, give, ask, write, ◌>>=◌, ◌>>◌, reach, transaction, update,
}
use teled.Postgres.Messages.{allocate_pts, log_update}

-- The ref of a local id, and the ref of a canonical message.
unfoldable pub ref_row : Int64 → Int64 → Tables → Option RefRow
unfolding find
ref_row user_id message_id t =
    find (λ r. (r.user_id == user_id) && (r.message_id == message_id)) t.message_refs

unfoldable pub ref_of_message : Int64 → Int64 → Tables → Option RefRow
unfolding find
ref_of_message user_id global_id t =
    find (λ r. (r.user_id == user_id) && (r.global_id == global_id)) t.message_refs

-- A scan whose ErrNoRows is answered by an error of the program's own.
unfoldable pub scan_or : {A : Type 0} → Fault → (Tables → Option A) → Sql A
scan_or e f s = (elim (f s.tables) [ none ↦ fault e | some a ↦ done a ], s)

-- The WHERE of the UPDATE in EditMessage.
abbrev pub editable : Int64 → Int64 → MessageRow → Bool
editable self global_id m =
    (m.global_id == global_id) && ((m.from_user_id == self) && not m.deleted)

abbrev pub edited : Str → Time → MessageRow → MessageRow
edited text now m = record m { text = text; edit_date = some now }

abbrev pub update_messages : (MessageRow → Bool) → (MessageRow → MessageRow) → Tables → Tables
update_messages p f t = record t { messages = update p f t.messages }

-- UPDATE messages ... RETURNING: the row as it was, of which the caller takes what stays.
unfoldable pub edit_row : Int64 → Int64 → Str → Time → Sql MessageRow
unfolding reach find scan_or
edit_row self global_id text now = do
  reach
  m ← scan_or (reported message_id_invalid) (λ t. find (editable self global_id) t.messages)
  write (update_messages (editable self global_id) (edited text now))
  give m

-- The local id of the peer's copy, which stays 0 when there is none. Behind another error the
-- transaction is aborted, so that the statement after it fails too.
unfoldable pub peer_local : Int64 → Int64 → Sql Int64
unfolding reach ref_of_message
peer_local peer global_id = do
  reach
  found ← ask (ref_of_message peer global_id)
  give (elim found [ none ↦ int0 | some r ↦ r.message_id ])

-- The peer's share of an edit.
unfoldable pub edit_peer : EditResult → Int64 → Int64 → Time → Sql EditResult
unfolding peer_local allocate_pts log_update
edit_peer res self global_id now = if res.peer_user_id == self then give res else do
  local_id ← peer_local res.peer_user_id global_id
  pts ← allocate_pts res.peer_user_id 1
  log_update res.peer_user_id pts (int 1) UpdateType.edit (some global_id) no_extra now
  give (record res { peer_local_id = local_id; peer_pts = pts })

abbrev pub edit_result : Int64 → MessageRow → Int64 → Time → EditResult
edit_result local_id m pts now = record {
  self_local_id = local_id;
  self_pts = pts;
  peer_user_id = m.peer_user_id;
  peer_local_id = int0;
  peer_pts = int0;
  date = m.date;
  edit_date = now;
}

unfoldable pub edit_statements : Int64 → Int64 → Str → Time → Sql EditResult
unfolding reach ref_row edit_row edit_peer allocate_pts log_update
edit_statements self local_id text now = do
  reach
  r ← scan_or (reported message_id_invalid) (ref_row self local_id)
  m ← edit_row self r.global_id text now
  pts ← allocate_pts self 1
  log_update self pts (int 1) UpdateType.edit (some r.global_id) no_extra now
  edit_peer (edit_result local_id m pts now) self r.global_id now

unfoldable pub edit_message : Int64 → Int64 → Str → Time → Sql EditResult
unfolding transaction edit_statements
edit_message self local_id text now = transaction (edit_statements self local_id text now)

-- UPDATE messages SET deleted = true.
abbrev pub mark_deleted : Int64 → Tables → Tables
mark_deleted global_id t =
    update_messages (λ m. m.global_id == global_id) (λ m. record m { deleted = true }) t

-- The loop of DeleteMessages: the local ids that the caller has.
unfoldable pub delete_each : Int64 → List Int64 → Sql (List Int64)
unfolding reach ref_row
delete_each self [] = give []
delete_each self (local_id ∷ ids) = do
  reach
  found ← ask (ref_row self local_id)
  elim found [
    | none ↦ delete_each self ids
    | some r ↦ do
      reach
      write (mark_deleted r.global_id)
      deleted ← delete_each self ids
      give (local_id ∷ deleted)
  ]

-- What follows the loop.
unfoldable pub log_deleted : Int64 → List Int64 → Time → Sql DeleteResult
unfolding allocate_pts log_update
log_deleted self [] now = give (record { pts = int0; pts_count = int0; local_ids = [] })
log_deleted self (i ∷ ids) now = do
  let deleted = i ∷ ids
  let count = int (length deleted)
  pts ← allocate_pts self (length deleted)
  log_update self pts count UpdateType.delete none (encode_deleted deleted) now
  give (record { pts = pts; pts_count = count; local_ids = deleted })

unfoldable pub delete_statements : Int64 → List Int64 → Time → Sql DeleteResult
unfolding delete_each log_deleted
delete_statements self local_ids now = do
  deleted ← delete_each self local_ids
  log_deleted self deleted now

unfoldable pub delete_messages : Int64 → List Int64 → Time → Sql DeleteResult
unfolding transaction delete_statements
delete_messages self local_ids now = transaction (delete_statements self local_ids now)
