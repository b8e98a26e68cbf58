-- ===== src/Postgres/Updates.antt =====
-- internal/db/updates.go and internal/db/file.go: GetState, MessageByGlobal, GetDifference, SaveFile and
-- FileByID. The clock of GetState is the server's, that of a new row the database's. A failing random
-- source is not modelled.
use teled.Prelude.{
  List, [], Option, none, some, Bool, Str, str_eq, codes, Int64, int0, int, inc, index, take, map,
  keep, sort, ltb, ◌==◌, not, if◌then◌else◌,
}
use teled.Types.{Time, State, Message, UpdateLogEntry, File}
use teled.Memory.Updates.{earlier}
use teled.Postgres.Tables.{Tables, LogRow, RefRow}
use teled.Postgres.Sql.{
  duplicate_key, missing_parent, out_of_range, bad_limit, done, fault, Sql, give, ask, scan, write,
  raise_if, check, ◌>>=◌, ◌>>◌, reach, add_row, max_int,
}
use teled.Postgres.Messages.{user_row, message_row, file_row, is_some, has_user}
use teled.Postgres.History.{scan_message}
use teled.Postgres.Revisions.{ref_of_message}

unfoldable pub get_state : Int64 → Time → Sql State
unfolding reach user_row
get_state self now = do
  reach
  u ← scan (user_row self)
  give (record { pts = u.pts; qts = int0; seq = int0; date = now; unread_count = int0 })

-- The joined row of a ref and its message.
abbrev pub view_of : Int64 → RefRow → Tables → Option Message
view_of self r t = elim (message_row r.global_id t) [
  | none ↦ none
  | some m ↦ some (scan_message self r m t)
]

unfoldable pub message_by_global : Int64 → Int64 → Sql (Option Message)
unfolding reach ref_of_message message_row scan_message
message_by_global self global_id = do
  reach
  ask (λ t. elim (ref_of_message self global_id t) [ none ↦ none | some r ↦ view_of self r t ])

-- The columns of a log row that GetDifference reads.
abbrev pub log_entry : LogRow → UpdateLogEntry
log_entry e = record {
  pts = e.pts;
  pts_count = e.pts_count;
  type = e.type;
  global_id = e.global_id;
  extra = e.extra;
  date = e.date;
}

-- user_id = $1, and pts > $2 of an entry.
abbrev pub log_of : Int64 → Tables → List UpdateLogEntry
log_of user_id t = map log_entry (keep (λ e. e.user_id == user_id) t.updates_log)

abbrev pub since : Int64 → UpdateLogEntry → Bool
since since_pts e = ltb since_pts e.pts

unfoldable pub get_difference : Int64 → Int64 → Int64 → Time → Sql (List UpdateLogEntry × Int64)
unfolding reach get_state
get_difference self since_pts limit now = do
  current ← get_state self now
  reach
  raise_if (ltb limit int0) bad_limit
  entries ← ask (λ t. take (index limit) (sort earlier (keep (since since_pts) (log_of self t))))
  give (entries, current.pts)

-- A random access hash that is not 0: raw is the int64 that the eight random bytes spell.
unfoldable pub gen_access_hash : Int64 → Int64
gen_access_hash raw = if raw == int0 then int 1 else raw

-- nextval of the sequence of files.id.
unfoldable pub next_file : Sql Int64
next_file s =
    let last = s.sequences.files in
    if last == max_int
    then (fault out_of_range, s)
    else (done (inc last), record s { sequences = record s.sequences { files = inc last } })

unfoldable pub save_file : File → Int64 → Str → Time → Sql File
unfolding reach next_file gen_access_hash
save_file f raw reference now = do
  reach
  id ← next_file
  let stored : File = record f {
    id = id;
    access_hash = gen_access_hash raw;
    file_reference = reference;
    kind = if str_eq f.kind [] then codes "photo" else f.kind;
    created_at = now;
  }
  check duplicate_key (λ t. not (is_some (file_row id t)))
  check missing_parent (has_user f.owner_user_id)
  write (λ t. record t { files = add_row stored t.files })
  give stored

unfoldable pub file_by_id : Int64 → Sql (Option File)
unfolding reach file_row
file_by_id id = do reach; ask (file_row id)
