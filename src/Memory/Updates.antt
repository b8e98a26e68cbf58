-- ===== src/Memory/Updates.antt =====
-- memory/db.go, the update state and the stored files: GetState, GetDifference, SaveFile, FileByID.
use teled.Prelude.{
  List, [], Option, none, some, Bool, Str, codes, str_eq, Int64, int0, inc, keep, sort, get, put,
  ltb, ◌==◌, if◌then◌else◌, ℕ_discrete,
}
use teled.Types.{Time, State, UpdateLogEntry, File, Result, ok, err, user_not_found}
use teled.Memory.State.{Db, user_of, updates_of}
use teled.Memory.Messages.{cut}

unfoldable pub get_state : Int64 → Time → Db → Result State
get_state self now d = elim (user_of d self) [
  | none ↦ err (user_not_found self)
  | some mu ↦ ok (record { pts = mu.pts; qts = int0; seq = int0; date = now; unread_count = int0 })
]

abbrev pub since : Int64 → UpdateLogEntry → Bool
since since_pts e = ltb since_pts e.pts

abbrev pub earlier : UpdateLogEntry → UpdateLogEntry → Bool
earlier a b = ltb a.pts b.pts

unfoldable pub get_difference : Int64 → Int64 → Int64 → Db → Result (List UpdateLogEntry × Int64)
get_difference self since_pts limit d = elim (user_of d self) [
  | none ↦ err (user_not_found self)
  | some mu ↦ ok (cut limit (sort earlier (keep (since since_pts) (updates_of d self))), mu.pts)
]

-- A random access hash that is not 0: raw is the int64 that the eight random bytes spell.
unfoldable pub gen_access_hash : Int64 → Int64
gen_access_hash raw = if raw == int0 then inc int0 else raw

-- The results of the two reads of the random source are arguments; a failing source is not modelled.
unfoldable pub save_file : File → Int64 → Str → Time → Db → File × Db
unfolding gen_access_hash
save_file f raw reference now d =
    let id = inc d.file_seq in
    let stored : File = record f {
      id = id;
      access_hash = gen_access_hash raw;
      file_reference = reference;
      kind = if str_eq f.kind [] then codes "photo" else f.kind;
      created_at = now;
    } in
    (stored, record d { file_seq = id; files = put ℕ_discrete id stored d.files })

unfoldable pub file_by_id : Int64 → Db → Option File
file_by_id id d = get ℕ_discrete id d.files
