-- ===== src/Postgres/Agrees/Requests.antt =====
-- internal/db and memory/db.go: the calls of a client, its replies and a run of calls in either storage.
use teled.Prelude.{◌+◌, ◌<◌, ◌≤◌, ◌≡◌, List, [], ◌∷◌, Option, none, some, Str, Int64, int0, length}
use teled.Types.{
  Time, Message, SentMessage, EditResult, DeleteResult, UpdateLogEntry, Error, Result, ok, err,
  panic,
}
use teled.Memory.State.{Db, MemUser, user_of}
use teled.Memory.Messages.{send_message as mem_send, get_history as mem_history}
use teled.Memory.Revisions.{edit_message as mem_edit, delete_messages as mem_delete}
use teled.Memory.Updates.{get_difference as mem_difference}
use teled.Memory.Account.Keeps.{HasSlack}
use teled.Postgres.Sql.{Answer, done, fault, Fault, reported, Store}
use teled.Postgres.Messages.{send_message}
use teled.Postgres.History.{get_history}
use teled.Postgres.Revisions.{edit_message, delete_messages}
use teled.Postgres.Updates.{get_difference}

-- Calls of the storage, with their arguments; a message that is sent has no file.
pub data Request : Type 0 where
  send : Int64 → Int64 → Str → Int64 → Time → Request
  edit : Int64 → Int64 → Str → Time → Request
  delete : Int64 → List Int64 → Time → Request
  history : Int64 → Int64 → Int64 → Int64 → Request
  difference : Int64 → Int64 → Int64 → Time → Request

pub data Reply : Type 0 where
  sent : SentMessage → Reply
  edited : EditResult → Reply
  deleted : DeleteResult → Reply
  messages : List Message → Reply
  entries : List UpdateLogEntry × Int64 → Reply
  refused : Error → Reply
  failed : Fault → Reply

-- A call in memory that answers an error changes nothing; none is a panic.
abbrev pub mem_reply : {A : Type 0} → (A → Reply) → Db → Result (A × Db) → Option (Reply × Db)
mem_reply f d (ok (a, d')) = some (f a, d')
mem_reply f d (err e) = some (refused e, d)
mem_reply f d panic = none

abbrev pub read_reply : {A : Type 0} → (A → Reply) → Db → Result A → Option (Reply × Db)
read_reply f d (ok a) = some (f a, d)
read_reply f d (err e) = some (refused e, d)
read_reply f d panic = none

unfoldable pub mem_step : Request → Db → Option (Reply × Db)
mem_step (send from peer text rid now) d = mem_reply sent d (mem_send from peer text rid int0 now d)
mem_step (edit self l text now) d = mem_reply edited d (mem_edit self l text now d)
mem_step (delete self ids now) d = mem_reply deleted d (mem_delete self ids now d)
mem_step (history self peer offset limit) d =
    some (messages (mem_history self peer offset limit d), d)
mem_step (difference self since limit now) d =
    read_reply entries d (mem_difference self since limit d)

abbrev pub pg_reply : {A : Type 0} → (A → Reply) → Answer A × Store → Reply × Store
pg_reply f (done a, s) = (f a, s)
pg_reply f (fault (reported e), s) = (refused e, s)
pg_reply f (fault Fault.duplicate_key, s) = (failed Fault.duplicate_key, s)
pg_reply f (fault Fault.missing_parent, s) = (failed Fault.missing_parent, s)
pg_reply f (fault Fault.no_rows, s) = (failed Fault.no_rows, s)
pg_reply f (fault Fault.out_of_range, s) = (failed Fault.out_of_range, s)
pg_reply f (fault Fault.bad_limit, s) = (failed Fault.bad_limit, s)
pg_reply f (fault Fault.outage, s) = (failed Fault.outage, s)

unfoldable pub pg_step : Request → Store → Reply × Store
pg_step (send from peer text rid now) s = pg_reply sent (send_message from peer text rid int0 now s)
pg_step (edit self l text now) s = pg_reply edited (edit_message self l text now s)
pg_step (delete self ids now) s = pg_reply deleted (delete_messages self ids now s)
pg_step (history self peer offset limit) s =
    pg_reply messages (get_history self peer offset limit s)
pg_step (difference self since limit now) s =
    pg_reply entries (get_difference self since limit now s)

-- What a call needs: counters that it does not wrap, at most 2^31 - 1 ids, a positive limit, an account.
abbrev pub Admits : Request → Db → Type 0
Admits (send from peer text rid now) d = HasSlack 1 d
Admits (edit self l text now) d = HasSlack 1 d
Admits (delete self ids now) d = HasSlack (length ids + 1) d × (length ids ≤ 2_147_483_647)
Admits (history self peer offset limit) d = int0 < limit
Admits (difference self since limit now) d =
    (int0 < limit) × (mu : MemUser) × (user_of d self ≡ some mu)

-- The run of a list of calls in memory: the replies, where each call is admitted and none panics.
pub data Runs : Db → List Request → List Reply → Db → Type 0 where
  stop : {d : Db} → Runs d [] [] d
  call :
      {d d₁ d' : Db} {r : Request} {p : Reply} {rs : List Request} {ps : List Reply}
      → Admits r d
      → mem_step r d ≡ some (p, d₁)
      → Runs d₁ rs ps d'
      → Runs d (r ∷ rs) (p ∷ ps) d'

unfoldable pub pg_run : List Request → Store → List Reply × Store
unfolding pg_step
pg_run [] s = ([], s)
pg_run (r ∷ rs) s = let (p, s₁) = pg_step r s in let (ps, s') = pg_run rs s₁ in (p ∷ ps, s')
