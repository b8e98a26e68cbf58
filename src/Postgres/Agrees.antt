-- ===== src/Postgres/Agrees.antt =====
-- internal/db and memory/db.go: when the tables hold what the in-memory database holds.
pub mod Copy
pub mod Send
pub mod Sending
pub mod Reads
pub mod Advance
pub mod Matching
pub mod Revise
pub mod Edit
pub mod Editing
pub mod Delete
pub mod Atomic
pub mod Requests
pub mod Run
pub mod Start
use teled.Prelude.{
  ◌<◌, ◌≡◌, refl, sym, ap, ◌∙◌, List, Option, none, some, Int64, int0, Map, map, get, ℕ_discrete,
  or_else,
}
use teled.Types.{File, UpdateLogEntry}
use teled.Memory.State.{Db, MemUser, MemMessage, MemRef, user_of, message_of, updates_of}
use teled.Memory.State.{refs_of as mem_refs}
use teled.Postgres.Tables.{UserRow, MessageRow, RefRow, Tables, Sequences}
use teled.Postgres.Messages.{user_row, message_row, file_row}
use teled.Postgres.History.{refs_of}
use teled.Postgres.Updates.{log_of}
use teled.Postgres.Users.{scan_user}
use teled.Postgres.Sql.{chosen}
use teled.Postgres.Keyed.{HasKey}

-- A row as the in-memory database keeps it.
abbrev pub mem_user : UserRow → MemUser
mem_user u = record {
  u = scan_user u;
  pts = u.pts;
  last_message_id = u.last_message_id;
  bot_owner_id = or_else u.bot_owner_id int0;
}

abbrev pub mem_message : MessageRow → MemMessage
mem_message m = record {
  global_id = m.global_id;
  from = m.from_user_id;
  peer = m.peer_user_id;
  text = m.text;
  date = m.date;
  edit_date = or_else m.edit_date 0;
  random_id = m.random_id;
  media_file_id = or_else m.media_file_id int0;
  deleted = m.deleted;
}

abbrev pub keyed_ref : RefRow → Int64 × MemRef
keyed_ref r = (
  r.message_id,
  record { local_id = r.message_id; global_id = r.global_id; out = r.out; unread = r.unread },
)

-- The tables of accounts, messages, refs, log and files read as the maps of the in-memory database,
-- an account's refs and log in the same order. Ids that the sequence has not given are free, and no
-- file has the id 0, which stands for no media. The ids of messages are distinct.
pub record Agrees (t : Tables) (q : Sequences) (d : Db) : Type 0 where
  pub users : (u : Int64) → chosen mem_user (user_row u t) ≡ user_of d u
  pub messages : (g : Int64) → chosen mem_message (message_row g t) ≡ message_of d g
  pub refs : (u : Int64) → map keyed_ref (refs_of u t) ≡ mem_refs d u
  pub log : (u : Int64) → log_of u t ≡ updates_of d u
  pub files : (f : Int64) → file_row f t ≡ get ℕ_discrete f d.files
  pub sequence : q.messages ≡ d.msg_seq
  pub free : (g : Int64) → d.msg_seq < g → message_row g t ≡ none
  pub no_file : file_row int0 t ≡ none
  pub distinct : HasKey (λ m. m.global_id) t.messages

module _ (t : Tables) (q : Sequences) (d : Db) (agrees : Agrees t q d) where
  pub agrees-user :
      (u : Int64) (row : UserRow) → user_row u t ≡ some row → user_of d u ≡ some (mem_user row)
  agrees-user u row found = sym (agrees.users u) ∙ ap (chosen mem_user) found

  pub agrees-message :
      (g : Int64) (row : MessageRow)
      → message_row g t ≡ some row
      → message_of d g ≡ some (mem_message row)
  agrees-message g row found = sym (agrees.messages g) ∙ ap (chosen mem_message) found
