-- ===== src/Postgres/Agrees/Start.antt =====
-- internal/db/_migrations and memory/db.go: the storages agree before the first message.
use teled.Prelude.{refl, List, [], ◌∷◌, int0, Int64, map, get, keep}
use teled.Types.{Time}
use teled.Memory.State.{Db, new_db}
use teled.Memory.Messages.{find}
use teled.Postgres.Tables.{UserRow, Tables, migrated, no_sequences, bot_father_row}
use teled.Postgres.Messages.{user_row, message_row, file_row}
use teled.Postgres.Selecting.{find-get}
use teled.Postgres.Agrees.{Agrees, mem_user}

-- The accounts that the migrations, or NewDB, and the sign-ups have left, and nothing else.
abbrev pub with_users : List UserRow → Time → Tables
with_users rows now = record (migrated now) { users = rows }

abbrev pub mem_users : List UserRow → Int64 → Time → Db
mem_users rows seq now = record (new_db now) {
  users = map (λ u. (u.id, mem_user u)) rows;
  user_seq = seq;
}

pub users-Agrees :
    (rows : List UserRow) (seq : Int64) (now : Time)
    → Agrees (with_users rows now) no_sequences (mem_users rows seq now)
unfolding user_row message_row file_row find get keep new_db
users-Agrees rows seq now = record {
  users = λ u. find-get (λ (x : UserRow). x.id) mem_user u rows;
  messages = λ g. refl;
  refs = λ u. refl;
  log = λ u. refl;
  files = λ f. refl;
  sequence = refl;
  free = λ g lt. refl;
  no_file = refl;
  distinct = tt;
}

-- The migrated tables agree with the database of NewDB.
pub migrated-Agrees : (now : Time) → Agrees (migrated now) no_sequences (new_db now)
unfolding new_db
migrated-Agrees now = users-Agrees (bot_father_row now ∷ []) int0 now
