-- ===== src/Postgres/Tables.antt =====
-- internal/db/_migrations: the tables, with a column that may be NULL as an Option. A table is the list
-- of its rows in the order in which they were inserted, which no query relies on.
-- A JSON column is the value that the program puts there, a BYTEA key the number that its bytes spell.
-- reply_to_global_id, which no query sets, and the creation dates that none reads are left out.
use teled.Prelude.{
  List, [], ◌∷◌, Option, none, some, Bool, true, false, Str, codes, Int64, int0, int, ◌*◌, ◌/◌,
}
use teled.Types.{Time, File, UpdateType, Extra, BotFatherStep, BotCommand, bot_father_id}
use teled.Memory.State.{KeyId}

-- users, of migrations 2, 3, 7 and 8.
pub record UserRow : Type 0 where
  pub id : Int64
  pub access_hash : Int64
  pub phone : Option Str
  pub username : Option Str
  pub first_name : Str
  pub last_name : Str
  pub about : Str
  pub created_at : Time
  pub last_message_id : Int64
  pub pts : Int64
  pub is_bot : Bool
  pub bot_token : Option Str
  pub bot_owner_id : Option Int64

-- messages, of migrations 3 and 6.
pub record MessageRow : Type 0 where
  pub global_id : Int64
  pub from_user_id : Int64
  pub peer_user_id : Int64
  pub text : Str
  pub date : Time
  pub edit_date : Option Time
  pub random_id : Int64
  pub deleted : Bool
  pub media_file_id : Option Int64

-- message_refs.
pub record RefRow : Type 0 where
  pub user_id : Int64
  pub message_id : Int64
  pub global_id : Int64
  pub out : Bool
  pub unread : Bool

-- updates_log.
pub record LogRow : Type 0 where
  pub user_id : Int64
  pub pts : Int64
  pub pts_count : Int64
  pub type : UpdateType
  pub global_id : Option Int64
  pub extra : Extra
  pub date : Time

-- phone_codes.
pub record CodeRow : Type 0 where
  pub phone : Str
  pub code_hash : Str
  pub code : Str
  pub expires_at : Time

-- auth_keys.
pub record AuthKeyRow : Type 0 where
  pub key_id : KeyId
  pub auth_key : Str

-- sessions.
pub record SessionRow : Type 0 where
  pub key_id : KeyId
  pub user_id : Int64

-- temp_auth_keys.
pub record TempKeyRow : Type 0 where
  pub temp_key_id : KeyId
  pub perm_key_id : KeyId
  pub expires_at : Time

-- contacts.
pub record ContactRow : Type 0 where
  pub owner_user_id : Int64
  pub contact_user_id : Int64
  pub first_name : Str
  pub last_name : Str

-- drafts.
pub record DraftRow : Type 0 where
  pub user_id : Int64
  pub peer_user_id : Int64
  pub message : Str
  pub date : Time

-- bot_commands.
pub record CommandsRow : Type 0 where
  pub bot_user_id : Int64
  pub scope : Str
  pub lang_code : Str
  pub commands : List BotCommand

-- botfather_sessions.
pub record StepRow : Type 0 where
  pub user_id : Int64
  pub step : BotFatherStep
  pub draft_name : Str

-- The tables. The rows of files have the columns of the program's File.
pub record Tables : Type 0 where
  pub users : List UserRow
  pub messages : List MessageRow
  pub message_refs : List RefRow
  pub updates_log : List LogRow
  pub files : List File
  pub phone_codes : List CodeRow
  pub auth_keys : List AuthKeyRow
  pub sessions : List SessionRow
  pub temp_auth_keys : List TempKeyRow
  pub contacts : List ContactRow
  pub drafts : List DraftRow
  pub bot_commands : List CommandsRow
  pub botfather_sessions : List StepRow

-- The last values of the sequences behind the BIGSERIAL columns, 0 before the first.
pub record Sequences : Type 0 where
  pub users : Int64
  pub messages : Int64
  pub files : Int64

-- A row of users with the columns that have a default at that default.
abbrev pub default_user : Int64 → Int64 → Time → UserRow
default_user id access_hash now = record {
  id = id;
  access_hash = access_hash;
  phone = none;
  username = none;
  first_name = [];
  last_name = [];
  about = [];
  created_at = now;
  last_message_id = int0;
  pts = int0;
  is_bot = false;
  bot_token = none;
  bot_owner_id = none;
}

-- The row that migration 8 inserts.
abbrev pub bot_father_row : Time → UserRow
bot_father_row now = record (default_user bot_father_id (int 7264819913547) now) {
  username = some (codes "BotFather");
  first_name = codes "BotFather";
  is_bot = true;
}

-- The tables that the migrations leave.
abbrev pub migrated : Time → Tables
migrated now = record {
  users = bot_father_row now ∷ [];
  messages = [];
  message_refs = [];
  updates_log = [];
  files = [];
  phone_codes = [];
  auth_keys = [];
  sessions = [];
  temp_auth_keys = [];
  contacts = [];
  drafts = [];
  bot_commands = [];
  botfather_sessions = [];
}

abbrev pub no_sequences : Sequences
no_sequences = record { users = int0; messages = int0; files = int0 }

-- A TIMESTAMPTZ holds microseconds, and pgx cuts what is below.
abbrev pub to_timestamp : Time → Time
to_timestamp t = t / 1000 * 1000
