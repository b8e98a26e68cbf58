-- ===== src/Memory/State.antt =====
-- memory/db.go, the stored state: the struct DB, its rows, and the empty database of NewDB.
-- A method runs under the mutex, so it is one function from state to state; the mutex itself has no
-- counterpart. The clock and the random source are arguments of the methods that read them.
use teled.Prelude.{
  ℕ, List, [], ◌∷◌, Option, Bool, true, Str, codes, Int64, int0, int, Map, get, or_else, ℕ_discrete,
}
use teled.Types.{
  Time, User, File, UpdateLogEntry, Draft, Contact, BotFatherState, BotCommand, bot_father_id,
}

-- memUser.
pub record MemUser : Type 0 where
  pub u : User
  pub pts : Int64
  pub last_message_id : Int64
  pub bot_owner_id : Int64

-- memMessage.
pub record MemMessage : Type 0 where
  pub global_id : Int64
  pub from : Int64
  pub peer : Int64
  pub text : Str
  pub date : Time
  pub edit_date : Time
  pub random_id : Int64
  pub media_file_id : Int64
  pub deleted : Bool

-- memRef.
pub record MemRef : Type 0 where
  pub local_id : Int64
  pub global_id : Int64
  pub out : Bool
  pub unread : Bool

-- memPhoneCode.
pub record MemPhoneCode : Type 0 where
  pub code : Str
  pub expires_at : Time

-- A [8]byte key id, as the number that its bytes spell.
abbrev pub KeyId : Type 0
KeyId = ℕ

-- memTempKey.
pub record MemTempKey : Type 0 where
  pub perm : KeyId
  pub expires_at : Time

-- DB, without its mutex.
pub record Db : Type 0 where
  pub users : Map Int64 MemUser
  pub user_seq : Int64
  pub messages : Map Int64 MemMessage
  pub msg_seq : Int64
  pub refs : Map Int64 (Map Int64 MemRef)
  pub updates : Map Int64 (List UpdateLogEntry)
  pub files : Map Int64 File
  pub file_seq : Int64
  pub sessions : Map KeyId Int64
  pub temp_keys : Map KeyId MemTempKey
  pub phone_codes : Map Str MemPhoneCode
  pub drafts : Map Int64 (Map Int64 Draft)
  pub contacts : Map Int64 (Map Int64 Contact)
  pub bot_states : Map Int64 BotFatherState
  pub bot_commands : Map Str (List BotCommand)

-- The account that NewDB seeds.
abbrev pub bot_father : Time → User
bot_father now = record {
  id = bot_father_id;
  access_hash = int 7264819913547;
  phone = [];
  username = codes "BotFather";
  first_name = codes "BotFather";
  last_name = [];
  about = [];
  is_bot = true;
  bot_token = [];
  created_at = now;
}

-- &memUser{u: u}, with the other fields zero.
abbrev pub new_user : User → MemUser
new_user u = record { u = u; pts = int0; last_message_id = int0; bot_owner_id = int0 }

unfoldable pub new_db : Time → Db
new_db now = record {
  users = (bot_father_id, new_user (bot_father now)) ∷ [];
  user_seq = int0;
  messages = [];
  msg_seq = int0;
  refs = [];
  updates = [];
  files = [];
  file_seq = int0;
  sessions = [];
  temp_keys = [];
  phone_codes = [];
  drafts = [];
  contacts = [];
  bot_states = [];
  bot_commands = [];
}

-- d.users[id], d.messages[id], and the inner map of a nested one, which is empty when nil.
abbrev pub user_of : Db → Int64 → Option MemUser
user_of d id = get ℕ_discrete id d.users

abbrev pub message_of : Db → Int64 → Option MemMessage
message_of d id = get ℕ_discrete id d.messages

abbrev pub refs_of : Db → Int64 → Map Int64 MemRef
refs_of d id = or_else (get ℕ_discrete id d.refs) []

abbrev pub updates_of : Db → Int64 → List UpdateLogEntry
updates_of d id = or_else (get ℕ_discrete id d.updates) []
