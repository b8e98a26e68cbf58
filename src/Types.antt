-- ===== src/Types.antt =====
-- The public data of the program: message.go, users.go, file.go, updates.go, bot.go and db.go.
-- A time.Time is the number of nanoseconds since its zero value, 1 January of the year 1, so the
-- zero value is 0. A []byte is the list of its bytes. A pointer that may be nil is an Option.
use teled.Prelude.{ℕ, ◌+◌, ◌-◌, ◌*◌, ◌/◌, List, [], Option, Bool, Str, Int64, int0, int}

abbrev pub Time : Type 0
Time = ℕ

-- The nanoseconds of a second, and the seconds from the zero time to 1970.
abbrev pub second : ℕ
second = 1_000_000_000

abbrev pub unix_epoch : ℕ
unix_epoch = 62_135_596_800

-- t.Unix(), the seconds since 1970, and time.Unix(sec, 0).
unfoldable pub unix : Time → Int64
unix t = int0 + t / second - unix_epoch

unfoldable pub time_unix : Int64 → Time
time_unix sec = (sec + unix_epoch - int0) * second

pub record User : Type 0 where
  pub id : Int64
  pub access_hash : Int64
  pub phone : Str
  pub username : Str
  pub first_name : Str
  pub last_name : Str
  pub about : Str
  pub is_bot : Bool
  pub bot_token : Str
  pub created_at : Time

pub record Contact : Type 0 where
  pub user_id : Int64
  pub first_name : Str
  pub last_name : Str

pub record File : Type 0 where
  pub id : Int64
  pub owner_user_id : Int64
  pub access_hash : Int64
  pub object_key : Str
  pub size : Int64
  pub mime : Str
  pub sha256 : Str
  pub file_reference : Str
  pub kind : Str
  pub created_at : Time

pub record Message : Type 0 where
  pub global_id : Int64
  pub local_id : Int64
  pub from_user_id : Int64
  pub peer_user_id : Int64
  pub out : Bool
  pub text : Str
  pub date : Time
  pub edit_date : Time
  pub random_id : Int64
  pub media : Option File

pub record Draft : Type 0 where
  pub peer_user_id : Int64
  pub text : Str
  pub date : Time

pub record Dialog : Type 0 where
  pub peer_user_id : Int64
  pub top_message_id : Int64
  pub read_inbox_max_id : Int64
  pub read_outbox_max_id : Int64
  pub unread_count : Int64
  pub draft : Option Draft

pub record SentMessage : Type 0 where
  pub global_id : Int64
  pub date : Time
  pub sender_local_id : Int64
  pub sender_pts : Int64
  pub recipient_local_id : Int64
  pub recipient_pts : Int64
  pub self_chat : Bool

pub record EditResult : Type 0 where
  pub self_local_id : Int64
  pub self_pts : Int64
  pub peer_user_id : Int64
  pub peer_local_id : Int64
  pub peer_pts : Int64
  pub date : Time
  pub edit_date : Time

pub record DeleteResult : Type 0 where
  pub pts : Int64
  pub pts_count : Int64
  pub local_ids : List Int64

pub record ReadResult : Type 0 where
  pub inbox_pts : Int64
  pub unread_count : Int64
  pub outbox_pts : Int64
  pub outbox_max_id : Int64

pub record State : Type 0 where
  pub pts : Int64
  pub qts : Int64
  pub seq : Int64
  pub date : Time
  pub unread_count : Int64

-- The constants UpdateNew, UpdateEdit, UpdateDelete, UpdateReadInbox and UpdateReadOutbox.
pub data UpdateType : Type 0 where
  new edit delete read_inbox read_outbox : UpdateType

-- The Extra payload of a log entry, as the value whose JSON the program stores: nil, a deleteExtra
-- or a readExtra.
pub data Extra : Type 0 where
  no_extra : Extra
  delete_extra : List Int64 → Extra
  read_extra : Int64 → Int64 → Extra

abbrev pub encode_deleted : List Int64 → Extra
encode_deleted ids = delete_extra ids

-- A payload of another shape has none of the fields, which keep their zero values.
unfoldable pub decode_deleted : Extra → List Int64
decode_deleted (delete_extra ids) = ids
decode_deleted no_extra = []
decode_deleted (read_extra peer max_id) = []

abbrev pub encode_read : Int64 → Int64 → Extra
encode_read peer max_id = read_extra peer max_id

unfoldable pub decode_read : Extra → Int64 × Int64
decode_read (read_extra peer max_id) = (peer, max_id)
decode_read no_extra = (int0, int0)
decode_read (delete_extra ids) = (int0, int0)

pub record UpdateLogEntry : Type 0 where
  pub pts : Int64
  pub pts_count : Int64
  pub type : UpdateType
  pub global_id : Option Int64
  pub extra : Extra
  pub date : Time

pub record BotCommand : Type 0 where
  pub command : Str
  pub description : Str

abbrev pub bot_father_id : Int64
bot_father_id = int 93372553

-- The conversation steps: the empty string, newbot_name, newbot_username and revoke_select.
pub data BotFatherStep : Type 0 where
  no_step new_bot_name new_bot_username revoke_select : BotFatherStep

pub record BotFatherState : Type 0 where
  pub step : BotFatherStep
  pub draft_name : Str

-- The errors that the storage returns.
pub data Error : Type 0 where
  phone_exists : Str → Error
  bot_token_exists : Error
  username_exists : Str → Error
  user_not_found : Int64 → Error
  message_id_invalid : Error

-- A storage call returns a value, returns an error, or panics on a nil pointer.
pub data Result {ℓ} (A : Type ℓ) : Type ℓ where
  ok : A → Result A
  err : Error → Result A
  panic : Result A

infixl 5 ◌>>=◌
abbrev pub ◌>>=◌ {ℓ κ} : {A : Type ℓ} {B : Type κ} → Result A → (A → Result B) → Result B
ok a >>= f = f a
err e >>= f = err e
panic >>= f = panic
