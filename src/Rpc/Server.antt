-- ===== src/Rpc/Server.antt =====
-- internal/rpc/handler.go, convert.go and messages.go: the state that the handlers share, users on the wire,
-- and pushes to live sessions. An update carries the stored message or draft; its conversion to the wire
-- form is not modelled.
pub mod Calls
use teled.Prelude.{
  ◌+◌, ◌*◌, List, [], ◌∷◌, ◌++◌, Option, none, some, Bool, Str, Int64, ltb, if◌then◌else◌,
}
use teled.Types.{Time, User, Message, Draft, second, unix}
use teled.Objects.{Objects}
use teled.Memory.State.{Db, KeyId}
use teled.Rpc.Reply.{Exec, Rpc}
use teled.Rpc.Registry.{Session, SessionRegistry, last_seen_at, live, track, untrack}
use teled.Rpc.Caller.{InputPeer, require_caller, resolve_peer_user, effective_key_id}
use teled.Rpc.Staging.{Staging}
use teled.Memory.Rows.{session_user_id}

-- What a handler reads beside the state: the request's auth key, the clock, whether a push to a
-- session's connection succeeds, the random bytes, and the functions of the package strings.
pub record Context : Type 0 where
  pub key : Option KeyId
  pub now : Time
  pub reaches : Session → Bool
  pub secret : Str
  pub raw : Int64
  pub trim_space : Str → Str
  pub to_lower : Str → Str
  pub equal_fold : Str → Str → Bool
  pub fields : Str → List Str

-- tg.UserStatusClass: with the time until which it holds, or since which the user is away.
pub data UserStatus : Type 0 where
  status_online : Int64 → UserStatus
  status_offline : Int64 → UserStatus
  status_recently : UserStatus

-- The fields of tg.User that the server sets. An empty username or phone is an absent one.
pub record TgUser : Type 0 where
  pub id : Int64
  pub access_hash : Int64
  pub first_name : Str
  pub last_name : Str
  pub username : Str
  pub phone : Str
  pub self : Bool
  pub bot : Bool
  pub status : UserStatus

-- One minute, in nanoseconds.
abbrev pub online_window : Time
online_window = 60 * second

unfoldable pub user_status : Int64 → Bool → Time → SessionRegistry → UserStatus
user_status user_id self now r =
    if self then status_online (unix (now + online_window)) else elim (last_seen_at user_id r) [
      | none ↦ status_recently
      | some ts ↦
          if ltb now (ts + online_window)
          then status_online (unix (ts + online_window))
          else status_offline (unix ts)
    ]

unfoldable pub tg_user : User → Bool → Time → SessionRegistry → TgUser
unfolding user_status
tg_user u self now r = record {
  id = u.id;
  access_hash = u.access_hash;
  first_name = u.first_name;
  last_name = u.last_name;
  username = u.username;
  phone = u.phone;
  self = self;
  bot = u.is_bot;
  status = user_status u.id self now r;
}

-- The updates that the handlers of messages send. The last two numbers of an update are its pts and
-- pts_count; an absent draft is tg.DraftMessageEmpty.
pub data Update : Type 0 where
  message_id : Int64 → Int64 → Update
  new_message : Message → Int64 → Int64 → Update
  edited_message : Message → Int64 → Int64 → Update
  history_inbox : Int64 → Int64 → Int64 → Int64 → Int64 → Update
  history_outbox : Int64 → Int64 → Int64 → Int64 → Update
  draft_message : Int64 → Option Draft → Update

-- tg.Updates.
pub record Updates : Type 0 where
  pub updates : List Update
  pub users : List TgUser
  pub date : Int64

-- The parts of Handler that change. `pushed` is what the connections have taken so far.
pub record Server : Type 0 where
  pub db : Db
  pub store : Option Objects
  pub sessions : SessionRegistry
  pub staging : Staging
  pub pushed : List (Session × Updates)

-- A handler of the storage, as a handler of the server.
abbrev pub on_db : {A : Type 0} → Rpc A → Exec Server A
on_db m h = let (r, d) = m h.db in (r, record h { db = d })

-- One round of the loop of push: a session that does not take the push is dropped.
unfoldable pub push_one : (Session → Bool) → Int64 → Updates → Session → Server → Server
push_one reaches user_id wrap s h =
    if reaches s
    then record h { pushed = h.pushed ++ (s, wrap) ∷ [] }
    else record h { sessions = untrack user_id s.id h.sessions }

unfoldable pub push_each : (Session → Bool) → Int64 → Updates → List Session → Server → Server
unfolding push_one
push_each reaches user_id wrap [] h = h
push_each reaches user_id wrap (s ∷ rest) h =
    push_each reaches user_id wrap rest (push_one reaches user_id wrap s h)

unfoldable pub push : Context → Int64 → Updates → Server → Server
unfolding push_each
push c user_id wrap h = push_each c.reaches user_id wrap (live user_id h.sessions) h

-- A user as the caller or another sees it now.
abbrev pub seen_by : Context → Server → User → Bool → TgUser
seen_by c h u self = tg_user u self c.now h.sessions

abbrev pub caller_of : Context → Exec Server User
caller_of c = on_db (require_caller c.key c.now)

abbrev pub peer_of : User → InputPeer → Exec Server User
peer_of caller peer = on_db (resolve_peer_user caller peer)

-- OnMessage: before the request is dispatched, its session is registered for pushes to the user that its
-- key belongs to.
unfoldable pub track_request : Session → Time → Server → Server
track_request s now h = elim (session_user_id (effective_key_id s.key now h.db) h.db) [
  | none ↦ h
  | some user_id ↦ record h { sessions = track user_id s now h.sessions }
]

unfoldable pub on_message : {A : Type 0} → Session → Time → Exec Server A → Exec Server A
unfolding track_request
on_message s now handler h = handler (track_request s now h)
