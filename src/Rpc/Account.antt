-- ===== src/Rpc/Account.antt =====
-- internal/rpc/account.go, users.go and bots.go: profiles, usernames, users and the commands of bots.
use teled.Prelude.{
  List, [], ◌∷◌, Option, none, some, Bool, true, false, ◌&&◌, not, Str, str_eq, Int64, int0, length,
  leb, ◌==◌, if◌then◌else◌,
}
use teled.Types.{User, BotCommand}
use teled.Memory.State.{Db}
use teled.Memory.Rows.{set_bot_commands, bot_commands, reset_bot_commands}
use teled.Memory.Users.{user_by_username, set_profile, set_username}
use teled.Rpc.Reply.{
  Exec, reply, fail, ◌>>=◌, ◌>>◌, return, throw, look, save, call, username_invalid,
  username_not_modified, username_occupied, user_bot_required, auth_key_unregistered,
  user_id_invalid,
}
use teled.Rpc.Caller.{InputPeer, peer_self, peer_user, peer_other, caller_user, checked_user}
use teled.Rpc.BotFather.{all_username_chars, starts_with_letter}
use teled.Rpc.Server.{Context, TgUser, Server, on_db, seen_by, caller_of}

unfoldable pub account_update_profile :
    Context → Option Str → Option Str → Option Str → Exec Server TgUser
account_update_profile c first last about = do
  caller ← caller_of c
  updated ← on_db (call (set_profile caller.id first last about))
  look (λ h. seen_by c h updated true)

-- usernameRe, ^[a-zA-Z][a-zA-Z0-9_]{4,31}$.
unfoldable pub username_matches : Str → Bool
unfolding all_username_chars
username_matches u =
    starts_with_letter u && all_username_chars u && leb 5 (length u) && leb (length u) 32

-- Whether the username is free for the account.
unfoldable pub claimable : User → Str → Db → Bool
claimable caller username d = elim (user_by_username username d) [
  | none ↦ true
  | some u ↦ u.id == caller.id
]

unfoldable pub account_check_username : Context → Str → Exec Server Bool
unfolding username_matches claimable
account_check_username c username = do
  caller ← caller_of c
  (if username_matches username
      then look (λ h. claimable caller username h.db)
      else throw username_invalid)

-- The checks of accountUpdateUsername, in their order.
unfoldable pub allow_username : User → Str → Exec Server (Unit {0})
unfolding username_matches claimable
allow_username caller username h =
    if not (str_eq username []) && not (username_matches username)
    then (fail username_invalid, h)
    else if str_eq username caller.username
    then (fail username_not_modified, h)
    else if not (str_eq username []) && not (claimable caller username h.db)
    then (fail username_occupied, h)
    else (reply tt, h)

unfoldable pub account_update_username : Context → Str → Exec Server TgUser
unfolding allow_username
account_update_username c username = do
  caller ← caller_of c
  allow_username caller username
  updated ← on_db (call (set_username caller.id username))
  look (λ h. seen_by c h updated true)

-- A user, or tg.UserEmpty with its id.
pub data FoundUser : Type 0 where
  found : TgUser → FoundUser
  empty : Int64 → FoundUser

-- loggedIn && u.ID == caller.ID.
abbrev pub is_caller : Option User → User → Bool
is_caller none u = false
is_caller (some caller) u = u.id == caller.id

-- One of the requested users; none where the request fails.
unfoldable pub found_user : Context → Server → Option User → InputPeer → Option FoundUser
found_user c h none peer_self = none
found_user c h (some caller) peer_self = some (found (seen_by c h caller true))
found_user c h caller (peer_user id hash) = elim (checked_user id hash h.db) [
  | none ↦ some (empty id)
  | some u ↦ some (found (seen_by c h u (is_caller caller u)))
]
found_user c h caller peer_other = some (empty int0)

unfoldable pub found_users :
    Context → Server → Option User → List InputPeer → Option (List FoundUser)
unfolding found_user
found_users c h caller [] = some []
found_users c h caller (id ∷ ids) = elim (found_user c h caller id) [
  | none ↦ none
  | some u ↦ elim (found_users c h caller ids) [ none ↦ none | some us ↦ some (u ∷ us) ]
]

unfoldable pub users_get_users : Context → List InputPeer → Exec Server (List FoundUser)
unfolding found_users
users_get_users c ids h = elim (found_users c h (caller_user c.key c.now h.db) ids) [
  | none ↦ (fail auth_key_unregistered, h)
  | some us ↦ (reply us, h)
]

-- tg.UsersUserFull: the id and the about text, and the user.
pub record FullUser : Type 0 where
  pub id : Int64
  pub about : Str
  pub user : TgUser

abbrev pub full_user : Context → Server → User → Bool → FullUser
full_user c h u self = record { id = u.id; about = u.about; user = seen_by c h u self }

unfoldable pub full_user_of : Context → Option User → InputPeer → Exec Server FullUser
full_user_of c none peer_self h = (fail auth_key_unregistered, h)
full_user_of c (some caller) peer_self h = (reply (full_user c h caller true), h)
full_user_of c caller (peer_user id hash) h = elim (checked_user id hash h.db) [
  | none ↦ (fail user_id_invalid, h)
  | some u ↦ (reply (full_user c h u (is_caller caller u)), h)
]
full_user_of c caller peer_other h = (fail user_id_invalid, h)

unfoldable pub users_get_full_user : Context → InputPeer → Exec Server FullUser
unfolding full_user_of
users_get_full_user c id h = full_user_of c (caller_user c.key c.now h.db) id h

-- requireBot.
unfoldable pub require_bot : Context → Exec Server User
require_bot c = do
  caller ← caller_of c
  (if caller.is_bot then return caller else throw user_bot_required)

-- scope is the key that scopeKey encodes.
unfoldable pub bots_set_bot_commands : Context → Str → Str → List BotCommand → Exec Server Bool
unfolding require_bot
bots_set_bot_commands c scope lang commands = do
  bot ← require_bot c
  on_db (save (set_bot_commands bot.id scope lang commands))
  return true

unfoldable pub bots_get_bot_commands : Context → Str → Str → Exec Server (List BotCommand)
unfolding require_bot
bots_get_bot_commands c scope lang = do
  bot ← require_bot c
  look (λ h. bot_commands bot.id scope lang h.db)

unfoldable pub bots_reset_bot_commands : Context → Str → Str → Exec Server Bool
unfolding require_bot
bots_reset_bot_commands c scope lang = do
  bot ← require_bot c
  on_db (save (reset_bot_commands bot.id scope lang))
  return true
