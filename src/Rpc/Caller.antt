-- ===== src/Rpc/Caller.antt =====
-- internal/rpc/handler.go and convert.go: who calls. The request's auth key is an argument, none where
-- the request carries no session.
use teled.Prelude.{Option, some, none, Int64, ◌==◌, if◌then◌else◌}
use teled.Types.{Time, User}
use teled.Memory.State.{Db, KeyId}
use teled.Memory.Rows.{perm_auth_key, session_user_id, bind_session}
use teled.Memory.Users.{user_by_id}
use teled.Rpc.Reply.{
  Rpc, reply, fail, auth_key_unregistered, internal, peer_id_invalid, user_id_invalid,
}

-- A bound temporary key stands for its permanent key.
unfoldable pub effective_key_id : KeyId → Time → Db → KeyId
effective_key_id key_id now d = elim (perm_auth_key key_id now d) [
  | none ↦ key_id
  | some perm ↦ perm
]

unfoldable pub caller_user : Option KeyId → Time → Db → Option User
unfolding effective_key_id
caller_user key now d = elim key [
  | none ↦ none
  | some key_id ↦ elim (session_user_id (effective_key_id key_id now d) d) [
    | none ↦ none
    | some user_id ↦ user_by_id user_id d
  ]
]

unfoldable pub require_caller : Option KeyId → Time → Rpc User
unfolding caller_user
require_caller key now d = elim (caller_user key now d) [
  | none ↦ (fail auth_key_unregistered, d)
  | some u ↦ (reply u, d)
]

-- The callers answer INTERNAL when the request carries no session.
unfoldable pub bind_caller : Option KeyId → Int64 → Time → Rpc (Unit {0})
unfolding effective_key_id
bind_caller key user_id now d = elim key [
  | none ↦ (fail internal, d)
  | some key_id ↦ (reply tt, bind_session (effective_key_id key_id now d) user_id d)
]

-- tg.InputPeerClass: oneself, a user with an access hash, or anything else.
pub data InputPeer : Type 0 where
  peer_self : InputPeer
  peer_user : Int64 → Int64 → InputPeer
  peer_other : InputPeer

-- The stored user with the id, if the access hash is right.
unfoldable pub checked_user : Int64 → Int64 → Db → Option User
checked_user id access_hash d = elim (user_by_id id d) [
  | none ↦ none
  | some u ↦ if u.access_hash == access_hash then some u else none
]

unfoldable pub resolve_peer_user : User → InputPeer → Rpc User
unfolding checked_user
resolve_peer_user caller peer_self d = (reply caller, d)
resolve_peer_user caller (peer_user id hash) d = elim (checked_user id hash d) [
  | none ↦ (fail peer_id_invalid, d)
  | some u ↦ (reply u, d)
]
resolve_peer_user caller peer_other d = (fail peer_id_invalid, d)

-- The same over an InputUser, with another error.
unfoldable pub resolve_input_user : User → InputPeer → Rpc User
unfolding checked_user
resolve_input_user caller peer_self d = (reply caller, d)
resolve_input_user caller (peer_user id hash) d = elim (checked_user id hash d) [
  | none ↦ (fail user_id_invalid, d)
  | some u ↦ (reply u, d)
]
resolve_input_user caller peer_other d = (fail user_id_invalid, d)
