-- ===== src/Rpc/Registry.antt =====
-- internal/rpc/registry.go: the live sessions of the users that are logged in, and when each was last
-- active. A method runs under the mutex, so it is one function from state to state. The clock is an
-- argument of `track`. A session's connection, to which nothing here looks, is not part of the model.
use teled.Prelude.{
  List, [], ◌∷◌, Option, some, none, Int64, Map, get, put, delete, values, or_else, ℕ_discrete,
}
use teled.Types.{Time}
use teled.Memory.State.{KeyId}

-- mtproto.Session: its id and its auth key.
pub record Session : Type 0 where
  pub id : Int64
  pub key : KeyId

-- sessionRegistry.
pub record SessionRegistry : Type 0 where
  pub m : Map Int64 (Map Int64 Session)
  pub last_seen : Map Int64 Time

abbrev pub new_session_registry : SessionRegistry
new_session_registry = record { m = []; last_seen = [] }

unfoldable pub track : Int64 → Session → Time → SessionRegistry → SessionRegistry
track user_id s now r = record {
  m = put ℕ_discrete user_id (put ℕ_discrete s.id s (or_else (get ℕ_discrete user_id r.m) [])) r.m;
  last_seen = put ℕ_discrete user_id now r.last_seen;
}

unfoldable pub last_seen_at : Int64 → SessionRegistry → Option Time
last_seen_at user_id r = get ℕ_discrete user_id r.last_seen

-- A user without sessions leaves the map.
unfoldable pub keep_sessions :
    Int64 → Map Int64 Session → Map Int64 (Map Int64 Session) → Map Int64 (Map Int64 Session)
keep_sessions user_id [] m = delete ℕ_discrete user_id m
keep_sessions user_id (s ∷ rest) m = put ℕ_discrete user_id (s ∷ rest) m

unfoldable pub untrack : Int64 → Int64 → SessionRegistry → SessionRegistry
unfolding keep_sessions
untrack user_id session_id r = elim (get ℕ_discrete user_id r.m) [
  | none ↦ r
  | some sessions ↦ record r {
    m = keep_sessions user_id (delete ℕ_discrete session_id sessions) r.m;
  }
]

-- The method `get`.
unfoldable pub live : Int64 → SessionRegistry → List Session
live user_id r = elim (get ℕ_discrete user_id r.m) [ none ↦ [] | some sessions ↦ values sessions ]
