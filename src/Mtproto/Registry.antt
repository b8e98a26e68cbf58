-- ===== src/Mtproto/Registry.antt =====
-- internal/mtproto/registry.go: the live connections, and the cache of auth keys before the KeyStorage. A transport
-- is a number, since the code only compares transports; its Close is an entry of `closed`.
use teled.Prelude.{
  ℕ, List, [], ◌∷◌, ◌++◌, Option, none, some, Bool, true, false, Int64, Map, get, put, delete,
  ℕ_discrete, ◌==◌, if◌then◌else◌, values, map,
}
use teled.Mtproto.Keys.{AuthKeyId, AuthKey, Fetched, fetched, absent, unavailable, KeyStorage}

abbrev pub Transport : Type 0
Transport = ℕ

-- connection: `sent` is its atomic flag.
pub record Connection : Type 0 where
  pub transport : Transport
  pub sent : Bool

-- registry. Two entries never share a connection, so the flag of an entry is the flag of its connection.
pub record Registry (S : Type 0) : Type 0 where
  pub keys : S
  pub cache : Map AuthKeyId AuthKey
  pub conns : Map Int64 Connection
  pub closed : List Transport

-- The loop of removeConn.
unfoldable pub drop_conn : Transport → Map Int64 Connection → Map Int64 Connection
drop_conn conn [] = []
drop_conn conn ((id, c) ∷ rest) =
    let left = drop_conn conn rest in if c.transport == conn then left else (id, c) ∷ left

module _ {S : Type 0} where
  abbrev pub new_registry : S → Registry S
  new_registry keys = record { keys = keys; cache = []; conns = []; closed = [] }

  -- The answer of createConnection is the entry that then stands under the session.
  unfoldable pub create_connection : Int64 → Transport → Registry S → Connection × Registry S
  create_connection session conn r =
      let fresh : Connection = record { transport = conn; sent = false } in
      let replaced = record r { conns = put ℕ_discrete session fresh r.conns } in
      elim (get ℕ_discrete session r.conns) [
        | none ↦ (fresh, replaced)
        | some v ↦ if v.transport == conn then (v, r) else (fresh, replaced)
      ]

  -- sentCreated of the session's connection: the flag before, and the flag set.
  unfoldable pub sent_created : Int64 → Registry S → Bool × Registry S
  sent_created session r = elim (get ℕ_discrete session r.conns) [
    | none ↦ (false, r)
    | some v ↦
        (v.sent, record r { conns = put ℕ_discrete session (record v { sent = true }) r.conns })
  ]

  unfoldable pub remove_conn : Transport → Registry S → Registry S
  unfolding drop_conn
  remove_conn conn r = record r { conns = drop_conn conn r.conns }

  unfoldable pub get_connection : Int64 → Registry S → Option Connection
  get_connection session r = get ℕ_discrete session r.conns

  unfoldable pub delete_connection : Int64 → Registry S → Registry S
  delete_connection session r =
      let left = delete ℕ_discrete session r.conns in
      elim (get ℕ_discrete session r.conns) [
        | none ↦ record r { conns = left }
        | some c ↦ record r { conns = left; closed = r.closed ++ c.transport ∷ [] }
      ]

  -- Close.
  unfoldable pub close_all : Registry S → Registry S
  close_all r = record r {
    closed = r.closed ++ map (λ (c : Connection). c.transport) (values r.conns);
  }

  module _ (K : KeyStorage S) where
    -- The key is cached before it is saved.
    unfoldable pub add_session : AuthKey → Registry S → Bool × Registry S
    add_session key r =
        let (done, keys) = K.save key r.keys in
        (done, record r { cache = put ℕ_discrete key.id key r.cache; keys = keys })

    unfoldable pub get_session : AuthKeyId → Registry S → Fetched × Registry S
    get_session id r = elim (get ℕ_discrete id r.cache) [
      | some key ↦ (fetched key, r)
      | none ↦ elim (K.fetch id r.keys) [
        | fetched key ↦ (fetched key, record r { cache = put ℕ_discrete id key r.cache })
        | absent ↦ (absent, r)
        | unavailable ↦ (unavailable, r)
      ]
    ]
