-- ===== src/Mtproto/Sending.antt =====
-- internal/mtproto/send.go: messages to the connection of a session. The encoding, the encryption and the write
-- of a message are a library's: whether they succeed is a parameter. A message id of the server is left out.
use teled.Prelude.{List, [], ◌∷◌, ◌++◌, Option, none, some, Bool, Str, Int64, int, ℕ, if◌then◌else◌}
use teled.Mtproto.Keys.{AuthKey}
use teled.Mtproto.Registry.{Transport, Registry, get_connection, delete_connection}

-- Session.
pub record Session : Type 0 where
  pub id : Int64
  pub auth_key : AuthKey

-- proto.MessageType, as far as the server sends.
pub data Kind : Type 0 where
  server_response from_server : Kind

-- The result of an RPC: the handler's encoded answer, an RPC error, a Boolean, or a dropped answer.
pub data Answer : Type 0 where
  answered : List ℕ → Answer
  rpc_error : Int64 → Str → Answer
  truth : Bool → Answer
  dropped_running : Answer

-- mt.FutureSalt: since, until, and the salt.
abbrev pub Salt : Type 0
Salt = Int64 × Int64 × Int64

-- The messages that the server sends: Result, Pong and FutureSalts name the request's message id.
pub data Outgoing : Type 0 where
  result : Int64 → Answer → Outgoing
  pong : Int64 → Int64 → Outgoing
  future_salts : Int64 → Int64 → List Salt → Outgoing
  new_session_created : Int64 → Outgoing
  updates : List ℕ → Outgoing
  msgs_ack : List Int64 → Outgoing

pub data Wire : Type 0 where
  sent_to : Transport → Session → Kind → Outgoing → Wire
  proto_error : Transport → Int64 → Wire

pub data MtError : Type 0 where
  no_connection send_failed malformed no_key lookup_failed not_decrypted : MtError
  exchange_failed handler_failed : MtError

-- What changes in the server, beside its handler's own state A.
pub record Mt (S A : Type 0) : Type 0 where
  pub registry : Registry S
  pub wire : List Wire
  pub app : A

-- What the server takes from outside: whether a message to a transport is sent, whether a protocol error is,
-- and the clock.
pub record Link : Type 0 where
  pub delivers : Transport → Session → Outgoing → Bool
  pub writes : Transport → Bool
  pub now : Int64

module _ {S A : Type 0} (link : Link) where
  -- Send. An empty list is the nil error.
  unfoldable pub send : Session → Kind → Outgoing → Mt S A → List MtError × Mt S A
  send k t message st = elim (get_connection k.id st.registry) [
    | none ↦ (no_connection ∷ [], st)
    | some c ↦
        if link.delivers c.transport k message
        then ([], record st { wire = st.wire ++ sent_to c.transport k t message ∷ [] })
        else (send_failed ∷ [], st)
  ]

  unfoldable pub send_result : Session → Int64 → Answer → Mt S A → List MtError × Mt S A
  unfolding send
  send_result k msg_id answer = send k server_response (result msg_id answer)

  unfoldable pub send_err : Session → Int64 → Int64 → Str → Mt S A → List MtError × Mt S A
  unfolding send_result
  send_err k msg_id code text = send_result k msg_id (rpc_error code text)

  unfoldable pub send_bool : Session → Int64 → Bool → Mt S A → List MtError × Mt S A
  unfolding send_result
  send_bool k msg_id r = send_result k msg_id (truth r)

  -- The updates come encoded; `some` of them unless there are none.
  unfoldable pub send_updates : Session → Option (List ℕ) → Mt S A → List MtError × Mt S A
  unfolding send
  send_updates k none st = ([], st)
  send_updates k (some encoded) st = send k from_server (updates encoded) st

  unfoldable pub send_ack : Session → List Int64 → Mt S A → List MtError × Mt S A
  unfolding send
  send_ack k ids = send k from_server (msgs_ack ids)

  unfoldable pub send_pong : Session → Int64 → Int64 → Mt S A → List MtError × Mt S A
  unfolding send
  send_pong k msg_id ping_id = send k server_response (pong msg_id ping_id)

  unfoldable pub send_future_salts : Session → Int64 → List Salt → Mt S A → List MtError × Mt S A
  unfolding send
  send_future_salts k msg_id salts = send k server_response (future_salts msg_id link.now salts)

  -- math.MaxInt32 is the last second.
  unfoldable pub send_eternal_salt : Session → Int64 → Mt S A → List MtError × Mt S A
  unfolding send_future_salts
  send_eternal_salt k msg_id = send_future_salts k msg_id ((int 1, int 2147483647, int 10) ∷ [])

  unfoldable pub send_session_created : Session → Int64 → Mt S A → List MtError × Mt S A
  unfolding send
  send_session_created k salt = send k from_server (new_session_created salt)

  unfoldable pub send_proto_error : Transport → Int64 → Mt S A → List MtError × Mt S A
  send_proto_error conn code st =
      if link.writes conn
      then ([], record st { wire = st.wire ++ proto_error conn code ∷ [] })
      else (send_failed ∷ [], st)

module _ {S A : Type 0} where
  unfoldable pub force_disconnect : Session → Mt S A → Mt S A
  unfolding delete_connection
  force_disconnect k st = record st { registry = delete_connection k.id st.registry }
