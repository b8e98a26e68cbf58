-- ===== src/Mtproto/Handling.antt =====
-- internal/mtproto/handle.go: what the server does with an encrypted message. The library's decoders and the cipher
-- are parameters: a Body is what they find in the bytes of a message.
use teled.Prelude.{
  ℕ, List, [], ◌∷◌, ◌++◌, Option, none, some, true, false, Str, Int64, int0, add_len,
}
use teled.Mtproto.Keys.{AuthKeyId, AuthKey, fetched, absent, unavailable, KeyStorage}
use teled.Mtproto.Registry.{Transport, create_connection, sent_created, get_session}
use teled.Mtproto.Sending.{
  Session, dropped_running, Mt, Link, MtError, malformed, no_key, lookup_failed, not_decrypted,
  handler_failed, send_result, send_err, send_pong, send_eternal_salt, send_session_created,
}

-- A decoded message: one without a type id, one that does not decode as its type says, the service messages, packed
-- data, a container of messages with their ids, and any other request.
mutual
  pub data Body : Type 0 where
    untyped undecodable : Body
    ping ping_delay_disconnect : Int64 → Body
    get_future_salts rpc_drop_answer : Body
    gzip : List ℕ → Body
    container : Bodies → Body
    rpc : List ℕ → Body

  pub data Bodies : Type 0 where
    nothing : Bodies
    entry : Int64 → Body → Bodies → Bodies

-- Request.
pub record Request : Type 0 where
  pub session : Session
  pub msg_id : Int64
  pub buf : List ℕ

-- What Handler.OnMessage returns: no error, an RPC error, or another error.
pub data Served : Type 0 where
  served : Served
  rpc_failed : Int64 → Str → Served
  broke : Served

-- What Decrypt finds in a message.
pub record Plain : Type 0 where
  pub session_id : Int64
  pub message_id : Int64
  pub body : Body

module _ {S A : Type 0} (link : Link) where
  -- new_session_created, once for each connection. The salt is the key id, read as an int64.
  unfoldable pub greet : Transport → Session → Mt S A → List MtError × Mt S A
  unfolding create_connection sent_created send_session_created
  greet conn k st =
      let (c, r₁) = create_connection k.id conn st.registry in
      let (before, r₂) = sent_created k.id r₁ in
      let st' = record st { registry = r₂ } in
      elim before [
        | true ↦ ([], st')
        | false ↦ send_session_created link k (add_len int0 k.auth_key.id) st'
      ]

module _ {S A : Type 0} (link : Link) (on_message : Request → Mt S A → Served × Mt S A) where
  -- The end of handle: an RPC error of the handler is sent to the client.
  unfoldable pub dispatch : Request → Mt S A → List MtError × Mt S A
  unfolding send_err
  dispatch req st =
      let (r, st') = on_message req st in
      elim r [
        | served ↦ ([], st')
        | rpc_failed code text ↦ send_err link req.session req.msg_id code text st'
        | broke ↦ (handler_failed ∷ [], st')
      ]

  -- handle, and its loop over a container, which goes on after errors and appends them.
  unfoldable mutual
    unfolding dispatch send_pong send_eternal_salt send_result

    pub handle : Session → Int64 → Body → Mt S A → List MtError × Mt S A
    handle k msg_id untyped st = (malformed ∷ [], st)
    handle k msg_id undecodable st = (malformed ∷ [], st)
    handle k msg_id (ping ping_id) st = send_pong link k msg_id ping_id st
    handle k msg_id (ping_delay_disconnect ping_id) st = send_pong link k msg_id ping_id st
    handle k msg_id get_future_salts st = send_eternal_salt link k msg_id st
    handle k msg_id rpc_drop_answer st = send_result link k msg_id dropped_running st
    handle k msg_id (gzip bytes) st =
        dispatch (record { session = k; msg_id = msg_id; buf = bytes }) st
    handle k msg_id (container messages) st = handle_each k messages st
    handle k msg_id (rpc bytes) st =
        dispatch (record { session = k; msg_id = msg_id; buf = bytes }) st

    pub handle_each : Session → Bodies → Mt S A → List MtError × Mt S A
    handle_each k nothing st = ([], st)
    handle_each k (entry msg_id body rest) st =
        let (e, st₁) = handle k msg_id body st in
        let (es, st₂) = handle_each k rest st₁ in (e ++ es, st₂)

  -- What follows the decryption.
  unfoldable pub receive : Transport → AuthKey → Plain → Mt S A → List MtError × Mt S A
  unfolding greet handle
  receive conn key msg st =
      let k : Session = record { id = msg.session_id; auth_key = key } in
      let (e, st') = greet link conn k st in
      elim e [ [] ↦ handle k msg.message_id msg.body st' | x ∷ xs ↦ (x ∷ xs, st') ]

  module _ (K : KeyStorage S) (decode_encrypted : List ℕ → Option (AuthKeyId × List ℕ))
      (decrypt : AuthKey → List ℕ → Option Plain) where
    unfoldable pub rpc_handle : Transport → List ℕ → Mt S A → List MtError × Mt S A
    unfolding get_session receive
    rpc_handle conn bytes st = elim (decode_encrypted bytes) [
      | none ↦ (malformed ∷ [], st)
      | some m ↦
          let (found, r) = get_session K m.0 st.registry in
          let st' = record st { registry = r } in
          elim found [
            | unavailable ↦ (lookup_failed ∷ [], st')
            | absent ↦ (no_key ∷ [], st')
            | fetched key ↦ elim (decrypt key m.1) [
              | none ↦ (not_decrypted ∷ [], st')
              | some msg ↦ receive conn key msg st'
            ]
          ]
    ]
