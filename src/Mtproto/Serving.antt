-- ===== src/Mtproto/Serving.antt =====
-- internal/mtproto/conn.go: the loop that serves one connection. What arrives is a list; at its end the read fails. A
-- frame whose key id is zero starts the key exchange, whose outcome is the library's.
use teled.Prelude.{ℕ, List, [], ◌∷◌, ◌++◌, Option, true, false, Int64, int}
use teled.Mtproto.Keys.{AuthKeyId, AuthKey, fetched, absent, unavailable, KeyStorage}
use teled.Mtproto.Registry.{Transport, remove_conn, add_session, get_session}
use teled.Mtproto.Sending.{Mt, Link, MtError, send_proto_error}
use teled.Mtproto.Handling.{Request, Served, Plain, rpc_handle}

-- How a key exchange ends: with a key, with a frame that is encrypted under a key already, with an exchange error
-- and its code, or otherwise.
pub data Exchanged : Type 0 where
  agreed : AuthKey → Exchanged
  encrypted_frame : AuthKeyId → List ℕ → Exchanged
  exchange_refused : Int64 → Exchanged
  exchange_broke : Exchanged

-- What is read: less than a key id, a frame under a key id, or the first frame of a key exchange.
pub data Input : Type 0 where
  short_frame : Input
  frame : AuthKeyId → List ℕ → Input
  exchange : Exchanged → Input

-- Whether the loop goes on.
pub data Turn : Type 0 where
  next over : Turn

-- codec.CodeAuthKeyNotFound.
abbrev pub auth_key_not_found : Int64
auth_key_not_found = int 404

-- An error ends the loop.
abbrev pub turn : List MtError → Turn
turn [] = next
turn (e ∷ es) = over

module _ {S A : Type 0} (link : Link) (on_message : Request → Mt S A → Served × Mt S A)
    (K : KeyStorage S) (decode_encrypted : List ℕ → Option (AuthKeyId × List ℕ))
    (decrypt : AuthKey → List ℕ → Option Plain) where
  -- A frame under a key id: from the wire, or from the key exchange.
  unfoldable pub serve_frame : Transport → AuthKeyId → List ℕ → Mt S A → Turn × Mt S A
  unfolding get_session rpc_handle send_proto_error
  serve_frame conn key_id bytes st =
      let (found, r) = get_session K key_id st.registry in
      let st' = record st { registry = r } in
      elim found [
        | unavailable ↦ (over, st')
        | fetched key ↦
            let (e, st'') = rpc_handle link on_message K decode_encrypted decrypt conn bytes st' in
            (turn e, st'')
        | absent ↦
            let (e, st'') = send_proto_error link conn auth_key_not_found st' in (turn e, st'')
      ]

  unfoldable pub serve_exchange : Transport → Exchanged → Mt S A → Turn × Mt S A
  unfolding add_session send_proto_error serve_frame
  serve_exchange conn (agreed key) st =
      let (done, r) = add_session K key st.registry in
      let st' = record st { registry = r } in elim done [ true ↦ (next, st') | false ↦ (over, st') ]
  serve_exchange conn (encrypted_frame key_id bytes) st = serve_frame conn key_id bytes st
  serve_exchange conn (exchange_refused code) st = (over, (send_proto_error link conn code st).1)
  serve_exchange conn exchange_broke st = (over, st)

  unfoldable pub serve_input : Transport → Input → Mt S A → Turn × Mt S A
  unfolding serve_exchange
  serve_input conn short_frame st = (over, st)
  serve_input conn (frame key_id bytes) st = serve_frame conn key_id bytes st
  serve_input conn (exchange e) st = serve_exchange conn e st

  unfoldable pub serve_loop : Transport → List Input → Mt S A → Mt S A
  unfolding serve_input
  serve_loop conn [] st = st
  serve_loop conn (i ∷ rest) st =
      let (t, st') = serve_input conn i st in
      elim t [ next ↦ serve_loop conn rest st' | over ↦ st' ]

  -- The deferred calls, once the loop has ended.
  unfoldable pub hang_up : Transport → Mt S A → Mt S A
  unfolding remove_conn
  hang_up conn st =
      let left = remove_conn conn st.registry in
      record st { registry = record left { closed = left.closed ++ conn ∷ [] } }

  unfoldable pub serve_conn : Transport → List Input → Mt S A → Mt S A
  unfolding serve_loop hang_up
  serve_conn conn inputs st = hang_up conn (serve_loop conn inputs st)
