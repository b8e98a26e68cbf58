-- ===== src/Mtproto/Closing.antt =====
-- internal/mtproto/conn.go, registry.go and send.go: once a connection's loop has ended, nothing is sent to it.
use teled.Prelude.{
  ℕ, ◌≡◌, ◌≢◌, ◌⊎◌, inl, inr, refl, List, [], ◌∷◌, ◌++◌, Option, Int64, Map, All, get, get-All,
  ℕ_discrete, ==_iff, ==_false, Bool-cases, Option-cases,
}
use teled.Mtproto.Keys.{AuthKeyId, AuthKey, KeyStorage}
use teled.Mtproto.Registry.{Transport, Connection, drop_conn, remove_conn, get_connection}
use teled.Mtproto.Sending.{Session, Kind, Outgoing, sent_to, Mt, Link, send}
use teled.Mtproto.Handling.{Request, Served, Plain}
use teled.Mtproto.Serving.{Input, hang_up, serve_loop, serve_conn}

-- No session is backed by the transport.
abbrev pub Unused : Transport → Map Int64 Connection → Type 0
Unused conn = All (λ (e : Int64 × Connection). e.1.transport ≢ conn)

drop_conn-Unused : (conn : Transport) (m : Map Int64 Connection) → Unused conn (drop_conn conn m)
unfolding drop_conn
drop_conn-Unused conn [] = tt
drop_conn-Unused conn ((id, c) ∷ rest) = elim (ℕ_discrete c.transport conn) [
  | yes e ↦ rw ((==_iff c.transport conn).1 e, drop_conn) (drop_conn-Unused conn rest)
  | no ne ↦ rw (==_false c.transport conn ne, drop_conn) (ne, drop_conn-Unused conn rest)
]

module _ {S A : Type 0} (link : Link) where
  -- A message goes to no transport, or to one that backs a session.
  send-Unused :
      (conn : Transport) (k : Session) (t : Kind) (message : Outgoing) (st : Mt S A)
      → Unused conn st.registry.conns
      → let st' = (send link k t message st).1 in
        (st'.wire ≡ st.wire)
        ⊎ ((c : Transport) × (c ≢ conn) × (st'.wire ≡ st.wire ++ sent_to c k t message ∷ []))
  unfolding send get_connection
  send-Unused conn k t message st unused =
      elim (Option-cases (get ℕ_discrete k.id st.registry.conns)) [
        | inl e ↦ rw (e, send, get_connection) (inl refl)
        | inr (c, e) ↦
            let apart =
              get-All ℕ_discrete (λ (e : Int64 × Connection). e.1.transport ≢ conn) k.id
                st.registry.conns unused e in
            elim (Bool-cases (link.delivers c.transport k message)) [
              | inl sent ↦ rw (e, sent, send, get_connection) (inr (c.transport, apart, refl))
              | inr failed ↦ rw (e, failed, send, get_connection) (inl refl)
            ]
      ]

  -- Whatever a connection sends, in whatever way its loop ends, and whatever the handler does: afterwards the
  -- connection is closed, no session is backed by it, and a message to any session is not sent or goes to
  -- another connection.
  pub serve_conn-closes :
      (on_message : Request → Mt S A → Served × Mt S A) (K : KeyStorage S)
      (decode_encrypted : List ℕ → Option (AuthKeyId × List ℕ))
      (decrypt : AuthKey → List ℕ → Option Plain) (conn : Transport) (inputs : List Input)
      (st : Mt S A) (k : Session) (t : Kind) (message : Outgoing)
      → let ended = serve_loop link on_message K decode_encrypted decrypt conn inputs st in
        let st' = serve_conn link on_message K decode_encrypted decrypt conn inputs st in
        let st'' = (send link k t message st').1 in
        (st'.registry.closed ≡ ended.registry.closed ++ conn ∷ [])
        × Unused conn st'.registry.conns
        × (st'.wire ≡ ended.wire)
        × ((st''.wire ≡ st'.wire)
            ⊎ ((c : Transport) × (c ≢ conn) × (st''.wire ≡ st'.wire ++ sent_to c k t message ∷ [])))
  unfolding serve_conn hang_up remove_conn
  serve_conn-closes on_message K decode_encrypted decrypt conn inputs st k t message =
      let ended = serve_loop link on_message K decode_encrypted decrypt conn inputs st in
      let st' = serve_conn link on_message K decode_encrypted decrypt conn inputs st in
      let unused = drop_conn-Unused conn ended.registry.conns in
      (refl, unused, refl, send-Unused conn k t message st' unused)
