-- ===== src/Mtproto/Tests.antt =====
-- A concrete MTProto server, and instances of the theorems about it.
use teled.Prelude.{
  ◌≡◌, ◌≢◌, refl, List, [], ◌∷◌, some, true, Int64, int, get, put, ℕ, ℕ_discrete, All, arith,
}
use teled.Mtproto.Keys.{
  AuthKeyId, AuthKey, InMemoryKeys, fetched, absent, in_memory, in_memory-IsKeyStorage, save_key,
  key_by_id,
}
use teled.Mtproto.Registry.{
  Connection, new_registry, create_connection, sent_created, get_connection, add_session,
  get_session, drop_conn, remove_conn,
}
use teled.Mtproto.Sending.{
  Session, Mt, Link, from_server, msgs_ack, send, send_pong, send_session_created,
}
use teled.Mtproto.Handling.{
  Request, Served, served, ping, container, nothing, entry, rpc, handle, greet,
}
use teled.Mtproto.Serving.{Input, frame, exchange, agreed, serve_conn}
use teled.Mtproto.Coherence
use teled.Mtproto.Coherence.{KeyCall, add, look_up, cached}
use teled.Mtproto.Closing
use teled.Mtproto.Greeting
use teled.Mtproto.Greeting.{greeted}
use teled.Mtproto.Answers
use teled.Mtproto.Answers.{in_order, leaves}

program : Unit {0}
unfolding get put ℕ_discrete in_memory save_key key_by_id create_connection sent_created
    get_connection add_session get_session send send_pong send_session_created handle greet
    serve_conn drop_conn remove_conn
program = tt

-- The key of an id.
abbrev key_of : AuthKeyId → AuthKey
key_of id = record { id = id; value = id ∷ [] }

-- A key that is exchanged again is the one that is found.
abbrev key_calls : List KeyCall
key_calls =
    look_up 7
    ∷ add (key_of 7)
    ∷ look_up 7
    ∷ add (key_of 8)
    ∷ add (key_of 7)
    ∷ look_up 7
    ∷ look_up 8
    ∷ []

cached-direct_example :
    cached in_memory key_calls (new_registry [])
    ≡ absent ∷ fetched (key_of 7) ∷ fetched (key_of 7) ∷ fetched (key_of 8) ∷ []
unfolding program
cached-direct_example =
    Coherence.cached-direct in_memory key_of in_memory-IsKeyStorage (λ key s. refl) key_calls []
      (tt, (refl, (tt, (refl, (refl, (tt, (tt, tt))))))) (λ id key e. cc)

abbrev phone : Session
phone = record { id = int 1; auth_key = key_of 7 }

-- All that is sent arrives; the handler counts its requests.
abbrev link : Link
link = record { delivers = λ c k m. true; writes = λ c. true; now = int 9 }

abbrev start : Mt InMemoryKeys ℕ
start = record { registry = new_registry []; wire = []; app = 0 }

abbrev count : Request → Mt InMemoryKeys ℕ → Served × Mt InMemoryKeys ℕ
count req st = (served, record st { app = 1 })

-- Another session comes in between, over its own transport.
abbrev tablet : Session
tablet = record { id = int 2; auth_key = key_of 8 }

greet-once_example :
    (get_connection (int 1) (greet link 5 phone start).1.registry ≡ some (greeted 5))
    × (greet link 5 phone (greet link 6 tablet (greet link 5 phone start).1).1
        ≡ ([], (greet link 6 tablet (greet link 5 phone start).1).1))
unfolding program
greet-once_example =
    let r = Greeting.greet-once link 5 phone start (int 1) ((6, tablet) ∷ []) in
    (r.0, r.2 (λ e. absurd (omega arith), tt))

-- A container with two pings around a container with a request.
handle-in_order_example :
    handle link count phone
      (int 1)
      (container (
        entry (int 2) (ping (int 8)) (
          entry
            (int 3)
            (container (entry (int 4) (rpc []) nothing))
            (entry (int 5) (ping (int 9)) nothing))))
      (greet link 5 phone start).1
    ≡ in_order link count phone
        ((int 2, ping (int 8)) ∷ (int 4, rpc []) ∷ (int 5, ping (int 9)) ∷ [])
        (greet link 5 phone start).1
unfolding program leaves
handle-in_order_example =
    Answers.handle-in_order link count phone (int 1)
      (container (
        entry (int 2) (ping (int 8)) (
          entry (int 3) (container (entry (int 4) (rpc []) nothing))
            (entry (int 5) (ping (int 9)) nothing))))
      (greet link 5 phone start).1

-- A connection that exchanges a key, sends a message and goes.
abbrev visit : List Input
visit = exchange (agreed (key_of 7)) ∷ frame 7 [] ∷ []

abbrev gone : Mt InMemoryKeys ℕ
gone =
    serve_conn link count in_memory (λ bytes. some (7, bytes))
      (λ key bytes. some (record { session_id = int 1; message_id = int 2; body = ping (int 8) })) 5
      visit start

serve_conn-closes_example : All (λ (e : Int64 × Connection). e.1.transport ≢ 5) gone.registry.conns
unfolding program
serve_conn-closes_example =
    (Closing.serve_conn-closes link count in_memory (λ bytes. some (7, bytes))
      (λ key bytes. some (record { session_id = int 1; message_id = int 2; body = ping (int 8) })) 5
      visit start phone from_server (msgs_ack [])).1
