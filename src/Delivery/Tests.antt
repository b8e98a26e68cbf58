-- ===== src/Delivery/Tests.antt =====
-- A client that exchanges a key, sends a ping and goes, and a push to its user afterwards.
use teled.Prelude.{
  ◌≡◌, refl, List, [], ◌∷◌, Option, none, some, str_eq, true, int, get, put, ℕ, ℕ_discrete,
}
use teled.Memory.State.{new_db}
use teled.Mtproto.Keys.{AuthKey, InMemoryKeys, in_memory, save_key, key_by_id}
use teled.Mtproto.Registry.{
  new_registry, create_connection, sent_created, get_connection, add_session, get_session,
}
use teled.Mtproto.Sending
use teled.Mtproto.Sending.{Mt, Link, Outgoing, updates, send, send_pong, send_session_created}
use teled.Mtproto.Handling.{
  Request, Served, served, Plain, ping, handle, greet, receive, rpc_handle,
}
use teled.Mtproto.Serving.{
  Input, frame, exchange, agreed, serve_frame, serve_exchange, serve_input, serve_loop, serve_conn,
}
use teled.Rpc.Registry.{Session, track, new_session_registry}
use teled.Rpc.Live.{session_at}
use teled.Rpc.Server.{Context, Server, Updates, push}
use teled.Delivery
use teled.Delivery.{reached_by}

abbrev key : AuthKey
key = record { id = 7; value = 1 ∷ [] }

abbrev link : Link
link = record { delivers = λ c k m. true; writes = λ c. true; now = int 9 }

abbrev start : Mt InMemoryKeys ℕ
start = record { registry = new_registry []; wire = []; app = 0 }

abbrev count : Request → Mt InMemoryKeys ℕ → Served × Mt InMemoryKeys ℕ
count req st = (served, record st { app = 1 })

abbrev visit : List Input
visit = exchange (agreed key) ∷ frame 7 [] ∷ []

abbrev decrypted : AuthKey → List ℕ → Option Plain
decrypted k bytes = some (record { session_id = int 4; message_id = int 2; body = ping (int 8) })

abbrev gone : Mt InMemoryKeys ℕ
gone = serve_conn link count in_memory (λ bytes. some (7, bytes)) decrypted 5 visit start

abbrev phone : Session
phone = record { id = int 4; key = 7 }

abbrev as_session : Session → Sending.Session
as_session s = record { id = s.id; auth_key = key }

abbrev request : Context
request = record {
  key = some 7;
  now = 9;
  reaches = reached_by link as_session (updates []) gone;
  secret = [];
  raw = int 3;
  trim_space = λ s. s;
  to_lower = λ s. s;
  equal_fold = str_eq;
  fields = λ s. s ∷ [];
}

abbrev server : Server
server = record {
  db = new_db 0;
  store = none;
  sessions = track (int 1) phone 6 new_session_registry;
  staging = [];
  pushed = [];
}

abbrev note : Updates
note = record { updates = []; users = []; date = int 9 }

push-serve_conn_example :
    session_at (push request (int 1) note server).sessions (int 1) (int 4) ≡ none
unfolding get put ℕ_discrete in_memory save_key key_by_id create_connection sent_created
    get_connection add_session get_session send send_pong send_session_created handle greet receive
    rpc_handle serve_frame serve_exchange serve_input serve_loop track
push-serve_conn_example =
    Delivery.push-serve_conn link count in_memory (λ bytes. some (7, bytes)) decrypted 5 visit start
      as_session (updates []) request (int 1) note server phone
      (record { transport = 5; sent = true }) (refl, tt) refl refl refl (λ x. refl)
