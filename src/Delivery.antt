-- ===== src/Delivery.antt =====
-- internal/rpc/messages.go over internal/mtproto: a push over the connections of the MTProto server. The handlers'
-- parameter `reaches` is what Server.Send answers.
mod Tests
use teled.Prelude.{
  ℕ, ◌≡◌, ◌≢◌, refl, sym, ap, ◌∙◌, arith, inl, inr, List, [], ◌∷◌, Option, some, none, Bool, true,
  false, not, ◌&&◌, ◌||◌, ◌==◌, ==_iff, ==_false, Int64, Map, Distinct, values, get, some_in, ite,
  if_pos, if_neg, ℕ_discrete, if◌then◌else◌, Bool-cases,
}
use teled.Mtproto.Keys.{AuthKeyId, AuthKey, KeyStorage}
use teled.Mtproto.Registry.{Transport, Connection, Registry, drop_conn, remove_conn, get_connection}
use teled.Mtproto.Sending.{Mt, Link, MtError, from_server, Outgoing, send}
use teled.Mtproto.Sending
use teled.Mtproto.Handling.{Request, Served, Plain}
use teled.Mtproto.Serving.{Input, serve_loop, serve_conn, hang_up}
use teled.Rpc.Registry.{Session, live}
use teled.Rpc.Live.{session_at, sessions_of, live-lem}
use teled.Rpc.Server.{Context, Updates, Server, push}
use teled.Rpc.Pushing.{lost, push_lem}

-- The nil error.
abbrev pub is_nil : List MtError → Bool
is_nil [] = true
is_nil (e ∷ es) = false

-- Server.Send of a push, as push sees it.
abbrev pub reached_by :
    {S A : Type 0} → Link → (Session → Sending.Session) → Outgoing → Mt S A → Session → Bool
reached_by link as_session message st s = is_nil (send link (as_session s) from_server message st).0

drop_conn-absent :
    (conn : Transport) (j : Int64) (m : Map Int64 Connection)
    → get ℕ_discrete j m ≡ none
    → get ℕ_discrete j (drop_conn conn m) ≡ none
unfolding get drop_conn
drop_conn-absent conn j [] e = refl
drop_conn-absent conn j ((id, c) ∷ rest) e = ground (arith, drop_conn-absent conn j rest)

drop_conn-gone :
    (conn : Transport) (j : Int64) (m : Map Int64 Connection) (c : Connection)
    → Distinct ℕ_discrete m
    → get ℕ_discrete j m ≡ some c
    → c.transport ≡ conn
    → get ℕ_discrete j (drop_conn conn m) ≡ none
unfolding get drop_conn
drop_conn-gone conn j [] c once e same = cc
drop_conn-gone conn j ((id, w) ∷ rest) c once e same = elim (ℕ_discrete id j) [
  | yes q ↦
      let w_is : w ≡ c = ground arith in
      let b = (==_iff w.transport conn).1 (ap (λ (x : Connection). x.transport) w_is ∙ same) in
      rw (b, drop_conn)
        (drop_conn-absent conn j rest (ap (λ x. get ℕ_discrete x rest) (sym q) ∙ once.0))
  | no q ↦
      let found : get ℕ_discrete j rest ≡ some c = sym (if_neg (ℕ_discrete id j) q _ _) ∙ e in
      let ih = drop_conn-gone conn j rest c once.1 found same in
      elim (Bool-cases (w.transport == conn)) [
        | inl b ↦ rw (b, drop_conn) ih
        | inr b ↦ rw (b, drop_conn) (if_neg (ℕ_discrete id j) q _ _ ∙ ih)
      ]
]

some_in-get :
    (p : Session → Bool) (j : Int64) (m : Map Int64 Session) (s : Session)
    → get ℕ_discrete j m ≡ some s
    → p s ≡ true
    → some_in p (values m) ≡ true
unfolding get some_in
some_in-get p j [] s e h = cc
some_in-get p j ((i, w) ∷ rest) s e h = elim (ℕ_discrete i j) [
  | yes q ↦
      let w_is : w ≡ s = ground arith in
      let hit : p w ≡ true = ap p w_is ∙ h in rw (hit, some_in) refl
  | no q ↦
      let found : get ℕ_discrete j rest ≡ some s = sym (if_neg (ℕ_discrete i j) q _ _) ∙ e in
      let ih = some_in-get p j rest s found h in
      elim (Bool-cases (p w)) [ inl b ↦ rw (b, some_in) refl | inr b ↦ rw (b, some_in) ih ]
]

-- A session without a connection does not take a push.
reached_by-absent :
    {S A : Type 0} (link : Link) (as_session : Session → Sending.Session) (message : Outgoing)
    (st : Mt S A) (s : Session)
    → get_connection (as_session s).id st.registry ≡ none
    → reached_by link as_session message st s ≡ false
unfolding send
reached_by-absent link as_session message st s e = rw (e, send) refl

-- A session was served over a connection whose loop has ended, and it is still among the live sessions of a user. A
-- push to the user whose messages go over the server's connections then drops the session. This holds where the
-- map of connections has no key twice, as a Go map has not, and the session stands under its own id.
pub push-serve_conn :
    {S A : Type 0} (link : Link) (on_message : Request → Mt S A → Served × Mt S A)
    (K : KeyStorage S) (decode_encrypted : List ℕ → Option (AuthKeyId × List ℕ))
    (decrypt : AuthKey → List ℕ → Option Plain) (conn : Transport) (inputs : List Input)
    (st : Mt S A) (as_session : Session → Sending.Session) (message : Outgoing) (c : Context)
    (u : Int64) (wrap : Updates) (h : Server) (s : Session) (entry : Connection)
    → Distinct ℕ_discrete
        (serve_loop link on_message K decode_encrypted decrypt conn inputs st).registry.conns
    → get_connection
        (as_session s).id
        (serve_loop link on_message K decode_encrypted decrypt conn inputs st).registry
      ≡ some entry
    → entry.transport ≡ conn
    → session_at h.sessions u s.id ≡ some s
    → ((x : Session)
        → c.reaches x
          ≡ reached_by link as_session message
              (serve_conn link on_message K decode_encrypted decrypt conn inputs st)
              x)
    → session_at (push c u wrap h).sessions u s.id ≡ none
unfolding serve_conn hang_up remove_conn get_connection
push-serve_conn link on_message K decode_encrypted decrypt conn inputs st as_session message c u
      wrap h s entry once backed over there reaching =
    let ended = serve_loop link on_message K decode_encrypted decrypt conn inputs st in
    let st' = serve_conn link on_message K decode_encrypted decrypt conn inputs st in
    let gone = drop_conn-gone conn (as_session s).id ended.registry.conns entry once backed over in
    let fails : c.reaches s ≡ false =
      reaching s ∙ reached_by-absent link as_session message st' s gone in
    let test : Session → Bool = λ x. (x.id == s.id) && not (c.reaches x) in
    let hit : test s ≡ true = rw ((==_iff s.id s.id).1 refl, fails) refl in
    let is_lost : lost c.reaches s.id (live u h.sessions) ≡ true =
      ap (some_in test) (live-lem u h.sessions)
      ∙ some_in-get test s.id (sessions_of u h.sessions) s there hit in
    (push_lem c u wrap h u s.id).1
    ∙ if_pos (ℕ_discrete u u) refl _ _
    ∙ ap (λ b. if b then none else session_at h.sessions u s.id) is_lost
