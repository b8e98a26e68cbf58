-- ===== src/Mtproto/Greeting.antt =====
-- internal/mtproto/handle.go and registry.go: when new_session_created is sent.
use teled.Prelude.{
  ◌≡◌, inl, inr, refl, sym, ap, All, ◌∙◌, List, [], ◌∷◌, ◌++◌, Option, none, some, Bool, true,
  false, Int64, int0, add_len, Map, get, put, get-put, get-put_self, put_twice, put_same, ==_iff,
  ==_false, ℕ_discrete, ite, ◌==◌, ◌&&◌, Bool-cases, Option-cases, if◌then◌else◌, if_cases,
}
use teled.Mtproto.Registry.{
  Transport, Connection, Registry, get_connection, create_connection, sent_created,
}
use teled.Mtproto.Sending.{
  Session, Mt, Link, MtError, from_server, sent_to, new_session_created, send, send_session_created,
}
use teled.Mtproto.Handling.{greet}

-- The entry of a session that was greeted over the transport.
abbrev pub greeted : Transport → Connection
greeted conn = record { transport = conn; sent = true }

-- Whether the session was greeted over the transport.
abbrev pub is_greeted : Transport → Option Connection → Bool
is_greeted conn none = false
is_greeted conn (some c) = (c.transport == conn) && c.sent

-- A message of the session id comes over the transport.
abbrev pub IsOver : Transport → Int64 → Transport × Session → Type 0
IsOver conn id m = m.1.id ≡ id → m.0 ≡ conn

abbrev over_with : Transport → Bool → Connection
over_with conn flag = record { transport = conn; sent = flag }

ite-same : {P B : Type 0} (p : Dec P) (x y z : B) → (P → x ≡ z) → (¬ P → y ≡ z) → ite p x y ≡ z
ite-same (yes h) x y z f g = f h
ite-same (no h) x y z f g = g h

elim_if :
    {B : Type 0} (b : Bool) (x y : B) → (elim b [ true ↦ x | false ↦ y ]) ≡ (if b then x else y)
elim_if true x y = refl
elim_if false x y = refl

if_ap :
    {B C : Type 0} (f : B → C) (b : Bool) (x y : B)
    → f (if b then x else y) ≡ (if b then f x else f y)
if_ap f true x y = refl
if_ap f false x y = refl

-- The entry that createConnection leaves, and what setting its flag makes of the map.
create_lem :
    {S : Type 0} (id : Int64) (conn : Transport) (r : Registry S)
    → (m : Map Int64 Connection) × ((create_connection id conn r).1 ≡ record r { conns = m })
      × (get ℕ_discrete id m
          ≡ some (record { transport = conn; sent = is_greeted conn (get ℕ_discrete id r.conns) }))
      × (put ℕ_discrete id (greeted conn) m ≡ put ℕ_discrete id (greeted conn) r.conns)
unfolding create_connection
create_lem id conn r =
    let fresh : Connection = record { transport = conn; sent = false } in
    let m = put ℕ_discrete id fresh r.conns in
    let there = get-put_self ℕ_discrete id fresh r.conns in
    let twice = put_twice ℕ_discrete id (greeted conn) fresh r.conns in
    elim (Option-cases (get ℕ_discrete id r.conns)) [
      | inl e ↦ (m, rw (e, create_connection) refl, rw e there, twice)
      | inr (c, e) ↦ elim (ℕ_discrete c.transport conn) [
        | yes q ↦
            let b = (==_iff c.transport conn).1 q in
            let flag : c.sent ≡ is_greeted conn (get ℕ_discrete id r.conns) = rw (e, b) refl in
            (
              r.conns,
              rw (e, b, create_connection) refl,
              e ∙ ap (λ t. some (over_with t c.sent)) q ∙ ap (λ f. some (over_with conn f)) flag,
              refl,
            )
        | no ne ↦
            let b = ==_false c.transport conn ne in
            let flag : false ≡ is_greeted conn (get ℕ_discrete id r.conns) = rw (e, b) refl in
            (
              m,
              rw (e, b, create_connection) refl,
              there ∙ ap (λ f. some (over_with conn f)) flag,
              twice,
            )
      ]
    ]

sent_created_lem :
    {S : Type 0} (id : Int64) (r : Registry S) (v : Connection)
    → get ℕ_discrete id r.conns ≡ some v
    → sent_created id r
      ≡ (v.sent, record r { conns = put ℕ_discrete id (record v { sent = true }) r.conns })
unfolding sent_created
sent_created_lem id r v e =
    ap
      (λ o. elim o [
        | none ↦ (false, r)
        | some w ↦
            (w.sent, record r { conns = put ℕ_discrete id (record w { sent = true }) r.conns })
      ])
      e

module _ {S A : Type 0} (link : Link) where
  -- The server with the session entered as greeted.
  abbrev pub entered : Transport → Session → Mt S A → Mt S A
  entered conn k st = record st {
    registry = record st.registry { conns = put ℕ_discrete k.id (greeted conn) st.registry.conns };
  }

  greet_lem :
      (conn : Transport) (k : Session) (st : Mt S A)
      → greet link conn k st ≡ (
          if is_greeted conn (get_connection k.id st.registry)
          then ([], entered conn k st)
          else send_session_created link k (add_len int0 k.auth_key.id) (entered conn k st))
  unfolding greet get_connection
  greet_lem conn k st =
      let salt = add_len int0 k.auth_key.id in
      let b = is_greeted conn (get ℕ_discrete k.id st.registry.conns) in
      let (m, e, there, put_eq) = create_lem k.id conn st.registry in
      let tell : Bool × Registry S → List MtError × Mt S A = λ x. elim x.0 [
        | true ↦ ([], record st { registry = x.1 })
        | false ↦ send_session_created link k salt (record st { registry = x.1 })
      ] in
      ap tell (
        ap (sent_created k.id) e
        ∙ sent_created_lem k.id (record st.registry { conns = m })
            (record { transport = conn; sent = b }) there
        ∙ ap (λ n. (b, record st.registry { conns = n })) put_eq)
      ∙ elim_if b ([], entered conn k st) (send_session_created link k salt (entered conn k st))

  get-sent :
      (k : Session) (salt : Int64) (st : Mt S A)
      → (send_session_created link k salt st).1.registry ≡ st.registry
  unfolding send_session_created send
  get-sent k salt st = elim (Option-cases (get_connection k.id st.registry)) [
    | inl e ↦ rw (e, send_session_created, send) refl
    | inr (c, e) ↦ elim (Bool-cases (link.delivers c.transport k (new_session_created salt))) [
      | inl sent ↦ rw (e, sent, send_session_created, send) refl
      | inr failed ↦ rw (e, failed, send_session_created, send) refl
    ]
  ]

  greet-registry :
      (conn : Transport) (k : Session) (st : Mt S A)
      → (greet link conn k st).1.registry ≡ (entered conn k st).registry
  greet-registry conn k st =
      let salt = add_len int0 k.auth_key.id in
      ap (λ x. x.1.registry) (greet_lem conn k st)
      ∙ if_cases (λ x. x.1.registry ≡ (entered conn k st).registry)
          (is_greeted conn (get_connection k.id st.registry)) ([], entered conn k st)
          (send_session_created link k salt (entered conn k st)) (λ e. refl)
          (λ e. get-sent k salt (entered conn k st))

  wire-send_session_created :
      (conn : Transport) (k : Session) (salt : Int64) (st : Mt S A)
      → get_connection k.id st.registry ≡ some (greeted conn)
      → (send_session_created link k salt st).1.wire ≡ (
          if link.delivers conn k (new_session_created salt)
          then st.wire ++ sent_to conn k from_server (new_session_created salt) ∷ []
          else st.wire)
  unfolding send_session_created send
  wire-send_session_created conn k salt st e =
      elim (Bool-cases (link.delivers conn k (new_session_created salt))) [
        | inl sent ↦ rw (e, sent, send_session_created, send) refl
        | inr failed ↦ rw (e, failed, send_session_created, send) refl
      ]

  greet-again :
      (conn : Transport) (k : Session) (st : Mt S A)
      → get_connection k.id st.registry ≡ some (greeted conn)
      → greet link conn k st ≡ ([], st)
  unfolding get_connection
  greet-again conn k st here =
      let known : is_greeted conn (get_connection k.id st.registry) ≡ true =
        ap (is_greeted conn) here ∙ ap (λ b. b && true) ((==_iff conn conn).1 refl) in
      greet_lem conn k st
      ∙ ap
          (λ b.
            if b
            then ([], entered conn k st)
            else send_session_created link k (add_len int0 k.auth_key.id) (entered conn k st))
          known
      ∙ ap (λ m. ([], record st { registry = record st.registry { conns = m } }))
          (put_same ℕ_discrete k.id (greeted conn) st.registry.conns here)

  get-greet :
      (conn : Transport) (k : Session) (st : Mt S A) (j : Int64)
      → get_connection j (greet link conn k st).1.registry
        ≡ ite (ℕ_discrete j k.id) (some (greeted conn)) (get_connection j st.registry)
  unfolding get_connection
  get-greet conn k st j =
      ap (λ (r : Registry S). get ℕ_discrete j r.conns) (greet-registry conn k st)
      ∙ get-put ℕ_discrete k.id j (greeted conn) st.registry.conns

  -- The server after messages of sessions over transports.
  abbrev pub greet_all : List (Transport × Session) → Mt S A → Mt S A
  greet_all [] st = st
  greet_all ((conn, k) ∷ ms) st = greet_all ms (greet link conn k st).1

  get-greet_all :
      (conn : Transport) (id : Int64) (ms : List (Transport × Session)) (st : Mt S A)
      → All (IsOver conn id) ms
      → get_connection id st.registry ≡ some (greeted conn)
      → get_connection id (greet_all ms st).registry ≡ some (greeted conn)
  get-greet_all conn id [] st over e = e
  get-greet_all conn id ((c, k) ∷ ms) st over e =
      get-greet_all conn id ms (greet link c k st).1 over.1 (
        get-greet c k st id
        ∙ ite-same (ℕ_discrete id k.id) (some (greeted c)) (get_connection id st.registry)
            (some (greeted conn)) (λ q. ap (λ t. some (greeted t)) (over.0 (sym q))) (λ q. e))

  pub greet-once :
      (conn : Transport) (k : Session) (st : Mt S A) (j : Int64) (ms : List (Transport × Session))
      → let st' = (greet link conn k st).1 in
        let later = greet_all ms st' in
        let hello = new_session_created (add_len int0 k.auth_key.id) in
        (get_connection j st'.registry
          ≡ ite (ℕ_discrete j k.id) (some (greeted conn)) (get_connection j st.registry))
        × (st'.wire ≡ (
            if is_greeted conn (get_connection k.id st.registry)
            then st.wire
            else if link.delivers conn k hello
            then st.wire ++ sent_to conn k from_server hello ∷ []
            else st.wire))
        × (All (IsOver conn k.id) ms → greet link conn k later ≡ ([], later))
  unfolding get_connection
  greet-once conn k st j ms =
      let st' = (greet link conn k st).1 in
      let next = entered conn k st in
      let here : get ℕ_discrete k.id st'.registry.conns ≡ some (greeted conn) =
        ap (λ (r : Registry S). get ℕ_discrete k.id r.conns) (greet-registry conn k st)
        ∙ get-put_self ℕ_discrete k.id (greeted conn) st.registry.conns in
      let salt = add_len int0 k.auth_key.id in
      (
        get-greet conn k st j,
        ap (λ x. x.1.wire) (greet_lem conn k st)
            ∙ if_ap (λ x. x.1.wire) (is_greeted conn (get_connection k.id st.registry)) ([], next)
                (send_session_created link k salt next)
            ∙ ap (λ w. if is_greeted conn (get_connection k.id st.registry) then st.wire else w)
                (wire-send_session_created conn k salt next
                  (get-put_self ℕ_discrete k.id (greeted conn) st.registry.conns)),
        λ over. greet-again conn k (greet_all ms st') (get-greet_all conn k.id ms st' over here),
      )
