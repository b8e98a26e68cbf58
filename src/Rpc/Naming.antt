-- ===== src/Rpc/Naming.antt =====
-- internal/rpc/account.go and messages.go: a username that was set resolves to its account and is refused to others.
use teled.Prelude.{
  ◌≡◌, ◌≢◌, ==_false, subst, refl, sym, ap, ◌∙◌, arith, inl, inr, [], ◌∷◌, some, none, Bool, true,
  false, not, ◌&&◌, ◌==◌, Str, str_eq, str_eq_refl, Int64, Map, values, put, some_in, ℕ_discrete,
  Bool-cases,
}
use teled.Types.{User, ok}
use teled.Memory.State.{Db, MemUser, user_of}
use teled.Memory.Messages.{find}
use teled.Memory.Users.{user_by_username, set_username, replace_user}
use teled.Rpc.Reply.{
  Exec, reply, fail, call, look, bind-replies, bind-fails, username_not_occupied, ◌>>=◌, ◌>>◌,
  username_occupied,
}
use teled.Rpc.Login.{shown-none}
use teled.Rpc.Caller.{caller_user}
use teled.Rpc.Server.{Context, TgUser, Server, on_db, seen_by}
use teled.Rpc.Server.Calls.{bind-caller_of, bind-call}
use teled.Rpc.Messages.{contacts_resolve_username}
use teled.Rpc.Account.{username_matches, claimable, allow_username, account_update_username}

find-put :
    (test : MemUser → Bool) (k : Int64) (mu : MemUser) (rows : Map Int64 MemUser)
    → find test (values rows) ≡ none
    → test mu ≡ true
    → find test (values (put ℕ_discrete k mu rows)) ≡ some mu
unfolding find put
find-put test k mu [] free this = rw (this, find) refl
find-put test k mu ((j, w) ∷ rows) free this = elim (Bool-cases (test w)) [
  | inl hit ↦ ground arith
  | inr miss ↦ ground (arith, find-put test k mu rows)
]

some_in-free :
    (test : MemUser → Bool) (k : Int64) (rows : Map Int64 MemUser)
    → find test (values rows) ≡ none
    → some_in (λ e. not (e.0 == k) && test e.1) rows ≡ false
unfolding find some_in
some_in-free test k [] free = refl
some_in-free test k ((j, w) ∷ rows) free = elim (Bool-cases (test w)) [
  | inl hit ↦ ground arith
  | inr miss ↦ ground (arith, some_in-free test k rows)
]

nonempty : (name : Str) → username_matches name ≡ true → str_eq name [] ≡ false
unfolding username_matches
nonempty [] e = ground arith
nonempty (x ∷ xs) e = refl

abbrev renamed : MemUser → Str → User
renamed mu name = record mu.u { username = name }

abbrev named_db : Int64 → MemUser → Str → Db → Db
named_db id mu name d = replace_user id mu (renamed mu name) d

find-free :
    (name : Str) (d : Db)
    → user_by_username name d ≡ none
    → find (λ mu. str_eq mu.u.username name) (values d.users) ≡ none
unfolding user_by_username
find-free name d free = shown-none (find (λ mu. str_eq mu.u.username name) (values d.users)) free

set_username-free :
    (id : Int64) (name : Str) (d : Db) (mu : MemUser)
    → user_of d id ≡ some mu
    → user_by_username name d ≡ none
    → set_username id name d ≡ ok (renamed mu name, named_db id mu name d)
unfolding set_username
set_username-free id name d mu e free =
    let apart = some_in-free (λ w. str_eq w.u.username name) id d.users (find-free name d free) in
    elim (Bool-cases (str_eq name [])) [
      | inl blank ↦ rw (e, blank, set_username) refl
      | inr full ↦ rw (e, full, apart, set_username) refl
    ]

user_by_username-named :
    (id : Int64) (name : Str) (d : Db) (mu : MemUser)
    → user_by_username name d ≡ none
    → user_by_username name (named_db id mu name d) ≡ some (renamed mu name)
unfolding user_by_username
user_by_username-named id name d mu free =
    let new : MemUser = record mu { u = renamed mu name } in
    ap (λ o. elim o [ none ↦ none | some w ↦ some w.u ])
      (find-put (λ w. str_eq w.u.username name) id new d.users (find-free name d free)
        (str_eq_refl name))

allow_username-free :
    (caller : User) (name : Str) (h : Server)
    → username_matches name ≡ true
    → str_eq name caller.username ≡ false
    → user_by_username name h.db ≡ none
    → allow_username caller name h ≡ (reply tt, h)
unfolding allow_username claimable
allow_username-free caller name h fine other free =
    rw (nonempty name fine, fine, other, free, allow_username, claimable) refl

allow_username-taken :
    (rival u : User) (name : Str) (h : Server)
    → username_matches name ≡ true
    → str_eq name rival.username ≡ false
    → user_by_username name h.db ≡ some u
    → u.id ≢ rival.id
    → allow_username rival name h ≡ (fail username_occupied, h)
unfolding allow_username claimable
allow_username-taken rival u name h fine other found differ =
    rw
      (
        nonempty name fine,
        fine,
        other,
        found,
        ==_false u.id rival.id differ,
        allow_username,
        claimable,
      )
      refl

update_lem :
    (c : Context) (name : Str) (h : Server) (caller : User) (mu : MemUser)
    → caller_user c.key c.now h.db ≡ some caller
    → user_of h.db caller.id ≡ some mu
    → username_matches name ≡ true
    → str_eq name caller.username ≡ false
    → user_by_username name h.db ≡ none
    → let h' : Server = record h { db = named_db caller.id mu name h.db } in
      account_update_username c name h ≡ (reply (seen_by c h' (renamed mu name) true), h')
unfolding account_update_username
update_lem c name h caller mu me row fine other free =
    let shown : User → Exec Server TgUser = λ updated. look (λ s. seen_by c s updated true) in
    let set : User → Exec Server TgUser = λ u. on_db (call (set_username u.id name)) >>= shown in
    bind-caller_of c (λ u. allow_username u name >> set u) h caller me
    ∙ bind-replies (allow_username caller name) (λ _. set caller) h h tt
        (allow_username-free caller name h fine other free)
    ∙ bind-call (set_username caller.id name) shown h (named_db caller.id mu name h.db)
        (renamed mu name) (set_username-free caller.id name h.db mu row free)

resolve_lem :
    (c : Context) (name : Str) (h : Server) (u : User)
    → user_by_username name h.db ≡ some u
    → contacts_resolve_username c name h ≡ (reply (u.id, seen_by c h u false), h)
unfolding contacts_resolve_username
resolve_lem c name h u e =
    ap
      (λ o. elim o [
        | none ↦ (fail username_not_occupied, h)
        | some w ↦ (reply (w.id, seen_by c h w false), h)
      ])
      e

refused_lem :
    (c : Context) (name : Str) (h : Server) (rival u : User)
    → caller_user c.key c.now h.db ≡ some rival
    → username_matches name ≡ true
    → str_eq name rival.username ≡ false
    → user_by_username name h.db ≡ some u
    → u.id ≢ rival.id
    → account_update_username c name h ≡ (fail username_occupied, h)
unfolding account_update_username
refused_lem c name h rival u me fine other found differ =
    let set : User → Exec Server TgUser = λ w.
      on_db (call (set_username w.id name)) >>= λ updated. look (λ s. seen_by c s updated true) in
    bind-caller_of c (λ w. allow_username w name >> set w) h rival me
    ∙ bind-fails (allow_username rival name) (λ _. set rival) h h username_occupied
        (allow_username-taken rival u name h fine other found differ)

-- A caller whose account is stored under its id sets a well-formed username that no account has and that differs
-- from its own. The call answers the account with the username, the username then resolves to that account, and
-- another account that is logged in and does not have it is refused it as occupied, with nothing changed.
pub contacts_resolve_username-account_update_username :
    (c : Context) (name : Str) (h : Server) (caller : User) (mu : MemUser) (c' : Context)
    (rival : User)
    → caller_user c.key c.now h.db ≡ some caller
    → user_of h.db caller.id ≡ some mu
    → username_matches name ≡ true
    → str_eq name caller.username ≡ false
    → user_by_username name h.db ≡ none
    → caller_user c'.key c'.now (account_update_username c name h).1.db ≡ some rival
    → mu.u.id ≢ rival.id
    → str_eq name rival.username ≡ false
    → let h' = (account_update_username c name h).1 in
      let u : User = record mu.u { username = name } in
      (account_update_username c name h ≡ (reply (seen_by c h' u true), h'))
      × (contacts_resolve_username c' name h' ≡ (reply (mu.u.id, seen_by c' h' u false), h'))
      × (account_update_username c' name h' ≡ (fail username_occupied, h'))
unfolding account_update_username contacts_resolve_username
contacts_resolve_username-account_update_username c name h caller mu c' rival me row fine other free
      them differ theirs =
    let h₁ : Server = record h { db = named_db caller.id mu name h.db } in
    let u = renamed mu name in
    let found = user_by_username-named caller.id name h.db mu free in
    let e = update_lem c name h caller mu me row fine other free in
    let after : h₁ ≡ (account_update_username c name h).1 = sym (ap (λ x. x.1) e) in
    let q =
      subst
        (λ x.
          (account_update_username c name h ≡ (reply (seen_by c x u true), x))
          × (contacts_resolve_username c' name x ≡ (reply (mu.u.id, seen_by c' x u false), x))
          × (account_update_username c' name x ≡ (fail username_occupied, x)))
        after
        (
          e,
          resolve_lem c' name h₁ u found,
          refused_lem c' name h₁ rival u
              (ap (λ (x : Server). caller_user c'.key c'.now x.db) after ∙ them) fine theirs found
              differ,
        ) in
    q
