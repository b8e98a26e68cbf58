-- ===== src/Rpc/Login.antt =====
-- internal/rpc/auth.go, authSignIn and authSignUp: whoever shows the code that was sent is the caller.
use teled.Prelude.{
  ◌+◌, ◌<◌, ◌≡◌, inl, inr, refl, ◌∙◌, arith, List, [], ◌∷◌, Option, some, none, Bool, false, Str,
  str_eq, Int64, get-put_self, ℕ_discrete, some_in, values, Bool-cases,
}
use teled.Types.{Time, User, ok}
use teled.Memory.State.{Db, KeyId, MemUser, new_user}
use teled.Memory.Rows.{save_phone_code}
use teled.Memory.Users.{
  user_by_id, user_by_phone, create_user, human, store_user, taken, phone_taken,
}
use teled.Memory.Messages.{find}
use teled.Rpc.Reply.{bind-replies, reply, ◌>>◌, call, return}
use teled.Rpc.Caller.{caller_user, bind_caller}
use teled.Rpc.Auth.{
  normalize_phone, expected_code, code_ttl, auth_send_code, check_code, auth_sign_in, auth_sign_up,
  sign_in_phone, sign_up_phone, authorized,
}
use teled.Rpc.Codes.{code-accepted}
use teled.Rpc.Keys.{bind_caller_user}

-- Signing in with the code that was sent, while it is fresh, to a phone number with an account,
-- which is stored under its id, answers that account, and the account is then the caller's.
pub caller_user-auth_sign_in :
    (key_id : KeyId) (phone_number code_hash : Str) (sent now : Time) (d : Db) (u : User)
    → now < sent + code_ttl
    → user_by_phone (normalize_phone phone_number) d ≡ some u
    → user_by_id u.id d ≡ some u
    → let d₁ = (auth_send_code phone_number code_hash sent d).1 in
      let code = expected_code (normalize_phone phone_number) in
      (d₂ : Db) × (auth_sign_in (some key_id) phone_number code_hash code now d₁
        ≡ (reply (authorized u), d₂))
      × (caller_user (some key_id) now d₂ ≡ some u)
unfolding auth_send_code save_phone_code user_by_phone user_by_id auth_sign_in sign_in_phone
    bind_caller
caller_user-auth_sign_in key_id phone_number code_hash sent now d u early found row =
    let phone = normalize_phone phone_number in
    let d₁ = (auth_send_code phone_number code_hash sent d).1 in
    let accepted = code-accepted phone_number code_hash sent now d early in
    (
      (bind_caller (some key_id) u.id now d₁).1,
      bind-replies (check_code phone code_hash (expected_code phone) now)
            (λ _. sign_in_phone (some key_id) phone now) d₁ d₁ tt accepted
          ∙ rw (found, sign_in_phone) refl,
      bind_caller_user key_id u.id now d₁ u row,
    )

user_by_id-store_user : (u : User) (d : Db) → user_by_id u.id (store_user (new_user u) d) ≡ some u
unfolding user_by_id
user_by_id-store_user u d = rw (get-put_self ℕ_discrete u.id (new_user u) d.users, user_by_id) refl

find-none :
    (test : MemUser → Bool) (rows : List MemUser)
    → find test rows ≡ none
    → some_in test rows ≡ false
unfolding find some_in
find-none test [] e = refl
find-none test (mu ∷ rows) e = elim (Bool-cases (test mu)) [
  | inl yes_test ↦ ground (arith, find-none test rows)
  | inr no_test ↦ ground (arith, find-none test rows)
]

pub shown-none :
    (o : Option MemUser) → elim o [ none ↦ none | some mu ↦ some mu.u ] ≡ none → o ≡ none
shown-none none e = refl
shown-none (some mu) e = cc

-- A value of a unique column that no account is found by is free.
pub taken-found :
    (column : MemUser → Str) (s : Str) (d : Db)
    → elim (find (λ mu. str_eq (column mu) s) (values d.users)) [
      | none ↦ none
      | some mu ↦ some mu.u
    ]
      ≡ none
    → taken column s d ≡ false
unfolding taken
taken-found column s d free =
    let test : MemUser → Bool = λ mu. str_eq (column mu) s in
    let no_one = find-none test (values d.users) (shown-none (find test (values d.users)) free) in
    elim (Bool-cases (str_eq s [])) [ inl e ↦ rw (e, taken) refl | inr e ↦ rw (e, taken) no_one ]

taken-user_by_phone :
    (phone : Str) (d : Db) → user_by_phone phone d ≡ none → phone_taken phone d ≡ false
unfolding user_by_phone
taken-user_by_phone phone d free = taken-found (λ mu. mu.u.phone) phone d free

create_user-free :
    (phone first_name last_name : Str) (raw : Int64) (now : Time) (d : Db)
    → phone_taken phone d ≡ false
    → let u = human phone first_name last_name raw now d in
      create_user phone first_name last_name raw now d ≡ ok (u, store_user (new_user u) d)
unfolding create_user
create_user-free phone first_name last_name raw now d free = rw free refl

sign_up_phone-lem :
    (key_id : KeyId) (phone first_name last_name : Str) (raw : Int64) (now : Time) (d : Db)
    → user_by_phone phone d ≡ none
    → let u = human phone first_name last_name raw now d in
      sign_up_phone (some key_id) phone first_name last_name raw now d
      ≡ (reply (authorized u), (bind_caller (some key_id) u.id now (store_user (new_user u) d)).1)
unfolding sign_up_phone bind_caller
sign_up_phone-lem key_id phone first_name last_name raw now d free =
    let u = human phone first_name last_name raw now d in
    let d' = store_user (new_user u) d in
    let m = call (create_user phone first_name last_name raw now) in
    let made : m d ≡ (reply u, d') =
      rw
        (
          create_user-free phone first_name last_name raw now d (taken-user_by_phone phone d free),
          call,
        )
        refl in
    rw (free, sign_up_phone)
      (bind-replies m (λ v. bind_caller (some key_id) v.id now >> return (authorized v)) d d' u
        made)

-- Signing up for a phone number without an account, while the code that was sent for it is fresh,
-- creates an account with this phone number, which is then the caller's.
pub caller_user-auth_sign_up :
    (key_id : KeyId) (phone_number code_hash first_name last_name : Str) (raw : Int64)
    (sent now : Time) (d : Db)
    → now < sent + code_ttl
    → user_by_phone (normalize_phone phone_number) d ≡ none
    → let d₁ = (auth_send_code phone_number code_hash sent d).1 in
      (u : User) × (d₂ : Db) × (auth_sign_up
          (some key_id)
          phone_number
          code_hash
          first_name
          last_name
          raw
          now
          d₁
        ≡ (reply (authorized u), d₂))
      × (u.phone ≡ normalize_phone phone_number)
      × (caller_user (some key_id) now d₂ ≡ some u)
unfolding auth_send_code save_phone_code user_by_phone auth_sign_up human
caller_user-auth_sign_up key_id phone_number code_hash first_name last_name raw sent now d early
      free =
    let phone = normalize_phone phone_number in
    let d₁ = (auth_send_code phone_number code_hash sent d).1 in
    let accepted = code-accepted phone_number code_hash sent now d early in
    let u = human phone first_name last_name raw now d₁ in
    let d' = store_user (new_user u) d₁ in
    (
      u,
      (bind_caller (some key_id) u.id now d').1,
      bind-replies (check_code phone code_hash (expected_code phone) now)
            (λ _. sign_up_phone (some key_id) phone first_name last_name raw now) d₁ d₁ tt accepted
          ∙ sign_up_phone-lem key_id phone first_name last_name raw now d₁ free,
      refl,
      bind_caller_user key_id u.id now d' u (user_by_id-store_user u d₁),
    )
