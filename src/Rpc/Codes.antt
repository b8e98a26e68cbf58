-- ===== src/Rpc/Codes.antt =====
-- internal/rpc/auth.go, authSendCode and checkCode: a code that was sent opens the door that it was
-- sent for, for ten minutes, and no other.
use teled.Prelude.{
  ℕ, ◌+◌, ◌<◌, ◌≡◌, ◌≢◌, inl, inr, refl, sym, ap, ◌∙◌, arith, [], ◌∷◌, ◌++◌, Option, some, none,
  Bool, true, false, Str, str_eq, str_eq_refl, ltb, if◌then◌else◌, keep, All, Option-cases,
  Option-cases, Bool-cases, lt→ltb,
}
use teled.Types.{Time}
use teled.Memory.State.{Db}
use teled.Memory.Rows.{phone_code, phone_code_key}
use teled.Memory.Rows.Lookup.{phone_code-save_phone_code_self, phone_code-save_phone_code_ne}
use teled.Rpc.Reply.{Reply, reply, fail, phone_code_expired, phone_code_invalid}
use teled.Rpc.Auth.{is_digit, normalize_phone, expected_code, code_ttl, auth_send_code, check_code}

check_code-lem :
    (phone code_hash code : Str) (now : Time) (d : Db) (early : Bool) (want : Str)
    → phone_code phone code_hash now d ≡ (if early then some want else none)
    → check_code phone code_hash code now d ≡ (
      if early
          then (if str_eq code want then reply tt else fail phone_code_invalid)
          else fail phone_code_expired,
      d,
    )
unfolding check_code
check_code-lem phone code_hash code now d true want e = elim (Bool-cases (str_eq code want)) [
  | inl right ↦ rw (e, check_code) (rw right refl)
  | inr wrong ↦ rw (e, check_code) (rw wrong refl)
]
check_code-lem phone code_hash code now d false want e = rw (e, check_code) refl

-- A code that auth.sendCode issued is accepted, for its phone number and hash, before it is ten minutes
-- old; another code is answered with PHONE_CODE_INVALID then, and after the ten minutes every code
-- with PHONE_CODE_EXPIRED. The check changes nothing.
pub check_code-auth_send_code :
    (phone_number code_hash code : Str) (sent now : Time) (d : Db)
    → let d' = (auth_send_code phone_number code_hash sent d).1 in
      let phone = normalize_phone phone_number in
      check_code phone code_hash code now d' ≡ (
        if ltb now (sent + code_ttl)
            then (if str_eq code (expected_code phone) then reply tt else fail phone_code_invalid)
            else fail phone_code_expired,
        d',
      )
unfolding auth_send_code
check_code-auth_send_code phone_number code_hash code sent now d =
    check_code-lem _ code_hash code now _ _ _ (
      phone_code-save_phone_code_self (normalize_phone phone_number) code_hash
        (expected_code (normalize_phone phone_number)) code_ttl sent now d)

pub code-accepted :
    (phone_number code_hash : Str) (sent now : Time) (d : Db)
    → now < sent + code_ttl
    → let d' = (auth_send_code phone_number code_hash sent d).1 in
      let phone = normalize_phone phone_number in
      check_code phone code_hash (expected_code phone) now d' ≡ (reply tt, d')
code-accepted phone_number code_hash sent now d early =
    let phone = normalize_phone phone_number in
    let d' = (auth_send_code phone_number code_hash sent d).1 in
    check_code-auth_send_code phone_number code_hash (expected_code phone) sent now d
    ∙ ap
        (λ b. (
          if b
              then (if str_eq (expected_code phone) (expected_code phone)
                  then reply tt
                  else fail phone_code_invalid)
              else fail phone_code_expired,
          d',
        ))
        (lt→ltb now (sent + code_ttl) early)
    ∙ ap (λ b. (if b then reply tt else fail phone_code_invalid, d'))
        (str_eq_refl (expected_code phone))

-- A digit is not the zero byte.
digit-NonZero : (c : ℕ) → is_digit c ≡ true → c ≢ 0
unfolding is_digit
digit-NonZero c h e = ground arith

abbrev NoZero : Str → Type 0
NoZero = All (λ c. c ≢ 0)

normalize_phone-NoZero : (phone : Str) → NoZero (normalize_phone phone)
unfolding normalize_phone keep
normalize_phone-NoZero [] = tt
normalize_phone-NoZero (c ∷ phone) = elim (Bool-cases (is_digit c)) [
  | inl e ↦ rw e (digit-NonZero c e, normalize_phone-NoZero phone)
  | inr e ↦ rw e (normalize_phone-NoZero phone)
]

-- The key of a code tells the phone number and the hash apart.
phone_code_key-injective :
    (p q h k : Str)
    → NoZero p
    → NoZero q
    → phone_code_key p h ≡ phone_code_key q k
    → (p ≡ q) × (h ≡ k)
unfolding phone_code_key
phone_code_key-injective [] [] h k np nq e = (refl, cc)
phone_code_key-injective [] (b ∷ q) h k np nq e =
    let e' : 0 ∷ h ≡ b ∷ (q ++ 0 ∷ k) = e in absurd (nq.0 cc)
phone_code_key-injective (a ∷ p) [] h k np nq e =
    let e' : a ∷ (p ++ 0 ∷ h) ≡ 0 ∷ k = e in absurd (np.0 cc)
phone_code_key-injective (a ∷ p) (b ∷ q) h k np nq e =
    let e' : a ∷ (p ++ 0 ∷ h) ≡ b ∷ (q ++ 0 ∷ k) = e in
    let rest = phone_code_key-injective p q h k np.1 nq.1 cc in
    let same : a ≡ b = cc in (cc (same, rest.0), rest.1)

-- What checkCode answers for the stored code.
abbrev judge : Str → Option Str → Reply (Unit {0})
judge code none = fail phone_code_expired
judge code (some want) = if str_eq code want then reply tt else fail phone_code_invalid

check_code-judge :
    (phone code_hash code : Str) (now : Time) (d : Db)
    → (check_code phone code_hash code now d).0 ≡ judge code (phone_code phone code_hash now d)
unfolding check_code
check_code-judge phone code_hash code now d =
    elim (Option-cases (phone_code phone code_hash now d)) [
      | inl e ↦ rw (e, check_code) refl
      | inr (want, e) ↦ elim (Bool-cases (str_eq code want)) [
        | inl right ↦ rw (e, check_code) (rw right refl)
        | inr wrong ↦ rw (e, check_code) (rw wrong refl)
      ]
    ]

-- Sending a code changes nothing for another phone number or another hash: whatever code is shown for
-- them is judged as before.
pub check_code-auth_send_code_apart :
    (phone_number other_number code_hash other_hash code : Str) (sent now : Time) (d : Db)
    → ((normalize_phone other_number ≡ normalize_phone phone_number) → (other_hash ≢ code_hash))
    → (check_code
        (normalize_phone other_number)
        other_hash
        code
        now
        (auth_send_code phone_number code_hash sent d).1).0
      ≡ (check_code (normalize_phone other_number) other_hash code now d).0
unfolding auth_send_code
check_code-auth_send_code_apart phone_number other_number code_hash other_hash code sent now d
      apart =
    let phone = normalize_phone phone_number in
    let other = normalize_phone other_number in
    let kept =
      phone_code-save_phone_code_ne phone other code_hash other_hash (expected_code phone) code_ttl
        sent now d
        (λ e.
          let same =
            phone_code_key-injective other phone other_hash code_hash
              (normalize_phone-NoZero other_number) (normalize_phone-NoZero phone_number) e in
          apart same.0 same.1) in
    check_code-judge other other_hash code now (auth_send_code phone_number code_hash sent d).1
    ∙ ap (judge code) kept
    ∙ sym (check_code-judge other other_hash code now d)
