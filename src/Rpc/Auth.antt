-- ===== src/Rpc/Auth.antt =====
-- internal/rpc/auth.go: logging in by phone code and by bot token, temporary keys and logging out.
-- The random code hash, the clock and the random access hash are arguments; the answers are the users
-- that they carry.
use teled.Prelude.{
  ℕ, ◌*◌, [], ◌∷◌, ◌++◌, Option, some, none, Bool, true, false, ◌&&◌, ◌||◌, Str, codes, str_eq,
  length, keep, has_prefix, drop, trim_prefix, Int64, leb, ◌==◌, if◌then◌else◌,
}
use teled.Types.{Time, User, second, time_unix}
use teled.Memory.State.{KeyId}
use teled.Memory.Rows.{save_phone_code, phone_code, bind_temp_auth_key, unbind}
use teled.Memory.Users.{user_by_phone, create_user, bot_by_token, create_bot}
use teled.Rpc.Reply.{
  Rpc, reply, fail, ◌>>=◌, ◌>>◌, return, throw, call, look, save, phone_code_expired,
  phone_code_invalid, phone_number_occupied, access_token_invalid, encrypted_message_invalid,
}
use teled.Rpc.Caller.{effective_key_id, bind_caller}

abbrev pub dev_phone_code : Str
dev_phone_code = codes "12345"

-- Ten minutes, in nanoseconds.
abbrev pub code_ttl : ℕ
code_ttl = 600 * second

unfoldable pub is_digit : ℕ → Bool
is_digit c = leb b'0' c && leb c b'9'

-- The bytes of the digits: no other rune has a byte in their range.
unfoldable pub normalize_phone : Str → Str
unfolding is_digit
normalize_phone phone = keep is_digit phone

-- \d{4}$
abbrev pub four_digits : Str → Bool
four_digits (a ∷ b ∷ c ∷ d ∷ []) = is_digit a && is_digit b && is_digit c && is_digit d
four_digits _ = false

-- What follows 99966: the datacenter digit and four more.
unfoldable pub test_tail : Str → Option ℕ
unfolding is_digit
test_tail [] = none
test_tail (x ∷ rest) = if leb b'1' x && leb x b'9' && four_digits rest then some x else none

-- testPhoneRe, ^\+?99966([1-9])\d{4}$, and its group.
unfoldable pub test_phone : Str → Option ℕ
unfolding test_tail
test_phone phone =
    let digits = trim_prefix phone (codes "+") in
    if has_prefix digits (codes "99966") then test_tail (drop 5 digits) else none

-- phoneCode.
unfoldable pub expected_code : Str → Str
unfolding test_phone
expected_code phone = elim (test_phone phone) [
  | none ↦ dev_phone_code
  | some x ↦ x ∷ x ∷ x ∷ x ∷ x ∷ []
]

-- tg.AuthSentCode: the length of the code, its hash and the timeout in seconds.
pub record SentCode : Type 0 where
  pub length : ℕ
  pub phone_code_hash : Str
  pub timeout : ℕ

unfoldable pub auth_send_code : Str → Str → Time → Rpc SentCode
unfolding normalize_phone expected_code
auth_send_code phone_number code_hash now = do
  let phone = normalize_phone phone_number
  let code = expected_code phone
  save (save_phone_code phone code_hash code code_ttl now)
  return (record { length = length code; phone_code_hash = code_hash; timeout = 600 })

unfoldable pub check_code : Str → Str → Str → Time → Rpc (Unit {0})
check_code phone code_hash code now d = elim (phone_code phone code_hash now d) [
  | none ↦ (fail phone_code_expired, d)
  | some want ↦ if str_eq code want then (reply tt, d) else (fail phone_code_invalid, d)
]

-- tg.AuthAuthorization with its user, or tg.AuthAuthorizationSignUpRequired.
pub data Authorization : Type 0 where
  authorized : User → Authorization
  sign_up_required : Authorization

-- What follows the check of the code.
unfoldable pub sign_in_phone : Option KeyId → Str → Time → Rpc Authorization
unfolding bind_caller
sign_in_phone key phone now d = elim (user_by_phone phone d) [
  | none ↦ (reply sign_up_required, d)
  | some u ↦ (bind_caller key u.id now >> return (authorized u)) d
]

unfoldable pub auth_sign_in : Option KeyId → Str → Str → Str → Time → Rpc Authorization
unfolding normalize_phone check_code sign_in_phone
auth_sign_in key phone_number code_hash code now =
    let phone = normalize_phone phone_number in
    check_code phone code_hash code now >> sign_in_phone key phone now

unfoldable pub sign_up_phone : Option KeyId → Str → Str → Str → Int64 → Time → Rpc Authorization
unfolding bind_caller
sign_up_phone key phone first_name last_name raw now d = elim (user_by_phone phone d) [
  | some u ↦ (fail phone_number_occupied, d)
  | none ↦
      (do
        u ← call (create_user phone first_name last_name raw now)
        bind_caller key u.id now
        return (authorized u))
        d
]

unfoldable pub auth_sign_up :
    Option KeyId → Str → Str → Str → Str → Int64 → Time → Rpc Authorization
unfolding normalize_phone expected_code check_code sign_up_phone
auth_sign_up key phone_number code_hash first_name last_name raw now =
    let phone = normalize_phone phone_number in
    check_code phone code_hash (expected_code phone) now
    >> sign_up_phone key phone first_name last_name raw now

-- strings.Cut(token, ":"), none where there is no colon.
unfoldable pub cut_token : Str → Option (Str × Str)
cut_token [] = none
cut_token (c ∷ s) = elim (c == b':') [
  | true ↦ some ([], s)
  | false ↦ elim (cut_token s) [ none ↦ none | some (id, secret) ↦ some (c ∷ id, secret) ]
]

-- The account of the token, created at its first use.
unfoldable pub token_account : Str → Str → Int64 → Time → Rpc User
token_account token id raw now = do
  found ← look (bot_by_token token)
  elim found [
    | some bot ↦ return bot
    | none ↦ call (create_bot token [] (codes "Bot " ++ id) raw now)
  ]

unfoldable pub auth_import_bot_authorization : Option KeyId → Str → Int64 → Time → Rpc User
unfolding cut_token token_account bind_caller
auth_import_bot_authorization key token raw now = elim (cut_token token) [
  | none ↦ throw access_token_invalid
  | some (id, secret) ↦
      if str_eq id [] || str_eq secret []
      then throw access_token_invalid
      else (do bot ← token_account token id raw now; bind_caller key bot.id now; return bot)
]

-- perm_key is the number that the bytes of PermAuthKeyID spell.
unfoldable pub auth_bind_temp_auth_key : Option KeyId → KeyId → Int64 → Rpc Bool
auth_bind_temp_auth_key key perm_key expires_at = elim key [
  | none ↦ throw encrypted_message_invalid
  | some temp ↦ save (bind_temp_auth_key temp perm_key (time_unix expires_at)) >> return true
]

unfoldable pub auth_log_out : Option KeyId → Time → Rpc (Unit {0})
unfolding effective_key_id
auth_log_out key now d = elim key [
  | none ↦ (reply tt, d)
  | some key_id ↦ (reply tt, unbind (effective_key_id key_id now d) d)
]
