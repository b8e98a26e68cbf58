-- ===== src/Memory/Users.antt =====
-- memory/db.go, the accounts. The clock and the random access hash are arguments.
-- strings.ToLower and strings.TrimSpace, which work on Unicode, are parameters of the search.
use teled.Prelude.{
  List, [], ◌∷◌, ◌++◌, Option, none, some, Bool, true, false, ◌&&◌, ◌||◌, not, Str, str_eq, Int64,
  int0, int, inc, length, keep, some_in, sort, put, values, ltb, leb, ◌==◌, if◌then◌else◌,
  ℕ_discrete, has_prefix, contains, format_int, map, take, index, or_else,
}
use teled.Types.{
  Time, User, Result, ok, err, phone_exists, bot_token_exists, username_exists, user_not_found,
}
use teled.Memory.State.{Db, MemUser, new_user, user_of}
use teled.Memory.Messages.{find}
use teled.Memory.Updates.{gen_access_hash}

-- The loop of phoneTaken, usernameTaken and tokenTaken, behind their test for the empty string.
unfoldable pub taken : (MemUser → Str) → Str → Db → Bool
unfolding some_in
taken field s d =
    if str_eq s [] then false else some_in (λ mu. str_eq (field mu) s) (values d.users)

abbrev pub phone_taken : Str → Db → Bool
phone_taken = taken (λ mu. mu.u.phone)

abbrev pub username_taken : Str → Db → Bool
username_taken = taken (λ mu. mu.u.username)

abbrev pub token_taken : Str → Db → Bool
token_taken = taken (λ mu. mu.u.bot_token)

-- d.userSeq++ and the store of the new account under its id.
abbrev pub store_user : MemUser → Db → Db
store_user mu d = record d { user_seq = mu.u.id; users = put ℕ_discrete mu.u.id mu d.users }

abbrev pub blank_user : Int64 → Int64 → Time → User
blank_user id hash now = record {
  id = id;
  access_hash = hash;
  phone = [];
  username = [];
  first_name = [];
  last_name = [];
  about = [];
  is_bot = false;
  bot_token = [];
  created_at = now;
}

-- The three struct literals, for the next id.
unfoldable pub human : Str → Str → Str → Int64 → Time → Db → User
unfolding gen_access_hash
human phone first_name last_name raw now d =
    record (blank_user (inc d.user_seq) (gen_access_hash raw) now) {
      phone = phone;
      first_name = first_name;
      last_name = last_name;
    }

unfoldable pub bot : Str → Str → Str → Int64 → Time → Db → User
unfolding gen_access_hash
bot token username first_name raw now d =
    record (blank_user (inc d.user_seq) (gen_access_hash raw) now) {
      username = username;
      first_name = first_name;
      is_bot = true;
      bot_token = token;
    }

-- The token that CreateOwnedBot mints, "<bot_id>:<secret>".
unfoldable pub minted_token : Int64 → Str → Str
unfolding format_int
minted_token id secret = format_int id ++ b':' ∷ secret

unfoldable pub create_user : Str → Str → Str → Int64 → Time → Db → Result (User × Db)
unfolding taken human
create_user phone first_name last_name raw now d =
    let u = human phone first_name last_name raw now d in
    if phone_taken phone d then err (phone_exists phone) else ok (u, store_user (new_user u) d)

unfoldable pub create_bot : Str → Str → Str → Int64 → Time → Db → Result (User × Db)
unfolding taken bot
create_bot token username first_name raw now d =
    let u = bot token username first_name raw now d in
    if token_taken token d
    then err bot_token_exists
    else if username_taken username d
    then err (username_exists username)
    else ok (u, store_user (new_user u) d)

unfoldable pub create_owned_bot : Str → Str → Int64 → Str → Int64 → Time → Db → Result (User × Db)
unfolding taken bot minted_token
create_owned_bot username first_name owner_id secret raw now d =
    let u = bot (minted_token (inc d.user_seq) secret) username first_name raw now d in
    if username_taken username d
    then err (username_exists username)
    else ok (u, store_user (record (new_user u) { bot_owner_id = owner_id }) d)

-- mu.u = u, for the account mu stored under id.
abbrev pub replace_user : Int64 → MemUser → User → Db → Db
replace_user id mu u d = record d { users = put ℕ_discrete id (record mu { u = u }) d.users }

unfoldable pub set_bot_token : Int64 → Str → Db → Db
set_bot_token bot_id token d = elim (user_of d bot_id) [
  | none ↦ d
  | some mu ↦
      if mu.u.is_bot then replace_user bot_id mu (record mu.u { bot_token = token }) d else d
]

-- The account of the first row that passes the test, in map order.
abbrev pub user_where : (MemUser → Bool) → Db → Option User
user_where test d = elim (find test (values d.users)) [ none ↦ none | some mu ↦ some mu.u ]

unfoldable pub bot_by_token : Str → Db → Option User
unfolding find
bot_by_token token d = user_where (λ mu. mu.u.is_bot && str_eq mu.u.bot_token token) d

abbrev pub by_id : User → User → Bool
by_id a b = ltb a.id b.id

unfoldable pub bots_by_owner : Int64 → Db → List User
bots_by_owner owner_id d =
    sort by_id (map (λ mu. mu.u) (keep (λ mu. mu.bot_owner_id == owner_id) (values d.users)))

unfoldable pub user_by_id : Int64 → Db → Option User
user_by_id id d = elim (user_of d id) [ none ↦ none | some mu ↦ some mu.u ]

unfoldable pub user_by_phone : Str → Db → Option User
unfolding find
user_by_phone phone d = user_where (λ mu. str_eq mu.u.phone phone) d

unfoldable pub user_by_username : Str → Db → Option User
unfolding find
user_by_username username d = user_where (λ mu. str_eq mu.u.username username) d

-- A nil pointer leaves the field as it is.
unfoldable pub set_profile : Int64 → Option Str → Option Str → Option Str → Db → Result (User × Db)
set_profile user_id first_name last_name about d = elim (user_of d user_id) [
  | none ↦ err (user_not_found user_id)
  | some mu ↦
      let u : User = record mu.u {
        first_name = or_else first_name mu.u.first_name;
        last_name = or_else last_name mu.u.last_name;
        about = or_else about mu.u.about;
      } in
      ok (u, replace_user user_id mu u d)
]

-- The loop of SetUsername over the other accounts.
abbrev pub clashes : Int64 → Str → Db → Bool
clashes user_id username d =
    not (str_eq username [])
    && some_in (λ e. not (e.0 == user_id) && str_eq e.1.u.username username) d.users

unfoldable pub set_username : Int64 → Str → Db → Result (User × Db)
unfolding some_in
set_username user_id username d = elim (user_of d user_id) [
  | none ↦ err (user_not_found user_id)
  | some mu ↦
      if clashes user_id username d
      then err (username_exists username)
      else (let u : User = record mu.u { username = username } in
          ok (u, replace_user user_id mu u d))
]

unfoldable pub users_by_ids : List Int64 → Db → List User
users_by_ids [] d = []
users_by_ids (id ∷ ids) d = elim (user_of d id) [
  | none ↦ users_by_ids ids d
  | some mu ↦ mu.u ∷ users_by_ids ids d
]

module _ (to_lower trim_space : Str → Str) where
  abbrev pub user_matches : Str → User → Bool
  user_matches query u =
      has_prefix (to_lower u.username) query
      || contains (to_lower u.first_name) query
      || contains (to_lower u.last_name) query

  unfoldable pub search_users : Str → Int64 → Db → List User
  unfolding has_prefix contains
  search_users query limit d =
      let q = to_lower (trim_space query) in
      let n = if leb limit int0 then int 20 else limit in
      let found = sort by_id (keep (user_matches q) (map (λ mu. mu.u) (values d.users))) in
      if str_eq q []
      then []
      else (if ltb n (int (length found)) then take (index n) found else found)
