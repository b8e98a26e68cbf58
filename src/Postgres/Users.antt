-- ===== src/Postgres/Users.antt =====
-- internal/db/user.go: the accounts. ILIKE and strings.TrimSpace are parameters of the search.
-- A random access hash is an argument, as the int64 that the eight random bytes spell.
use teled.Prelude.{
  List, [], ◌∷◌, ◌++◌, Option, none, some, Bool, true, false, ◌&&◌, ◌||◌, not, Str, str_eq, Int64,
  int0, int, inc, index, take, map, keep, some_in, sort, leb, ◌==◌, or_else, if◌then◌else◌,
}
use teled.Types.{Time, User, user_not_found}
use teled.Memory.Messages.{find}
use teled.Memory.Users.{by_id, minted_token}
use teled.Postgres.Tables.{UserRow, Tables, default_user}
use teled.Postgres.Sql.{
  Fault, duplicate_key, missing_parent, no_rows, out_of_range, reported, done, fault, Sql, give,
  ask, write, check, ◌>>=◌, ◌>>◌, reach, transaction, update, add_row, max_int,
}
use teled.Postgres.Messages.{user_row, has_user, update_user}
use teled.Postgres.Revisions.{scan_or}
use teled.Postgres.Updates.{gen_access_hash}

-- userColumns and scanUser: a NULL text is read as the empty one.
abbrev pub scan_user : UserRow → User
scan_user u = record {
  id = u.id;
  access_hash = u.access_hash;
  phone = or_else u.phone [];
  username = or_else u.username [];
  first_name = u.first_name;
  last_name = u.last_name;
  about = u.about;
  is_bot = u.is_bot;
  bot_token = or_else u.bot_token [];
  created_at = u.created_at;
}

-- Two columns hold the same text; a NULL is the same as nothing.
abbrev pub same_text : Option Str → Option Str → Bool
same_text none b = false
same_text (some s) none = false
same_text (some s) (some t) = str_eq s t

-- The UNIQUE columns of users, id apart.
abbrev pub clashes : UserRow → UserRow → Bool
clashes u q =
    same_text u.phone q.phone
    || same_text u.username q.username
    || same_text u.bot_token q.bot_token

-- nextval of the sequence of users.id.
unfoldable pub next_user : Sql Int64
next_user s =
    let last = s.sequences.users in
    if last == max_int
    then (fault out_of_range, s)
    else (done (inc last), record s { sequences = record s.sequences { users = inc last } })

-- A nullable foreign key to users.
abbrev pub has_owner : Option Int64 → Tables → Bool
has_owner none t = true
has_owner (some id) t = has_user id t

-- INSERT INTO users, with the columns that `fill` sets on the defaults.
unfoldable pub insert_user : (UserRow → UserRow) → Int64 → Time → Sql UserRow
unfolding reach next_user some_in gen_access_hash
insert_user fill raw now = do
  reach
  id ← next_user
  let u = fill (default_user id (gen_access_hash raw) now)
  check duplicate_key (λ t. not (some_in (λ q. (q.id == id) || clashes u q) t.users))
  check missing_parent (has_owner u.bot_owner_id)
  write (λ t. record t { users = add_row u t.users })
  give u

-- UPDATE users SET ... WHERE id = $2 RETURNING, where `e` is the error for no row.
unfoldable pub set_user : Fault → Int64 → (UserRow → UserRow) → Sql User
unfolding reach scan_or user_row some_in
set_user e id f = do
  reach
  u ← scan_or e (user_row id)
  check duplicate_key (λ t. not (some_in (λ q. not (q.id == id) && clashes (f u) q) t.users))
  write (update_user id f)
  give (scan_user (f u))

unfoldable pub create_user : Str → Str → Str → Int64 → Time → Sql User
unfolding insert_user
create_user phone first_name last_name raw now = do
  u ←
      insert_user
        (λ u. record u { phone = some phone; first_name = first_name; last_name = last_name }) raw
        now
  give (scan_user u)

-- A text column that stays NULL for the empty text.
abbrev pub text_or_null : Str → Option Str
text_or_null s = if str_eq s [] then none else some s

unfoldable pub create_bot : Str → Str → Str → Int64 → Time → Sql User
unfolding insert_user
create_bot token username first_name raw now = do
  u ←
      insert_user
        (λ u. record u {
          bot_token = some token;
          username = text_or_null username;
          first_name = first_name;
          is_bot = true;
        })
        raw now
  give (scan_user u)

-- The statements of CreateOwnedBot between Begin and Commit.
unfoldable pub bot_statements : Str → Str → Int64 → Str → Int64 → Time → Sql User
unfolding insert_user set_user minted_token
bot_statements username first_name owner_id secret raw now = do
  u ←
      insert_user
        (λ u. record u {
          username = some username;
          first_name = first_name;
          is_bot = true;
          bot_owner_id = some owner_id;
        })
        raw now
  set_user no_rows u.id (λ v. record v { bot_token = some (minted_token u.id secret) })

unfoldable pub create_owned_bot : Str → Str → Int64 → Str → Int64 → Time → Sql User
unfolding transaction bot_statements
create_owned_bot username first_name owner_id secret raw now =
    transaction (bot_statements username first_name owner_id secret raw now)

-- UPDATE users SET bot_token = $1 WHERE id = $2 AND is_bot, which may touch no row.
unfoldable pub set_bot_token : Int64 → Str → Sql (Unit {0})
unfolding reach update find some_in
set_bot_token bot_id token =
    let own = λ (u : UserRow). (u.id == bot_id) && u.is_bot in
    do
      reach
      check duplicate_key (λ t. not (
          some_in own t.users
          && some_in (λ q. not (q.id == bot_id) && same_text (some token) q.bot_token) t.users))
      write
          (λ t. record t { users = update own (λ u. record u { bot_token = some token }) t.users })

-- QueryRow of userBy: the first row that passes, or none.
unfoldable pub user_by : (UserRow → Bool) → Sql (Option User)
unfolding reach find
user_by test = do
  reach
  ask (λ t. elim (find test t.users) [ none ↦ none | some u ↦ some (scan_user u) ])

unfoldable pub user_by_id : Int64 → Sql (Option User)
unfolding user_by
user_by_id id = user_by (λ u. u.id == id)

unfoldable pub user_by_phone : Str → Sql (Option User)
unfolding user_by
user_by_phone phone = user_by (λ u. same_text (some phone) u.phone)

unfoldable pub user_by_username : Str → Sql (Option User)
unfolding user_by
user_by_username username = user_by (λ u. same_text (some username) u.username)

unfoldable pub bot_by_token : Str → Sql (Option User)
unfolding user_by
bot_by_token token = user_by (λ u. same_text (some token) u.bot_token)

abbrev pub owned_by : Int64 → UserRow → Bool
owned_by owner_id u = elim u.bot_owner_id [ none ↦ false | some id ↦ id == owner_id ]

unfoldable pub bots_by_owner : Int64 → Sql (List User)
unfolding reach
bots_by_owner owner_id = do
  reach
  ask (λ t. sort by_id (map scan_user (keep (owned_by owner_id) t.users)))

-- With no field to set, the account is only read.
unfoldable pub set_profile : Int64 → Option Str → Option Str → Option Str → Sql User
unfolding reach user_row scan_or set_user
set_profile user_id none none none = do
  reach
  u ← scan_or (reported (user_not_found user_id)) (user_row user_id)
  give (scan_user u)
set_profile user_id first_name last_name about =
    set_user (reported (user_not_found user_id)) user_id (λ u. record u {
      first_name = or_else first_name u.first_name;
      last_name = or_else last_name u.last_name;
      about = or_else about u.about;
    })

unfoldable pub set_username : Int64 → Str → Sql User
unfolding set_user
set_username user_id username =
    set_user (reported (user_not_found user_id)) user_id
      (λ u. record u { username = text_or_null username })

-- sq.Eq with no id would be a false condition; the method returns before it.
unfoldable pub users_by_ids : List Int64 → Sql (List User)
unfolding reach some_in
users_by_ids [] = give []
users_by_ids (i ∷ ids) = do
  reach
  ask (λ t. map scan_user (keep (λ u. some_in (λ id. id == u.id) (i ∷ ids)) t.users))

module _ (trim_space : Str → Str) (ilike : Str → Str → Bool) where
  -- NULL matches no pattern.
  abbrev pub user_matches : Str → UserRow → Bool
  user_matches query u =
      let sub = b'%' ∷ (query ++ b'%' ∷ []) in
      (elim u.username [ none ↦ false | some name ↦ ilike name (query ++ b'%' ∷ []) ])
      || ilike u.first_name sub
      || ilike u.last_name sub

  unfoldable pub search_users : Str → Int64 → Sql (List User)
  unfolding reach
  search_users query limit =
      let q = trim_space query in
      let n = if leb limit int0 then int 20 else limit in
      if str_eq q [] then give [] else do
        reach
        ask (λ t. take (index n) (sort by_id (map scan_user (keep (user_matches q) t.users))))
