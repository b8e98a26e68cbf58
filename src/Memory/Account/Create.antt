-- ===== src/Memory/Account/Create.antt =====
-- memory/db.go, CreateUser, CreateBot and CreateOwnedBot: a new account is valid, and the unique
-- columns stay unique.
use teled.Prelude.{
  ◌+◌, ◌<◌, ◌≡◌, ◌≢◌, inl, inr, refl, sym, ap, ◌∙◌, subst, get-put_found, [], ◌∷◌, some, none,
  false, arith, Int64, int0, inc, word, Map, get-put_self, get-put_ne, get, values, ℕ_discrete, Str,
  str_eq, str_eq→eq, str_eq_refl, some_in, Bool, Bool-cases, Option-cases,
}
use teled.Types.{Time, User, bot_father_id, ok}
use teled.Memory.State.{Db, MemUser, new_user, user_of}
use teled.Memory.Users.{taken, human, bot, store_user, create_user, create_bot}
use teled.Memory.Account.{IsValid}

-- The next user id neither wraps nor is BotFather's.
abbrev pub HasId : Db → Type 0
HasId d = (d.user_seq + 1 < word) × (d.user_seq + 1 ≢ bot_father_id)

-- The next id is free.
pub next_id-free : (d : Db) → IsValid d → HasId d → user_of d (inc d.user_seq) ≡ none
next_id-free d valid room = elim (Option-cases (user_of d (inc d.user_seq))) [
  | inl e ↦ e
  | inr (mu, e) ↦
      absurd (elim (valid.numbered _ mu e) [ inl le ↦ omega arith | inr eq ↦ omega arith ])
]

-- Storing a new account, with zero counters, under the next id keeps the database valid.
pub store_user-IsValid :
    (d : Db) (mu : MemUser)
    → IsValid d
    → HasId d
    → mu.u.id ≡ inc d.user_seq
    → mu.pts ≡ int0
    → mu.last_message_id ≡ int0
    → IsValid (store_user mu d)
store_user-IsValid d mu valid room id pts last = record {
  accounts = λ v nu e. elim (ℕ_discrete v mu.u.id) [
    | yes p ↦
        let q : mu ≡ nu = get-put_found ℕ_discrete mu.u.id v mu nu d.users e p in
        let none_there = valid.strangers v (rw (p, id) (next_id-free d valid room)) in
        rw (none_there.0, none_there.1, ← q)
          (record {
            gapless = sym pts;
            refs_ok = tt;
            distinct = tt;
            started = omega arith;
            self_id = sym p;
          })
    | no p ↦ valid.accounts v nu (sym (get-put_ne ℕ_discrete mu.u.id v mu d.users p) ∙ e)
  ];
  strangers = λ v e. elim (ℕ_discrete v mu.u.id) [
    | yes p ↦ cc (get-put_self ℕ_discrete mu.u.id mu d.users)
    | no p ↦ valid.strangers v (sym (get-put_ne ℕ_discrete mu.u.id v mu d.users p) ∙ e)
  ];
  numbered = λ v nu e. elim (ℕ_discrete v mu.u.id) [
    | yes p ↦ inl (omega arith)
    | no p ↦ elim (valid.numbered v nu (sym (get-put_ne ℕ_discrete mu.u.id v mu d.users p) ∙ e)) [
      | inl le ↦ inl (omega arith)
      | inr eq ↦ inr eq
    ]
  ];
}

-- The test of a unique column passes over every account when it fails.
some_in-get :
    (p : MemUser → Bool) (k : Int64) (m : Map Int64 MemUser) (v : MemUser)
    → some_in p (values m) ≡ false
    → get ℕ_discrete k m ≡ some v
    → p v ≡ false
unfolding some_in get
some_in-get p k [] v no_one e = cc
some_in-get p k ((j, w) ∷ m) v no_one e = elim (ℕ_discrete j k) [
  | yes q ↦ let here : w ≡ v = ground arith in rw (← here) (ground arith)
  | no q ↦ some_in-get p k m v (ground arith) (ground arith)
]

-- No two accounts share a value of the column, the empty one aside.
abbrev pub IsUnique : (MemUser → Str) → Db → Type 0
IsUnique column d =
    (u v : Int64) (mu nu : MemUser)
    → user_of d u ≡ some mu
    → user_of d v ≡ some nu
    → column mu ≡ column nu
    → column mu ≢ []
    → u ≡ v

taken-false :
    (column : MemUser → Str) (s : Str) (d : Db) (v : Int64) (nu : MemUser)
    → taken column s d ≡ false
    → s ≢ []
    → user_of d v ≡ some nu
    → column nu ≢ s
unfolding taken
taken-false column s d v nu free full e same = elim (Bool-cases (str_eq s [])) [
  | inl empty ↦ full (str_eq→eq s [] empty)
  | inr some_byte ↦
      let no_one : some_in (λ mu. str_eq (column mu) s) (values d.users) ≡ false =
        rw some_byte at free in
      let differs : str_eq (column nu) s ≡ false = some_in-get _ v d.users nu no_one e in
      cc (subst (λ x. str_eq x s ≡ false) same differs, str_eq_refl s)
]

store_user-IsUnique :
    (column : MemUser → Str) (d : Db) (mu : MemUser)
    → IsUnique column d
    → taken column (column mu) d ≡ false
    → IsUnique column (store_user mu d)
store_user-IsUnique column d mu unique free u v a b ea eb same full = elim (ℕ_discrete u mu.u.id) [
  | yes p ↦ elim (ℕ_discrete v mu.u.id) [
    | yes q ↦ p ∙ sym q
    | no q ↦
        let here : mu ≡ a = get-put_found ℕ_discrete mu.u.id u mu a d.users ea p in
        absurd (
          taken-false column (column mu) d v b free (subst (λ x. column x ≢ []) (sym here) full)
            (before v b q eb) (sym (ap column here ∙ same)))
  ]
  | no p ↦ elim (ℕ_discrete v mu.u.id) [
    | yes q ↦
        let here : mu ≡ b = get-put_found ℕ_discrete mu.u.id v mu b d.users eb q in
        absurd (
          taken-false column (column mu) d u a free
            (subst (λ x. x ≢ []) (same ∙ sym (ap column here)) full) (before u a p ea)
            (same ∙ sym (ap column here)))
    | no q ↦ unique u v a b (before u a p ea) (before v b q eb) same full
  ]
]
  where
    before :
        (w : Int64) (nu : MemUser)
        → w ≢ mu.u.id
        → user_of (store_user mu d) w ≡ some nu
        → user_of d w ≡ some nu
    before w nu ne e = sym (get-put_ne ℕ_discrete mu.u.id w mu d.users ne) ∙ e

abbrev pub phone_of : MemUser → Str
phone_of mu = mu.u.phone

abbrev pub username_of : MemUser → Str
username_of mu = mu.u.username

abbrev pub token_of : MemUser → Str
token_of mu = mu.u.bot_token

-- A new account, stored under the next id, with the columns that had to be free still unique.
pub record Creates (d : Db) (u : User) (d' : Db) : Type 0 where
  pub next : u.id ≡ d.user_seq + 1
  pub valid : IsValid d'
  pub row : (mu : MemUser) × (user_of d' u.id ≡ some mu) × (mu.u ≡ u) × (mu.pts ≡ int0)
  pub others : (v : Int64) → v ≢ u.id → user_of d' v ≡ user_of d v
  pub phones : IsUnique phone_of d'
  pub usernames : IsUnique username_of d'

-- A row of the next id makes a new account.
row-Creates :
    (d : Db) (mu : MemUser)
    → IsValid d
    → HasId d
    → mu.u.id ≡ inc d.user_seq
    → mu.pts ≡ int0
    → mu.last_message_id ≡ int0
    → IsUnique phone_of d
    → IsUnique username_of d
    → taken phone_of mu.u.phone d ≡ false
    → taken username_of mu.u.username d ≡ false
    → Creates d mu.u (store_user mu d)
row-Creates d mu valid room id pts last phones names free free' = record {
  next = omega arith;
  valid = store_user-IsValid d mu valid room id pts last;
  row = (mu, get-put_self ℕ_discrete mu.u.id mu d.users, refl, pts);
  others = λ v ne. get-put_ne ℕ_discrete mu.u.id v mu d.users ne;
  phones = store_user-IsUnique phone_of d mu phones free;
  usernames = store_user-IsUnique username_of d mu names free';
}

-- CreateUser with a free phone number succeeds in a valid database with unique phone numbers and
-- usernames whose next user id neither wraps nor is BotFather's: the account is stored under the next id with zero
-- counters, no other account changes, phone numbers and usernames stay unique, and the database stays
-- valid.
pub create_user-Creates :
    (phone first_name last_name : Str) (raw : Int64) (now : Time) (d : Db)
    → IsValid d
    → HasId d
    → IsUnique phone_of d
    → IsUnique username_of d
    → taken phone_of phone d ≡ false
    → (u : User) × (d' : Db) × (create_user phone first_name last_name raw now d ≡ ok (u, d'))
      × (u.phone ≡ phone)
      × Creates d u d'
unfolding create_user
create_user-Creates phone first last raw now d valid room phones names free =
    let mu = new_user (human phone first last raw now d) in
    (
      mu.u,
      store_user mu d,
      rw free,
      refl,
      row-Creates d mu valid room refl refl refl phones names free refl,
    )

-- CreateBot with a free token and a free (or empty) username succeeds in a valid database with unique
-- phone numbers, usernames and tokens whose next user id neither wraps nor is BotFather's: the account is stored under the
-- next id with zero counters, no other account changes, phone numbers, usernames and tokens stay
-- unique, and the database stays valid.
pub create_bot-Creates :
    (token username first_name : Str) (raw : Int64) (now : Time) (d : Db)
    → IsValid d
    → HasId d
    → IsUnique phone_of d
    → IsUnique username_of d
    → IsUnique token_of d
    → taken token_of token d ≡ false
    → taken username_of username d ≡ false
    → (u : User) × (d' : Db) × (create_bot token username first_name raw now d ≡ ok (u, d'))
      × (u.bot_token ≡ token)
      × IsUnique token_of d'
      × Creates d u d'
unfolding create_bot
create_bot-Creates token username first raw now d valid room phones names tokens free free' =
    let mu = new_user (bot token username first raw now d) in
    (
      mu.u,
      store_user mu d,
      rw (free, free'),
      refl,
      store_user-IsUnique token_of d mu tokens free,
      row-Creates d mu valid room refl refl refl phones names refl free',
    )
