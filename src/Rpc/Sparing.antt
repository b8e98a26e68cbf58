-- ===== src/Rpc/Sparing.antt =====
-- internal/rpc/botfather.go: the writes of the BotFather engine, and what they leave alone.
use teled.Prelude.{
  ◌≡◌, ◌≢◌, ◌⊎◌, inl, inr, refl, sym, ap, List, Bool, All, arith, ◌∙◌, [], ◌∷◌, Option, some, none,
  false, Str, Int64, inc, get-put_ne, get-delete_ne, ℕ_discrete, if_cases, Option-cases, Bool-cases,
  ◌++◌, subst, format_int, or_else,
}
use teled.Types.{Time, User, BotFatherState, no_step, Result, ok, err, panic}
use teled.Memory.State.{Db, MemUser, new_user, user_of}
use teled.Memory.Rows.{bot_father_state, set_bot_father_state, clear_bot_father_state}
use teled.Memory.Users.{
  bots_by_owner, set_bot_token, create_owned_bot, store_user, username_taken, bot, minted_token,
}
use teled.Memory.Messages.{find}
use teled.Memory.Account.{IsValid}
use teled.Memory.Account.Create.{HasId, next_id-free}
use teled.Rpc.Reply.{Rpc, Reply, reply, fail, crash, ◌>>◌, save, return, call, internal}
use teled.Rpc.BotFather.{bf_created, create_named, revoke_token}

-- The account of a person, or one that is none of the bots that self owns.
abbrev pub IsForeign : Int64 → Db → Int64 → MemUser → Type 0
IsForeign self d v mu = (mu.u.is_bot ≡ false) ⊎ All (λ b. b.id ≢ v) (bots_by_owner self d)

-- Nobody else's conversation with BotFather changes, and no account but those of bots that self owns.
pub record Spares (self : Int64) (d d' : Db) : Type 0 where
  pub conversations : (v : Int64) → v ≢ self → bot_father_state v d' ≡ bot_father_state v d
  pub accounts :
      (v : Int64) (mu : MemUser)
      → user_of d v ≡ some mu
      → IsForeign self d v mu
      → user_of d' v ≡ some mu

pub Spares-refl : (self : Int64) (d : Db) → Spares self d d
Spares-refl self d = record { conversations = λ v ne. refl; accounts = λ v mu e p. e }

abbrev no_state : BotFatherState
no_state = record { step = no_step; draft_name = [] }

pub set_bot_father_state-Spares :
    (self : Int64) (s : BotFatherState) (d : Db) → Spares self d (set_bot_father_state self s d)
unfolding set_bot_father_state bot_father_state
set_bot_father_state-Spares self s d = record {
  conversations =
      λ v ne. ap (λ o. or_else o no_state) (get-put_ne ℕ_discrete self v s d.bot_states ne);
  accounts = λ v mu e p. e;
}

pub clear_bot_father_state-Spares :
    (self : Int64) (d : Db) → Spares self d (clear_bot_father_state self d)
unfolding clear_bot_father_state bot_father_state
clear_bot_father_state-Spares self d = record {
  conversations =
      λ v ne. ap (λ o. or_else o no_state) (get-delete_ne ℕ_discrete self v d.bot_states ne);
  accounts = λ v mu e p. e;
}

pub clears-Spares :
    (self : Int64) (d d' : Db) → Spares self d d' → Spares self d (clear_bot_father_state self d')
unfolding clear_bot_father_state
clears-Spares self d d' s = record {
  conversations =
      λ v ne. (clear_bot_father_state-Spares self d').conversations v ne ∙ s.conversations v ne;
  accounts = s.accounts;
}

-- A new token is stored for bots only, here for one of the bots that self owns.
pub set_bot_token-Spares :
    (self bot_id : Int64) (token : Str) (d : Db)
    → ((v : Int64) → All (λ b. b.id ≢ v) (bots_by_owner self d) → bot_id ≢ v)
    → Spares self d (set_bot_token bot_id token d)
unfolding set_bot_token bot_father_state
set_bot_token-Spares self bot_id token d owned = elim (Option-cases (user_of d bot_id)) [
  | inl e ↦ rw (e, set_bot_token) (Spares-refl self d)
  | inr (nu, e) ↦ elim (Bool-cases nu.u.is_bot) [
    | inr person ↦ rw (e, set_bot_token) (rw person (Spares-refl self d))
    | inl robot ↦
        rw (e, set_bot_token)
          (rw robot (record {
            conversations = λ v ne. refl;
            accounts = λ v mu found p. elim (ℕ_discrete v bot_id) [
              | yes q ↦ elim p [
                | inl person ↦ absurd cc
                | inr other ↦ absurd (owned v other (sym q))
              ]
              | no q ↦ get-put_ne ℕ_discrete bot_id v _ d.users q ∙ found
            ];
          }))
  ]
]

-- A new account has an id that none had.
pub store_user-Spares :
    (self : Int64) (mu : MemUser) (d : Db)
    → user_of d mu.u.id ≡ none
    → Spares self d (store_user mu d)
unfolding bot_father_state
store_user-Spares self mu d free = record {
  conversations = λ v ne. refl;
  accounts = λ v nu found p. elim (ℕ_discrete v mu.u.id) [
    | yes q ↦ absurd cc
    | no q ↦ get-put_ne ℕ_discrete mu.u.id v mu d.users q ∙ found
  ];
}

-- What the handlers' `>>=` and `call` do with an answer.
abbrev go_on : {A B : Type 0} → (A → Rpc B) → Reply A × Db → Reply B × Db
go_on k x = elim x.0 [ reply a ↦ k a x.1 | fail e ↦ (fail e, x.1) | crash ↦ (crash, x.1) ]

abbrev called : {A : Type 0} → Db → Result (A × Db) → Reply A × Db
called d x = elim x [ ok r ↦ (reply r.0, r.1) | err e ↦ (fail internal, d) | panic ↦ (crash, d) ]

-- A handler that goes on and then ends the conversation.
module _ {A B : Type 0} (self : Int64) (d : Db) (k : A → Rpc B)
    (clears : (a : A) (d' : Db) → (k a d').1 ≡ clear_bot_father_state self d') where
  pub then-Spares : (x : Reply A × Db) → Spares self d x.1 → Spares self d (go_on k x).1
  then-Spares (reply a, d') s =
      subst (Spares self d) (sym (clears a d')) (clears-Spares self d d' s)
  then-Spares (fail e, d') s = s
  then-Spares (crash, d') s = s

module _ {A : Type 0} (self : Int64) (d : Db) where
  pub called-Spares :
      (x : Result (A × Db))
      → ((r : A × Db) → x ≡ ok r → Spares self d r.1)
      → Spares self d (called d x).1
  called-Spares (ok r) s = s r refl
  called-Spares (err e) s = Spares-refl self d
  called-Spares panic s = Spares-refl self d

module _ {A B : Type 0} (self : Int64) (d : Db) where
  pub option-Spares :
      (o : Option A) (x : Reply B × Db) (k : A → Reply B × Db)
      → Spares self d x.1
      → ((a : A) → o ≡ some a → Spares self d (k a).1)
      → Spares self d (elim o as (λ _. Reply B × Db) [ none ↦ x | some a ↦ k a ]).1
  option-Spares none x k s t = s
  option-Spares (some a) x k s t = t a refl

pub create_owned_bot-Spares :
    (self : Int64) (username name : Str) (owner : Int64) (secret : Str) (raw : Int64) (now : Time)
    (d : Db) (r : User × Db)
    → IsValid d
    → HasId d
    → create_owned_bot username name owner secret raw now d ≡ ok r
    → Spares self d r.1
unfolding create_owned_bot bot
create_owned_bot-Spares self username name owner secret raw now d r valid room =
    let u = bot (minted_token (inc d.user_seq) secret) username name raw now d in
    let mu : MemUser = record (new_user u) { bot_owner_id = owner } in
    if_cases (λ x. x ≡ ok r → Spares self d r.1) (username_taken username d) _ _ (λ t e. absurd cc)
      (λ f e.
        let same : store_user mu d ≡ r.1 = cc in
        subst (Spares self d) same (store_user-Spares self mu d (next_id-free d valid room)))

pub create_named-Spares :
    (caller : User) (name username secret : Str) (raw : Int64) (now : Time) (d : Db)
    → IsValid d
    → HasId d
    → Spares caller.id d (create_named caller name username secret raw now d).1
unfolding create_named
create_named-Spares caller name username secret raw now d valid room =
    let f = create_owned_bot username name caller.id secret raw now in
    then-Spares caller.id d
      (λ bot.
        save (clear_bot_father_state caller.id)
        >> return (bf_created bot.username bot.bot_token ∷ []))
      (λ a d'. refl) (call f d)
      (called-Spares caller.id d (f d) (λ r.
        create_owned_bot-Spares caller.id username name caller.id secret raw now d r valid room))

find-All :
    (p : User → Bool) (Q : User → Type 0) (xs : List User) (x : User)
    → find p xs ≡ some x
    → All Q xs
    → Q x
unfolding find
find-All p Q [] x e h = absurd cc
find-All p Q (y ∷ ys) x e h = elim (Bool-cases (p y)) [
  | inl b ↦ let same : y ≡ x = ground arith in subst Q same h.0
  | inr b ↦ find-All p Q ys x (ground arith) h.1
]

pub revoke_token-Spares :
    (caller target : User) (p : User → Bool) (secret : Str) (d : Db)
    → find p (bots_by_owner caller.id d) ≡ some target
    → Spares caller.id d (revoke_token caller target secret d).1
unfolding revoke_token
revoke_token-Spares caller target p secret d found = clears-Spares caller.id d _ (
    set_bot_token-Spares caller.id target.id (format_int target.id ++ b':' ∷ secret) d
      (λ v none_is. find-All p (λ b. b.id ≢ v) (bots_by_owner caller.id d) target found none_is))
