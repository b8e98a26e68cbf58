-- ===== src/Rpc/Making.antt =====
-- internal/rpc/botfather.go, botFatherCreate: the last message of the conversation that makes a bot.
use teled.Prelude.{
  ℕ, ◌≡◌, inl, inr, refl, ap, ◌∙◌, arith, List, [], ◌∷◌, Option, some, none, Bool, true, false,
  ◌||◌, Str, codes, Int64, inc, get-put_self, get-delete_self, ℕ_discrete, Bool-cases, has_prefix,
  trim_prefix, or_else, length, ltb,
}
use teled.Types.{Time, User, BotFatherState, no_step, new_bot_username, ok}
use teled.Memory.State.{Db, MemUser, new_user, user_of}
use teled.Memory.Rows.{bot_father_state, clear_bot_father_state}
use teled.Memory.Users.{
  user_by_username, create_owned_bot, username_taken, bot, minted_token, store_user,
}
use teled.Rpc.Reply.{reply, ◌>>◌, save, return, call, bind-replies}
use teled.Rpc.BotFather.{
  is_ascii_letter, starts_with_letter, valid_bot_username, bot_command, no_command, create_named,
  create, by_step, answer, bot_father_engine, bf_created,
}
use teled.Rpc.Login.{taken-found}

letter-plain :
    (c : ℕ) (u : Str)
    → is_ascii_letter c ≡ true
    → (has_prefix (c ∷ u) (codes "/") ≡ false) × (has_prefix (c ∷ u) (codes "@") ≡ false)
unfolding is_ascii_letter has_prefix
letter-plain c u e = (ground arith, ground arith)

word-plain :
    (u : Str)
    → starts_with_letter u ≡ true
    → (has_prefix u (codes "/") ≡ false) × (has_prefix u (codes "@") ≡ false)
word-plain [] e = absurd cc
word-plain (c ∷ u) e = letter-plain c u e

trim_prefix-plain : (s p : Str) → has_prefix s p ≡ false → trim_prefix s p ≡ s
unfolding trim_prefix
trim_prefix-plain s p e = rw e refl

username-free :
    (username : Str) (d : Db)
    → user_by_username username d ≡ none
    → username_taken username d ≡ false
unfolding user_by_username
username-free username d free = taken-found (λ mu. mu.u.username) username d free

create_owned_bot-free :
    (username name : Str) (owner : Int64) (secret : Str) (raw : Int64) (now : Time) (d : Db)
    → username_taken username d ≡ false
    → let u = bot (minted_token (inc d.user_seq) secret) username name raw now d in
      create_owned_bot username name owner secret raw now d
      ≡ ok (u, store_user (record (new_user u) { bot_owner_id = owner }) d)
unfolding create_owned_bot
create_owned_bot-free username name owner secret raw now d free = rw free refl

clear_bot_father_state_self :
    (id : Int64) (d : Db) → (bot_father_state id (clear_bot_father_state id d)).step ≡ no_step
unfolding bot_father_state clear_bot_father_state
clear_bot_father_state_self id d =
    ap
      (λ (o : Option BotFatherState).
        (or_else {A = BotFatherState} o (record { step = no_step; draft_name = [] })).step)
      (get-delete_self ℕ_discrete id d.bot_states)

-- What follows the checks.
create_named-lem :
    (caller : User) (name username secret : Str) (raw : Int64) (now : Time) (d : Db)
    → username_taken username d ≡ false
    → let u = bot (minted_token (inc d.user_seq) secret) username name raw now d in
      create_named caller name username secret raw now d ≡ (
        reply (bf_created username u.bot_token ∷ []),
        clear_bot_father_state caller.id
            (store_user (record (new_user u) { bot_owner_id = caller.id }) d),
      )
unfolding create_named bot
create_named-lem caller name username secret raw now d free =
    let u = bot (minted_token (inc d.user_seq) secret) username name raw now d in
    let d' = store_user (record (new_user u) { bot_owner_id = caller.id }) d in
    bind-replies (call (create_owned_bot username name caller.id secret raw now))
      (λ b.
        save (clear_bot_father_state caller.id) >> return (bf_created b.username b.bot_token ∷ []))
      d d' u (rw (create_owned_bot-free username name caller.id secret raw now d free, call) refl)

module _ (trim_space to_lower : Str → Str) (equal_fold : Str → Str → Bool)
    (fields : Str → List Str) where
  valid-letter :
      (u : Str)
      → valid_bot_username trim_space to_lower equal_fold fields u ≡ true
      → starts_with_letter u ≡ true
  unfolding valid_bot_username
  valid-letter u e = elim (Bool-cases (starts_with_letter u)) [
    | inl l ↦ l
    | inr l ↦ absurd (elim (Bool-cases (ltb (length u) 5 || ltb 32 (length u))) [
      | inl long ↦ cc (rw long at e)
      | inr fits ↦ cc (rw (fits, l) at e)
    ])
  ]

  bot_command-plain :
      (u : Str)
      → has_prefix u (codes "/") ≡ false
      → bot_command trim_space to_lower equal_fold fields u ≡ no_command
  unfolding bot_command
  bot_command-plain u e = rw (e, bot_command) refl

  create-lem :
      (caller : User) (name username secret : Str) (raw : Int64) (now : Time) (d : Db)
      → has_prefix username (codes "@") ≡ false
      → valid_bot_username trim_space to_lower equal_fold fields username ≡ true
      → user_by_username username d ≡ none
      → create trim_space to_lower equal_fold fields caller name username secret raw now d
        ≡ create_named caller name username secret raw now d
  unfolding create
  create-lem caller name username secret raw now d plain valid free =
      rw (trim_prefix-plain username (codes "@") plain, create)
        (rw (valid, create)
          (rw (free, create)
            (ap (λ x. create_named caller name x secret raw now d)
              (trim_prefix-plain username (codes "@") plain))))

  -- A caller who has named a new bot and answers, as trimmed, with a valid username that no account has is
  -- told the new bot's token. The bot is stored under the next id with this name, username and token and
  -- the caller as its owner, and the conversation is over.
  pub bot_father_engine-creates :
      (caller : User) (message username name secret : Str) (raw : Int64) (now : Time) (d : Db)
      → trim_space message ≡ username
      → bot_father_state caller.id d ≡ record { step = new_bot_username; draft_name = name }
      → valid_bot_username trim_space to_lower equal_fold fields username ≡ true
      → user_by_username username d ≡ none
      → let u = bot (minted_token (inc d.user_seq) secret) username name raw now d in
        (d' : Db) × (bot_father_engine trim_space to_lower equal_fold fields caller message secret
            raw now d
          ≡ (reply (bf_created username u.bot_token ∷ []), d'))
        × (user_of d' u.id ≡ some (record (new_user u) { bot_owner_id = caller.id }))
        × ((bot_father_state caller.id d').step ≡ no_step)
  unfolding clear_bot_father_state bot_father_engine answer by_step
  bot_father_engine-creates caller message username name secret raw now d trimmed state valid free =
      let u = bot (minted_token (inc d.user_seq) secret) username name raw now d in
      let mu : MemUser = record (new_user u) { bot_owner_id = caller.id } in
      let plain = word-plain username (valid-letter username valid) in
      (
        clear_bot_father_state caller.id (store_user mu d),
        ap (λ t. answer trim_space to_lower equal_fold fields caller t secret raw now d) trimmed
            ∙ rw (bot_command-plain username plain.0, answer)
                (rw (state, by_step)
                  (ap
                      (λ (s : BotFatherState).
                        create trim_space to_lower equal_fold fields caller s.draft_name username
                          secret raw now d)
                      state
                    ∙ create-lem caller name username secret raw now d plain.1 valid free
                    ∙ create_named-lem caller name username secret raw now d
                        (username-free username d free))),
        get-put_self ℕ_discrete u.id mu d.users,
        clear_bot_father_state_self caller.id (store_user mu d),
      )
