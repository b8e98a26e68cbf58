-- ===== src/Rpc/Engine.antt =====
-- internal/rpc/botfather.go: what a message to BotFather can change.
use teled.Prelude.{
  ◌≡◌, refl, List, [], ◌∷◌, Bool, Str, codes, str_eq, not, Int64, if_cases, ◌||◌, trim_prefix,
}
use teled.Types.{Time, User, BotFatherStep, no_step, new_bot_name, new_bot_username, revoke_select}
use teled.Memory.State.{Db}
use teled.Memory.Rows.{bot_father_state}
use teled.Memory.Users.{bots_by_owner, user_by_username, bot}
use teled.Memory.Messages.{find}
use teled.Memory.Account.{IsValid}
use teled.Memory.Account.Create.{HasId}
use teled.Rpc.Reply.{Rpc, Reply, reply}
use teled.Rpc.BotFather.{
  bf_taken, bf_not_owned, Command, list_bots, start_revoke, cancel, bot_father_command, set_name,
  create_named, revoke_token, create, revoke, bot_father_engine, bot_command, by_step, answer,
  valid_bot_name, valid_bot_username, command, no_command, no_field,
}
use teled.Rpc.Sparing.{
  Spares, Spares-refl, set_bot_father_state-Spares, clear_bot_father_state-Spares, option-Spares,
  create_named-Spares, revoke_token-Spares,
}

list_bots-Spares :
    (caller : User) (d : Db) (bots : List User)
    → bots_by_owner caller.id d ≡ bots
    → Spares caller.id d (list_bots caller d).1
unfolding list_bots
list_bots-Spares caller d [] e = rw (e, list_bots) (Spares-refl caller.id d)
list_bots-Spares caller d (bot ∷ bots) e = rw (e, list_bots) (Spares-refl caller.id d)

start_revoke-Spares :
    (caller : User) (d : Db) (bots : List User)
    → bots_by_owner caller.id d ≡ bots
    → Spares caller.id d (start_revoke caller d).1
unfolding start_revoke
start_revoke-Spares caller d [] e = rw (e, start_revoke) (Spares-refl caller.id d)
start_revoke-Spares caller d (bot ∷ bots) e =
    rw (e, start_revoke) (set_bot_father_state-Spares caller.id _ d)

cancel-Spares :
    (caller : User) (d : Db) (s : BotFatherStep)
    → (bot_father_state caller.id d).step ≡ s
    → Spares caller.id d (cancel caller d).1
unfolding cancel
cancel-Spares caller d no_step e = rw (e, cancel) (Spares-refl caller.id d)
cancel-Spares caller d new_bot_name e = rw (e, cancel) (clear_bot_father_state-Spares caller.id d)
cancel-Spares caller d new_bot_username e =
    rw (e, cancel) (clear_bot_father_state-Spares caller.id d)
cancel-Spares caller d revoke_select e = rw (e, cancel) (clear_bot_father_state-Spares caller.id d)

bot_father_command-Spares :
    (caller : User) (cmd : Str) (d : Db) → Spares caller.id d (bot_father_command caller cmd d).1
unfolding bot_father_command
bot_father_command-Spares caller cmd d =
    let P : Rpc (List Str) → Type 0 = λ m. Spares caller.id d (m d).1 in
    let same = Spares-refl caller.id d in
    if_cases P (str_eq cmd (codes "/start") || str_eq cmd (codes "/help")) _ _ (λ _. same)
      (λ _.
        if_cases P (str_eq cmd (codes "/newbot")) _ _
          (λ _. set_bot_father_state-Spares caller.id _ d)
          (λ _.
            if_cases P (str_eq cmd (codes "/mybots") || str_eq cmd (codes "/token")) _ _
              (λ _. list_bots-Spares caller d _ refl)
              (λ _.
                if_cases P (str_eq cmd (codes "/revoke")) _ _
                  (λ _. start_revoke-Spares caller d _ refl)
                  (λ _.
                    if_cases P (str_eq cmd (codes "/cancel")) _ _
                      (λ _. cancel-Spares caller d _ refl) (λ _. same)))))

set_name-Spares :
    (caller : User) (name : Str) (d : Db) → Spares caller.id d (set_name caller name d).1
unfolding set_name
set_name-Spares caller name d =
    if_cases (λ (m : Rpc (List Str)). Spares caller.id d (m d).1) (valid_bot_name name) _ _
      (λ _. set_bot_father_state-Spares caller.id _ d) (λ _. Spares-refl caller.id d)

module _ (trim_space to_lower : Str → Str) (equal_fold : Str → Str → Bool)
    (fields : Str → List Str) where
  create-Spares :
      (caller : User) (name text secret : Str) (raw : Int64) (now : Time) (d : Db)
      → IsValid d
      → HasId d
      → Spares caller.id d
          (create trim_space to_lower equal_fold fields caller name text secret raw now d).1
  unfolding create
  create-Spares caller name text secret raw now d valid room =
      let username = trim_prefix text (codes "@") in
      if_cases (λ (x : Reply (List Str) × Db). Spares caller.id d x.1)
        (not (valid_bot_username trim_space to_lower equal_fold fields username)) _ _
        (λ _. Spares-refl caller.id d)
        (λ _.
          option-Spares caller.id d (user_by_username username d)
            (create_named caller name username secret raw now d) (λ u. (reply (bf_taken ∷ []), d))
            (create_named-Spares caller name username secret raw now d valid room)
            (λ u e. Spares-refl caller.id d))

  revoke-Spares :
      (caller : User) (text secret : Str) (d : Db)
      → Spares caller.id d (revoke trim_space to_lower equal_fold fields caller text secret d).1
  unfolding revoke
  revoke-Spares caller text secret d =
      let username = trim_prefix text (codes "@") in
      option-Spares caller.id d
        (find (λ u. equal_fold u.username username) (bots_by_owner caller.id d))
        (reply (bf_not_owned ∷ []), d) (λ target. revoke_token caller target secret d)
        (Spares-refl caller.id d)
        (λ target e.
          revoke_token-Spares caller target (λ u. equal_fold u.username username) secret d e)

  by_step-Spares :
      (caller : User) (text secret : Str) (raw : Int64) (now : Time) (d : Db) (s : BotFatherStep)
      → IsValid d
      → HasId d
      → (bot_father_state caller.id d).step ≡ s
      → Spares caller.id d
          (by_step trim_space to_lower equal_fold fields caller text secret raw now d).1
  unfolding by_step
  by_step-Spares caller text secret raw now d no_step valid room e =
      rw (e, by_step) (Spares-refl caller.id d)
  by_step-Spares caller text secret raw now d new_bot_name valid room e =
      rw (e, by_step) (set_name-Spares caller text d)
  by_step-Spares caller text secret raw now d new_bot_username valid room e =
      rw (e, by_step) (create-Spares caller _ text secret raw now d valid room)
  by_step-Spares caller text secret raw now d revoke_select valid room e =
      rw (e, by_step) (revoke-Spares caller text secret d)

  answer-Spares :
      (caller : User) (text secret : Str) (raw : Int64) (now : Time) (d : Db) (c : Command)
      → IsValid d
      → HasId d
      → bot_command trim_space to_lower equal_fold fields text ≡ c
      → Spares caller.id d
          (answer trim_space to_lower equal_fold fields caller text secret raw now d).1
  unfolding answer
  answer-Spares caller text secret raw now d (command cmd) valid room e =
      rw (e, answer) (bot_father_command-Spares caller cmd d)
  answer-Spares caller text secret raw now d no_field valid room e =
      rw (e, answer) (Spares-refl caller.id d)
  answer-Spares caller text secret raw now d no_command valid room e =
      rw (e, answer) (by_step-Spares caller text secret raw now d _ valid room refl)

  -- In a valid database whose next user id neither wraps nor is BotFather's, the engine's handling of a
  -- caller's message to BotFather, after the message itself was stored, changes no one else's conversation
  -- with BotFather, no account of a person, and no bot but those that the caller owned before.
  pub bot_father_engine-Spares :
      (caller : User) (message secret : Str) (raw : Int64) (now : Time) (d : Db)
      → IsValid d
      → HasId d
      → Spares caller.id d
          (bot_father_engine trim_space to_lower equal_fold fields caller message secret raw now
            d).1
  unfolding bot_father_engine
  bot_father_engine-Spares caller message secret raw now d valid room =
      answer-Spares caller (trim_space message) secret raw now d _ valid room refl
