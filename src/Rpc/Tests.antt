-- ===== src/Rpc/Tests.antt =====
-- A concrete server: what the handlers answer on it, and instances of their theorems.
use teled.Prelude.{
  ◌≡◌, refl, arith, [], ◌∷◌, some, none, Str, codes, str_eq, true, false, int, int0, get, put, keep,
  some_in, ℕ_discrete, Str-discrete, has_prefix, trim_prefix,
}
use teled.Types.{UpdateType, User, time_unix}
use teled.Memory.State.{Db, new_db}
use teled.Memory.Users.{user_by_id, user_by_phone, human, bot, taken, create_user}
use teled.Memory.Updates.{gen_access_hash}
use teled.Memory.Messages.{find}
use teled.Memory.Rows.{
  perm_auth_key, session_user_id, bind_session, phone_code, save_phone_code, phone_code_key,
  bind_temp_auth_key,
}
use teled.Rpc.Reply.{reply, fail, phone_code_invalid}
use teled.Rpc.Caller.{effective_key_id, caller_user, bind_caller}
use teled.Rpc.Auth.{
  is_digit, normalize_phone, test_phone, test_tail, expected_code, auth_send_code, check_code,
  auth_sign_in, auth_sign_up, sign_up_phone, auth_bind_temp_auth_key, auth_log_out, authorized,
}
use teled.Rpc.Registry.{Session}
use teled.Rpc.Updates.{Difference, updates_get_difference}
use teled.Rpc.BotFather.{
  bot_father_engine, answer, bot_command, bot_father_command, before_at, bf_ask_name,
  valid_bot_username, is_ascii_letter, is_username_char, all_username_chars,
}
use teled.Rpc.Catching
use teled.Rpc.Catching.{Tells}
use teled.Rpc.Engine
use teled.Rpc.Making
use teled.Types.{no_step, new_bot_username}
use teled.Memory.State.{user_of, new_user}
use teled.Memory.Rows.{bot_father_state, set_bot_father_state}
use teled.Memory.Users.{minted_token, user_by_username}
use teled.Prelude.{format_int, format_nat}
use teled.Rpc.BotFather.{bf_created}
use teled.Rpc.Sparing.{Spares}
use teled.Memory.Account.{IsValid}
use teled.Memory.Account.Copy.{entry}
use teled.Memory.Messages.{bump, send_message}
use teled.Memory.Tests.{bob, bob_row, two, two-IsValid, sent_once, sent_once-IsValid}
use teled.Rpc.Codes
use teled.Rpc.Keys
use teled.Rpc.Login
use teled.Rpc.Live
use teled.Rpc.Live.{tracked, untracked, session_at, after, sessions_of}

-- What the tests compute with.
program : Unit {0}
unfolding new_db user_by_id user_by_phone human taken create_user gen_access_hash find get put keep
    some_in ℕ_discrete Str-discrete has_prefix trim_prefix perm_auth_key session_user_id
    bind_session phone_code save_phone_code phone_code_key bind_temp_auth_key effective_key_id
    caller_user bind_caller is_digit normalize_phone test_phone test_tail expected_code
    auth_send_code check_code auth_sign_up sign_up_phone time_unix auth_bind_temp_auth_key
    bot_father_engine answer bot_command bot_father_command before_at valid_bot_username
    is_ascii_letter is_username_char all_username_chars send_message bot bot_father_state
    set_bot_father_state minted_token format_int format_nat user_by_username
program = tt

abbrev number : Str
number = codes "+1 555 01"

abbrev hash : Str
hash = codes "h"

-- The codes that are expected.
plain_test : expected_code (codes "155501") ≡ codes "12345"
unfolding program
plain_test = refl

test_number_test : expected_code (codes "9996621234") ≡ codes "22222"
unfolding program
test_number_test = refl

-- Any other code is refused.
check_code-auth_send_code_example :
    (check_code (codes "155501") hash (codes "1") 6 (auth_send_code number hash 5 (new_db 0)).1)
    ≡ (fail phone_code_invalid, (auth_send_code number hash 5 (new_db 0)).1)
unfolding program
check_code-auth_send_code_example =
    Codes.check_code-auth_send_code number hash (codes "1") 5 6 (new_db 0)

-- The code that another number was sent earlier still opens its door.
check_code-auth_send_code_apart_example :
    (check_code
      (codes "7")
      hash
      (codes "12345")
      6
      (auth_send_code number hash 5 (auth_send_code (codes "7") hash 4 (new_db 0)).1).1).0
    ≡ reply tt
unfolding program
check_code-auth_send_code_apart_example =
    Codes.check_code-auth_send_code_apart number (codes "7") hash hash (codes "12345") 5 6
      (auth_send_code (codes "7") hash 4 (new_db 0)).1 (λ e. absurd cc)

caller_user-auth_sign_up_example :
    (u : User) × (d : Db) × (auth_sign_up
        (some 77)
        number
        hash
        (codes "Ann")
        []
        (int 3)
        6
        (auth_send_code number hash 5 (new_db 0)).1
      ≡ (reply (authorized u), d))
    × (u.phone ≡ codes "155501")
    × (caller_user (some 77) 6 d ≡ some u)
unfolding program
caller_user-auth_sign_up_example =
    Login.caller_user-auth_sign_up 77 number hash (codes "Ann") [] (int 3) 5 6 (new_db 0)
      (omega arith) refl

-- Ann has signed up under key 77.
abbrev ann : Db
ann =
    (auth_sign_up (some 77) number hash (codes "Ann") [] (int 3) 6
      (auth_send_code number hash 5 (new_db 0)).1).1

abbrev ann_user : User
ann_user = human (codes "155501") (codes "Ann") [] (int 3) 6 (new_db 0)

caller_user-auth_sign_in_example :
    (d : Db) × (auth_sign_in
        (some 78)
        number
        hash
        (codes "12345")
        9
        (auth_send_code number hash 8 ann).1
      ≡ (reply (authorized ann_user), d))
    × (caller_user (some 78) 9 d ≡ some ann_user)
unfolding program
caller_user-auth_sign_in_example =
    Login.caller_user-auth_sign_in 78 number hash 8 9 ann ann_user (omega arith) refl refl

-- The key 5 acts for key 77 until the time runs out.
caller_user-auth_bind_temp_auth_key_example :
    caller_user (some 5) 9 (auth_bind_temp_auth_key (some 5) 77 (int 1) ann).1 ≡ some ann_user
unfolding program
caller_user-auth_bind_temp_auth_key_example =
    Keys.caller_user-auth_bind_temp_auth_key 5 77 (int 1) 9 ann

-- Key 5 acts for key 90.
abbrev bound : Db
bound = (auth_bind_temp_auth_key (some 5) 90 (int 1) ann).1

bind_caller-rotates_example :
    caller_user
      (some 6)
      12
      (auth_bind_temp_auth_key (some 6) 90 (int 1) (bind_caller (some 5) (int 1) 9 bound).1).1
    ≡ some ann_user
unfolding program
bind_caller-rotates_example =
    Keys.bind_caller-rotates 5 6 90 (int 1) (int 1) 9 12 bound refl (omega arith)

caller_user-auth_log_out_example : caller_user (some 77) 12 (auth_log_out (some 77) 9 ann).1 ≡ none
unfolding program
caller_user-auth_log_out_example = Keys.caller_user-auth_log_out 77 77 9 12 ann

abbrev phone_session : Session
phone_session = record { id = int 4; key = 77 }

abbrev desk_session : Session
desk_session = record { id = int 5; key = 78 }

after-refines_example :
    session_at
      (after (
        untracked (int 1) (int 5)
        ∷ tracked (int 1) desk_session 7
        ∷ tracked (int 1) phone_session 6
        ∷ []))
      (int 1)
      (int 4)
    ≡ some phone_session
unfolding program
after-refines_example =
    (Live.after-refines
      (untracked (int 1) (int 5)
        ∷ tracked (int 1) desk_session 7
        ∷ tracked (int 1) phone_session 6
        ∷ [])
      (int 1) (int 4)).0

-- Bob, to whom Alice has sent one message, has logged in under key 9 and stands at pts 0.
abbrev bobs : Db
bobs = bind_session 9 bob sent_once

bobs-IsValid : IsValid bobs
unfolding bind_session
bobs-IsValid = record {
  accounts = sent_once-IsValid.accounts;
  strangers = sent_once-IsValid.strangers;
  numbered = sent_once-IsValid.numbered;
}

updates_get_difference-Tells_example :
    (answer : Difference) × (updates_get_difference (some 9) int0 6 bobs ≡ (reply answer, bobs))
    × Tells bob bobs (int 1) (entry (int 1) UpdateType.new (int 1) 5 ∷ []) answer
unfolding program
updates_get_difference-Tells_example =
    Catching.updates_get_difference-Tells 9 int0 6 bobs bob_row.u (bump bob_row) []
      (entry (int 1) UpdateType.new (int 1) 5 ∷ []) bobs-IsValid refl refl refl refl

-- Bob starts to create a bot.
abbrev same : Str → Str
same s = s

bot_father_engine-Spares_example :
    Spares bob two
      (bot_father_engine same same str_eq
        (λ s. s ∷ [])
        bob_row.u
        (codes "/newbot")
        (codes "s")
        (int 1)
        6
        two).1
unfolding program
bot_father_engine-Spares_example =
    Engine.bot_father_engine-Spares same same str_eq (λ s. s ∷ []) bob_row.u (codes "/newbot")
      (codes "s") (int 1) 6 two two-IsValid (omega arith, omega arith)

-- What he is told, and a name that is too short.
newbot_test :
    (bot_father_engine same same str_eq
      (λ s. s ∷ [])
      bob_row.u
      (codes "/newbot")
      (codes "s")
      (int 1)
      6
      two).0
    ≡ reply (bf_ask_name ∷ [])
unfolding program
newbot_test = refl

short_test : valid_bot_username same same str_eq (λ s. s ∷ []) (codes "bot") ≡ false
unfolding program
short_test = refl

long_test : valid_bot_username same same str_eq (λ s. s ∷ []) (codes "tetris_bot") ≡ true
unfolding program
long_test = refl

-- Bob has chosen the name "Tetris".
abbrev naming : Db
naming =
    set_bot_father_state bob (record { step = new_bot_username; draft_name = codes "Tetris" }) two

bot_father_engine-creates_example :
    (d : Db) × (bot_father_engine same same str_eq
        (λ s. s ∷ [])
        bob_row.u
        (codes "tetris_bot")
        (codes "s")
        (int 1)
        6
        naming
      ≡ (reply (bf_created (codes "tetris_bot") (codes "3:s") ∷ []), d))
    × (user_of d (int 3)
        ≡ some
            (record (new_user
              (bot (codes "3:s") (codes "tetris_bot") (codes "Tetris") (int 1) 6 naming)) {
                bot_owner_id = bob;
              }))
    × ((bot_father_state bob d).step ≡ no_step)
unfolding program
bot_father_engine-creates_example =
    Making.bot_father_engine-creates same same str_eq (λ s. s ∷ []) bob_row.u (codes "tetris_bot")
      (codes "tetris_bot") (codes "Tetris") (codes "s") (int 1) 6 naming refl refl refl refl
