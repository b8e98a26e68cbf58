-- ===== src/Memory/Tests.antt =====
-- Concrete databases, runs of the in-memory database on them, and instances of its theorems.
use teled.Prelude.{
  ◌≡◌, inr, refl, [], ◌∷◌, true, false, arith, Str, codes, Int64, int0, int, length, take, index,
  keep, sort, insert, get, put, map, ℕ_discrete, some_in,
}
use teled.Types.{
  User, Message, SentMessage, EditResult, DeleteResult, ReadResult, UpdateType, Result, ok, err,
  panic, message_id_invalid,
}
use teled.Memory.State.{Db, MemUser, new_db, new_user}
use teled.Memory.Messages.{bump, send_message, get_history, new_message, collect}
use teled.Memory.Revisions.{edit_message, delete_messages}
use teled.Memory.Reading.{get_dialogs, read_history}
use teled.Memory.Updates.{get_difference, gen_access_hash}
use teled.Memory.Users.{human, bot, taken, store_user, create_user, create_bot}
use teled.Memory.History
use teled.Memory.Account.{IsValid}
use teled.Memory.Account.Start.{new_db-IsValid}
use teled.Memory.Account.Create.{
  store_user-IsValid, IsUnique, phone_of, username_of, token_of, Creates,
}
use teled.Memory.Account.Create
use teled.Memory.Account.Send
use teled.Memory.Account.Copy.{entry}
use teled.Memory.Account.Keeps.{HasSlack, send_message-Keeps}
use teled.Memory.Account.Edit
use teled.Memory.Account.Delete
use teled.Memory.Account.Receipt
use teled.Memory.Account.Difference
use teled.Memory.Account.Run
use teled.Memory.Account.Run.{Reach, here, next, creates_user}

-- What the tests compute with.
program : Unit {0}
unfolding new_db human bot taken some_in get put ℕ_discrete gen_access_hash send_message
    edit_message delete_messages read_history get_history get_dialogs get_difference create_user
    create_bot sort insert keep collect
program = tt

-- Two accounts, 1 and 2, beside BotFather.
abbrev pub alice : Int64
alice = int 1

abbrev pub bob : Int64
bob = int 2

abbrev pub alice_row : MemUser
alice_row = new_user (human (codes "100") (codes "Alice") [] (int 7) 1 (new_db 0))

abbrev pub one : Db
one = store_user alice_row (new_db 0)

abbrev pub bob_row : MemUser
bob_row = new_user (human (codes "200") (codes "Bob") [] (int 8) 2 one)

abbrev pub two : Db
two = store_user bob_row one

one-IsValid : IsValid one
unfolding program
one-IsValid =
    store_user-IsValid (new_db 0) alice_row (new_db-IsValid 0) (omega arith, omega arith) refl refl
      refl

pub two-IsValid : IsValid two
unfolding program
two-IsValid = store_user-IsValid one bob_row one-IsValid (omega arith, omega arith) refl refl refl

send_message-delivers_example :
    (sent : SentMessage) × (d : Db) × (send_message alice bob (codes "hi") (int 9) int0 5 two
      ≡ ok (sent, d))
    × (sent.sender_pts ≡ int 1)
unfolding program
send_message-delivers_example =
    let r =
      Send.send_message-delivers alice bob (codes "hi") (int 9) int0 5 two alice_row bob_row
        two-IsValid refl refl (omega arith) (omega arith, omega arith) (omega arith, omega arith)
        (omega arith) in
    (r.0, r.1, r.2, r.3)

-- Alice has sent one message to Bob.
abbrev pub db_of : {A : Type 0} → Result (A × Db) → Db
db_of (ok r) = r.1
db_of (err e) = new_db 0
db_of panic = new_db 0

abbrev pub sent_once : Db
sent_once = db_of (send_message alice bob (codes "hi") (int 9) int0 5 two)

two-HasSlack : HasSlack 1 two
unfolding program
two-HasSlack = record { counters = λ u mu e. ground arith; messages = omega arith }

pub sent_once-IsValid : IsValid sent_once
unfolding program
sent_once-IsValid =
    send_message-Keeps alice bob (codes "hi") (int 9) int0 5 two two-IsValid two-HasSlack

-- Bob's view of it, and what the others see.
history_test :
    map (λ (m : Message). m.text) (get_history bob alice int0 int0 sent_once) ≡ codes "hi" ∷ []
unfolding program
history_test = refl

send_message-self_chat_example :
    (sent : SentMessage) × (d : Db) × (send_message bob bob (codes "me") (int 9) int0 5 sent_once
      ≡ ok (sent, d))
    × (sent.sender_pts ≡ int 2)
unfolding program
send_message-self_chat_example =
    let r =
      Send.send_message-self_chat bob (codes "me") (int 9) int0 5 sent_once (bump bob_row)
        sent_once-IsValid refl (omega arith, omega arith) (omega arith) in
    (r.0, r.1, r.2, r.3)

edit_message-edits_example :
    (res : EditResult) × (d : Db) × (edit_message alice (int 1) (codes "ho") 6 sent_once
      ≡ ok (res, d))
    × (res.peer_pts ≡ int 2)
unfolding program
edit_message-edits_example =
    let r =
      Edit.edit_message-edits alice (int 1) (codes "ho") 6 sent_once (bump alice_row) (bump bob_row)
        (record { local_id = int 1; global_id = int 1; out = true; unread = false })
        (new_message (int 1) alice bob (codes "hi") (int 9) int0 5) sent_once-IsValid refl refl refl
        refl refl (omega arith) refl (omega arith) (omega arith) in
    (r.0, r.1, r.2, r.4)

-- Bob did not send it.
edit_message-refused_example :
    edit_message bob (int 1) (codes "ho") 6 sent_once ≡ err message_id_invalid
unfolding program
edit_message-refused_example =
    Edit.edit_message-refused bob (int 1) (codes "ho") 6 sent_once
      (λ r m e f. inr (λ q. ground arith))

delete_messages-Deletes_example :
    (res : DeleteResult) × (d : Db) × (delete_messages bob (int 1 ∷ int 5 ∷ []) 6 sent_once
      ≡ ok (res, d))
unfolding program
delete_messages-Deletes_example =
    let r =
      Delete.delete_messages-Deletes bob (int 1 ∷ int 5 ∷ []) 6 sent_once (bump bob_row)
        sent_once-IsValid refl (omega arith) in
    (r.0, r.1, r.2)

read_history-reads_example :
    (res : ReadResult) × (d : Db) × (read_history bob alice (int 1) 6 sent_once ≡ ok (res, d))
    × (res.inbox_pts ≡ int 2)
unfolding program
read_history-reads_example =
    let r =
      Receipt.read_history-reads bob alice (int 1) 6 sent_once (bump bob_row) sent_once-IsValid refl
        (omega arith) (λ mp e. ground arith) in
    (r.0, r.1, r.2, r.3)

get_difference-resumes_example :
    get_difference bob int0 int0 sent_once ≡ ok (entry (int 1) UpdateType.new (int 1) 5 ∷ [], int 1)
unfolding program
get_difference-resumes_example =
    (Difference.get_difference-resumes bob int0 int0 sent_once (bump bob_row) []
      (entry (int 1) UpdateType.new (int 1) 5 ∷ []) sent_once-IsValid refl refl refl).0

new_db-IsUnique : (column : MemUser → Str) → IsUnique column (new_db 0)
unfolding program
new_db-IsUnique column u v a b e f g h = ground arith

create_user-Creates_example :
    (u : User) × (d : Db) × (create_user (codes "100") (codes "Alice") [] (int 7) 1 (new_db 0)
      ≡ ok (u, d))
    × (u.phone ≡ codes "100")
    × Creates (new_db 0) u d
unfolding program
create_user-Creates_example =
    Create.create_user-Creates (codes "100") (codes "Alice") [] (int 7) 1 (new_db 0)
      (new_db-IsValid 0) (omega arith, omega arith) (new_db-IsUnique phone_of)
      (new_db-IsUnique username_of) refl

create_bot-Creates_example :
    (u : User) × (d : Db) × (create_bot
        (codes "1:s")
        (codes "ABot")
        (codes "A")
        (int 7)
        1
        (new_db 0)
      ≡ ok (u, d))
    × (u.bot_token ≡ codes "1:s")
    × IsUnique token_of d
    × Creates (new_db 0) u d
unfolding program
create_bot-Creates_example =
    Create.create_bot-Creates (codes "1:s") (codes "ABot") (codes "A") (int 7) 1 (new_db 0)
      (new_db-IsValid 0) (omega arith, omega arith) (new_db-IsUnique phone_of)
      (new_db-IsUnique username_of) (new_db-IsUnique token_of) refl refl

Reach-two : Reach (new_db 0) two
unfolding program
Reach-two =
    next
      (next here (
        creates_user (codes "100") (codes "Alice") [] (int 7) 1 alice_row.u
          (omega arith, omega arith) refl))
      (creates_user (codes "200") (codes "Bob") [] (int 8) 2 bob_row.u (omega arith, omega arith)
        refl)

Reach-IsValid_example : IsValid two
Reach-IsValid_example = Run.Reach-IsValid 0 Reach-two

get_history_lem_example :
    get_history bob alice int0 (int 1) sent_once
    ≡ take (index (int 1)) (get_history bob alice int0 int0 sent_once)
get_history_lem_example = (History.get_history_lem bob alice int0 (int 1) sent_once).3 (omega arith)

-- One message is there to be shown.
get_history_test : length (get_history bob alice int0 int0 sent_once) ≡ 1
unfolding program
get_history_test = refl
