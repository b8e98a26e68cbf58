-- ===== src/Postgres/Tests.antt =====
-- internal/db: concrete tables, runs of the storage methods on them, and instances of the theorems.
use teled.Prelude.{
  ◌≡◌, refl, [], ◌∷◌, List, none, some, true, false, arith, codes, int0, int, keep, sort, insert,
  get, put, ℕ_discrete, some_in,
}
use teled.Types.{ok, err, panic, bot_token_exists}
use teled.Memory.State.{Db, new_db}
use teled.Memory.Messages.{find}
use teled.Memory.Account.Keeps.{HasSlack}
use teled.Memory.Tests.{alice, bob, two, two-IsValid, sent_once, sent_once-IsValid}
use teled.Memory.Messages.{send_message as mem_send, get_history as mem_history, collect}
use teled.Memory.Revisions.{edit_message as mem_edit, delete_messages as mem_delete}
use teled.Memory.Updates.{gen_access_hash as mem_hash}
use teled.Memory.Users.{human, taken}
use teled.Postgres.Tables.{UserRow, Tables, Sequences, default_user, bot_father_row, no_sequences}
use teled.Postgres.Sql.{fault, outage, transaction, Store}
use teled.Postgres.Messages.{user_row, message_row, send_message, next_message}
use teled.Postgres.Revisions.{edit_message}
use teled.Postgres.Running.{online}
use teled.Postgres.Agrees.{Agrees}
use teled.Postgres.Agrees.Start.{with_users, users-Agrees}
use teled.Postgres.Agrees.Sending
use teled.Postgres.Agrees.Editing
use teled.Postgres.Agrees.Atomic
use teled.Postgres.Agrees.Atomic.{Atomic}
use teled.Postgres.Agrees.Matching.{Matches}
use teled.Postgres.Agrees.Run
use teled.Postgres.Agrees.Requests.{
  Request, Reply, send, history, stop, call, mem_step, pg_run, refused,
}

-- What the tests compute with.
program : Unit {0}
unfolding new_db human taken mem_hash some_in get put ℕ_discrete sort insert keep collect mem_send
    mem_history mem_edit mem_delete mem_step find
program = tt

-- Alice and Bob, as in the in-memory tests.
abbrev rows : List UserRow
rows =
    bot_father_row 0
    ∷ record (default_user alice (int 7) 1) {
      phone = some (codes "100");
      first_name = codes "Alice";
    }
    ∷ record (default_user bob (int 8) 2) { phone = some (codes "200"); first_name = codes "Bob" }
    ∷ []

abbrev tables : Tables
tables = with_users rows 0

two-Agrees : Agrees tables no_sequences two
unfolding program
two-Agrees = users-Agrees rows (int 2) 0

two-HasSlack : HasSlack 1 two
unfolding program
two-HasSlack = record { counters = λ u mu e. ground arith; messages = omega arith }

abbrev answer : Request → Db → Reply
answer r d = elim (mem_step r d) [ none ↦ refused bot_token_exists | some x ↦ x.0 ]

abbrev after : Request → Db → Db
after r d = elim (mem_step r d) [ none ↦ d | some x ↦ x.1 ]

abbrev hi : Request
hi = send alice bob (codes "hi") (int 9) 5

abbrev look : Request
look = history bob alice int0 (int 10)

run-Agrees_example :
    (t' : Tables) × (q' : Sequences) × (pg_run (hi ∷ look ∷ []) (online tables no_sequences)
      ≡ (answer hi two ∷ answer look (after hi two) ∷ [], online t' q'))
    × Agrees t' q' (after look (after hi two))
unfolding program
run-Agrees_example =
    Run.run-Agrees (hi ∷ look ∷ []) (answer hi two ∷ answer look (after hi two) ∷ []) tables
      no_sequences two (after look (after hi two)) two-Agrees two-IsValid
      (call two-HasSlack refl (call (omega arith) refl stop))

send_message-Matches_example :
    Matches
      (online tables no_sequences)
      (send_message alice bob (codes "hi") (int 9) int0 5 (online tables no_sequences))
      (mem_send alice bob (codes "hi") (int 9) int0 5 two)
send_message-Matches_example =
    Sending.send_message-Matches alice bob (codes "hi") (int 9) int0 5 tables no_sequences two
      two-Agrees two-IsValid two-HasSlack refl

-- The second statement's outage undoes the first one's row.
outage_test :
    send_message alice bob
      (codes "hi")
      (int 9)
      int0
      5
      (record { tables = tables; sequences = no_sequences; outages = false ∷ false ∷ true ∷ [] })
    ≡ (
      fault outage,
      record {
        tables = tables;
        sequences = record no_sequences { messages = int 1 };
        outages = [];
      },
    )
unfolding send_message transaction next_message program message_row user_row
outage_test = refl

two-HasSlack_ids : HasSlack 2 two
unfolding program
two-HasSlack_ids = record { counters = λ u mu e. ground arith; messages = omega arith }

-- The server of outage_test, and calls in memory that succeed.
abbrev shaky : Store
shaky = record { tables = tables; sequences = no_sequences; outages = false ∷ false ∷ true ∷ [] }

calls-Atomic_example :
    Atomic tables
      (send_message alice bob (codes "hi") (int 9) int0 5 shaky)
      (mem_send alice bob (codes "hi") (int 9) int0 5 two)
calls-Atomic_example =
    (Atomic.calls-Atomic alice bob (int 1) (int 9) int0 (codes "hi") (int 1 ∷ []) 5 shaky two
      two-Agrees two-IsValid two-HasSlack_ids refl (omega arith)).0

sent_once-HasSlack : HasSlack 1 sent_once
unfolding program
sent_once-HasSlack = record { counters = λ u mu e. ground arith; messages = omega arith }

-- The tables once Alice has written to Bob.
sent_tables :
    (t' : Tables) × (q' : Sequences) × (pg_run (hi ∷ []) (online tables no_sequences)
      ≡ (answer hi two ∷ [], online t' q'))
    × Agrees t' q' sent_once
unfolding program
sent_tables =
    Run.run-Agrees (hi ∷ []) (answer hi two ∷ []) tables no_sequences two sent_once two-Agrees
      two-IsValid (call two-HasSlack refl stop)

edit_message-Matches_example :
    Matches
      (online sent_tables.0 sent_tables.1)
      (edit_message alice (int 1) (codes "ho") 6 (online sent_tables.0 sent_tables.1))
      (mem_edit alice (int 1) (codes "ho") 6 sent_once)
edit_message-Matches_example =
    Editing.edit_message-Matches alice (int 1) (codes "ho") 6 sent_tables.0 sent_tables.1 sent_once
      sent_tables.3 sent_once-IsValid sent_once-HasSlack

-- The edit in memory succeeds, so that the one above does.
edit_test :
    (elim (mem_edit alice (int 1) (codes "ho") 6 sent_once) [
      | ok r ↦ r.0.self_pts
      | err e ↦ int0
      | panic ↦ int0
    ])
    ≡ int 2
unfolding program
edit_test = refl
