-- ===== src/Postgres/Agrees/Send.antt =====
-- internal/db/message.go and memory/db.go: SendMessage does the same to both storages.
use teled.Prelude.{
  ◌+◌, ◌<◌, ◌≤◌, ◌≡◌, ◌≢◌, refl, sym, ap, ◌∙◌, none, some, true, false, arith, Str, Int64, int0,
  inc, word, All, All-map, or_else, get-put_self, get-put_ne, ℕ_discrete, ◌==◌, ==_iff, ==_false,
  if◌then◌else◌,
}
use teled.Types.{Time}
use teled.Memory.State.{Db, user_of, message_of, refs_of}
use teled.Memory.Account.{IsValid}
use teled.Memory.Messages.{store_message, new_message as mem_message_of}
use teled.Postgres.Tables.{UserRow, MessageRow, Tables, Sequences}
use teled.Postgres.Sql.{done, add_row, max_int}
use teled.Postgres.Messages.{
  user_row, message_row, file_row, bump, has_media, nullable, new_message, insert_message,
  next_message, store_copy, store_peer_copy, send_statements,
}
use teled.Postgres.Sql.{chosen}
use teled.Postgres.Running.{online, copied, HasRoom, store_copy_runs}
use teled.Postgres.Keyed.{HasKey-add_row}
use teled.Postgres.Selecting.{find-add_row_new, find-add_row_other, find-update_other}
use teled.Memory.Account.Copy.{copied as mem_copied, copied-SameElsewhere}
use teled.Memory.Account.Send.{stored-IsValid, sender_done-IsValid, sender_result}
use teled.Postgres.Agrees.{Agrees, mem_user, mem_message, agrees-user}
use teled.Postgres.Agrees.Copy.{copied-Agrees, fresh_ref, fresh_entry}

or_else-nullable : (id : Int64) → or_else (nullable id) int0 ≡ id
or_else-nullable id = ground arith

module _ (from peer : Int64) (text : Str) (random_id media_file_id : Int64) (now : Time)
    (t : Tables) (q : Sequences) (d : Db) (agrees : Agrees t q d) where
  -- The tables and the sequences behind the first statement.
  abbrev pub stored_row : MessageRow
  stored_row = new_message (inc d.msg_seq) from peer text random_id (nullable media_file_id) now

  abbrev pub stored : Tables
  stored = record t { messages = add_row stored_row t.messages }

  abbrev pub next : Sequences
  next = record q { messages = inc d.msg_seq }

  module _ (room : d.msg_seq + 1 < word) where
    pub unused : message_row (inc d.msg_seq) t ≡ none
    unused = agrees.free (inc d.msg_seq) (omega (arith, agrees.sequence))

    same_message :
        (g : Int64)
        → chosen mem_message (message_row g stored)
          ≡ message_of (store_message from peer text random_id media_file_id now d) g
    unfolding message_row
    same_message g =
        let m = mem_message_of (inc d.msg_seq) from peer text random_id media_file_id now in
        elim (ℕ_discrete g (inc d.msg_seq)) [
          | yes e ↦ rw e (
              ap (chosen mem_message) (
                find-add_row_new (λ x. x.global_id == inc d.msg_seq) stored_row t.messages unused
                ∙ ap (λ b. if b then some stored_row else none)
                    ((==_iff (inc d.msg_seq) (inc d.msg_seq)).1 refl))
              ∙ ground (arith, or_else-nullable media_file_id)
              ∙ sym (get-put_self ℕ_discrete (inc d.msg_seq) m d.messages))
          | no e ↦
              ap (chosen mem_message) (
                find-add_row_other (λ x. x.global_id == g) stored_row t.messages
                  (==_false (inc d.msg_seq) g (λ s. e (sym s))))
              ∙ agrees.messages g
              ∙ sym (get-put_ne ℕ_discrete (inc d.msg_seq) g m d.messages e)
        ]

    pub stored-Agrees :
        Agrees stored next (store_message from peer text random_id media_file_id now d)
    unfolding user_row message_row file_row
    stored-Agrees = record {
      users = agrees.users;
      messages = same_message;
      refs = agrees.refs;
      log = agrees.log;
      files = agrees.files;
      sequence = refl;
      free = λ g lt.
          find-add_row_other (λ x. x.global_id == g) stored_row t.messages
            (==_false (inc d.msg_seq) g (omega (arith, agrees.sequence)))
          ∙ agrees.free g (omega (arith, agrees.sequence));
      no_file = agrees.no_file;
      distinct = HasKey-add_row (λ m. m.global_id) stored_row t.messages unused agrees.distinct;
    }

    pub next_message_runs : next_message (online t q) ≡ (done (inc d.msg_seq), online t next)
    unfolding next_message
    next_message_runs = rw (agrees.sequence) (rw (==_false d.msg_seq max_int (omega arith)) refl)

    insert_message_runs :
        (rf rp : UserRow)
        → user_row from t ≡ some rf
        → user_row peer t ≡ some rp
        → has_media (nullable media_file_id) t ≡ true
        → insert_message from peer text random_id (nullable media_file_id) now (online t q)
          ≡ (done (inc d.msg_seq), online stored next)
    unfolding insert_message
    insert_message_runs rf rp found found' media =
        ground (arith, found, found', media, unused, next_message_runs)

    stored_row-found : message_row (inc d.msg_seq) stored ≡ some stored_row
    unfolding message_row
    stored_row-found =
        find-add_row_new (λ x. x.global_id == inc d.msg_seq) stored_row t.messages unused
        ∙ ap (λ b. if b then some stored_row else none)
            ((==_iff (inc d.msg_seq) (inc d.msg_seq)).1 refl)

    module _ (valid : IsValid d) (rf : UserRow) (found : user_row from t ≡ some rf)
        (roomy : HasRoom rf) where
      pub account : user_of d from ≡ some (mem_user rf)
      account = agrees-user t q d agrees from rf found

      -- The tables behind the sender's share.
      abbrev pub sent : Tables
      sent = copied from (inc d.msg_seq) true now rf stored

      abbrev pub mem_stored : Db
      mem_stored = store_message from peer text random_id media_file_id now d

      abbrev pub mem_sent : Db
      mem_sent = mem_copied from (inc d.msg_seq) true now (mem_user rf) mem_stored

      mem_stored-IsValid : IsValid mem_stored
      mem_stored-IsValid =
          stored-IsValid from peer text random_id media_file_id now d (mem_user rf) account room
            valid

      pub sent-Agrees : Agrees sent next mem_sent
      unfolding user_row
      sent-Agrees =
          copied-Agrees from (inc d.msg_seq) true now rf stored next mem_stored stored-Agrees
            mem_stored-IsValid found roomy

      older :
          (u : Int64) (row : UserRow)
          → user_row u t ≡ some row
          → All (λ e. e.1.global_id ≤ d.msg_seq) (refs_of d u)
      older u row there =
          All-map _ _ (λ e r. r.known) (refs_of d u)
            (valid.accounts u (mem_user row) (agrees-user t q d agrees u row there)).refs_ok

      sender_runs :
          store_copy from (inc d.msg_seq) true now (online stored next)
          ≡ (done (inc rf.last_message_id, inc rf.pts), online sent next)
      unfolding user_row
      sender_runs =
          store_copy_runs from (inc d.msg_seq) true now rf stored next found roomy
            (fresh_ref from (inc d.msg_seq) true now rf t q d agrees valid found roomy d.msg_seq
              (omega arith) (older from rf found))
            stored_row stored_row-found
            (fresh_entry from rf t q found d agrees valid (inc rf.pts) (omega arith))

      pub mem_sent-IsValid : IsValid mem_sent
      mem_sent-IsValid =
          sender_done-IsValid from peer text random_id media_file_id now d (mem_user rf) account
            roomy room valid

      module _ (rp : UserRow) (found' : user_row peer t ≡ some rp)
          (media : has_media (nullable media_file_id) t ≡ true) where
        pub statements_self :
            from ≡ peer
            → send_statements from peer text random_id media_file_id now (online t q) ≡ (
              done (
                  sender_result from peer text random_id media_file_id now d (mem_user rf) account),
              online sent next,
            )
        unfolding send_statements store_peer_copy
        statements_self same = ground (
          arith,
          insert_message_runs rf rp found found' media,
          sender_runs,
          (==_iff from peer).1 same,
        )

        module _ (differ : from ≢ peer) (roomy' : HasRoom rp) where
          found_sent : user_row peer sent ≡ some rp
          unfolding user_row
          found_sent =
              find-update_other (λ w. w.id == peer) (λ w. w.id == from) bump t.users
                (λ w own. (ground arith, ground arith))
              ∙ found'

          older_sent : All (λ e. e.1.global_id ≤ d.msg_seq) (refs_of mem_sent peer)
          older_sent =
              rw
                ((copied-SameElsewhere from (inc d.msg_seq) true now (mem_user rf) mem_stored
                    account).refs
                  peer (λ e. differ (sym e)))
                (older peer rp found')

          abbrev pub both : Tables
          both = copied peer (inc d.msg_seq) false now rp sent

          peer_runs :
              store_copy peer (inc d.msg_seq) false now (online sent next)
              ≡ (done (inc rp.last_message_id, inc rp.pts), online both next)
          unfolding message_row
          peer_runs =
              store_copy_runs peer (inc d.msg_seq) false now rp sent next found_sent roomy'
                (fresh_ref peer (inc d.msg_seq) false now rp sent next mem_sent sent-Agrees
                  mem_sent-IsValid found_sent roomy' d.msg_seq (omega arith) older_sent)
                stored_row stored_row-found
                (fresh_entry peer rp sent next found_sent mem_sent sent-Agrees mem_sent-IsValid
                  (inc rp.pts) (omega arith))

          pub statements_both :
              send_statements from peer text random_id media_file_id now (online t q) ≡ (
                done
                    (record (sender_result from peer text random_id media_file_id now d
                      (mem_user rf)
                      account) {
                        recipient_local_id = inc rp.last_message_id;
                        recipient_pts = inc rp.pts;
                      }),
                online both next,
              )
          unfolding send_statements store_peer_copy
          statements_both = ground (
            arith,
            insert_message_runs rf rp found found' media,
            sender_runs,
            peer_runs,
            ==_false from peer differ,
          )

          pub both-Agrees :
              Agrees both next (mem_copied peer (inc d.msg_seq) false now (mem_user rp) mem_sent)
          both-Agrees =
              copied-Agrees peer (inc d.msg_seq) false now rp sent next mem_sent sent-Agrees
                mem_sent-IsValid found_sent roomy'
