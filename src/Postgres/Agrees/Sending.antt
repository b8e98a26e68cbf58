-- ===== src/Postgres/Agrees/Sending.antt =====
-- internal/db/message.go and memory/db.go: SendMessage on either storage, for any two accounts.
use teled.Prelude.{
  ◌≡◌, true, Str, Int64, ℕ_discrete, ◌∙◌, sym, ap, some, none, arith, Option-cases, inl, inr,
}
use teled.Types.{Time}
use teled.Memory.State.{Db, user_of}
use teled.Memory.Account.{IsValid}
use teled.Memory.Account.Keeps.{HasSlack, send_message-missing}
use teled.Memory.Account.Send.{send_message_self, send_message-both, send_message-no_peer}
use teled.Memory.Messages.{send_message as mem_send}
use teled.Postgres.Tables.{UserRow, Tables, Sequences}
use teled.Postgres.Sql.{fault, missing_parent, chosen}
use teled.Postgres.Messages.{
  user_row, has_media, nullable, insert_message, send_statements, send_message,
}
use teled.Postgres.Running.{online}
use teled.Postgres.Agrees.{Agrees, mem_user, agrees-user}
use teled.Postgres.Agrees.Send.{
  statements_self, statements_both, sent, both, next, sent-Agrees, both-Agrees, unused,
  next_message_runs,
}
use teled.Postgres.Agrees.Matching.{
  Follows, Matches, transaction-Matches, Follows-done, Follows-panic,
}

module _ (from peer : Int64) (text : Str) (random_id media_file_id : Int64) (now : Time)
    (t : Tables) (q : Sequences) (d : Db) (agrees : Agrees t q d) (valid : IsValid d)
    (slack : HasSlack 1 d) (media : has_media (nullable media_file_id) t ≡ true) where
  -- A participant that has no row stops the first statement.
  no_sender :
      user_row from t ≡ none
      → send_statements from peer text random_id media_file_id now (online t q) ≡ (
        fault missing_parent,
        online t (next from peer text random_id media_file_id now t q d agrees),
      )
  unfolding send_statements insert_message
  no_sender gone =
      let new = unused from peer text random_id media_file_id now t q d agrees slack.messages in
      let runs =
        next_message_runs from peer text random_id media_file_id now t q d agrees slack.messages in
      ground (arith, gone, new, runs)

  no_recipient :
      (rf : UserRow)
      → user_row from t ≡ some rf
      → user_row peer t ≡ none
      → send_statements from peer text random_id media_file_id now (online t q) ≡ (
        fault missing_parent,
        online t (next from peer text random_id media_file_id now t q d agrees),
      )
  unfolding send_statements insert_message
  no_recipient rf found gone =
      let new = unused from peer text random_id media_file_id now t q d agrees slack.messages in
      let runs =
        next_message_runs from peer text random_id media_file_id now t q d agrees slack.messages in
      ground (arith, found, gone, new, runs)

  unknown : (u : Int64) → user_row u t ≡ none → user_of d u ≡ none
  unknown u gone = sym (agrees.users u) ∙ ap (chosen mem_user) gone

  statements-Follows :
      Follows q
        (send_statements from peer text random_id media_file_id now (online t q))
        (mem_send from peer text random_id media_file_id now d)
  statements-Follows = elim (Option-cases (user_row from t)) [
    | inl e ↦
        Follows-panic q _ _ missing_parent _ (no_sender e)
          (send_message-missing from peer text random_id media_file_id now d (unknown from e))
    | inr (rf, e) ↦
        let at = agrees-user t q d agrees from rf e in
        let room = slack.counters from (mem_user rf) at in
        elim (Option-cases (user_row peer t)) [
          | inl e' ↦ Follows-panic q _ _ missing_parent _ (no_recipient rf e e') (
              send_message-no_peer from peer text random_id media_file_id now d (mem_user rf) at
                (unknown peer e') (λ same. cc (e, e', ap (λ u. user_row u t) same)))
          | inr (rp, e') ↦
              let at' = agrees-user t q d agrees peer rp e' in
              let room' = slack.counters peer (mem_user rp) at' in
              elim (ℕ_discrete from peer) [
                | yes same ↦
                    Follows-done q _ _ _
                      (sent from peer text random_id media_file_id now t q d agrees slack.messages
                        valid rf e room)
                      (next from peer text random_id media_file_id now t q d agrees) _
                      (statements_self from peer text random_id media_file_id now t q d agrees
                        slack.messages valid rf e room rp e' media same)
                      (send_message_self from peer text random_id media_file_id now d (mem_user rf)
                        at same)
                      (sent-Agrees from peer text random_id media_file_id now t q d agrees
                        slack.messages valid rf e room)
                | no differ ↦
                    Follows-done q _ _ _
                      (both from peer text random_id media_file_id now t q d agrees slack.messages
                        valid rf e room rp e' media differ room')
                      (next from peer text random_id media_file_id now t q d agrees) _
                      (statements_both from peer text random_id media_file_id now t q d agrees
                        slack.messages valid rf e room rp e' media differ room')
                      (send_message-both from peer text random_id media_file_id now d (mem_user rf)
                        at (mem_user rp) at' differ)
                      (both-Agrees from peer text random_id media_file_id now t q d agrees
                        slack.messages valid rf e room rp e' media differ room')
              ]
        ]
  ]

-- SendMessage on PostgreSQL refines SendMessage in memory. From tables that agree with a valid in-memory
-- database in which no counter is at its limit, with no attached file or a stored one, while no statement
-- fails: where the call in memory succeeds, so does this one, with the same result, and the two agree
-- again; where it panics, for an account that is not there, this one faults and leaves the tables.
pub send_message-Matches :
    (from peer : Int64) (text : Str) (random_id media_file_id : Int64) (now : Time) (t : Tables)
    (q : Sequences) (d : Db)
    → Agrees t q d
    → IsValid d
    → HasSlack 1 d
    → has_media (nullable media_file_id) t ≡ true
    → Matches
        (online t q)
        (send_message from peer text random_id media_file_id now (online t q))
        (mem_send from peer text random_id media_file_id now d)
unfolding send_message
send_message-Matches from peer text rid mid now t q d agrees valid slack media =
    transaction-Matches (send_statements from peer text rid mid now) t q
      (mem_send from peer text rid mid now d)
      (statements-Follows from peer text rid mid now t q d agrees valid slack media)
