-- ===== src/Postgres/Agrees/Editing.antt =====
-- internal/db/edit_delete.go and memory/db.go: EditMessage does the same to both storages.
use teled.Prelude.{
  ◌+◌, ◌<◌, ◌≡◌, ◌≢◌, refl, sym, ap, ◌∙◌, none, some, true, false, ◌&&◌, not, arith, Str, Int64,
  add_len, word, get, ℕ_discrete, ◌==◌, ==_iff, Bool-cases, Option-cases, inl, inr, subst, get-All,
}
use teled.Types.{Time, EditResult, Result, message_id_invalid}
use teled.Memory.State.{Db, user_of, message_of, refs_of}
use teled.Memory.Messages.{log_update as mem_log}
use teled.Memory.Revisions.{
  edit_peer as mem_peer, edit_stored, edit_message as mem_edit, editable as mem_editable,
  put_message,
}
use teled.Memory.Account.{IsValid, IsRef}
use teled.Memory.Account.Advance.{
  advanced, allocate_pts-ok, advanced-IsValid, advanced-SameElsewhere,
}
use teled.Memory.Account.Edit.{edit_message-allowed, put_message-IsValid, edit_entry}
use teled.Memory.Account.Keeps.{HasSlack}
use teled.Postgres.Tables.{UserRow, MessageRow, RefRow, Tables, Sequences}
use teled.Postgres.Sql.{chosen}
use teled.Postgres.Messages.{user_row, message_row}
use teled.Postgres.Revisions.{
  ref_row, edit_peer, edit_statements, edit_message, editable, edited, update_messages, edit_result,
  scan_or,
}
use teled.Postgres.Running.{online}
use teled.Postgres.Agrees.{Agrees, mem_user, mem_message, keyed_ref, agrees-user, agrees-message}
use teled.Postgres.Agrees.Copy.{fresh_entry}
use teled.Postgres.Agrees.Advance.{
  advanced_rows, allocate_pts_runs, log_update_runs, advanced-Agrees,
}
use teled.Postgres.Agrees.Revise.{ref_row-Agrees, row_of_user, row_of_message, revised-Agrees}
use teled.Postgres.Agrees.Matching.{Follows, Matches, transaction-Matches, Follows-error}
use teled.Postgres.Agrees.Edit.{get-empty, edit_peer-Follows, edit_row_runs, edit_row_refused}

module _ (t : Tables) (q : Sequences) (d : Db) (agrees : Agrees t q d) (valid : IsValid d)
    (slack : HasSlack 1 d) (self l : Int64) (text : Str) (now : Time) where
  -- An edit that is allowed: the caller's share, then the peer's.
  module _ (r : RefRow) (m : MessageRow) (row : UserRow) (ref : ref_row self l t ≡ some r)
      (stored : message_row r.global_id t ≡ some m) (named : m.global_id ≡ r.global_id)
      (account : user_row self t ≡ some row)
      (may : (m.from_user_id == self) && not m.deleted ≡ true) where
    abbrev g : Int64
    g = r.global_id

    abbrev pts : Int64
    pts = add_len row.pts 1

    abbrev new_row : MessageRow
    new_row = edited text now m

    abbrev t₀ : Tables
    t₀ = update_messages (editable self g) (edited text now) t

    abbrev d₀ : Db
    d₀ = put_message g (mem_message new_row) d

    abbrev t₁ : Tables
    t₁ = advanced_rows self 1 (edit_entry pts g now) t₀

    abbrev d₁ : Db
    d₁ = advanced self (mem_user row) pts (edit_entry pts g now) d₀

    pass : editable self g m ≡ true
    pass = let same = (==_iff m.global_id g).1 named in ground (arith, same, may)

    only : (x : MessageRow) → editable self g x ≡ true → x.global_id ≡ g
    only x h = ground arith

    agrees₀ : Agrees t₀ q d₀
    agrees₀ =
        revised-Agrees t q d agrees g m stored (editable self g) (edited text now) pass only
          (λ x. refl)

    there : message_of d g ≡ some (mem_message m)
    there = agrees-message t q d agrees g m stored

    valid₀ : IsValid d₀
    valid₀ =
        put_message-IsValid g (mem_message m) (mem_message new_row) d there refl refl refl valid

    mine : user_of d self ≡ some (mem_user row)
    mine = agrees-user t q d agrees self row account

    small : row.pts + 1 < word
    small = (slack.counters self (mem_user row) mine).1

    account₀ : user_row self t₀ ≡ some row
    unfolding user_row
    account₀ = account

    agrees₁ : Agrees t₁ q d₁
    agrees₁ = advanced-Agrees self row t₀ q account₀ 1 small d₀ agrees₀ (edit_entry pts g now)

    valid₁ : IsValid d₁
    valid₁ =
        advanced-IsValid self (mem_user row) d₀ mine pts (edit_entry pts g now)
          (omega (arith, small)) (omega (arith, small)) refl valid₀

    room₁ :
        m.peer_user_id ≢ self
        → (row' : UserRow) → user_row m.peer_user_id t₁ ≡ some row'
        → row'.pts + 1 < word
    room₁ differ row' found =
        (slack.counters m.peer_user_id (mem_user row') (
          sym (
            (advanced-SameElsewhere self (mem_user row) d₀ mine pts (edit_entry pts g now)).users
              m.peer_user_id differ)
          ∙ agrees-user t₁ q d₁ agrees₁ m.peer_user_id row' found)).1

    statements_run :
        edit_statements self l text now (online t q)
        ≡ edit_peer (edit_result l m pts now) self g now (online t₁ q)
    unfolding edit_statements scan_or
    statements_run =
        let edits = edit_row_runs t q d agrees self g text now m stored may in
        let advances = allocate_pts_runs self row t₀ q account₀ 1 small in
        let logs =
          log_update_runs self row t₀ q account₀ 1 small (edit_entry pts g now)
            (fresh_entry self row t₀ q account₀ d₀ agrees₀ valid₀ pts (omega (arith, small)))
            (omega arith) in
        ground (arith, ref, edits, advances, logs)

    ref' : get ℕ_discrete l (refs_of d self) ≡ some (keyed_ref r).1
    ref' = sym (ref_row-Agrees t q d agrees self l) ∙ ap (chosen (λ r. (keyed_ref r).1)) ref

    after : Int64 → Result (EditResult × Db)
    after x =
        mem_peer (edit_result l m pts now) self x now
          (advanced self (mem_user row) pts (edit_entry pts x now) d₀)

    stored_runs : edit_stored self l g (mem_message m) text now d ≡ after m.global_id
    unfolding edit_stored mem_log after
    stored_runs = rw (allocate_pts-ok self (mem_user row) d₀ mine 1) refl

    mem_runs : mem_edit self l text now d ≡ mem_peer (edit_result l m pts now) self g now d₁
    unfolding after
    mem_runs =
        edit_message-allowed self l text now d (keyed_ref r).1 (mem_message m) ref' there
          (ground (arith, may))
        ∙ stored_runs
        ∙ ap after named

    allowed-Follows :
        Follows q (edit_statements self l text now (online t q)) (mem_edit self l text now d)
    allowed-Follows =
        subst (λ y. Follows q y (mem_edit self l text now d)) (sym statements_run)
          (subst (Follows q (edit_peer (edit_result l m pts now) self g now (online t₁ q)))
            (sym mem_runs)
            (edit_peer-Follows t₁ q d₁ agrees₁ valid₁ (edit_result l m pts now) self g now room₁))

  -- What a ref of the caller stands for.
  edit_ref-Follows :
      (r : RefRow) (row : UserRow) (m : MessageRow)
      → ref_row self l t ≡ some r
      → user_row self t ≡ some row
      → message_row r.global_id t ≡ some m
      → m.global_id ≡ r.global_id
      → Follows q (edit_statements self l text now (online t q)) (mem_edit self l text now d)
  unfolding edit_statements scan_or mem_edit
  edit_ref-Follows r row m ref account stored named =
      elim (Bool-cases ((m.from_user_id == self) && not m.deleted)) [
        | inl may ↦ allowed-Follows r m row ref stored named account may
        | inr barred ↦
            let refuses = edit_row_refused t q d agrees self r.global_id text now m stored barred in
            let ref'' : get ℕ_discrete l (refs_of d self) ≡ some (keyed_ref r).1 =
              sym (ref_row-Agrees t q d agrees self l) ∙ ap (chosen (λ r. (keyed_ref r).1)) ref in
            let m' = agrees-message t q d agrees r.global_id m stored in
            let no_edit : mem_editable self (mem_message m) ≡ false = ground (arith, barred) in
            Follows-error q _ _ message_id_invalid t (ground (arith, ref, refuses))
              (rw (ref'', mem_edit) (rw (m', mem_edit) (rw no_edit refl)))
      ]

  statements-Follows :
      Follows q (edit_statements self l text now (online t q)) (mem_edit self l text now d)
  unfolding edit_statements scan_or mem_edit
  statements-Follows =
      let same = ref_row-Agrees t q d agrees self l in
      elim (Option-cases (ref_row self l t)) [
        | inl e ↦
            let gone : get ℕ_discrete l (refs_of d self) ≡ none =
              sym same ∙ ap (chosen (λ r. (keyed_ref r).1)) e in
            Follows-error q _ _ message_id_invalid t (ground (arith, e)) (rw (gone, mem_edit) refl)
        | inr (r, e) ↦
            let there : get ℕ_discrete l (refs_of d self) ≡ some (keyed_ref r).1 =
              sym same ∙ ap (chosen (λ r. (keyed_ref r).1)) e in
            elim (Option-cases (user_of d self)) [
              | inl no_user ↦
                  let bare = (valid.strangers self no_user).0 in
                  absurd (get-empty l (refs_of d self) bare there)
              | inr (mu, found) ↦
                  let (row, account, mu_eq) = row_of_user t q d agrees self mu found in
                  let a =
                    get-All ℕ_discrete (IsRef d.messages d.msg_seq self mu.last_message_id) l
                      (refs_of d self) (valid.accounts self mu found).refs_ok there in
                  let (m, stored, m_eq) =
                    row_of_message t q d agrees r.global_id a.canonical a.stored in
                  edit_ref-Follows r row m e account stored (ap (λ x. x.global_id) m_eq ∙ a.named)
            ]
      ]

-- EditMessage on PostgreSQL refines EditMessage in memory. From tables that agree with a valid in-memory
-- database in which no counter is at its limit, while no statement fails: where the call in memory
-- succeeds, so does this one, with the same result, and the two agree again; where it answers an error,
-- this one answers the same and changes nothing; where it panics, this one faults and leaves the tables.
pub edit_message-Matches :
    (self local_id : Int64) (text : Str) (now : Time) (t : Tables) (q : Sequences) (d : Db)
    → Agrees t q d
    → IsValid d
    → HasSlack 1 d
    → Matches
        (online t q)
        (edit_message self local_id text now (online t q))
        (mem_edit self local_id text now d)
unfolding edit_message
edit_message-Matches self l text now t q d agrees valid slack =
    transaction-Matches (edit_statements self l text now) t q (mem_edit self l text now d)
      (statements-Follows t q d agrees valid slack self l text now)
