-- ===== src/Postgres/Agrees/Delete.antt =====
-- internal/db/edit_delete.go and memory/db.go: DeleteMessages does the same to both storages.
use teled.Prelude.{
  ◌+◌, ◌<◌, ◌≤◌, ◌≡◌, refl, sym, ap, ◌∙◌, subst, List, [], ◌∷◌, none, some, true, arith, Int64, int,
  add_len, word, length, get, ℕ_discrete, ◌==◌, ==_iff, Option-cases, inl, inr,
}
use teled.Types.{Time, DeleteResult, UpdateType, encode_deleted, panic}
use teled.Memory.State.{Db, MemUser, user_of, message_of, refs_of}
use teled.Memory.Messages.{log_update as mem_log, allocate_pts as mem_allocate}
use teled.Memory.Revisions.{
  mark_deleted as mem_mark, delete_each as mem_each, log_deleted as mem_log_deleted,
  delete_messages as mem_delete,
}
use teled.Memory.Account.{IsValid}
use teled.Memory.Account.Advance.{logged, advanced, allocate_pts-ok}
use teled.Memory.Account.Keeps.{HasSlack}
use teled.Memory.Account.Marks.{
  length-owned, delete_each-users, delete_each-IsValid, delete_each-owned,
}
use teled.Postgres.Tables.{Tables, Sequences}
use teled.Postgres.Sql.{done, no_rows, chosen}
use teled.Postgres.Messages.{user_row, message_row}
use teled.Postgres.Revisions.{
  ref_row, mark_deleted, delete_each, log_deleted, delete_statements, delete_messages,
}
use teled.Postgres.Running.{online}
use teled.Postgres.Selecting.{find-passes, update_nothing}
use teled.Postgres.Agrees.{Agrees, mem_user, mem_message, keyed_ref, agrees-user, agrees-message}
use teled.Postgres.Agrees.Copy.{fresh_entry}
use teled.Postgres.Agrees.Advance.{
  advanced_rows, allocate_pts_missing, allocate_pts_runs, log_update_runs, advanced-Agrees,
}
use teled.Postgres.Agrees.Revise.{ref_row-Agrees, revised-Agrees}
use teled.Postgres.Agrees.Matching.{
  Follows, Matches, transaction-Matches, Follows-done, Follows-panic,
}

mark_deleted-Agrees :
    (t : Tables) (q : Sequences) (d : Db) (g : Int64)
    → Agrees t q d
    → Agrees (mark_deleted g t) q (mem_mark g d)
unfolding mem_mark message_row
mark_deleted-Agrees t q d g agrees = elim (Option-cases (message_row g t)) [
  | inl e ↦
      let gone : message_of d g ≡ none = sym (agrees.messages g) ∙ ap (chosen mem_message) e in
      rw (update_nothing (λ m. m.global_id == g) (λ m. record m { deleted = true }) t.messages e)
        (rw (gone, mem_mark) agrees)
  | inr (m, e) ↦
      rw (agrees-message t q d agrees g m e, mem_mark)
        (revised-Agrees t q d agrees g m e (λ m. m.global_id == g)
          (λ m. record m { deleted = true }) (find-passes (λ x. x.global_id == g) m t.messages e)
          (λ x h. (==_iff x.global_id g).0 h) (λ x. refl))
]

module _ (self : Int64) (q : Sequences) where
  delete_each-Agrees :
      (ids : List Int64) (t : Tables) (d : Db)
      → Agrees t q d
      → (t' : Tables) × (delete_each self ids (online t q)
          ≡ (done (mem_each self ids d).0, online t' q))
        × Agrees t' q (mem_each self ids d).1
  unfolding delete_each mem_each
  delete_each-Agrees [] t d agrees = (t, refl, agrees)
  delete_each-Agrees (i ∷ ids) t d agrees =
      let same = ref_row-Agrees t q d agrees self i in
      elim (Option-cases (ref_row self i t)) [
        | inl e ↦
            let gone : get ℕ_discrete i (refs_of d self) ≡ none =
              sym same ∙ ap (chosen (λ r. (keyed_ref r).1)) e in
            let (t', runs, agrees') = delete_each-Agrees ids t d agrees in
            rw (gone, mem_each) (t', ground (arith, e, runs), agrees')
        | inr (r, e) ↦
            let there : get ℕ_discrete i (refs_of d self) ≡ some (keyed_ref r).1 =
              sym same ∙ ap (chosen (λ r. (keyed_ref r).1)) e in
            let (t', runs, agrees') =
              delete_each-Agrees ids (mark_deleted r.global_id t) (mem_mark r.global_id d)
                (mark_deleted-Agrees t q d r.global_id agrees) in
            rw (there, mem_each) (t', ground (arith, e, runs), agrees')
      ]

  log_deleted-Follows :
      (ids : List Int64) (now : Time) (t : Tables) (d : Db)
      → Agrees t q d
      → IsValid d
      → ((mu : MemUser) → user_of d self ≡ some mu → mu.pts + length ids < word)
      → length ids ≤ 2_147_483_647
      → Follows q (log_deleted self ids now (online t q)) (mem_log_deleted self ids now d)
  unfolding log_deleted mem_log_deleted mem_log
  log_deleted-Follows [] now t d agrees valid room few = (refl, refl, agrees)
  log_deleted-Follows (i ∷ ids) now t d agrees valid room few =
      let n = length (i ∷ ids) in
      elim (Option-cases (user_row self t)) [
        | inl e ↦
            let stops = allocate_pts_missing self n t q e in
            let gone : user_of d self ≡ none = sym (agrees.users self) ∙ ap (chosen mem_user) e in
            let stops' : mem_allocate self n d ≡ panic =
              unfold mem_allocate in rw (gone, mem_allocate) refl in
            Follows-panic q _ _ no_rows (online t q) (ground (arith, stops)) (rw stops' refl)
        | inr (row, e) ↦
            let mine = agrees-user t q d agrees self row e in
            let pts = add_len row.pts n in
            let entry = logged pts (int n) UpdateType.delete none (encode_deleted (i ∷ ids)) now in
            let small = room (mem_user row) mine in
            let advances = allocate_pts_runs self row t q e n small in
            let logs =
              log_update_runs self row t q e n small entry
                (fresh_entry self row t q e d agrees valid pts (omega arith)) (omega arith) in
            let advances' = allocate_pts-ok self (mem_user row) d mine n in
            let answer : DeleteResult = record {
              pts = pts;
              pts_count = int n;
              local_ids = i ∷ ids;
            } in
            Follows-done q _ _ answer (advanced_rows self n entry t) q
              (advanced self (mem_user row) pts entry d) (ground (arith, advances, logs))
              (rw advances' refl) (advanced-Agrees self row t q e n small d agrees entry)
      ]

  statements-Follows :
      (ids : List Int64) (now : Time) (t : Tables) (d : Db)
      → Agrees t q d
      → IsValid d
      → HasSlack (length ids + 1) d
      → length ids ≤ 2_147_483_647
      → Follows q (delete_statements self ids now (online t q)) (mem_delete self ids now d)
  unfolding delete_statements mem_delete
  statements-Follows ids now t d agrees valid slack few =
      let (t', runs, agrees') = delete_each-Agrees ids t d agrees in
      let rs = refs_of d self in
      let ds = (mem_each self ids d).0 in
      let d₁ = (mem_each self ids d).1 in
      let fewer : length ds ≤ length ids =
        rw (delete_each-owned self rs ids d refl) (length-owned rs ids) in
      let same = (delete_each-users self rs ids d).0 in
      subst (λ y. Follows q y (mem_delete self ids now d)) (sym (ground (arith, runs)))
        (log_deleted-Follows ds now t' d₁ agrees' (delete_each-IsValid self rs ids d valid)
          (λ mu found.
            let c = slack.counters self mu (sym (ap (get ℕ_discrete self) same) ∙ found) in
            omega (arith, c.1))
          (omega arith))

-- DeleteMessages on PostgreSQL refines DeleteMessages in memory. From tables that agree with a valid
-- in-memory database whose counters the call does not wrap, for at most 2^31 - 1 local ids, while no
-- statement fails: where the call in memory succeeds, so does this one, with the same result, and the two
-- agree again; where it panics, this one faults and leaves the tables.
pub delete_messages-Matches :
    (self : Int64) (local_ids : List Int64) (now : Time) (t : Tables) (q : Sequences) (d : Db)
    → Agrees t q d
    → IsValid d
    → HasSlack (length local_ids + 1) d
    → length local_ids ≤ 2_147_483_647
    → Matches
        (online t q)
        (delete_messages self local_ids now (online t q))
        (mem_delete self local_ids now d)
unfolding delete_messages
delete_messages-Matches self ids now t q d agrees valid slack few =
    transaction-Matches (delete_statements self ids now) t q (mem_delete self ids now d)
      (statements-Follows self q ids now t d agrees valid slack few)
