-- ===== src/Postgres/Agrees/Reads.antt =====
-- internal/db/message.go, updates.go and memory/db.go: the reads of the two storages answer the same.
use teled.Prelude.{
  ℕ, ◌<◌, ◌≤◌, ◌≡◌, refl, sym, ap, ◌∙◌, List, [], ◌∷◌, Option, none, some, Bool, arith, Int64, int0,
  index, length, take, map, keep, sort, values, get, or_else, ℕ_discrete, ◌==◌, ==_false,
  if◌then◌else◌, Option-cases, inl, inr, zero, suc,
}
use teled.Types.{Time, File, UpdateLogEntry, ok}
use teled.Memory.State.{Db, MemMessage, MemRef, message_of, updates_of}
use teled.Memory.State.{refs_of as mem_refs}
use teled.Memory.Messages.{
  newer, cut, collect, message, history_wanted as mem_wanted, get_history as mem_history,
  other as mem_other,
}
use teled.Memory.Updates.{get_difference as mem_difference, earlier, since as mem_since}
use teled.Postgres.Tables.{UserRow, MessageRow, RefRow, Tables, Sequences}
use teled.Postgres.Sql.{done}
use teled.Postgres.Messages.{user_row, message_row, file_row}
use teled.Postgres.History.{
  refs_of, other, scan_message, joined, history_wanted, newest, get_history,
}
use teled.Postgres.Updates.{get_state, get_difference, log_of, since}
use teled.Postgres.Sql.{chosen}
use teled.Postgres.Running.{online}
use teled.Postgres.Agrees.{Agrees, mem_message, keyed_ref, agrees-user, agrees-message}

take_all : {A : Type 0} (n : ℕ) (xs : List A) → length xs ≤ n → take n xs ≡ xs
take_all zero [] h = refl
take_all zero (x ∷ xs) h = absurd (omega arith)
take_all (suc n) [] h = refl
take_all (suc n) (x ∷ xs) h = ap (λ l. x ∷ l) (take_all n xs (omega arith))

-- LIMIT cuts as the in-memory database does, when it is positive.
take-cut :
    {A : Type 0} (limit : Int64) (xs : List A) → int0 < limit → take (index limit) xs ≡ cut limit xs
take-cut limit xs pos = ground (arith, take_all (index limit) xs)

module _ (t : Tables) (q : Sequences) (d : Db) (agrees : Agrees t q d) where
  same_media :
      (o : Option Int64)
      → (elim o as (λ _. Option File) [ none ↦ none | some id ↦ file_row id t ])
        ≡ (if or_else o int0 == int0 then none else get ℕ_discrete (or_else o int0) d.files)
  same_media none = refl
  same_media (some id) = elim (ℕ_discrete id int0) [
    | yes e ↦ rw e agrees.no_file
    | no e ↦ rw (==_false id int0 e) (agrees.files id)
  ]

  scan_message-message :
      (self : Int64) (r : RefRow) (m : MessageRow)
      → scan_message self r m t ≡ message self (keyed_ref r).1 (mem_message m) d
  unfolding scan_message message other mem_other
  scan_message-message self r m =
      ap (λ f. record (scan_message self r m t) { media = f }) (same_media m.media_file_id)

  joined-collect :
      (self : Int64) (wanted : RefRow → MessageRow → Bool) (wanted' : MemRef → MemMessage → Bool)
      → ((r : RefRow) (m : MessageRow) → wanted r m ≡ wanted' (keyed_ref r).1 (mem_message m))
      → (rows : List RefRow)
      → joined self wanted rows t ≡ collect self wanted' (values (map keyed_ref rows)) d
  unfolding joined collect
  joined-collect self wanted wanted' same [] = refl
  joined-collect self wanted wanted' same (r ∷ rows) =
      let rest = joined-collect self wanted wanted' same rows in
      elim (Option-cases (message_row r.global_id t)) [
        | inl e ↦
            let gone : message_of d r.global_id ≡ none =
              sym (agrees.messages r.global_id) ∙ ap (chosen mem_message) e in
            rw (e, joined) (rw (gone, collect) rest)
        | inr (m, e) ↦
            rw (e, joined)
              (rw (agrees-message t q d agrees r.global_id m e, collect)
                (rw (rest, same r m, scan_message-message self r m) refl))
      ]

  same_wanted :
      (self peer offset : Int64) (r : RefRow) (m : MessageRow)
      → history_wanted self peer offset r m
        ≡ mem_wanted self peer offset (keyed_ref r).1 (mem_message m)
  unfolding other mem_other
  same_wanted self peer offset r m = ground arith

  same_history :
      (self peer offset limit : Int64)
      → int0 < limit
      → newest limit (joined self (history_wanted self peer offset) (refs_of self t) t)
        ≡ mem_history self peer offset limit d
  unfolding mem_history
  same_history self peer offset limit pos =
      ap (λ msgs. newest limit msgs)
        (joined-collect self (history_wanted self peer offset) (mem_wanted self peer offset)
            (same_wanted self peer offset) (refs_of self t)
          ∙ ap (λ m. collect self (mem_wanted self peer offset) (values m) d) (agrees.refs self))
      ∙ take-cut limit
          (sort newer (collect self (mem_wanted self peer offset) (values (mem_refs d self)) d)) pos

  -- GetHistory with a positive limit answers the same, and changes nothing.
  pub get_history-Agrees :
      (self peer offset_id limit : Int64)
      → int0 < limit
      → get_history self peer offset_id limit (online t q)
        ≡ (done (mem_history self peer offset_id limit d), online t q)
  unfolding get_history
  get_history-Agrees self peer offset limit pos =
      let shown = same_history self peer offset limit pos in ground (arith, shown)

  same_entries :
      (self since_pts limit : Int64)
      → int0 < limit
      → take (index limit) (sort earlier (keep (since since_pts) (log_of self t)))
        ≡ cut limit (sort earlier (keep (mem_since since_pts) (updates_of d self)))
  same_entries self since_pts limit pos =
      ap (λ es. take (index limit) (sort earlier (keep (mem_since since_pts) es))) (agrees.log self)
      ∙ take-cut limit (sort earlier (keep (mem_since since_pts) (updates_of d self))) pos

  pub get_difference-Agrees :
      (self since_pts limit : Int64) (now : Time) (row : UserRow)
      → int0 < limit
      → user_row self t ≡ some row
      → (es : List UpdateLogEntry) × (get_difference self since_pts limit now (online t q)
          ≡ (done (es, row.pts), online t q))
        × (mem_difference self since_pts limit d ≡ ok (es, row.pts))
  unfolding get_difference get_state mem_difference
  get_difference-Agrees self since_pts limit now row pos found =
      let entries = same_entries self since_pts limit pos in
      let account = agrees-user t q d agrees self row found in
      (
        cut limit (sort earlier (keep (mem_since since_pts) (updates_of d self))),
        ground (arith, found, entries),
        rw (account, mem_difference) refl,
      )
