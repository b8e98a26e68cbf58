-- ===== src/Postgres/Agrees/Copy.antt =====
-- internal/db/message.go and memory/db.go: one participant's share of SendMessage keeps the two
-- storages in agreement.
use teled.Prelude.{
  ◌<◌, ◌≤◌, ◌≡◌, refl, sym, ap, ◌∙◌, List, [], ◌∷◌, ◌++◌, append-nil, or_else, none, some, Bool,
  true, false, arith, Int64, int0, inc, All, All-map, map, keep, keep-append, some_in, get, put,
  get-put_self, get-put_ne, ℕ_discrete, ◌==◌, ==_iff, ==_false,
}
use teled.Types.{Time, UpdateType, UpdateLogEntry}
use teled.Memory.State.{Db, user_of, updates_of}
use teled.Memory.State.{refs_of as mem_refs}
use teled.Memory.Account.{IsValid, Chain, Chain-le}
use teled.Memory.Account.Copy.{copied as mem_copied, new_ref}
use teled.Memory.Messages.{bump as mem_bump}
use teled.Postgres.Tables.{UserRow, RefRow, LogRow, Tables, Sequences}
use teled.Postgres.Sql.{add_row}
use teled.Postgres.Messages.{user_row, message_row, file_row, bump, logged_at, same_ref}
use teled.Postgres.History.{refs_of}
use teled.Postgres.Updates.{log_of, log_entry}
use teled.Postgres.Sql.{chosen}
use teled.Postgres.Running.{copied, ref_row_of, log_row, user_row-update_user, HasRoom}
use teled.Postgres.Selecting.{
  find-update_other, map-append, put_fresh, get_above, some_in_none, some_in-keep, All-unmap,
}
use teled.Postgres.Agrees.{Agrees, mem_user, keyed_ref, agrees-user}

-- Every entry of a log lies at or below the pts to which it leads.
pub Chain-All : (a b : Int64) (es : List UpdateLogEntry) → Chain a es b → All (λ e. e.pts ≤ b) es
Chain-All a b [] c = tt
Chain-All a b (e ∷ es) c = (Chain-le e.pts b es c.2, Chain-All e.pts b es c.2)

pub keep-add_own :
    {A : Type 0} (own : A → Bool) (row : A) (rows : List A)
    → own row ≡ true
    → keep own (add_row row rows) ≡ add_row row (keep own rows)
unfolding keep
keep-add_own own row rows mine = keep-append own rows (row ∷ []) ∙ rw mine refl

pub keep-add_other :
    {A : Type 0} (own : A → Bool) (row : A) (rows : List A)
    → own row ≡ false
    → keep own (add_row row rows) ≡ keep own rows
unfolding keep
keep-add_other own row rows other = keep-append own rows (row ∷ []) ∙ rw (other, append-nil) refl

All-both :
    {A : Type 0} (P Q R : A → Type 0)
    → ((x : A) → P x → Q x → R x)
    → (xs : List A) → All P xs
    → All Q xs
    → All R xs
All-both P Q R f [] h k = tt
All-both P Q R f (x ∷ xs) h k = (f x h.0 k.0, All-both P Q R f xs h.1 k.1)

module _ (u : Int64) (row : UserRow) (t : Tables) (q : Sequences)
    (found : user_row u t ≡ some row) where
  -- A pts above the account's has no entry yet.
  pub fresh_entry :
      (d : Db)
      → Agrees t q d
      → IsValid d
      → (pts : Int64) → row.pts < pts
      → some_in (logged_at u pts) t.updates_log ≡ false
  fresh_entry d agrees valid pts lt =
      let a = valid.accounts u (mem_user row) (agrees-user t q d agrees u row found) in
      let own = λ (e : LogRow). e.user_id == u in
      some_in-keep (logged_at u pts) own t.updates_log (λ e not_own. rw not_own refl)
        (some_in_none (logged_at u pts) (keep own t.updates_log) (
          All-map (λ e. e.pts ≤ row.pts) (λ e. logged_at u pts e ≡ false) (λ e le. ground arith)
            (keep own t.updates_log)
            (All-unmap (λ e. e.pts ≤ row.pts) log_entry (keep own t.updates_log)
              (rw (agrees.log u) (Chain-All int0 row.pts (updates_of d u) a.gapless)))))

module _ (u g : Int64) (out : Bool) (now : Time) (row : UserRow) (t : Tables) (q : Sequences)
    (d : Db) (agrees : Agrees t q d) (valid : IsValid d) (found : user_row u t ≡ some row)
    (room : HasRoom row) where
  account : user_of d u ≡ some (mem_user row)
  account = agrees-user t q d agrees u row found

  fresh_id : get ℕ_discrete (inc row.last_message_id) (mem_refs d u) ≡ none
  fresh_id =
      let a = valid.accounts u (mem_user row) account in
      get_above (inc row.last_message_id) row.last_message_id (mem_refs d u)
        (All-map _ _ (λ e r. omega (arith, r.keyed, r.allocated)) (mem_refs d u) a.refs_ok)
        (omega arith)

  -- A message that is newer than the account's copies may be copied under the next local id.
  pub fresh_ref :
      (last : Int64)
      → last < g
      → All (λ e. e.1.global_id ≤ last) (mem_refs d u)
      → some_in (same_ref (ref_row_of row u g out)) t.message_refs ≡ false
  fresh_ref last new older =
      let a = valid.accounts u (mem_user row) account in
      let own = λ (r : RefRow). r.user_id == u in
      let same = same_ref (ref_row_of row u g out) in
      let ids =
        All-unmap (λ e. e.0 ≤ row.last_message_id) keyed_ref (refs_of u t)
          (rw (agrees.refs u)
            (All-map _ _ (λ e r. omega (arith, r.keyed, r.allocated)) (mem_refs d u) a.refs_ok)) in
      let globals =
        All-unmap (λ e. e.1.global_id ≤ last) keyed_ref (refs_of u t) (rw (agrees.refs u) older) in
      some_in-keep same own t.message_refs (λ r not_own. rw not_own refl)
        (some_in_none same (refs_of u t) (
          All-both (λ (r : RefRow). r.message_id ≤ row.last_message_id) (λ r. r.global_id ≤ last)
            (λ r. same r ≡ false) (λ r id_le global_le. ground arith) (refs_of u t) ids globals))

  user_of-both :
      (v : Int64)
      → chosen mem_user (user_row v (copied u g out now row t))
        ≡ user_of (mem_copied u g out now (mem_user row) d) v
  unfolding user_row
  user_of-both v = elim (ℕ_discrete v u) [
    | yes e ↦ rw e (
        ap (chosen mem_user) (user_row-update_user u bump row t (λ w. refl) found)
        ∙ sym (get-put_self ℕ_discrete u (mem_bump (mem_user row)) d.users))
    | no e ↦
        ap (chosen mem_user) (
          find-update_other (λ w. w.id == v) (λ w. w.id == u) bump t.users
            (λ w own. (ground arith, ground arith)))
        ∙ agrees.users v
        ∙ sym (get-put_ne ℕ_discrete u v (mem_bump (mem_user row)) d.users e)
  ]

  refs_of-both :
      (v : Int64)
      → map keyed_ref (refs_of v (copied u g out now row t))
        ≡ mem_refs (mem_copied u g out now (mem_user row) d) v
  refs_of-both v =
      let r = ref_row_of row u g out in
      let own = λ (w : Int64) (r : RefRow). r.user_id == w in
      let added =
        put ℕ_discrete (inc row.last_message_id) (new_ref (mem_user row) g out) (mem_refs d u) in
      (elim (ℕ_discrete v u) [
        | yes e ↦ rw e (
            ap (map keyed_ref) (keep-add_own (own u) r t.message_refs ((==_iff u u).1 refl))
            ∙ map-append keyed_ref (refs_of u t) (r ∷ [])
            ∙ ap (λ l. l ++ keyed_ref r ∷ []) (agrees.refs u)
            ∙ sym (
                put_fresh (inc row.last_message_id) (new_ref (mem_user row) g out) (mem_refs d u)
                  fresh_id)
            ∙ sym (ap (λ o. or_else o []) (get-put_self ℕ_discrete u added d.refs)))
        | no e ↦
            ap (map keyed_ref)
              (keep-add_other (own v) r t.message_refs (==_false u v (λ s. e (sym s))))
            ∙ agrees.refs v
            ∙ sym (ap (λ o. or_else o []) (get-put_ne ℕ_discrete u v added d.refs e))
      ])

  log_of-both :
      (v : Int64)
      → log_of v (copied u g out now row t) ≡ updates_of (mem_copied u g out now (mem_user row) d) v
  log_of-both v =
      let e' = log_row u (inc row.pts) UpdateType.new g now in
      let own = λ (w : Int64) (r : LogRow). r.user_id == w in
      let added = updates_of d u ++ log_entry e' ∷ [] in
      (elim (ℕ_discrete v u) [
        | yes e ↦ rw e (
            ap (map log_entry) (keep-add_own (own u) e' t.updates_log ((==_iff u u).1 refl))
            ∙ map-append log_entry (keep (own u) t.updates_log) (e' ∷ [])
            ∙ ap (λ l. l ++ log_entry e' ∷ []) (agrees.log u)
            ∙ sym (ap (λ o. or_else o []) (get-put_self ℕ_discrete u added d.updates)))
        | no e ↦
            ap (map log_entry)
              (keep-add_other (own v) e' t.updates_log (==_false u v (λ s. e (sym s))))
            ∙ agrees.log v
            ∙ sym (ap (λ o. or_else o []) (get-put_ne ℕ_discrete u v added d.updates e))
      ])

  -- The rows and the maps that the two shares leave agree again.
  pub copied-Agrees : Agrees (copied u g out now row t) q (mem_copied u g out now (mem_user row) d)
  unfolding message_row file_row
  copied-Agrees = record {
    users = user_of-both;
    messages = agrees.messages;
    refs = refs_of-both;
    log = log_of-both;
    files = agrees.files;
    sequence = agrees.sequence;
    free = agrees.free;
    no_file = agrees.no_file;
    distinct = agrees.distinct;
  }
