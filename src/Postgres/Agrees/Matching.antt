-- ===== src/Postgres/Agrees/Matching.antt =====
-- internal/db and memory/db.go: when a call on PostgreSQL ends as the call in memory does.
use teled.Prelude.{subst, ◌≡◌, refl, sym, [], arith}
use teled.Types.{Result, ok, err, panic, Error}
use teled.Memory.State.{Db}
use teled.Postgres.Tables.{Tables, Sequences}
use teled.Postgres.Sql.{
  Answer, done, fault, Fault, reported, Store, Sql, reach, raise, transaction, committed, give,
  ◌>>◌,
}
use teled.Postgres.Running.{online}
use teled.Postgres.Agrees.{Agrees}

-- The statements of a transaction end as the call in memory does: with the same value and in agreement,
-- or with the same error. Where the call in memory panics, they fault.
abbrev pub Follows : {A : Type 0} → Sequences → Answer A × Store → Result (A × Db) → Type 0
Follows q (done a, s) (ok (b, d)) = (a ≡ b) × (s.outages ≡ []) × Agrees s.tables s.sequences d
Follows q (done a, s) (err e) = ⊥
Follows q (done a, s) panic = ⊥
Follows q (fault e, s) (ok r) = ⊥
Follows q (fault e, s) (err e') = (e ≡ reported e') × (s.outages ≡ []) × (s.sequences ≡ q)
Follows q (fault e, s) panic = Unit

-- A call from a store ends as the call in memory does: with the same value and in agreement, or with the
-- same error and the store as it was. Where the call in memory panics, it faults and leaves the tables.
abbrev pub Matches : {A : Type 0} → Store → Answer A × Store → Result (A × Db) → Type 0
Matches s₀ (done a, s) (ok (b, d)) = (a ≡ b) × (s.outages ≡ []) × Agrees s.tables s.sequences d
Matches s₀ (done a, s) (err e) = ⊥
Matches s₀ (done a, s) panic = ⊥
Matches s₀ (fault e, s) (ok r) = ⊥
Matches s₀ (fault e, s) (err e') = (e ≡ reported e') × (s ≡ s₀)
Matches s₀ (fault e, s) panic = s.tables ≡ s₀.tables

abbrev commit : {A : Type 0} → Answer A × Store → Answer A × Store
commit x = elim x.0 [ done a ↦ (reach >> give a) x.1 | fault e ↦ raise e x.1 ]

-- What Commit or Rollback makes of the end of the statements.
abbrev settle : {A : Type 0} → Tables → Answer A × Store → Answer A × Store
settle t x =
    let (r, s') = commit x in
    elim r [ done b ↦ (done b, s') | fault e ↦ (fault e, record s' { tables = t }) ]

settle-Matches :
    {A : Type 0} (t : Tables) (q : Sequences) (x : Answer A × Store) (r : Result (A × Db))
    → Follows q x r
    → Matches (online t q) (settle t x) r
unfolding reach
settle-Matches t q (done a, s) (ok (b, d)) h = ground (arith, h.1)
settle-Matches t q (done a, s) (err f) h = absurd h
settle-Matches t q (done a, s) panic h = absurd h
settle-Matches t q (fault f, s) (ok r) h = absurd h
settle-Matches t q (fault f, s) (err g) h = (h.0, rw (h.1, h.2) refl)
settle-Matches t q (fault f, s) panic h = refl

pub transaction-Matches :
    {A : Type 0} (body : Sql A) (t : Tables) (q : Sequences) (r : Result (A × Db))
    → Follows q (body (online t q)) r
    → Matches (online t q) (transaction body (online t q)) r
unfolding transaction committed reach
transaction-Matches body t q r h = settle-Matches t q (body (online t q)) r h

module _ {A : Type 0} (q : Sequences) (x : Answer A × Store) (r : Result (A × Db)) where
  pub Follows-done :
      (a : A) (t' : Tables) (q' : Sequences) (d' : Db)
      → x ≡ (done a, online t' q')
      → r ≡ ok (a, d')
      → Agrees t' q' d'
      → Follows q x r
  Follows-done a t' q' d' e e' agrees =
      subst (λ y. Follows q y r) (sym e)
        (subst (Follows q (done a, online t' q')) (sym e') (refl, refl, agrees))

  pub Follows-error :
      (f : Error) (t' : Tables) → x ≡ (fault (reported f), online t' q) → r ≡ err f → Follows q x r
  Follows-error f t' e e' =
      subst (λ y. Follows q y r) (sym e)
        (subst (Follows q (fault (reported f), online t' q)) (sym e') (refl, refl, refl))

  pub Follows-panic : (f : Fault) (s : Store) → x ≡ (fault f, s) → r ≡ panic → Follows q x r
  Follows-panic f s e e' =
      subst (λ y. Follows q y r) (sym e) (subst (Follows q (fault f, s)) (sym e') tt)
