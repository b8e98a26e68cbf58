-- ===== src/Postgres/Sql.antt =====
-- internal/db: what a statement does to the database, and how the methods chain statements.
-- A statement answers or faults; either way the database stands as it left it. Any statement may
-- fail for a reason outside the tables (a lost connection, a cancelled context, a text that the server
-- does not take): `outages` tells which of the coming ones do.
use teled.Prelude.{
  List, [], ◌∷◌, ◌++◌, Option, none, some, Bool, not, Int64, int, map, keep, if◌then◌else◌,
}
use teled.Types.{Error}
use teled.Postgres.Tables.{Tables, Sequences}

-- Why a method returns an error: a UNIQUE or PRIMARY KEY column holds the value, a referenced row is
-- not there, pgx.ErrNoRows, a number leaves its type, LIMIT is negative, an outage, or an error of the
-- program's own.
pub data Fault : Type 0 where
  duplicate_key missing_parent no_rows out_of_range bad_limit outage : Fault
  reported : Error → Fault

pub data Answer (A : Type 0) : Type 0 where
  done : A → Answer A
  fault : Fault → Answer A

pub record Store : Type 0 where
  pub tables : Tables
  pub sequences : Sequences
  pub outages : List Bool

abbrev pub Sql : Type 0 → Type 0
Sql A = Store → Answer A × Store

module _ {A : Type 0} where
  abbrev pub give : A → Sql A
  give a s = (done a, s)

  abbrev pub raise : Fault → Sql A
  raise e s = (fault e, s)

  abbrev pub ask : (Tables → A) → Sql A
  ask f s = (done (f s.tables), s)

  -- QueryRow(...).Scan(...): the row, or ErrNoRows.
  abbrev pub scan : (Tables → Option A) → Sql A
  scan f s = (elim (f s.tables) [ none ↦ fault no_rows | some a ↦ done a ], s)

abbrev pub write : (Tables → Tables) → Sql (Unit {0})
write f s = (done tt, record s { tables = f s.tables })

abbrev pub raise_if : Bool → Fault → Sql (Unit {0})
raise_if b e s = (if b then fault e else done tt, s)

-- A constraint, which faults where the tables do not meet it.
abbrev pub check : Fault → (Tables → Bool) → Sql (Unit {0})
check e test s = (if test s.tables then done tt else fault e, s)

infixl 5 ◌>>=◌ ◌>>◌
abbrev pub ◌>>=◌ : {A B : Type 0} → Sql A → (A → Sql B) → Sql B
◌>>=◌ m f s = let (r, s') = m s in elim r [ done a ↦ f a s' | fault e ↦ raise e s' ]

abbrev pub ◌>>◌ : {A B : Type 0} → Sql A → Sql B → Sql B
m >> k = m >>= λ _. k

-- Whether the next statement comes through.
unfoldable pub reach : Sql (Unit {0})
reach s = elim s.outages [
  | [] ↦ (done tt, s)
  | down ∷ rest ↦ (if down then fault outage else done tt, record s { outages = rest })
]

-- Begin, the body and Commit. An outage at Commit stands for one before the server has committed.
unfoldable pub committed : {A : Type 0} → Sql A → Sql A
unfolding reach
committed body = do reach; a ← body; reach; give a

-- On a fault the deferred Rollback puts the tables back, as PostgreSQL documents it: what a transaction has
-- written is seen by nobody until Commit. A sequence does not go back.
unfoldable pub transaction : {A : Type 0} → Sql A → Sql A
unfolding committed
transaction body s =
    let (r, s') = committed body s in
    elim r [ done a ↦ (done a, s') | fault e ↦ (fault e, record s' { tables = s.tables }) ]

module _ {A : Type 0} where
  -- UPDATE ... SET ... WHERE.
  unfoldable pub update : (A → Bool) → (A → A) → List A → List A
  update p f rows = map (λ row. if p row then f row else row) rows

  -- DELETE FROM ... WHERE.
  unfoldable pub remove : (A → Bool) → List A → List A
  remove p rows = keep (λ row. not (p row)) rows

  -- The row appended by INSERT.
  abbrev pub add_row : A → List A → List A
  add_row row rows = rows ++ row ∷ []

-- The value read of a row that may be missing.
abbrev pub chosen {ℓ κ} : {A : Type ℓ} {B : Type κ} → (A → B) → Option A → Option B
chosen f none = none
chosen f (some a) = some (f a)

-- The largest int64.
abbrev pub max_int : Int64
max_int = int 9_223_372_036_854_775_807
