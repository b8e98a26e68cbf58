-- ===== src/Postgres/Outages.antt =====
-- internal/db: a sequence of statements that is answered although other statements of the server fail does what it
-- does on a server where none fails.
use teled.Prelude.{
  ℕ, none, some, ◌≡◌, refl, ap, ◌∙◌, List, [], ◌∷◌, Option, Int64, Bool, if◌then◌else◌, true, false,
  arith,
}
use teled.Postgres.Sql.{
  Answer, done, fault, Fault, Store, Sql, give, raise, ask, scan, write, raise_if, check, ◌>>=◌,
  reach, committed,
}
use teled.Types.{UpdateType, Extra, Time}
use teled.Postgres.Tables.{Tables, Sequences}
use teled.Postgres.Messages.{
  allocate, allocate_pts, log_update, insert_ref, store_copy, next_message,
}
use teled.Postgres.Running.{online}

-- The same store, of which every coming statement comes through.
abbrev pub calm : Store → Store
calm s = online s.tables s.sequences

abbrev pub calmed : {A : Type 0} → Answer A × Store → Answer A × Store
calmed x = (x.0, calm x.1)

-- Where the statements are answered, they are answered the same without outages, and leave the same.
abbrev pub Steady : {A : Type 0} → Sql A → Type 0
Steady m = (s : Store) (a : _) (s' : Store) → m s ≡ (done a, s') → m (calm s) ≡ (done a, calm s')

-- What does not look at the outages.
pub blind-Steady : {A : Type 0} (m : Sql A) → ((s : Store) → m (calm s) ≡ calmed (m s)) → Steady m
blind-Steady m blind s a s' e = blind s ∙ ap calmed e

reached :
    (t : Tables) (q : Sequences) (o : List Bool) (a : Unit {0}) (s' : Store)
    → reach (record { tables = t; sequences = q; outages = o }) ≡ (done a, s')
    → reach (online t q) ≡ (done a, calm s')
unfolding reach
reached t q [] a s' e = ap calmed e
reached t q (true ∷ o) a s' e = absurd cc
reached t q (false ∷ o) a s' e = ap calmed e

pub reach-Steady : Steady reach
reach-Steady s a s' e = reached s.tables s.sequences s.outages a s' e

abbrev next : {A B : Type 0} → (A → Sql B) → Answer A × Store → Answer B × Store
next k x = elim x.0 [ done a ↦ k a x.1 | fault e ↦ raise e x.1 ]

bound :
    {A B : Type 0} (m : Sql A) (k : A → Sql B) (s : Store) (b : B) (s' : Store)
    (x : Answer A × Store)
    → Steady m
    → ((a : A) → Steady (k a))
    → m s ≡ x
    → next k x ≡ (done b, s')
    → next k (m (calm s)) ≡ (done b, calm s')
bound m k s b s' (done a, s₁) h hk e f = ap (next k) (h s a s₁ e) ∙ hk a s₁ b s' f
bound m k s b s' (fault g, s₁) h hk e f = absurd cc

pub bind-Steady :
    {A B : Type 0} (m : Sql A) (k : A → Sql B)
    → Steady m
    → ((a : A) → Steady (k a))
    → Steady (m >>= k)
bind-Steady m k h hk s b s' e = bound m k s b s' (m s) h hk refl e

pub next_message-Steady : Steady next_message
unfolding next_message
next_message-Steady = blind-Steady next_message (λ s. ground arith)

-- The statements that answer without a look at the outages.
module _ {A : Type 0} where
  pub give-Steady : (a : A) → Steady (give a)
  give-Steady a = blind-Steady (give a) (λ s. refl)

  pub ask-Steady : (f : Tables → A) → Steady (ask f)
  ask-Steady f = blind-Steady (ask f) (λ s. refl)

  pub scan-Steady : (f : Tables → Option A) → Steady (scan f)
  scan-Steady f = blind-Steady (scan f) (λ s. refl)

pub write-Steady : (f : Tables → Tables) → Steady (write f)
write-Steady f = blind-Steady (write f) (λ s. refl)

pub raise_if-Steady : (b : Bool) (e : Fault) → Steady (raise_if b e)
raise_if-Steady b e = blind-Steady (raise_if b e) (λ s. refl)

pub check-Steady : (e : Fault) (test : Tables → Bool) → Steady (check e test)
check-Steady e test = blind-Steady (check e test) (λ s. refl)

pub if-Steady :
    {A : Type 0} (b : Bool) (m n : Sql A) → Steady m → Steady n → Steady (if b then m else n)
if-Steady true m n h k = h
if-Steady false m n h k = k

pub option-Steady :
    {A B : Type 0} (o : Option A) (m : Sql B) (k : A → Sql B)
    → Steady m
    → ((a : A) → Steady (k a))
    → Steady (elim o as (λ _. Sql B) [ none ↦ m | some a ↦ k a ])
option-Steady none m k h g = h
option-Steady (some a) m k h g = g a

pub ruleset steady = (
  bind-Steady, reach-Steady, give-Steady, ask-Steady, scan-Steady, write-Steady, raise_if-Steady,
  check-Steady, if-Steady, next_message-Steady, option-Steady,
)

pub allocate-Steady : (u : Int64) → Steady (allocate u)
unfolding allocate
allocate-Steady u = search steady

pub log_update-Steady :
    (u p n : Int64) (type : UpdateType) (g : Option Int64) (x : Extra) (now : Time)
    → Steady (log_update u p n type g x now)
unfolding log_update
log_update-Steady u p n type g x now = search steady

pub insert_ref-Steady : (u l g : Int64) (out unread : Bool) → Steady (insert_ref u l g out unread)
unfolding insert_ref
insert_ref-Steady u l g out unread = search steady

pub store_copy-Steady : (u g : Int64) (out : Bool) (now : Time) → Steady (store_copy u g out now)
unfolding store_copy
store_copy-Steady u g out now =
    search (steady, allocate-Steady, insert_ref-Steady, log_update-Steady)

pub committed-Steady : {A : Type 0} (body : Sql A) → Steady body → Steady (committed body)
unfolding committed
committed-Steady body h = search (steady, h)

pub allocate_pts-Steady : (u : Int64) (n : ℕ) → Steady (allocate_pts u n)
unfolding allocate_pts
allocate_pts-Steady u n = search steady
