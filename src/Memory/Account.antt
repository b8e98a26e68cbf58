-- ===== src/Memory/Account.antt =====
-- memory/db.go: what holds of one account's counters, refs and update log, and of the whole database
-- between calls.
pub mod Extend
pub mod Copy
pub mod Advance
pub mod Send
pub mod Edit
pub mod Marks
pub mod Delete
pub mod Read
pub mod Receipt
pub mod Difference
pub mod Create
pub mod Start
pub mod Keeps
pub mod Run
use mathlib.Core.List.{List, [], ◌∷◌, ◌++◌}
use teled.Prelude.{
  ℕ, ◌+◌, ◌<◌, ◌≤◌, ◌≡◌, ◌≢◌, ◌⊎◌, refl, sym, ◌∙◌, some, none, arith, Int64, int0, int, inc, word,
  Map, All, Distinct, get, ℕ_discrete, ◌==◌,
}
use teled.Types.{UpdateLogEntry, bot_father_id}
use teled.Memory.State.{Db, MemUser, MemMessage, MemRef, user_of, refs_of, updates_of}

-- The log leads from one pts to another with no gap: each entry starts where the one before it ended
-- and advances the pts by its count.
abbrev pub Chain : Int64 → List UpdateLogEntry → Int64 → Type 0
Chain a [] b = a ≡ b
Chain a (e ∷ es) b = (a < e.pts) × (a + e.pts_count ≡ e.pts + int0) × Chain e.pts es b

pub Chain-snoc :
    (a b : Int64) (es : List UpdateLogEntry) (e : UpdateLogEntry)
    → Chain a es b
    → b < e.pts
    → b + e.pts_count ≡ e.pts + int0
    → Chain a (es ++ e ∷ []) e.pts
Chain-snoc a b [] e c lt step = ground arith
Chain-snoc a b (f ∷ es) e c lt step = (c.0, c.1, Chain-snoc f.pts b es e c.2 lt step)

pub Chain-le : (a b : Int64) (es : List UpdateLogEntry) → Chain a es b → a ≤ b
Chain-le a b [] c = omega arith
Chain-le a b (e ∷ es) c = omega (arith, Chain-le e.pts b es c.2)

-- A ref of account u, stored under the key e.0: its id was allocated, and it stands for a stored
-- message of which u is the sender (out) or the recipient.
pub record IsRef (messages : Map Int64 MemMessage) (msg_seq u last : Int64) (e : Int64 × MemRef)
    : Type 0 where
  pub keyed : e.0 ≡ e.1.local_id
  pub positive : int0 < e.1.local_id
  pub allocated : e.1.local_id ≤ last
  pub known : e.1.global_id ≤ msg_seq
  pub canonical : MemMessage
  pub stored : get ℕ_discrete e.1.global_id messages ≡ some canonical
  pub named : canonical.global_id ≡ e.1.global_id
  pub sent : e.1.out ≡ (canonical.from == u)
  pub received : (canonical.from ≡ u) ⊎ (canonical.peer ≡ u)

pub record IsAccount (messages : Map Int64 MemMessage) (msg_seq u : Int64) (mu : MemUser)
    (refs : Map Int64 MemRef) (log : List UpdateLogEntry) : Type 0 where
  pub gapless : Chain int0 log mu.pts
  pub refs_ok : All (IsRef messages msg_seq u mu.last_message_id) refs
  pub distinct : Distinct ℕ_discrete refs
  pub started : int0 ≤ mu.last_message_id
  pub self_id : mu.u.id ≡ u

pub record IsValid (d : Db) : Type 0 where
  pub accounts :
      (u : Int64) (mu : MemUser)
      → user_of d u ≡ some mu
      → IsAccount d.messages d.msg_seq u mu (refs_of d u) (updates_of d u)
  pub strangers : (u : Int64) → user_of d u ≡ none → (refs_of d u ≡ []) × (updates_of d u ≡ [])
  pub numbered :
      (u : Int64) (mu : MemUser) → user_of d u ≡ some mu → (u ≤ d.user_seq) ⊎ (u ≡ bot_father_id)

-- Two databases that differ at most in account u, and in nothing but its row, refs and log.
pub record SameElsewhere (u : Int64) (d d' : Db) : Type 0 where
  pub users : (v : Int64) → v ≢ u → user_of d' v ≡ user_of d v
  pub refs : (v : Int64) → v ≢ u → refs_of d' v ≡ refs_of d v
  pub updates : (v : Int64) → v ≢ u → updates_of d' v ≡ updates_of d v
  pub messages : d'.messages ≡ d.messages
  pub msg_seq : d'.msg_seq ≡ d.msg_seq
  pub user_seq : d'.user_seq ≡ d.user_seq

-- An operation on one existing account keeps the database valid if it keeps that account valid.
pub SameElsewhere-IsValid :
    (u : Int64) (d d' : Db) (mu mu' : MemUser)
    → SameElsewhere u d d'
    → IsValid d
    → user_of d u ≡ some mu
    → user_of d' u ≡ some mu'
    → IsAccount d.messages d.msg_seq u mu' (refs_of d' u) (updates_of d' u)
    → IsValid d'
SameElsewhere-IsValid u d d' mu mu' same valid old new ok = record {
  accounts = λ v nu e. elim (ℕ_discrete v u) [
    | yes p ↦ let q : mu' ≡ nu = cc in rw (same.messages, same.msg_seq, p, ← q) ok
    | no p ↦
        rw (same.messages, same.msg_seq, same.refs v p, same.updates v p)
          (valid.accounts v nu (sym (same.users v p) ∙ e))
  ];
  strangers = λ v e. elim (ℕ_discrete v u) [
    | yes p ↦ cc
    | no p ↦ rw (same.refs v p, same.updates v p) (valid.strangers v (sym (same.users v p) ∙ e))
  ];
  numbered = λ v nu e. elim (ℕ_discrete v u) [
    | yes p ↦ rw (same.user_seq, p) (valid.numbered u mu old)
    | no p ↦ rw same.user_seq (valid.numbered v nu (sym (same.users v p) ∙ e))
  ];
}
