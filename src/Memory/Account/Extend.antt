-- ===== src/Memory/Account/Extend.antt =====
-- memory/db.go: adding a canonical message, or changing its text or its deleted mark, leaves every
-- account as it was.
use teled.Prelude.{
  ◌<◌, ◌≤◌, ◌≡◌, refl, some, arith, Int64, Map, All-map, get, put, get-put_self, get-put_ne,
  ℕ_discrete,
}
use teled.Memory.State.{Db, MemMessage, refs_of}
use teled.Memory.Account.{IsRef, IsValid}

-- Every message known so far is still there, between the same two accounts.
abbrev pub Extends : Map Int64 MemMessage → Map Int64 MemMessage → Int64 → Type 0
Extends ms ms' seq =
    (g : Int64) (m : MemMessage)
    → g ≤ seq
    → get ℕ_discrete g ms ≡ some m
    → (m' : MemMessage) × (get ℕ_discrete g ms' ≡ some m')
      × (m'.global_id ≡ m.global_id)
      × (m'.from ≡ m.from)
      × (m'.peer ≡ m.peer)

pub Extends-refl : (ms : Map Int64 MemMessage) (seq : Int64) → Extends ms ms seq
Extends-refl ms seq g m le e = (m, e, refl, refl, refl)

module _ (ms ms' : Map Int64 MemMessage) (seq seq' u last last' : Int64)
    (extends : Extends ms ms' seq) (seq_le : seq ≤ seq') (last_le : last ≤ last') where
  pub IsRef-extend : {e : Int64 × _} → IsRef ms seq u last e → IsRef ms' seq' u last' e
  IsRef-extend {e} r =
      let (m', stored, name, from, peer) = extends e.1.global_id r.canonical r.known r.stored in
      record {
        keyed = r.keyed;
        positive = r.positive;
        allocated = omega (arith, r.allocated);
        known = omega (arith, r.known);
        canonical = m';
        stored = stored;
        named = cc (name, r.named);
        sent = rw from r.sent;
        received = rw (from, peer) r.received;
      }

-- A database with more messages, and all else as before, is as valid.
pub Extends-IsValid :
    (d : Db) (ms' : Map Int64 MemMessage) (seq' : Int64)
    → Extends d.messages ms' d.msg_seq
    → d.msg_seq ≤ seq'
    → IsValid d
    → IsValid (record d { messages = ms'; msg_seq = seq' })
Extends-IsValid d ms' seq' extends le valid = record {
  accounts = λ u mu e.
      let a = valid.accounts u mu e in
      record {
        gapless = a.gapless;
        refs_ok =
            All-map _ _
              (λ r h.
                IsRef-extend d.messages ms' d.msg_seq seq' u mu.last_message_id mu.last_message_id
                  extends le (omega arith) h)
              (refs_of d u) a.refs_ok;
        distinct = a.distinct;
        started = a.started;
        self_id = a.self_id;
      };
  strangers = valid.strangers;
  numbered = valid.numbered;
}

-- A message under a new id extends the messages.
pub Extends-put_new :
    (ms : Map Int64 MemMessage) (seq g : Int64) (m : MemMessage)
    → seq < g
    → Extends ms (put ℕ_discrete g m ms) seq
Extends-put_new ms seq g m lt h n le e =
    (n, rw (get-put_ne ℕ_discrete g h m ms (omega arith)) e, refl, refl, refl)

-- So does a new version of a stored message.
pub Extends-put_same :
    (ms : Map Int64 MemMessage) (seq g : Int64) (m m' : MemMessage)
    → get ℕ_discrete g ms ≡ some m
    → m'.global_id ≡ m.global_id
    → m'.from ≡ m.from
    → m'.peer ≡ m.peer
    → Extends ms (put ℕ_discrete g m' ms) seq
Extends-put_same ms seq g m m' found name from peer h n le e = elim (ℕ_discrete h g) [
  | yes p ↦
      let q : m ≡ n = cc in rw (p, ← q) (m', get-put_self ℕ_discrete g m' ms, name, from, peer)
  | no p ↦ (n, rw (get-put_ne ℕ_discrete g h m' ms p) e, refl, refl, refl)
]
