-- ===== src/Memory/Account/Read.antt =====
-- memory/db.go, ReadHistory: it marks what was read, acknowledges it to the peer, and keeps the
-- database valid.
use teled.Prelude.{
  ◌≡◌, inl, inr, refl, ap, [], ◌∷◌, some, none, arith, Int64, Map, All, Distinct, get-put_self,
  get-put_ne, get, ℕ_discrete, Bool, Bool-cases, Option-cases, if_pos, if_neg,
}
use teled.Memory.State.{Db, MemUser, MemMessage, MemRef, user_of, refs_of}
use teled.Memory.Reading.{mark_read, mark_each, mark_refs}
use teled.Memory.Account.{IsRef, IsValid, SameElsewhere, SameElsewhere-IsValid}

module _ (test : MemRef → Bool) where
  get-mark_each-none :
      (k : Int64) (m : Map Int64 MemRef)
      → get ℕ_discrete k m ≡ none
      → get ℕ_discrete k (mark_each test m) ≡ none
  unfolding get mark_each
  get-mark_each-none k [] e = refl
  get-mark_each-none k ((j, r) ∷ m) e = elim (ℕ_discrete j k) [
    | yes p ↦ absurd (ground arith)
    | no p ↦ rw (if_neg (ℕ_discrete j k) p) (get-mark_each-none k m (ground arith))
  ]

  pub get-mark_each-some :
      (k : Int64) (m : Map Int64 MemRef) (r : MemRef)
      → get ℕ_discrete k m ≡ some r
      → get ℕ_discrete k (mark_each test m) ≡ some (mark_read test r)
  unfolding get mark_each
  get-mark_each-some k [] r e = cc
  get-mark_each-some k ((j, s) ∷ m) r e = elim (ℕ_discrete j k) [
    | yes p ↦
        let q : s ≡ r = ground arith in
        rw (if_pos (ℕ_discrete j k) p) (ap (λ (x : MemRef). some (mark_read test x)) q)
    | no p ↦ rw (if_neg (ℕ_discrete j k) p) (get-mark_each-some k m r (ground arith))
  ]

  mark_each-Distinct :
      (m : Map Int64 MemRef) → Distinct ℕ_discrete m → Distinct ℕ_discrete (mark_each test m)
  unfolding mark_each
  mark_each-Distinct [] h = tt
  mark_each-Distinct ((j, r) ∷ m) h = (get-mark_each-none j m h.0, mark_each-Distinct m h.1)

  mark_read-IsRef :
      (ms : Map Int64 MemMessage) (seq u last k : Int64) (r : MemRef)
      → IsRef ms seq u last (k, r)
      → IsRef ms seq u last (k, mark_read test r)
  mark_read-IsRef ms seq u last k r h = elim (Bool-cases (test r)) [
    | inl e ↦ rw e (record {
      keyed = h.keyed;
      positive = h.positive;
      allocated = h.allocated;
      known = h.known;
      canonical = h.canonical;
      stored = h.stored;
      named = h.named;
      sent = h.sent;
      received = h.received;
    })
    | inr e ↦ rw e h
  ]

  mark_each-IsRef :
      (ms : Map Int64 MemMessage) (seq u last : Int64) (m : Map Int64 MemRef)
      → All (IsRef ms seq u last) m
      → All (IsRef ms seq u last) (mark_each test m)
  unfolding mark_each
  mark_each-IsRef ms seq u last [] h = tt
  mark_each-IsRef ms seq u last ((k, r) ∷ m) h =
      (mark_read-IsRef ms seq u last k r h.0, mark_each-IsRef ms seq u last m h.1)

  module _ (self : Int64) (d : Db) where
    pub refs_of-mark_refs : refs_of (mark_refs self test d) self ≡ mark_each test (refs_of d self)
    unfolding mark_refs
    refs_of-mark_refs = elim (Option-cases (get ℕ_discrete self d.refs)) [
      | inl e ↦ rw (e, mark_refs) (rw e)
      | inr (m, e) ↦ rw (e, mark_refs) (rw (get-put_self ℕ_discrete self (mark_each test m) d.refs))
    ]

    pub mark_refs-tables :
        ((mark_refs self test d).users ≡ d.users)
        × ((mark_refs self test d).updates ≡ d.updates)
        × ((mark_refs self test d).messages ≡ d.messages)
    unfolding mark_refs
    mark_refs-tables = elim (Option-cases (get ℕ_discrete self d.refs)) [
      | inl e ↦ rw (e, mark_refs) (refl, refl, refl)
      | inr (m, e) ↦ rw (e, mark_refs) (refl, refl, refl)
    ]

    pub mark_refs-SameElsewhere : SameElsewhere self d (mark_refs self test d)
    unfolding mark_refs
    mark_refs-SameElsewhere = elim (Option-cases (get ℕ_discrete self d.refs)) [
      | inl e ↦
          rw (e, mark_refs)
            (record {
              users = λ v h. refl;
              refs = λ v h. refl;
              updates = λ v h. refl;
              messages = refl;
              msg_seq = refl;
              user_seq = refl;
            })
      | inr (m, e) ↦
          rw (e, mark_refs)
            (record {
              users = λ v h. refl;
              refs = λ v h. rw (get-put_ne ℕ_discrete self v (mark_each test m) d.refs h);
              updates = λ v h. refl;
              messages = refl;
              msg_seq = refl;
              user_seq = refl;
            })
    ]

    pub mark_refs-IsValid :
        (mu : MemUser) → user_of d self ≡ some mu → IsValid d → IsValid (mark_refs self test d)
    mark_refs-IsValid mu found valid =
        let a = valid.accounts self mu found in
        SameElsewhere-IsValid self d _ mu mu mark_refs-SameElsewhere valid found
          (rw mark_refs-tables.0 found)
          (rw (refs_of-mark_refs, mark_refs-tables.1)
            (record {
              gapless = a.gapless;
              refs_ok =
                  mark_each-IsRef d.messages d.msg_seq self mu.last_message_id (refs_of d self)
                    a.refs_ok;
              distinct = mark_each-Distinct (refs_of d self) a.distinct;
              started = a.started;
              self_id = a.self_id;
            }))
