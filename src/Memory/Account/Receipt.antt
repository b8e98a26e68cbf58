-- ===== src/Memory/Account/Receipt.antt =====
-- memory/db.go, ReadHistory as a whole: the marks, the two pts and the two log entries.
use teled.Prelude.{
  ◌+◌, ◌<◌, ◌≤◌, ◌≡◌, ◌≢◌, ◌⊎◌, inl, inr, refl, ◌∙◌, [], map, some, none, true, false, not, ◌&&◌,
  ◌||◌, arith, Int64, int0, int, word, add_len, length, keep, some_in, get, values, ℕ_discrete, ltb,
  ◌==◌, ==_iff, ==_false, Bool, Bool-cases, Option-cases,
}
use teled.Types.{Time, ReadResult, UpdateLogEntry, UpdateType, encode_read, ok, panic}
use teled.Memory.State.{Db, MemUser, MemMessage, MemRef, user_of, message_of, refs_of}
use teled.Memory.Messages.{allocate_pts, log_update, other}
use teled.Memory.Reading.{readable, mark_refs, max_outgoing, counts_unread, ack_peer, read_history}
use teled.Memory.Account.{IsValid}
use teled.Memory.Account.Advance.{
  logged, advanced, allocate_pts-ok, advanced-SameElsewhere, advanced-IsValid,
}
use teled.Memory.Account.Read.{
  get-mark_each-some, refs_of-mark_refs, mark_refs-tables, mark_refs-SameElsewhere,
  mark_refs-IsValid,
}

max_outgoing-empty : (p : Int64 → Bool) → max_outgoing p [] int0 ≡ int0
unfolding max_outgoing
max_outgoing-empty p = refl

-- The acknowledgement never meets an account that is not there.
ack_peer-ok :
    (self peer : Int64) (now : Time) (res : ReadResult) (d : Db)
    → IsValid d
    → (int0 < res.outbox_max_id
        → peer ≢ self
        → (mp : MemUser) × (user_of d peer ≡ some mp) × (mp.pts + 1 < word))
    → (res' : ReadResult) × (d' : Db) × (ack_peer self peer now res d ≡ ok (res', d'))
      × IsValid d'
      × (d'.refs ≡ d.refs)
      × (res'.inbox_pts ≡ res.inbox_pts)
unfolding ack_peer log_update
ack_peer-ok self peer now res d valid present =
    elim (Bool-cases (ltb int0 res.outbox_max_id && not (peer == self))) [
      | inl go ↦
          let (mp, found, room) = present (ground arith) (ground arith) in
          let pts = mp.pts + 1 in
          let e =
            logged pts (int 1) UpdateType.read_outbox none (encode_read self res.outbox_max_id)
              now in
          let same : add_len mp.pts 1 ≡ pts = omega arith in
          (
            record res { outbox_pts = pts },
            advanced peer mp pts e d,
            rw (go, allocate_pts-ok peer mp d found 1) (rw same),
            advanced-IsValid peer mp d found pts e (omega arith) (omega arith) (omega arith) valid,
            refl,
            refl,
          )
      | inr stay ↦ (res, d, rw stay, valid, refl, refl)
    ]

readable-true :
    (self peer max_id : Int64) (d : Db) (r : MemRef) (m : MemMessage)
    → r.out ≡ false
    → r.local_id ≤ max_id
    → message_of d r.global_id ≡ some m
    → other self m ≡ peer
    → readable self peer max_id d r ≡ true
unfolding readable
readable-true self peer max_id d r m incoming le stored mine =
    let small : ltb max_id r.local_id ≡ false = ground arith in
    rw (incoming, small, stored) ((==_iff _ _).1 mine)

readable-false :
    (self peer max_id : Int64) (d : Db) (r : MemRef)
    → (r.out ≡ true)
      ⊎ (max_id < r.local_id)
      ⊎ ((m : MemMessage) → message_of d r.global_id ≡ some m → other self m ≢ peer)
    → readable self peer max_id d r ≡ false
unfolding readable
readable-false self peer max_id d r (inl out) = rw out
readable-false self peer max_id d r (inr (inl late)) = elim (Bool-cases r.out) [
  | inl e ↦ rw e
  | inr e ↦ let past : ltb max_id r.local_id ≡ true = ground arith in rw (e, past)
]
readable-false self peer max_id d r (inr (inr elsewhere)) =
    elim (Bool-cases (r.out || ltb max_id r.local_id)) [
      | inl e ↦ rw e
      | inr e ↦ elim (Option-cases (message_of d r.global_id)) [
        | inl none_there ↦ rw (e, none_there)
        | inr (m, there) ↦ rw (e, there) (==_false _ _ (elsewhere m there))
      ]
    ]

module _ (self peer max_id : Int64) (now : Time) (d : Db) (mu : MemUser) (valid : IsValid d)
    (found : user_of d self ≡ some mu) (room : mu.pts + 1 < word) where
  abbrev test : MemRef → Bool
  test = readable self peer max_id d

  abbrev marked : Db
  marked = mark_refs self test d

  abbrev inbox_entry : UpdateLogEntry
  inbox_entry = logged (mu.pts + 1) (int 1) UpdateType.read_inbox none (encode_read peer max_id) now

  abbrev inbox_done : Db
  inbox_done = advanced self mu (mu.pts + 1) inbox_entry marked

  abbrev report : ReadResult
  report = record {
    inbox_pts = mu.pts + 1;
    unread_count =
        int (length (keep (counts_unread self peer marked) (values (refs_of marked self))));
    outbox_pts = int0;
    outbox_max_id =
        max_outgoing
          (λ g.
            some_in (λ g'. g' == g)
              (map (λ (r : MemRef). r.global_id) (keep test (values (refs_of d self)))))
          (values (refs_of marked peer)) int0;
  }

  marked_found : user_of marked self ≡ some mu
  marked_found = rw (mark_refs-tables test self d).0 found

  read_history-step : read_history self peer max_id now d ≡ ack_peer self peer now report inbox_done
  unfolding read_history log_update
  read_history-step =
      let same : add_len mu.pts 1 ≡ mu.pts + 1 = omega arith in
      rw (allocate_pts-ok self mu marked marked_found 1) (rw same)

  inbox_done-IsValid : IsValid inbox_done
  inbox_done-IsValid =
      advanced-IsValid self mu marked marked_found (mu.pts + 1) inbox_entry (omega arith)
        (omega arith) refl (mark_refs-IsValid test self d mu found valid)

  -- A peer with an outgoing message has an account.
  peer_present :
      ((mp : MemUser) → user_of d peer ≡ some mp → mp.pts + 1 < word)
      → int0 < report.outbox_max_id
      → peer ≢ self
      → (mp : MemUser) × (user_of inbox_done peer ≡ some mp) × (mp.pts + 1 < word)
  peer_present room' acks differ = elim (Option-cases (user_of d peer)) [
    | inl missing ↦
        let none_there : refs_of marked peer ≡ [] =
          (mark_refs-SameElsewhere test self d).refs peer differ
          ∙ (valid.strangers peer missing).0 in
        let gone : int0 < int0 = rw (none_there, max_outgoing-empty) at acks in absurd (omega arith)
    | inr (mp, there) ↦ (
      mp,
      (advanced-SameElsewhere self mu marked marked_found (mu.pts + 1) inbox_entry).users peer
            differ
          ∙ (mark_refs-SameElsewhere test self d).users peer differ
          ∙ there,
      room' mp there,
    )
  ]

-- ReadHistory on an account that exists, where neither account's pts wraps: the call succeeds and
-- never meets a missing account. It advances the caller's pts by one. Of the caller's refs it marks
-- as read exactly the incoming ones of the conversation with peer up to max_id; every other ref, and
-- every ref of another account, stays as it was; and the database stays valid.
pub read_history-reads :
    (self peer max_id : Int64) (now : Time) (d : Db) (mu : MemUser)
    → IsValid d
    → user_of d self ≡ some mu
    → mu.pts + 1 < word
    → ((mp : MemUser) → user_of d peer ≡ some mp → mp.pts + 1 < word)
    → (res : ReadResult) × (d' : Db) × (read_history self peer max_id now d ≡ ok (res, d'))
      × (res.inbox_pts ≡ mu.pts + 1)
      × ((k : Int64) (r : MemRef) (m : MemMessage)
          → get ℕ_discrete k (refs_of d self) ≡ some r
          → r.out ≡ false
          → r.local_id ≤ max_id
          → message_of d r.global_id ≡ some m
          → other self m ≡ peer
          → get ℕ_discrete k (refs_of d' self) ≡ some (record r { unread = false }))
      × ((k : Int64) (r : MemRef)
          → get ℕ_discrete k (refs_of d self) ≡ some r
          → (r.out ≡ true)
            ⊎ (max_id < r.local_id)
            ⊎ ((m : MemMessage) → message_of d r.global_id ≡ some m → other self m ≢ peer)
          → get ℕ_discrete k (refs_of d' self) ≡ some r)
      × ((v : Int64) → v ≢ self → refs_of d' v ≡ refs_of d v)
      × IsValid d'
read_history-reads self peer max_id now d mu valid found room room' =
    let t = readable self peer max_id d in
    let (res, d', ran, valid', refs, pts) =
      ack_peer-ok self peer now (report self peer max_id now d mu valid found room)
        (inbox_done self peer max_id now d mu valid found room)
        (inbox_done-IsValid self peer max_id now d mu valid found room)
        (peer_present self peer max_id now d mu valid found room room') in
    (
      res,
      d',
      read_history-step self peer max_id now d mu valid found room ∙ ran,
      pts,
      λ k r m at incoming le stored mine.
          rw (refs, refs_of-mark_refs t self d)
            (get-mark_each-some t k (refs_of d self) r at
              ∙ rw (readable-true self peer max_id d r m incoming le stored mine)),
      λ k r at why.
          rw (refs, refs_of-mark_refs t self d)
            (get-mark_each-some t k (refs_of d self) r at
              ∙ rw (readable-false self peer max_id d r why)),
      λ v ne. rw refs ((mark_refs-SameElsewhere t self d).refs v ne),
      valid',
    )

mark_refs-missing :
    (test : MemRef → Bool) (self : Int64) (d : Db)
    → user_of d self ≡ none
    → user_of (mark_refs self test d) self ≡ none
mark_refs-missing test self d e = rw (mark_refs-tables test self d).0 e

-- ReadHistory of an account that is not there is a nil dereference.
pub read_history-missing :
    (self peer max_id : Int64) (now : Time) (d : Db)
    → user_of d self ≡ none
    → read_history self peer max_id now d ≡ panic
unfolding read_history
read_history-missing self peer max_id now d e =
    rw (mark_refs-missing (readable self peer max_id d) self d e, allocate_pts)
