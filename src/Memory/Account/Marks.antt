-- ===== src/Memory/Account/Marks.antt =====
-- memory/db.go, the loop of DeleteMessages: which messages it marks, and that it keeps the
-- database valid.
use teled.Prelude.{
  ◌≤◌, ◌≡◌, ◌≢◌, inl, inr, refl, sym, ◌∙◌, List, [], ◌∷◌, some, none, true, false, Int64, length,
  get-put_self, get-put_ne, get, ap, subst, length-keep-le, keep, All, Map, ℕ_discrete,
  Option-cases,
}
use teled.Memory.State.{Db, MemMessage, MemRef, message_of, refs_of}
use teled.Memory.Revisions.{mark_deleted, delete_each}
use teled.Memory.Account.{IsValid}
use teled.Memory.Account.Edit.{put_message-IsValid}

mark_deleted-IsValid : (g : Int64) (d : Db) → IsValid d → IsValid (mark_deleted g d)
unfolding mark_deleted
mark_deleted-IsValid g d valid = elim (Option-cases (message_of d g)) [
  | inl e ↦ rw (e, mark_deleted) valid
  | inr (m, e) ↦
      rw (e, mark_deleted)
        (put_message-IsValid g m (record m { deleted = true }) d e refl refl refl valid)
]

mark_deleted-users :
    (g : Int64) (d : Db)
    → ((mark_deleted g d).users ≡ d.users) × ((mark_deleted g d).updates ≡ d.updates)
unfolding mark_deleted
mark_deleted-users g d = elim (Option-cases (message_of d g)) [
  | inl e ↦ rw (e, mark_deleted) (refl, refl)
  | inr (m, e) ↦ rw (e, mark_deleted) (refl, refl)
]

mark_deleted-refs : (g : Int64) (d : Db) → (mark_deleted g d).refs ≡ d.refs
unfolding mark_deleted
mark_deleted-refs g d = elim (Option-cases (message_of d g)) [
  | inl e ↦ rw (e, mark_deleted)
  | inr (m, e) ↦ rw (e, mark_deleted)
]

abbrev pub IsDeleted : Db → Int64 → Type 0
IsDeleted d g = (m : MemMessage) → message_of d g ≡ some m → m.deleted ≡ true

mark_deleted-ne : (g h : Int64) (d : Db) → h ≢ g → message_of (mark_deleted g d) h ≡ message_of d h
unfolding mark_deleted
mark_deleted-ne g h d ne = elim (Option-cases (message_of d g)) [
  | inl e ↦ rw (e, mark_deleted)
  | inr (m, e) ↦ rw (e, mark_deleted) (get-put_ne ℕ_discrete g h _ d.messages ne)
]

mark_deleted-IsDeleted : (g : Int64) (d : Db) → IsDeleted (mark_deleted g d) g
unfolding mark_deleted
mark_deleted-IsDeleted g d = elim (Option-cases (message_of d g)) [
  | inl e ↦ rw (e, mark_deleted) (λ m q. cc)
  | inr (m, e) ↦
      rw (e, mark_deleted)
        (λ n q.
          let p = get-put_self ℕ_discrete g (record m { deleted = true }) d.messages in
          let r : record m { deleted = true } ≡ n = cc in
          ap (λ (x : MemMessage). x.deleted) (sym r))
]

mark_deleted-keeps : (g h : Int64) (d : Db) → IsDeleted d h → IsDeleted (mark_deleted g d) h
mark_deleted-keeps g h d del = elim (ℕ_discrete h g) [
  | yes p ↦ rw p (mark_deleted-IsDeleted g d)
  | no p ↦ λ m q. del m (sym (mark_deleted-ne g h d p) ∙ q)
]

-- The ids that name a ref of the caller.
unfoldable pub owned : Map Int64 MemRef → List Int64 → List Int64
unfolding keep
owned rs = keep (λ i. elim (get ℕ_discrete i rs) [ none ↦ false | some r ↦ true ])

pub length-owned : (rs : Map Int64 MemRef) (ids : List Int64) → length (owned rs ids) ≤ length ids
unfolding owned
length-owned rs ids = length-keep-le _ ids

-- The loop of DeleteMessages, for a caller whose refs are rs.
module _ (self : Int64) (rs : Map Int64 MemRef) where
  refs-mark_deleted :
      (g : Int64) (d : Db) → refs_of d self ≡ rs → refs_of (mark_deleted g d) self ≡ rs
  refs-mark_deleted g d e = rw (mark_deleted-refs g d) e

  pub delete_each-users :
      (ids : List Int64) (d : Db)
      → ((delete_each self ids d).1.users ≡ d.users)
        × ((delete_each self ids d).1.updates ≡ d.updates)
  unfolding delete_each
  delete_each-users [] d = (refl, refl)
  delete_each-users (i ∷ ids) d = elim (Option-cases (get ℕ_discrete i (refs_of d self))) [
    | inl e ↦ rw (e, delete_each) (delete_each-users ids d)
    | inr (r, e) ↦
        let ih = delete_each-users ids (mark_deleted r.global_id d) in
        let m = mark_deleted-users r.global_id d in rw (e, delete_each) (ih.0 ∙ m.0, ih.1 ∙ m.1)
  ]

  pub delete_each-IsValid :
      (ids : List Int64) (d : Db) → IsValid d → IsValid (delete_each self ids d).1
  unfolding delete_each
  delete_each-IsValid [] d valid = valid
  delete_each-IsValid (i ∷ ids) d valid = elim (Option-cases (get ℕ_discrete i (refs_of d self))) [
    | inl e ↦ rw (e, delete_each) (delete_each-IsValid ids d valid)
    | inr (r, e) ↦
        rw (e, delete_each) (delete_each-IsValid ids _ (mark_deleted-IsValid r.global_id d valid))
  ]

  delete_each-keeps :
      (ids : List Int64) (d : Db) (h : Int64)
      → IsDeleted d h
      → IsDeleted (delete_each self ids d).1 h
  unfolding delete_each
  delete_each-keeps [] d h del = del
  delete_each-keeps (i ∷ ids) d h del = elim (Option-cases (get ℕ_discrete i (refs_of d self))) [
    | inl e ↦ rw (e, delete_each) (delete_each-keeps ids d h del)
    | inr (r, e) ↦
        rw (e, delete_each)
          (delete_each-keeps ids (mark_deleted r.global_id d) h
            (mark_deleted-keeps r.global_id h d del))
  ]

  pub delete_each-owned :
      (ids : List Int64) (d : Db) → refs_of d self ≡ rs → (delete_each self ids d).0 ≡ owned rs ids
  unfolding delete_each owned
  delete_each-owned [] d same = refl
  delete_each-owned (i ∷ ids) d same = elim (Option-cases (get ℕ_discrete i rs)) [
    | inl e ↦ rw (same, delete_each) (rw (e, delete_each) (delete_each-owned ids d same))
    | inr (r, e) ↦
        rw (same, delete_each)
          (rw (e, delete_each)
            (ap (◌∷◌ i) (
              delete_each-owned ids (mark_deleted r.global_id d)
                (refs-mark_deleted r.global_id d same))))
  ]

  delete_each-none :
      (i : Int64) (ids : List Int64) (d : Db)
      → refs_of d self ≡ rs
      → get ℕ_discrete i rs ≡ none
      → (delete_each self (i ∷ ids) d).1 ≡ (delete_each self ids d).1
  unfolding delete_each
  delete_each-none i ids d same e = rw (same, delete_each) (rw (e, delete_each))

  delete_each-some :
      (i : Int64) (ids : List Int64) (d : Db) (r : MemRef)
      → refs_of d self ≡ rs
      → get ℕ_discrete i rs ≡ some r
      → (delete_each self (i ∷ ids) d).1 ≡ (delete_each self ids (mark_deleted r.global_id d)).1
  unfolding delete_each
  delete_each-some i ids d r same e = rw (same, delete_each) (rw (e, delete_each))

  -- After the loop every message that an id names is marked.
  abbrev pub Marked : List Int64 → Db → Type 0
  Marked ids d' =
      All (λ i. (r : MemRef) → get ℕ_discrete i rs ≡ some r → IsDeleted d' r.global_id) ids

  pub delete_each-Marked :
      (ids : List Int64) (d : Db) → refs_of d self ≡ rs → Marked ids (delete_each self ids d).1
  delete_each-Marked [] d same = tt
  delete_each-Marked (i ∷ ids) d same = elim (Option-cases (get ℕ_discrete i rs)) [
    | inl e ↦
        subst (Marked (i ∷ ids)) (sym (delete_each-none i ids d same e))
          (λ r q. cc, delete_each-Marked ids d same)
    | inr (r, e) ↦
        let d' = mark_deleted r.global_id d in
        subst (Marked (i ∷ ids)) (sym (delete_each-some i ids d r same e)) (
          λ r' q.
              let p : r ≡ r' = cc in
              rw (← p)
                (delete_each-keeps ids d' r.global_id (mark_deleted-IsDeleted r.global_id d)),
          delete_each-Marked ids d' (refs-mark_deleted r.global_id d same),
        )
  ]

  pub delete_each-others :
      (ids : List Int64) (d : Db) (g : Int64)
      → refs_of d self ≡ rs
      → All (λ i. (r : MemRef) → get ℕ_discrete i rs ≡ some r → g ≢ r.global_id) ids
      → message_of (delete_each self ids d).1 g ≡ message_of d g
  unfolding delete_each
  delete_each-others [] d g same h = refl
  delete_each-others (i ∷ ids) d g same h = elim (Option-cases (get ℕ_discrete i rs)) [
    | inl e ↦ rw (same, delete_each) (rw (e, delete_each) (delete_each-others ids d g same h.1))
    | inr (r, e) ↦
        let d' = mark_deleted r.global_id d in
        rw (same, delete_each)
          (rw (e, delete_each)
            (delete_each-others ids d' g (refs-mark_deleted r.global_id d same) h.1
              ∙ mark_deleted-ne r.global_id g d (h.0 r e)))
  ]
