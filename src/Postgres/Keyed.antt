-- ===== src/Postgres/Keyed.antt =====
-- Tables with a primary key: its rows stay distinct, and which of them a further condition, or a change,
-- reaches.
use teled.Prelude.{
  ◌≡◌, ◌≢◌, refl, sym, ◌∙◌, List, [], ◌∷◌, none, some, Bool, true, ◌&&◌, arith, Int64, All, ◌==◌,
  ==_iff, ==_false, Bool-cases, Ordered, All-append, All-map, if_cases, if◌then◌else◌, inl, inr,
}
use teled.Memory.Messages.{find}
use teled.Postgres.Sql.{update, add_row}

module _ {A : Type 0} where
  -- No two rows have the same key.
  abbrev pub HasKey : (A → Int64) → List A → Type 0
  HasKey key = Ordered (λ x y. key x ≢ key y)

  find-miss :
      (key : A → Int64) (k : Int64) (rows : List A)
      → find (λ x. key x == k) rows ≡ none
      → All (λ x. key x ≢ k) rows
  unfolding find
  find-miss key k [] h = tt
  find-miss key k (x ∷ rows) h = elim (Bool-cases (key x == k)) [
    | inl e ↦ absurd (ground arith)
    | inr e ↦ ((λ s. absurd (ground arith)), find-miss key k rows (rw e at h))
  ]

  Ordered-add_row :
      (R : A → A → Type 0) (row : A) (rows : List A)
      → Ordered R rows
      → All (λ x. R x row) rows
      → Ordered R (add_row row rows)
  Ordered-add_row R row [] h k = (tt, tt)
  Ordered-add_row R row (x ∷ rows) h k =
      (All-append (R x) rows (row ∷ []) h.0 (k.0, tt), Ordered-add_row R row rows h.1 k.1)

  pub HasKey-add_row :
      (key : A → Int64) (row : A) (rows : List A)
      → find (λ x. key x == key row) rows ≡ none
      → HasKey key rows
      → HasKey key (add_row row rows)
  HasKey-add_row key row rows new h =
      Ordered-add_row (λ x y. key x ≢ key y) row rows h (find-miss key (key row) rows new)

  All-update :
      (P : A → Type 0) (q : A → Bool) (f : A → A) (rows : List A)
      → ((x : A) → P x → P (f x))
      → All P rows
      → All P (update q f rows)
  unfolding update
  All-update P q f [] stable h = tt
  All-update P q f (x ∷ rows) stable h =
      (if_cases P (q x) (f x) x (λ e. stable x h.0) (λ e. h.0), All-update P q f rows stable h.1)

  pub HasKey-update :
      (key : A → Int64) (q : A → Bool) (f : A → A) (rows : List A)
      → ((x : A) → key (f x) ≡ key x)
      → HasKey key rows
      → HasKey key (update q f rows)
  unfolding update
  HasKey-update key q f [] stable h = tt
  HasKey-update key q f (x ∷ rows) stable h = (
    if_cases (λ y. All (λ z. key y ≢ key z) (update q f rows)) (q x) (f x) x
        (λ e.
          All-update _ q f rows (λ z ne s. ne (s ∙ stable z))
            (All-map _ _ (λ z ne s. ne (sym (stable x) ∙ s)) rows h.0))
        (λ e. All-update _ q f rows (λ z ne s. ne (s ∙ stable z)) h.0),
    HasKey-update key q f rows stable h.1,
  )

  find-apart :
      (key : A → Int64) (p : A → Bool) (k : Int64) (rows : List A)
      → All (λ x. k ≢ key x) rows
      → find (λ x. (key x == k) && p x) rows ≡ none
  unfolding find
  find-apart key p k [] h = refl
  find-apart key p k (x ∷ rows) h =
      rw (==_false (key x) k (λ e. h.0 (sym e))) (find-apart key p k rows h.1)

  -- A further condition on the row of a key either holds of it or leaves none.
  pub find-key :
      (key : A → Int64) (p : A → Bool) (k : Int64) (found : A) (rows : List A)
      → HasKey key rows
      → find (λ x. key x == k) rows ≡ some found
      → find (λ x. (key x == k) && p x) rows ≡ (if p found then some found else none)
  unfolding find
  find-key key p k found [] h e = cc
  find-key key p k found (x ∷ rows) h e = elim (Bool-cases (key x == k)) [
    | inl b ↦
        let same : x ≡ found = ground arith in
        let at : key x ≡ k = (==_iff (key x) k).0 b in
        let later = find-apart key p k rows (All-map _ _ (λ y ne s. ne (at ∙ s)) rows h.0) in
        rw b (rw (later, ← same) refl)
    | inr b ↦ rw b (find-key key p k found rows h.1 (rw b at e))
  ]

  -- The row of a key that a change of the rows passing `p` reaches.
  pub find-update_at :
      (key : A → Int64) (k : Int64) (p : A → Bool) (f : A → A) (found : A) (rows : List A)
      → ((x : A) → key (f x) ≡ key x)
      → p found ≡ true
      → find (λ x. key x == k) rows ≡ some found
      → find (λ x. key x == k) (update p f rows) ≡ some (f found)
  unfolding find update
  find-update_at key k p f found [] stable pass h = cc
  find-update_at key k p f found (x ∷ rows) stable pass h = elim (Bool-cases (key x == k)) [
    | inl e ↦
        let same : x ≡ found = ground arith in
        let pass' : p x ≡ true = rw same pass in rw pass' (rw (stable x) (rw e (rw same refl)))
    | inr e ↦
        let rest = find-update_at key k p f found rows stable pass (rw e at h) in
        if_cases (λ y. find (λ x. key x == k) (y ∷ update p f rows) ≡ some (f found)) (p x) (f x) x
          (λ b. rw (stable x) (rw e rest)) (λ b. rw e rest)
  ]

  pub find-update_missing :
      (key : A → Int64) (k : Int64) (p : A → Bool) (f : A → A) (rows : List A)
      → ((x : A) → key (f x) ≡ key x)
      → find (λ x. key x == k) rows ≡ none
      → find (λ x. key x == k) (update p f rows) ≡ none
  unfolding find update
  find-update_missing key k p f [] stable h = refl
  find-update_missing key k p f (x ∷ rows) stable h = elim (Bool-cases (key x == k)) [
    | inl e ↦ absurd (ground arith)
    | inr e ↦
        let rest = find-update_missing key k p f rows stable (rw e at h) in
        if_cases (λ y. find (λ x. key x == k) (y ∷ update p f rows) ≡ none) (p x) (f x) x
          (λ b. rw (stable x) (rw e rest)) (λ b. rw e rest)
  ]
