-- ===== src/Postgres/Selecting.antt =====
-- Which rows a query finds after an INSERT and an UPDATE.
use teled.Prelude.{
  ◌<◌, ◌≤◌, ◌≡◌, refl, sym, ◌∙◌, ap, List, [], ◌∷◌, ◌++◌, none, some, Bool, true, false, ◌&&◌,
  arith, Int64, Map, All, map, keep, some_in, get, put, ℕ_discrete, ◌==◌, ==_iff, ==_false, if_neg,
  if_pos, Bool-cases, if◌then◌else◌, inl, inr,
}
use teled.Memory.Messages.{find}
use teled.Postgres.Sql.{update, add_row, chosen}

module _ {A : Type 0} where
  pub find-add_row_new :
      (p : A → Bool) (row : A) (rows : List A)
      → find p rows ≡ none
      → find p (add_row row rows) ≡ (if p row then some row else none)
  unfolding find
  find-add_row_new p row [] h = refl
  find-add_row_new p row (x ∷ rows) h = ground (arith, find-add_row_new p row rows)

  pub find-add_row_kept :
      (p : A → Bool) (row found : A) (rows : List A)
      → find p rows ≡ some found
      → find p (add_row row rows) ≡ some found
  unfolding find
  find-add_row_kept p row found [] h = cc
  find-add_row_kept p row found (x ∷ rows) h = ground (arith, find-add_row_kept p row found rows)

  pub find-add_row_other :
      (p : A → Bool) (row : A) (rows : List A)
      → p row ≡ false
      → find p (add_row row rows) ≡ find p rows
  unfolding find
  find-add_row_other p row [] h = rw h refl
  find-add_row_other p row (x ∷ rows) h = ground (arith, find-add_row_other p row rows)

  -- The test looks at columns that the change leaves alone.
  pub find-update :
      (p : A → Bool) (f : A → A) (found : A) (rows : List A)
      → ((x : A) → p (f x) ≡ p x)
      → find p rows ≡ some found
      → find p (update p f rows) ≡ some (f found)
  unfolding find update
  find-update p f found [] stable h = cc
  find-update p f found (x ∷ rows) stable h = elim (Bool-cases (p x)) [
    | inl e ↦ rw (e, stable x, e) (let same : x ≡ found = ground arith in rw same refl)
    | inr e ↦ rw (e, e) (find-update p f found rows stable (rw e at h))
  ]

  pub find-update_other :
      (p q : A → Bool) (f : A → A) (rows : List A)
      → ((x : A) → q x ≡ true → (p x ≡ false) × (p (f x) ≡ false))
      → find p (update q f rows) ≡ find p rows
  unfolding find update
  find-update_other p q f [] apart = refl
  find-update_other p q f (x ∷ rows) apart = elim (Bool-cases (q x)) [
    | inl e ↦ rw e (rw ((apart x e).0, (apart x e).1) (find-update_other p q f rows apart))
    | inr e ↦ rw e (rw (find-update_other p q f rows apart) refl)
  ]

  pub some_in_none :
      (p : A → Bool) (rows : List A) → All (λ x. p x ≡ false) rows → some_in p rows ≡ false
  unfolding some_in
  some_in_none p [] h = refl
  some_in_none p (x ∷ rows) h = rw (h.0, some_in_none p rows h.1) refl

  -- A statement about the rows of an owner rules out a clash that only such a row could make.
  pub some_in-keep :
      (p own : A → Bool) (rows : List A)
      → ((x : A) → own x ≡ false → p x ≡ false)
      → some_in p (keep own rows) ≡ false
      → some_in p rows ≡ false
  unfolding some_in keep
  some_in-keep p own [] apart h = refl
  some_in-keep p own (x ∷ rows) apart h = ground (arith, apart x, some_in-keep p own rows apart)

  pub All-unmap :
      {B : Type 0} (P : B → Type 0) (f : A → B) (rows : List A)
      → All P (map f rows)
      → All (λ x. P (f x)) rows
  All-unmap P f [] h = tt
  All-unmap P f (x ∷ rows) h = (h.0, All-unmap P f rows h.1)

  pub map-append :
      {B : Type 0} (f : A → B) (xs ys : List A) → map f (xs ++ ys) ≡ map f xs ++ map f ys
  map-append f [] ys = refl
  map-append f (x ∷ xs) ys = ap (λ l. f x ∷ l) (map-append f xs ys)

  pub put_fresh :
      (k : Int64) (v : A) (m : Map Int64 A)
      → get ℕ_discrete k m ≡ none
      → put ℕ_discrete k v m ≡ m ++ (k, v) ∷ []
  unfolding get put
  put_fresh k v [] h = refl
  put_fresh k v ((j, w) ∷ m) h = elim (ℕ_discrete j k) [
    | yes e ↦ absurd (ground arith)
    | no e ↦
        if_neg (ℕ_discrete j k) e _ _
        ∙ ap (λ l. (j, w) ∷ l) (put_fresh k v m (sym (if_neg (ℕ_discrete j k) e _ _) ∙ h))
  ]

  pub get_above :
      (k last : Int64) (m : Map Int64 A)
      → All (λ e. e.0 ≤ last) m
      → last < k
      → get ℕ_discrete k m ≡ none
  unfolding get
  get_above k last [] h lt = refl
  get_above k last ((j, w) ∷ m) h lt = ground (arith, get_above k last m h.1 lt)

  -- A lookup by a key column reads as a lookup in the map of the rows by that key.
  pub find-get :
      {V : Type 0} (key : A → Int64) (f : A → V) (k : Int64) (rows : List A)
      → chosen f (find (λ x. key x == k) rows) ≡ get ℕ_discrete k (map (λ x. (key x, f x)) rows)
  unfolding find get
  find-get key f k [] = refl
  find-get key f k (x ∷ rows) = elim (ℕ_discrete (key x) k) [
    | yes e ↦ rw ((==_iff (key x) k).1 e) (sym (if_pos (ℕ_discrete (key x) k) e _ _))
    | no e ↦
        rw (==_false (key x) k e)
          (find-get key f k rows ∙ sym (if_neg (ℕ_discrete (key x) k) e _ _))
  ]

  pub find-keep :
      (own p : A → Bool) (rows : List A) → find (λ x. own x && p x) rows ≡ find p (keep own rows)
  unfolding find keep
  find-keep own p [] = refl
  find-keep own p (x ∷ rows) = elim (Bool-cases (own x)) [
    | inl e ↦ rw e (rw (find-keep own p rows) refl)
    | inr e ↦ rw e (find-keep own p rows)
  ]

  pub find-map :
      {B : Type 0} (p : B → Bool) (f : A → B) (rows : List A)
      → find p (map f rows) ≡ chosen f (find (λ x. p (f x)) rows)
  unfolding find
  find-map p f [] = refl
  find-map p f (x ∷ rows) = elim (Bool-cases (p (f x))) [
    | inl e ↦ rw e refl
    | inr e ↦ rw e (find-map p f rows)
  ]

  pub find-passes :
      (p : A → Bool) (found : A) (rows : List A) → find p rows ≡ some found → p found ≡ true
  unfolding find
  find-passes p found [] h = cc
  find-passes p found (x ∷ rows) h = elim (Bool-cases (p x)) [
    | inl e ↦ let same : x ≡ found = ground arith in rw (← same) e
    | inr e ↦ find-passes p found rows (rw e at h)
  ]

  pub update_nothing :
      (p : A → Bool) (f : A → A) (rows : List A) → find p rows ≡ none → update p f rows ≡ rows
  unfolding find update
  update_nothing p f [] h = refl
  update_nothing p f (x ∷ rows) h = elim (Bool-cases (p x)) [
    | inl e ↦ absurd (ground arith)
    | inr e ↦ rw e (ap (λ l. x ∷ l) (update_nothing p f rows (rw e at h)))
  ]
