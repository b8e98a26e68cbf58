-- ===== src/Prelude/Sort.antt =====
-- sort.Slice, by insertion, with its laws: the same elements, in order.
use Prim.Native.Nat.{◌+◌}
use mathlib.Core.Bool.{Bool, true, false}
use mathlib.Core.List.{List, [], ◌∷◌, Perm}
use mathlib.Core.List.Perm
use mathlib.Core.Logic.{inl, inr}
use mathlib.Core.Path.{◌≡◌, refl}
use native.Mathlib.Omega.{arith}
use teled.Prelude.Lists.{All, All-map, length}
use teled.Prelude.Tests.{if◌then◌else◌, Bool-cases}

module _ {ℓ} {A : Type ℓ} where
  -- Every element stands in the relation to all that follow it.
  abbrev pub Ordered {κ} : (A → A → Type κ) → List A → Type κ
  Ordered R [] = Unit
  Ordered R (x ∷ xs) = All (R x) xs × Ordered R xs

module _ {ℓ} {A : Type ℓ} (less : A → A → Bool) where
  unfoldable pub insert : A → List A → List A
  insert x [] = x ∷ []
  insert x (y ∷ ys) = let rest = insert x ys in if less y x then y ∷ rest else x ∷ y ∷ ys

  unfoldable pub sort : List A → List A
  unfolding insert
  sort [] = []
  sort (x ∷ xs) = insert x (sort xs)

  insert-perm : (x : A) (ys : List A) → Perm (insert x ys) (x ∷ ys)
  unfolding insert
  insert-perm x [] = Perm.refl (x ∷ [])
  insert-perm x (y ∷ ys) = elim (Bool-cases (less y x)) [
    | inl e ↦ rw e (Perm.trans (Perm.cons y (insert-perm x ys)) (Perm.swap x y ys))
    | inr e ↦ rw e (Perm.refl (x ∷ y ∷ ys))
  ]

  -- Sorting keeps the elements, as often as they stand there.
  pub sort-perm : (xs : List A) → Perm (sort xs) xs
  unfolding sort
  sort-perm [] = Perm.refl []
  sort-perm (x ∷ xs) = Perm.trans (insert-perm x (sort xs)) (Perm.cons x (sort-perm xs))

  All-insert {κ} : (P : A → Type κ) (x : A) (ys : List A) → P x → All P ys → All P (insert x ys)
  unfolding insert
  All-insert P x [] h hs = (h, tt)
  All-insert P x (y ∷ ys) h hs = elim (Bool-cases (less y x)) [
    | inl e ↦ rw e (hs.0, All-insert P x ys h hs.1)
    | inr e ↦ rw e (h, hs)
  ]

  pub All-sort {κ} : (P : A → Type κ) (xs : List A) → All P xs → All P (sort xs)
  unfolding sort
  All-sort P [] h = tt
  All-sort P (x ∷ xs) h = All-insert P x (sort xs) h.0 (All-sort P xs h.1)

  module _ {κ} {R : A → A → Type κ} (before : (a b : A) → less a b ≡ true → R a b)
      (after : (a b : A) → less a b ≡ false → R b a)
      (trans : (a b c : A) → R a b → R b c → R a c) where
    insert-Ordered : (x : A) (ys : List A) → Ordered R ys → Ordered R (insert x ys)
    unfolding insert
    insert-Ordered x [] h = (tt, tt)
    insert-Ordered x (y ∷ ys) h = elim (Bool-cases (less y x)) [
      | inl e ↦ rw e (All-insert (R y) x ys (before y x e) h.0, insert-Ordered x ys h.1)
      | inr e ↦
          let r = after y x e in rw e ((r, All-map (R y) (R x) (λ c. trans x y c r) ys h.0), h)
    ]

    -- Sorting puts the elements in order.
    pub sort-Ordered : (xs : List A) → Ordered R (sort xs)
    unfolding sort
    sort-Ordered [] = tt
    sort-Ordered (x ∷ xs) = insert-Ordered x (sort xs) (sort-Ordered xs)

  pub length-insert : (x : A) (ys : List A) → length (insert x ys) ≡ length ys + 1
  unfolding insert
  length-insert x [] = omega arith
  length-insert x (y ∷ ys) = ground (arith, length-insert x ys)

  pub length-sort : (xs : List A) → length (sort xs) ≡ length xs
  unfolding sort
  length-sort [] = refl
  length-sort (x ∷ xs) = omega (arith, length-insert x (sort xs), length-sort xs)

  insert-front : (x : A) (ys : List A) → All (λ y. less y x ≡ false) ys → insert x ys ≡ x ∷ ys
  unfolding insert
  insert-front x [] h = refl
  insert-front x (y ∷ ys) h = rw h.0

  -- A list that is in order stays as it is.
  pub sort-sorted : (xs : List A) → Ordered (λ a b. less b a ≡ false) xs → sort xs ≡ xs
  unfolding sort
  sort-sorted [] h = refl
  sort-sorted (x ∷ xs) h = rw (sort-sorted xs h.1) (insert-front x xs h.0)
