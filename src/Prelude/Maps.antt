-- ===== src/Prelude/Maps.antt =====
-- Go maps as association lists. The list gives the order in which a `range` loop meets the entries;
-- Go leaves that order open.
use mathlib.Core.List.{List, [], ◌∷◌, map}
use mathlib.Core.Logic.{◌≢◌, ite, if_pos, if_neg}
use mathlib.Core.Option.{Option, none, some}
use mathlib.Core.Path.{◌≡◌, refl, sym, ap, ◌∙◌}
use native.Mathlib.Omega.{arith}
use teled.Prelude.Lists.{All}

abbrev pub Map {ℓ} : Type ℓ → Type ℓ → Type ℓ
Map K V = List (K × V)

abbrev pub or_else {ℓ} : {A : Type ℓ} → Option A → A → A
or_else none a = a
or_else (some b) a = b

module _ {ℓ} {K V : Type ℓ} where
  -- The values, in the order of the list.
  abbrev pub values : Map K V → List V
  values = map (λ e. e.1)

module _ {ℓ} {K V : Type ℓ} (dec : Discrete K) where
  -- m[k], none where the key is absent.
  unfoldable pub get : K → Map K V → Option V
  get k [] = none
  get k ((j, v) ∷ m) = ite (dec j k) (some v) (get k m)

  -- m[k] = v.
  unfoldable pub put : K → V → Map K V → Map K V
  put k v [] = (k, v) ∷ []
  put k v ((j, w) ∷ m) = ite (dec j k) ((k, v) ∷ m) ((j, w) ∷ put k v m)

  -- delete(m, k).
  unfoldable pub delete : K → Map K V → Map K V
  delete k [] = []
  delete k ((j, w) ∷ m) = ite (dec j k) (delete k m) ((j, w) ∷ delete k m)

  -- No key stands in the list twice.
  abbrev pub Distinct : Map K V → Type ℓ
  Distinct [] = Unit
  Distinct ((j, v) ∷ m) = (get j m ≡ none) × Distinct m

  pub get-put_self : (k : K) (v : V) (m : Map K V) → get k (put k v m) ≡ some v
  unfolding get put
  get-put_self k v [] = if_pos (dec k k) refl _ _
  get-put_self k v ((j, w) ∷ m) = elim (dec j k) [
    | yes e ↦ rw (if_pos (dec j k) e) (if_pos (dec k k) refl _ _)
    | no e ↦ rw (if_neg (dec j k) e) (rw (if_neg (dec j k) e) (get-put_self k v m))
  ]

  pub get-put_found : (k j : K) (v w : V) (m : Map K V) → get j (put k v m) ≡ some w → j ≡ k → v ≡ w
  get-put_found k j v w m e p = cc (get-put_self k v m)

  pub get-put_ne : (k j : K) (v : V) (m : Map K V) → j ≢ k → get j (put k v m) ≡ get j m
  unfolding get put
  get-put_ne k j v [] h = ground arith
  get-put_ne k j v ((i, w) ∷ m) h = ground (arith, get-put_ne k j v m)

  pub get-delete_self : (k : K) (m : Map K V) → get k (delete k m) ≡ none
  unfolding get delete
  get-delete_self k [] = refl
  get-delete_self k ((i, w) ∷ m) = ground (arith, get-delete_self k m)

  pub get-delete_ne : (k j : K) (m : Map K V) → j ≢ k → get j (delete k m) ≡ get j m
  unfolding get delete
  get-delete_ne k j [] h = refl
  get-delete_ne k j ((i, w) ∷ m) h = ground (arith, get-delete_ne k j m)

  -- What a change leaves at any key.
  pub get-put :
      (k j : K) (v : V) (m : Map K V) → get j (put k v m) ≡ ite (dec j k) (some v) (get j m)
  get-put k j v m = elim (dec j k) [
    | yes e ↦ rw e (get-put_self k v m) ∙ sym (if_pos (dec j k) e _ _)
    | no ne ↦ get-put_ne k j v m ne ∙ sym (if_neg (dec j k) ne _ _)
  ]

  pub get-delete : (k j : K) (m : Map K V) → get j (delete k m) ≡ ite (dec j k) none (get j m)
  get-delete k j m = elim (dec j k) [
    | yes e ↦ rw e (get-delete_self k m) ∙ sym (if_pos (dec j k) e _ _)
    | no ne ↦ get-delete_ne k j m ne ∙ sym (if_neg (dec j k) ne _ _)
  ]

  -- The last of two changes at one key stands, and a change that changes nothing.
  pub put_twice : (k : K) (v w : V) (m : Map K V) → put k v (put k w m) ≡ put k v m
  unfolding put
  put_twice k v w [] = if_pos (dec k k) refl _ _
  put_twice k v w ((i, x) ∷ m) = elim (dec i k) [
    | yes e ↦ rw (if_pos (dec i k) e) (if_pos (dec k k) refl _ _ ∙ sym (if_pos (dec i k) e _ _))
    | no e ↦ rw (if_neg (dec i k) e) (
        rw (if_neg (dec i k) e)
          (ap (λ l. (i, x) ∷ l) (put_twice k v w m) ∙ sym (if_neg (dec i k) e _ _)))
  ]

  pub put_same : (k : K) (v : V) (m : Map K V) → get k m ≡ some v → put k v m ≡ m
  unfolding put get
  put_same k v [] h = cc
  put_same k v ((i, x) ∷ m) h = elim (dec i k) [
    | yes e ↦ let q : x ≡ v = ground arith in if_pos (dec i k) e _ _ ∙ rw (e, q) refl
    | no e ↦
        rw (if_neg (dec i k) e)
          (ap (λ l. (i, x) ∷ l) (put_same k v m (sym (if_neg (dec i k) e _ _) ∙ h)))
  ]

  pub put-Distinct : (k : K) (v : V) (m : Map K V) → Distinct m → Distinct (put k v m)
  unfolding put get
  put-Distinct k v [] h = (refl, tt)
  put-Distinct k v ((i, w) ∷ m) h = elim (dec i k) [
    | yes e ↦ rw (if_pos (dec i k) e, ← e) h
    | no e ↦ rw (if_neg (dec i k) e) (rw (get-put_ne k i v m e) h.0, put-Distinct k v m h.1)
  ]

  pub delete-Distinct : (k : K) (m : Map K V) → Distinct m → Distinct (delete k m)
  unfolding delete get
  delete-Distinct k [] h = tt
  delete-Distinct k ((i, w) ∷ m) h = elim (dec i k) [
    | yes e ↦ rw (if_pos (dec i k) e) (delete-Distinct k m h.1)
    | no e ↦ rw (if_neg (dec i k) e) (rw (get-delete_ne k i m e) h.0, delete-Distinct k m h.1)
  ]

  -- A statement about every entry holds of the entries that are found.
  pub get-All {μ} :
      (P : K × V → Type μ) (k : K) (m : Map K V) {v : V} → All P m → get k m ≡ some v → P (k, v)
  unfolding get
  get-All P k [] {v} h e = cc
  get-All P k ((i, w) ∷ m) {v} h e = elim (dec i k) [
    | yes q ↦ let e' : w ≡ v = ground arith in rw (← q, ← e') h.0
    | no q ↦ get-All P k m h.1 (ground arith)
  ]

  pub All-put {μ} :
      (P : K × V → Type μ) (k : K) (v : V) (m : Map K V) → P (k, v) → All P m → All P (put k v m)
  unfolding put
  All-put P k v [] p h = (p, tt)
  All-put P k v ((i, w) ∷ m) p h = elim (dec i k) [
    | yes e ↦ rw (if_pos (dec i k) e) (p, h.1)
    | no e ↦ rw (if_neg (dec i k) e) (h.0, All-put P k v m p h.1)
  ]

  pub All-delete {μ} : (P : K × V → Type μ) (k : K) (m : Map K V) → All P m → All P (delete k m)
  unfolding delete
  All-delete P k [] h = tt
  All-delete P k ((i, w) ∷ m) h = elim (dec i k) [
    | yes e ↦ rw (if_pos (dec i k) e) (All-delete P k m h.1)
    | no e ↦ rw (if_neg (dec i k) e) (h.0, All-delete P k m h.1)
  ]
