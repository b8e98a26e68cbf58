-- ===== src/Objects/Ranges.antt =====
-- memory/objstore.go, GetRange: which bytes it answers, and when it panics.
use teled.Prelude.{
  ℕ, zero, suc, ◌+◌, ◌-◌, ◌*◌, ◌≤◌, ◌<◌, ◌≡◌, inl, inr, refl, sym, ap, ◌∙◌, arith, List, [], ◌∷◌,
  ◌++◌, append-nil, some, false, Str, Int64, int0, int, add, index, word, length, take, drop, get,
  get-put_self, Str-discrete, ltb, ltb→lt, leb, if◌then◌else◌, Bool-cases,
}
use teled.Objects.{
  Objects, Stored, stored, refused, slice_panic, offset_out_of_range, put_object, get_range,
  range_end, slice,
}

-- What a range of count bytes from offset should be.
abbrev pub range : ℕ → ℕ → List ℕ → List ℕ
range offset count bytes = take count (drop offset bytes)

zero-add : (n : ℕ) → 0 + n ≡ n
zero-add n = omega arith

suc-add : (m n : ℕ) → suc m + n ≡ suc (m + n)
suc-add m n = omega arith

module _ {A : Type 0} where
  length-drop : (n : ℕ) (xs : List A) → length (drop n xs) ≡ length xs - n
  length-drop zero xs = omega arith
  length-drop (suc n) [] = omega arith
  length-drop (suc n) (x ∷ xs) = omega (arith, length-drop n xs)

  take_all : (n : ℕ) (xs : List A) → length xs ≤ n → take n xs ≡ xs
  take_all zero [] h = refl
  take_all zero (x ∷ xs) h = absurd (omega arith)
  take_all (suc n) [] h = refl
  take_all (suc n) (x ∷ xs) h = ap (λ l. x ∷ l) (take_all n xs (omega arith))

  drop_nil : (n : ℕ) → ◌≡◌ {A = List A} (drop n []) []
  drop_nil zero = refl
  drop_nil (suc n) = refl

  drop-add : (m n : ℕ) (xs : List A) → drop (m + n) xs ≡ drop n (drop m xs)
  drop-add zero n xs = rw zero-add refl
  drop-add (suc m) n [] = rw suc-add (sym (drop_nil n))
  drop-add (suc m) n (x ∷ xs) = rw suc-add (drop-add m n xs)

  take-drop : (n : ℕ) (xs : List A) → take n xs ++ drop n xs ≡ xs
  take-drop zero xs = refl
  take-drop (suc n) [] = refl
  take-drop (suc n) (x ∷ xs) = ap (λ l. x ∷ l) (take-drop n xs)

range_end-le :
    (offset count : Int64) (bytes : List ℕ)
    → int0 ≤ offset
    → int0 ≤ count
    → offset + (count - int0) < word
    → range_end offset count bytes ≡ (
        if ltb (int (length bytes)) (offset + (count - int0))
        then int (length bytes)
        else offset + (count - int0))
unfolding range_end
range_end-le offset count bytes lo lo' fits =
    let sum : add offset count ≡ offset + (count - int0) = omega arith in rw sum (ground arith)

slice_lem :
    (offset end : Int64) (bytes : List ℕ)
    → offset ≤ end
    → end ≤ int (length bytes)
    → slice offset end bytes ≡ stored (take (end - offset) (drop (index offset) bytes))
unfolding slice
slice_lem offset end bytes h h' = ground arith

slice_fits :
    (offset count : Int64) (bytes : List ℕ)
    → int0 ≤ offset
    → int0 ≤ count
    → offset ≤ int (length bytes)
    → offset + (count - int0) < word
    → slice offset (range_end offset count bytes) bytes
      ≡ stored (range (index offset) (index count) bytes)
slice_fits offset count bytes lo lo' inside fits =
    let rest = drop (index offset) bytes in
    let left = length-drop (index offset) bytes in
    rw (range_end-le offset count bytes lo lo' fits)
      (elim (Bool-cases (ltb (int (length bytes)) (offset + (count - int0)))) [
        | inl past ↦
            let beyond : int (length bytes) < offset + (count - int0) = ltb→lt _ _ past in
            rw past (
              slice_lem offset (int (length bytes)) bytes inside (omega arith)
              ∙ ap stored (take_all _ rest (omega arith) ∙ sym (take_all _ rest (omega arith))))
        | inr near ↦ rw near (
            slice_lem offset (offset + (count - int0)) bytes (omega arith) (ground arith)
            ∙ ap (λ n. stored (take n rest)) (omega arith))
      ])

slice_overflows :
    (offset count : Int64) (bytes : List ℕ)
    → int0 ≤ count
    → count < word
    → length bytes < int0
    → offset ≤ int (length bytes)
    → word ≤ offset + (count - int0)
    → slice offset (range_end offset count bytes) bytes ≡ slice_panic
unfolding slice range_end
slice_overflows offset count bytes lo hi small inside over =
    let wraps : add offset count < offset = omega arith in ground arith

-- GetRange of a stored object of less than 2^63 bytes, for an offset and a count that are int64 and not negative:
-- an offset behind the end is refused, an offset and a count whose sum overflows make it panic, and otherwise it
-- answers the bytes of the range that are there.
pub get_range_lem :
    (key : Str) (offset count : Int64) (s : Objects) (bytes : List ℕ)
    → get Str-discrete key s ≡ some bytes
    → length bytes < int0
    → int0 ≤ offset
    → int0 ≤ count
    → count < word
    → get_range key offset count s ≡ (
        if ltb (int (length bytes)) offset
        then refused offset_out_of_range
        else if leb word (offset + (count - int0))
        then slice_panic
        else stored (range (index offset) (index count) bytes))
unfolding get_range
get_range_lem key offset count s bytes found small lo lo' hi =
    rw (found, get_range)
      (ground (arith, slice_fits offset count bytes, slice_overflows offset count bytes))

-- A client that reads an object in pieces of n bytes from an offset, k of them.
unfoldable pub download : ℕ → ℕ → ℕ → Str → Objects → Stored (List ℕ)
download n zero offset key s = stored []
download n (suc k) offset key s = elim (get_range key (int offset) (int n) s) [
  | refused e ↦ refused e
  | slice_panic ↦ slice_panic
  | stored piece ↦ elim (download n k (offset + n) key s) [
    | refused e ↦ refused e
    | slice_panic ↦ slice_panic
    | stored rest ↦ stored (piece ++ rest)
  ]
]

pub get_range_inside :
    (key : Str) (offset n : ℕ) (s : Objects) (bytes : List ℕ)
    → get Str-discrete key s ≡ some bytes
    → length bytes < int0
    → offset ≤ length bytes
    → offset + n < int0
    → get_range key (int offset) (int n) s ≡ stored (range offset n bytes)
get_range_inside key offset n s bytes found small inside fits =
    let o : index (int offset) ≡ offset = omega arith in
    let c : index (int n) ≡ n = omega arith in
    let r =
      get_range_lem key (int offset) (int n) s bytes found small (omega arith) (omega arith)
        (omega arith) in
    let in_range : ltb (int (length bytes)) (int offset) ≡ false = ground arith in
    let no_wrap : leb word (int offset + (int n - int0)) ≡ false = ground arith in
    r ∙ rw (in_range, no_wrap, o, c) refl

download_step :
    (n k offset : ℕ) (key : Str) (s : Objects) (piece rest : List ℕ)
    → get_range key (int offset) (int n) s ≡ stored piece
    → download n k (offset + n) key s ≡ stored rest
    → download n (suc k) offset key s ≡ stored (piece ++ rest)
unfolding download
download_step n k offset key s piece rest e e' = rw (e, download) (rw (e', download) refl)

download-rest :
    (n k offset : ℕ) (key : Str) (s : Objects) (bytes : List ℕ)
    → get Str-discrete key s ≡ some bytes
    → length bytes + n < int0
    → offset + k * n ≤ length bytes
    → length bytes ≤ offset + suc k * n
    → download n (suc k) offset key s ≡ stored (drop offset bytes)
unfolding download
download-rest n zero offset key s bytes found small low high =
    let left = length-drop offset bytes in
    download_step n 0 offset key s _ []
      (get_range_inside key offset n s bytes found (omega arith) (omega arith) (omega arith)) refl
    ∙ ap stored (append-nil _ ∙ take_all n (drop offset bytes) (omega arith))
download-rest n (suc k) offset key s bytes found small low high =
    download_step n (suc k) offset key s _ _
      (get_range_inside key offset n s bytes found (omega arith) (grind arith) (grind arith))
      (download-rest n k (offset + n) key s bytes found small (grind arith) (grind arith))
    ∙ ap stored (
        ap (λ l. range offset n bytes ++ l) (drop-add offset n bytes)
        ∙ take-drop n (drop offset bytes))

-- An object that was put is read back whole in pieces of n bytes, as many as it takes, where its length and
-- n stay below 2^63.
pub download-put_object :
    (n k : ℕ) (key : Str) (bytes : List ℕ) (s : Objects)
    → length bytes + n < int0
    → k * n ≤ length bytes
    → length bytes ≤ suc k * n
    → download n (suc k) 0 key (put_object key (some bytes) s).1 ≡ stored bytes
unfolding put_object
download-put_object n k key bytes s small low high =
    download-rest n k 0 key (put_object key (some bytes) s).1 bytes
      (get-put_self Str-discrete key bytes s) small (omega arith) (omega arith)
