-- ===== src/Objects.antt =====
-- memory/objstore.go: the in-memory object store. A method holds the mutex, so it is one function from
-- state to state; a stored slice is copied in and out, so no two share bytes. The reader that Put
-- drains is the bytes that it yields, or none where it fails.
pub mod Ranges
use teled.Prelude.{
  ℕ, ◌-◌, List, [], Option, some, none, Bool, ◌||◌, Str, Int64, int0, int, add, index, length, take,
  drop, Map, get, put, delete, Str-discrete, ltb, if◌then◌else◌,
}

-- ObjectStore.
abbrev pub Objects : Type 0
Objects = Map Str (List ℕ)

abbrev pub new_object_store : Objects
new_object_store = []

pub data StoreError : Type 0 where
  unreadable object_not_found offset_out_of_range : StoreError

-- `slice_panic` is the panic of a slice expression out of range.
pub data Stored (A : Type 0) : Type 0 where
  stored : A → Stored A
  refused : StoreError → Stored A
  slice_panic : Stored A

unfoldable pub put_object : Str → Option (List ℕ) → Objects → Stored (Unit {0}) × Objects
put_object key none s = (refused unreadable, s)
put_object key (some bytes) s = (stored tt, put Str-discrete key bytes s)

unfoldable pub get_object : Str → Objects → Stored (List ℕ)
get_object key s = elim (get Str-discrete key s) [
  | none ↦ refused object_not_found
  | some bytes ↦ stored bytes
]

-- bytes[offset:end], for an offset that is not negative.
unfoldable pub slice : Int64 → Int64 → List ℕ → Stored (List ℕ)
slice offset end bytes =
    if ltb end offset || ltb (int (length bytes)) end
    then slice_panic
    else stored (take (end - offset) (drop (index offset) bytes))

-- The end of the range, as cut by GetRange.
unfoldable pub range_end : Int64 → Int64 → List ℕ → Int64
range_end offset count bytes =
    let end = add offset count in
    if ltb count int0 || ltb (int (length bytes)) end then int (length bytes) else end

unfoldable pub get_range : Str → Int64 → Int64 → Objects → Stored (List ℕ)
unfolding slice range_end
get_range key offset count s = elim (get Str-discrete key s) [
  | none ↦ refused object_not_found
  | some bytes ↦
      if ltb offset int0 || ltb (int (length bytes)) offset
      then refused offset_out_of_range
      else slice offset (range_end offset count bytes) bytes
]

-- ObjectInfo.
pub record ObjectInfo : Type 0 where
  pub size : Int64

unfoldable pub stat : Str → Objects → Stored ObjectInfo
stat key s = elim (get Str-discrete key s) [
  | none ↦ refused object_not_found
  | some bytes ↦ stored (record { size = int (length bytes) })
]

unfoldable pub delete_object : Str → Objects → Objects
delete_object key s = delete Str-discrete key s
