-- ===== src/Prelude/Ints.antt =====
-- Go's int64 and int, which are two's complement words of 64 bits.
-- A value v is represented by v + 2^63, a number below 2^64. So Go's `==` and `<` are those of the
-- numbers, the value 0 is 2^63, and arithmetic wraps modulo 2^64.
use Prim.Native.Nat.{ℕ, ◌+◌, ◌-◌, ◌%◌, ◌^◌}

abbrev pub Int64 : Type 0
Int64 = ℕ

-- The representation of 0.
abbrev pub int0 : Int64
int0 = 2 ^ 63

abbrev pub word : ℕ
word = 2 ^ 64

-- The representation of the literal n, and of the length n of a slice.
abbrev pub int : ℕ → Int64
int n = int0 + n

-- v++, and v += n for the length n of a slice.
abbrev pub inc : Int64 → Int64
inc v = (v + 1) % word

abbrev pub add_len : Int64 → ℕ → Int64
add_len v n = (v + n) % word

-- v + w.
abbrev pub add : Int64 → Int64 → Int64
add v w = (v + w + int0) % word

-- v as the bound of a slice expression `s[:v]`, for v that is not negative.
abbrev pub index : Int64 → ℕ
index v = v - int0
