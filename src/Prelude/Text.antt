-- ===== src/Prelude/Text.antt =====
-- Go strings: prefixes, substrings and the decimal form of an int64.
use Prim.Native.Nat.{ℕ, zero, suc, ◌+◌, ◌-◌, ◌/◌, ◌%◌}
use mathlib.Core.Bool.{Bool, true, false, ◌&&◌, ◌||◌}
use mathlib.Core.List.{[], ◌∷◌, ◌++◌}
use teled.Prelude.Ints.{Int64, int0}
use teled.Prelude.Lists.{length, drop}
use teled.Prelude.Tests.{Str, ltb, ◌==◌, if◌then◌else◌}

-- strings.HasPrefix(s, prefix).
unfoldable pub has_prefix : Str → Str → Bool
has_prefix s [] = true
has_prefix [] (c ∷ p) = false
has_prefix (d ∷ s) (c ∷ p) = (d == c) && has_prefix s p

-- strings.Contains(s, sub).
unfoldable pub contains : Str → Str → Bool
unfolding has_prefix
contains [] sub = has_prefix [] sub
contains (c ∷ s) sub = has_prefix (c ∷ s) sub || contains s sub

-- strings.TrimPrefix(s, prefix).
unfoldable pub trim_prefix : Str → Str → Str
unfolding has_prefix
trim_prefix s p = if has_prefix s p then drop (length p) s else s

-- The decimal digits of a number below 10 ^ fuel, least significant last.
unfoldable pub format_nat : ℕ → ℕ → Str
format_nat zero n = []
format_nat (suc fuel) n =
    let rest = format_nat fuel (n / 10) in
    if ltb n 10 then (b'0' + n) ∷ [] else rest ++ (b'0' + n % 10) ∷ []

-- strconv.FormatInt(v, 10). Twenty digits hold every number up to 2^63.
unfoldable pub format_int : Int64 → Str
unfolding format_nat
format_int v = if ltb v int0 then b'-' ∷ format_nat 20 (int0 - v) else format_nat 20 (v - int0)
