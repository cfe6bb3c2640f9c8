-- ===== src/Base/Decimal/Atoi.antt =====
-- `n, _ := strconv.Atoi(s)` of Go, as the handlers of the example programs call it: the number that
-- comes back beside an error too. It is 0 beside a syntax error, and the limit of int64 beside a range
-- error; a range error of the magnitude is found at the digit that leaves 64 bits.
use Prim.Native.Char.{code}
use Prim.Native.String.{String, [], ◌∷◌}
use Prim.Native.Nat.{ℕ, suc, ◌+◌, ◌-◌, ◌*◌, ◌^◌}
use mathlib.Core.Bool.{◌||◌}
use mathlib.Core.Option.{Option, none, some}
use mathlib.Core.Path.{◌≡◌, refl}
use kafka_resilience.Base.Tests.{ltb, leb, eqb, if◌then◌else◌}
use kafka_resilience.Base.Int.{ℤ, pos, negsuc, neg}
use kafka_resilience.Base.Decimal.{max_int}

abbrev max_uint : ℕ
max_uint = 2 ^ 64 - 1

-- The magnitude, at most `max_uint`; `none` is a syntax error.
scan_magnitude : String → ℕ → Option ℕ
scan_magnitude [] n = some n
scan_magnitude (c ∷ s) n =
    let next = n * 10 + (code c - b'0') in
    let rest = scan_magnitude s next in
    if ltb (code c) b'0' || ltb b'9' (code c)
    then none
    else if ltb max_uint next
    then some max_uint
    else rest

magnitude : String → Option ℕ
unfolding scan_magnitude
magnitude [] = none
magnitude (c ∷ s) = scan_magnitude (c ∷ s) 0

abbrev at_most_limit : Option ℕ → ℤ
at_most_limit none = pos 0
at_most_limit (some n) = if leb n max_int then pos n else pos max_int

abbrev at_least_limit : Option ℕ → ℤ
at_least_limit none = pos 0
at_least_limit (some n) = if leb n (suc max_int) then neg n else negsuc max_int

unfoldable pub atoi_value : String → ℤ
unfolding magnitude
atoi_value [] = pos 0
atoi_value (c ∷ s) =
    if eqb (code c) b'+'
    then at_most_limit (magnitude s)
    else if eqb (code c) b'-'
    then at_least_limit (magnitude s)
    else at_most_limit (magnitude (c ∷ s))

atoi_values :
    (atoi_value "-12" ≡ negsuc 11)
    × (atoi_value "1x" ≡ pos 0)
    × (atoi_value "9223372036854775808" ≡ pos 9223372036854775807)
    × (atoi_value "99999999999999999999x" ≡ pos 9223372036854775807)
unfolding atoi_value
atoi_values = (refl, refl, refl, refl)
