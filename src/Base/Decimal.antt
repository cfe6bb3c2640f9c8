-- ===== src/Base/Decimal.antt =====
-- Decimal text of Go's `strconv`: `Itoa` and `FormatInt(n, 10)`, `Atoi` and `ParseInt(s, 10, 64)`, which
-- resilience/message.go and resilience/tracker.go use for header values. `int` has 64 bits.
pub mod RoundTrip
pub mod Atoi
use Prim.Native.Char.{Char, code}
use Prim.Native.String.{[], ◌∷◌}
use kafka_resilience.Base.Tests.{ltb, leb, eqb, if◌then◌else◌}
use kafka_resilience.Base.Int.{ℤ, pos, negsuc, neg}
use Prim.Native.Nat.{ℕ, zero, suc, ◌+◌, ◌-◌, ◌*◌, ◌/◌, ◌%◌, ◌^◌, ◌≤◌}
use Prim.Native.String.{String}
use mathlib.Core.Bool.{◌||◌}
use mathlib.Core.Option.{Option, none, some}
use mathlib.Core.Path.{◌≡◌, refl}

abbrev pub digit_char : ℕ → Char
digit_char zero = "0"
digit_char (suc zero) = "1"
digit_char (suc (suc zero)) = "2"
digit_char (suc (suc (suc zero))) = "3"
digit_char (suc (suc (suc (suc zero)))) = "4"
digit_char (suc (suc (suc (suc (suc zero))))) = "5"
digit_char (suc (suc (suc (suc (suc (suc zero)))))) = "6"
digit_char (suc (suc (suc (suc (suc (suc (suc zero))))))) = "7"
digit_char (suc (suc (suc (suc (suc (suc (suc (suc zero)))))))) = "8"
digit_char (suc (suc (suc (suc (suc (suc (suc (suc (suc n))))))))) = "9"

-- Each round writes the last digit in front of `out`. The fuel is the number itself and one more,
-- which no number outlasts.
digits : ℕ → ℕ → String → String
digits zero n out = out
digits (suc fuel) n out =
    let rest = digits fuel (n / 10) (digit_char (n % 10) ∷ out) in
    if ltb n 10 then digit_char n ∷ out else rest

unfoldable pub format_nat : ℕ → String
unfolding digits
format_nat n = digits (suc n) n []

unfoldable pub format_int : ℤ → String
unfolding format_nat
format_int (pos n) = format_nat n
format_int (negsuc n) = "-" ∷ format_nat (suc n)

-- The number that the digits spell behind `n`; `none` at the first byte that is no digit.
scan : String → ℕ → Option ℕ
scan [] n = some n
scan (c ∷ s) n =
    let rest = scan s (n * 10 + (code c - b'0')) in
    if ltb (code c) b'0' || ltb b'9' (code c) then none else rest

unfoldable pub parse_nat : String → Option ℕ
unfolding scan
parse_nat [] = none
parse_nat (c ∷ s) = scan (c ∷ s) 0

abbrev pub max_int : ℕ
max_int = 2 ^ 63 - 1

-- The range check of `ParseInt` on the sign and the magnitude.
abbrev pub in_range : Option ℕ → Option ℤ
in_range none = none
in_range (some n) = if leb n max_int then some (pos n) else none

abbrev pub in_range_negative : Option ℕ → Option ℤ
in_range_negative none = none
in_range_negative (some n) = if leb n (suc max_int) then some (neg n) else none

unfoldable pub parse_int : String → Option ℤ
unfolding parse_nat
parse_int [] = none
parse_int (c ∷ s) =
    if eqb (code c) b'+'
    then in_range (parse_nat s)
    else if eqb (code c) b'-'
    then in_range_negative (parse_nat s)
    else in_range (parse_nat (c ∷ s))

-- What fits in an int64.
abbrev pub IsInt64 : ℤ → Type 0
IsInt64 (pos n) = n ≤ max_int
IsInt64 (negsuc n) = n ≤ max_int

format_largest : format_int (pos 9223372036854775807) ≡ "9223372036854775807"
unfolding format_int
format_largest = refl

parse_limits :
    (parse_int "-9223372036854775808" ≡ some (negsuc 9223372036854775807))
    × (parse_int "9223372036854775808" ≡ none)
unfolding parse_int
parse_limits = (refl, refl)

parse_signs :
    (parse_int "+007" ≡ some (pos 7))
    × (parse_int "-" ≡ none)
    × (parse_int "-0" ≡ some (pos 0))
    × (parse_int "1 " ≡ none)
unfolding parse_int
parse_signs = (refl, refl, refl, refl)
