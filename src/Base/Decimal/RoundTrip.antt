-- ===== src/Base/Decimal/RoundTrip.antt =====
-- An int64 is read back from its decimal text.
use Prim.Native.Char.{code}
use Prim.Native.String.{[], ◌∷◌}
use Prim.Native.String.{String}
use kafka_resilience.Base.Tests.{ltb, Bool-cases}
use kafka_resilience.Base.Int.{ℤ, pos, negsuc}
use kafka_resilience.Base.Decimal.{
  digit_char, digits, format_nat, format_int, scan, parse_nat, parse_int, IsInt64, in_range,
}
use Prim.Native.Nat.{ℕ, zero, suc, ◌+◌, ◌*◌, ◌/◌, ◌%◌, ◌<◌, ◌≤◌}
use mathlib.Core.Option.{some}
use mathlib.Core.Path.{◌≡◌, refl, ◌∙◌}
use mathlib.Core.Logic.{inl, inr}
use native.Mathlib.Omega.{arith}

code-digit_char : (d : ℕ) → d < 10 → code (digit_char d) ≡ b'0' + d
code-digit_char zero h = refl
code-digit_char (suc zero) h = refl
code-digit_char (suc (suc zero)) h = refl
code-digit_char (suc (suc (suc zero))) h = refl
code-digit_char (suc (suc (suc (suc zero)))) h = refl
code-digit_char (suc (suc (suc (suc (suc zero))))) h = refl
code-digit_char (suc (suc (suc (suc (suc (suc zero)))))) h = refl
code-digit_char (suc (suc (suc (suc (suc (suc (suc zero))))))) h = refl
code-digit_char (suc (suc (suc (suc (suc (suc (suc (suc zero)))))))) h = refl
code-digit_char (suc (suc (suc (suc (suc (suc (suc (suc (suc zero))))))))) h = refl
code-digit_char (suc (suc (suc (suc (suc (suc (suc (suc (suc (suc n)))))))))) h =
    absurd (omega arith)

-- Reading a digit that was written in front.
scan-digit : (d n : ℕ) (out : String) → d < 10 → scan (digit_char d ∷ out) n ≡ scan out (n * 10 + d)
unfolding scan
scan-digit d n out h = ground (arith, code-digit_char d h)

scan-digits : (fuel n : ℕ) (out : String) → n < fuel → scan (digits fuel n out) 0 ≡ scan out n
unfolding digits
scan-digits zero n out h = absurd (omega arith)
scan-digits (suc fuel) n out h = ground (
  arith,
  scan-digits fuel (n / 10) (digit_char (n % 10) ∷ out),
  scan-digit n 0 out,
  scan-digit (n % 10) (n / 10) out,
)

-- The first byte that is written is a digit.
abbrev StartsWithDigit : String → Type 0
StartsWithDigit [] = ⊥
StartsWithDigit (c ∷ s) = (b'0' ≤ code c) × (code c ≤ b'9')

digit_char-StartsWithDigit : (d : ℕ) (out : String) → d < 10 → StartsWithDigit (digit_char d ∷ out)
digit_char-StartsWithDigit d out h = omega (arith, code-digit_char d h)

digits-StartsWithDigit :
    (fuel n : ℕ) (out : String) → n < fuel → StartsWithDigit (digits fuel n out)
unfolding digits
digits-StartsWithDigit zero n out h = absurd (omega arith)
digits-StartsWithDigit (suc fuel) n out h = elim (Bool-cases (ltb n 10)) [
  | inl small ↦ rw small (digit_char-StartsWithDigit n out (ground arith))
  | inr large ↦ rw large (digits-StartsWithDigit fuel (n / 10) _ (ground arith))
]

format_nat-StartsWithDigit : (n : ℕ) → StartsWithDigit (format_nat n)
unfolding format_nat
format_nat-StartsWithDigit n = digits-StartsWithDigit (suc n) n [] (omega arith)

parse_nat-scan : (s : String) → StartsWithDigit s → parse_nat s ≡ scan s 0
unfolding parse_nat
parse_nat-scan [] h = absurd h
parse_nat-scan (c ∷ s) h = refl

parse_nat-format_nat : (n : ℕ) → parse_nat (format_nat n) ≡ some n
unfolding format_nat scan
parse_nat-format_nat n =
    parse_nat-scan _ (format_nat-StartsWithDigit n) ∙ scan-digits (suc n) n [] (omega arith)

-- A text that starts with a digit has no sign.
parse_int_unsigned : (s : String) → StartsWithDigit s → parse_int s ≡ in_range (parse_nat s)
unfolding parse_int
parse_int_unsigned [] h = absurd h
parse_int_unsigned (c ∷ s) h = ground arith

-- Every int64 is read back from its text.
pub parse_int-format_int : (n : ℤ) → IsInt64 n → parse_int (format_int n) ≡ some n
unfolding format_int
parse_int-format_int (pos n) h =
    parse_int_unsigned _ (format_nat-StartsWithDigit n) ∙ ground (arith, parse_nat-format_nat n)
parse_int-format_int (negsuc n) h = unfold parse_int in ground (arith, parse_nat-format_nat (suc n))
