-- ===== src/Examples/Backoff.antt =====
-- An exponential strategy over floats that happen to be natural numbers.
use native.Mathlib.Nat.{one-le-pow, le-mul_of_pos_right}
use kafka_resilience.Base.{ℕ, ◌*◌, ◌^◌, ◌≡◌, refl, false, some, pos, pos_part, ◌≤ℤ◌, ltb, arith}
use kafka_resilience.Backoff.Exponential.{
  Float, FloatLaws, ExponentialBackoff, exact, new_exponential_backoff_with_config,
  exponential_next_delay,
}
use kafka_resilience.Backoff.Exponential.Bounds.{exponential_next_delay_between}

abbrev naturals : Float
naturals = record {
  F = ℕ;
  of_int = pos_part;
  to_int = pos;
  pow = λ b n. b ^ n;
  mul = λ a b. a * b;
  ltb_float = ltb;
  one = 1;
}

power_fine : (b n : ℕ) → ltb b 1 ≡ false → ltb (b ^ n) 1 ≡ false
power_fine b n ge = ground (arith, one-le-pow n b (ground (arith, ge)))

product_fine : (m p : ℕ) → ltb p 1 ≡ false → ltb (m * p) m ≡ false
product_fine m p ge = ground (arith, le-mul_of_pos_right {m = p} m (ground (arith, ge)))

between_fine : (m n x : ℕ) → ltb x m ≡ false → ltb n x ≡ false → (pos m ≤ℤ pos x) × (pos x ≤ℤ pos n)
between_fine m n x low high = (ground (arith, low), ground (arith, high))

abbrev naturals_laws : FloatLaws naturals
naturals_laws = record {
  IsNumber = λ x. Unit;
  pow_ge = λ b n h ge. (tt, power_fine b n ge);
  mul_ge = λ m p positive fits h ge. (tt, product_fine m p ge);
  to_int_between = λ m n x ordered fits h low high. between_fine m n x low high;
}

abbrev doubling : ExponentialBackoff naturals
doubling = record { initial_delay = pos 1; max_delay = pos 60; multiplier = 2 }

doubling_is_made : new_exponential_backoff_with_config naturals (pos 1) (pos 60) 2 ≡ some doubling
unfolding new_exponential_backoff_with_config
doubling_is_made = refl

doubling_fits : pos 60 ≤ℤ pos exact
doubling_fits = omega arith

third_delay : exponential_next_delay naturals doubling (pos 3) ≡ pos 8
unfolding exponential_next_delay kafka_resilience.Backoff.Exponential.capped
    kafka_resilience.Backoff.Exponential.at_least_zero
third_delay = refl

exponential_next_delay_between_example :
    (pos 1 ≤ℤ exponential_next_delay naturals doubling (pos 9))
    × (exponential_next_delay naturals doubling (pos 9) ≤ℤ pos 60)
exponential_next_delay_between_example =
    exponential_next_delay_between naturals naturals_laws (pos 1) (pos 60) 2 doubling
      doubling_is_made tt doubling_fits (pos 9)
