-- ===== src/Backoff/Exponential.antt =====
-- resilience/backoff.go: the exponential strategy. float64 and math.Pow are an interface with the laws
-- that the strategy relies on; a float may be NaN, for which no law is asked.
pub mod Bounds
use kafka_resilience.Base.{
  ℕ, ◌+◌, ◌≤◌, ◌<◌, ◌≡◌, Bool, true, false, Option, none, some, ◌||◌, if◌then◌else◌, ℤ, pos, leb_ℤ,
  ltb_ℤ, ◌≤ℤ◌,
}

-- float64 with the operations that the strategy uses: the conversions from and to int64, math.Pow,
-- the product, the order, and 1.0.
pub record Float : Type 1 where
  pub F : Type 0
  pub of_int : ℤ → F
  pub to_int : F → ℤ
  pub pow : F → F → F
  pub mul : F → F → F
  pub ltb_float : F → F → Bool
  pub one : F

-- The integers that float64 holds without rounding.
abbrev pub exact : ℕ
exact = 9007199254740992

-- What is relied on, for numbers (no NaN): a power of a base of at least 1 with an exponent of at least
-- 0 is a number of at least 1; the product of a positive exact integer and a number of at least 1 is a
-- number of at least the integer; and a number between two exact integers is converted to an integer
-- between them.
pub record FloatLaws (fl : Float) : Type 1 where
  pub IsNumber : fl.F → Type 0
  pub pow_ge :
      (b : fl.F) (n : ℕ)
      → IsNumber b
      → fl.ltb_float b fl.one ≡ false
      → IsNumber (fl.pow b (fl.of_int (pos n)))
        × (fl.ltb_float (fl.pow b (fl.of_int (pos n))) fl.one ≡ false)
  pub mul_ge :
      (m : ℕ) (p : fl.F)
      → 0 < m
      → m ≤ exact
      → IsNumber p
      → fl.ltb_float p fl.one ≡ false
      → IsNumber (fl.mul (fl.of_int (pos m)) p)
        × (fl.ltb_float (fl.mul (fl.of_int (pos m)) p) (fl.of_int (pos m)) ≡ false)
  pub to_int_between :
      (m n : ℕ) (x : fl.F)
      → m ≤ n
      → n ≤ exact
      → IsNumber x
      → fl.ltb_float x (fl.of_int (pos m)) ≡ false
      → fl.ltb_float (fl.of_int (pos n)) x ≡ false
      → (pos m ≤ℤ fl.to_int x) × (fl.to_int x ≤ℤ pos n)

pub record ExponentialBackoff (fl : Float) : Type 0 where
  pub initial_delay : ℤ
  pub max_delay : ℤ
  pub multiplier : fl.F

unfoldable pub at_least_zero : ℤ → ℤ
at_least_zero attempt = if ltb_ℤ attempt (pos 0) then pos 0 else attempt

module _ (fl : Float) where
  -- NewExponentialBackoffWithConfig; `none` is an error.
  unfoldable pub new_exponential_backoff_with_config : ℤ → ℤ → fl.F → Option (ExponentialBackoff fl)
  new_exponential_backoff_with_config initial_delay max_delay multiplier =
      if leb_ℤ initial_delay (pos 0)
        || ltb_ℤ max_delay initial_delay
        || fl.ltb_float multiplier fl.one
      then none
      else some
          (record { initial_delay = initial_delay; max_delay = max_delay; multiplier = multiplier })

  -- NewExponentialBackoff with 2.0; the error is dropped.
  abbrev pub new_exponential_backoff : fl.F → Option (ExponentialBackoff fl)
  new_exponential_backoff two =
      new_exponential_backoff_with_config (pos 1000000000) (pos 300000000000) two

  -- The cap.
  unfoldable pub capped : ExponentialBackoff fl → fl.F → ℤ
  capped e delay =
      if fl.ltb_float (fl.of_int e.max_delay) delay then e.max_delay else fl.to_int delay

  unfoldable pub exponential_next_delay : ExponentialBackoff fl → ℤ → ℤ
  exponential_next_delay e attempt =
      capped e (
        fl.mul (fl.of_int e.initial_delay)
          (fl.pow e.multiplier (fl.of_int (at_least_zero attempt))))
