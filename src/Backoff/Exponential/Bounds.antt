-- ===== src/Backoff/Exponential/Bounds.antt =====
-- The delays of the exponential strategy.
use kafka_resilience.Base.{
  ℕ, ◌≤◌, ◌<◌, ◌≡◌, subst, inl, inr, Bool-cases, false, some, ℤ, pos, negsuc, ◌≤ℤ◌, arith,
}
use kafka_resilience.Backoff.Exponential.{
  Float, FloatLaws, exact, ExponentialBackoff, new_exponential_backoff_with_config, at_least_zero,
  capped, exponential_next_delay,
}

at_least_zero-pos : (attempt : ℤ) → (n : ℕ) × (at_least_zero attempt ≡ pos n)
unfolding at_least_zero
at_least_zero-pos (pos n) = (n, ground arith)
at_least_zero-pos (negsuc n) = (0, ground arith)

module _ (fl : Float) (laws : FloatLaws fl) (initial max : ℕ) (multiplier : fl.F)
    (positive : 0 < initial) (ordered : initial ≤ max) (fits : max ≤ exact)
    (number : laws.IsNumber multiplier) (grows : fl.ltb_float multiplier fl.one ≡ false) where
  abbrev delays : ExponentialBackoff fl
  delays = record { initial_delay = pos initial; max_delay = pos max; multiplier = multiplier }

  capped_between :
      (x : fl.F)
      → laws.IsNumber x
      → fl.ltb_float x (fl.of_int (pos initial)) ≡ false
      → (pos initial ≤ℤ capped fl delays x) × (capped fl delays x ≤ℤ pos max)
  unfolding capped
  capped_between x number ge = elim (Bool-cases (fl.ltb_float (fl.of_int (pos max)) x)) [
    | inl over ↦ rw over (omega (arith, ordered), omega arith)
    | inr under ↦ rw under (laws.to_int_between initial max x ordered fits number ge under)
  ]

  next_between :
      (attempt : ℤ)
      → (pos initial ≤ℤ exponential_next_delay fl delays attempt)
        × (exponential_next_delay fl delays attempt ≤ℤ pos max)
  unfolding exponential_next_delay
  next_between attempt =
      let (n, is) = at_least_zero-pos attempt in
      let (p_number, p_ge) = laws.pow_ge multiplier n number grows in
      let (x_number, x_ge) =
        laws.mul_ge initial (fl.pow multiplier (fl.of_int (pos n))) positive
          (omega (arith, ordered, fits)) p_number p_ge in
      rw is (capped_between _ x_number x_ge)

made_of :
    (fl : Float) (i m : ℕ) (multiplier : fl.F) (e : ExponentialBackoff fl)
    → new_exponential_backoff_with_config fl (pos i) (pos m) multiplier ≡ some e
    → (record { initial_delay = pos i; max_delay = pos m; multiplier = multiplier } ≡ e)
      × (0 < i)
      × (i ≤ m)
      × (fl.ltb_float multiplier fl.one ≡ false)
unfolding new_exponential_backoff_with_config
made_of fl i m multiplier e made =
    (ground (arith, made), ground (arith, made), ground (arith, made), ground (arith, made))

-- The delay of an exponential strategy that its constructor accepts, with a multiplier that is no NaN
-- and a largest delay that a float64 holds exactly: for every attempt, also a negative one or one
-- for which the product is infinite, it is at least the initial delay and at most the largest one.
pub exponential_next_delay_between :
    (fl : Float) (laws : FloatLaws fl) (i m : ℤ) (multiplier : fl.F) (e : ExponentialBackoff fl)
    → new_exponential_backoff_with_config fl i m multiplier ≡ some e
    → laws.IsNumber multiplier
    → m ≤ℤ pos exact
    → (attempt : ℤ)
    → (i ≤ℤ exponential_next_delay fl e attempt) × (exponential_next_delay fl e attempt ≤ℤ m)
unfolding new_exponential_backoff_with_config
exponential_next_delay_between fl laws (pos i) (pos m) multiplier e made number fits attempt =
    let (is, positive, ordered, grows) = made_of fl i m multiplier e made in
    subst
      (λ x.
        (pos i ≤ℤ exponential_next_delay fl x attempt)
        × (exponential_next_delay fl x attempt ≤ℤ pos m))
      is
      (next_between fl laws i m multiplier positive ordered (omega (arith, fits)) number grows
        attempt)
exponential_next_delay_between fl laws (negsuc i) m multiplier e made number fits attempt =
    absurd (ground (arith, made))
exponential_next_delay_between fl laws (pos i) (negsuc m) multiplier e made number fits attempt =
    absurd (ground (arith, made))
