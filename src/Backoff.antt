-- ===== src/Backoff.antt =====
-- resilience/backoff.go: the constant and the linear strategy. Durations are int64 counts of
-- nanoseconds, and their sums and products wrap around. Backoff/Exponential is the exponential one.
pub mod Exponential
use native.Mathlib.Nat.{mul-le-mul_left}
use kafka_resilience.Base.{
  ℕ, suc, ◌+◌, ◌-◌, ◌*◌, ◌%◌, ◌≡◌, refl, false, Option, none, some, ◌||◌, if◌then◌else◌, ltb, ltb_ℤ,
  leb_ℤ, ℤ, pos, negsuc, neg, ◌+ℤ◌, ◌≤ℤ◌, ◌≤◌, ◌<◌, ◌<ℤ◌, subst, arith,
}

-- 2 ^ 63 and 2 ^ 64
abbrev half_range : ℕ
half_range = 9223372036854775808

abbrev full_range : ℕ
full_range = 18446744073709551616

-- The int64 with the same last 64 bits.
unfoldable pub wrap_int64 : ℤ → ℤ
wrap_int64 (pos n) =
    let m : ℕ = n % full_range in if ltb m half_range then pos m else negsuc (full_range - 1 - m)
wrap_int64 (negsuc n) =
    let m : ℕ = n % full_range in if ltb m half_range then negsuc m else pos (full_range - 1 - m)

unfoldable pub times : ℤ → ℤ → ℤ
times (pos a) (pos b) = pos (a * b)
times (pos a) (negsuc b) = neg (a * suc b)
times (negsuc a) (pos b) = neg (suc a * b)
times (negsuc a) (negsuc b) = pos (suc a * suc b)

pub record ConstantBackoff : Type 0 where
  pub delay : ℤ

-- `none` is an error.
unfoldable pub new_constant_backoff : ℤ → Option ConstantBackoff
new_constant_backoff delay = if leb_ℤ delay (pos 0) then none else some (record { delay = delay })

unfoldable pub constant_next_delay : ConstantBackoff → ℤ → ℤ
constant_next_delay c attempt = c.delay

pub record LinearBackoff : Type 0 where
  pub initial_delay : ℤ
  pub increment : ℤ
  pub max_delay : ℤ

unfoldable pub new_linear_backoff_with_config : ℤ → ℤ → ℤ → Option LinearBackoff
new_linear_backoff_with_config initial_delay increment max_delay =
    if leb_ℤ initial_delay (pos 0) || ltb_ℤ increment (pos 0) || ltb_ℤ max_delay initial_delay
    then none
    else some
        (record { initial_delay = initial_delay; increment = increment; max_delay = max_delay })

-- NewLinearBackoff drops the error: the strategy is nil if there is one.
abbrev pub new_linear_backoff : Option LinearBackoff
new_linear_backoff =
    new_linear_backoff_with_config (pos 1000000000) (pos 1000000000) (pos 60000000000)

unfoldable pub linear_next_delay : LinearBackoff → ℤ → ℤ
linear_next_delay l attempt =
    let n : ℤ = if ltb_ℤ attempt (pos 0) then pos 0 else attempt in
    let delay : ℤ = wrap_int64 (l.initial_delay +ℤ wrap_int64 (times l.increment n)) in
    if ltb_ℤ l.max_delay delay then l.max_delay else delay

small : (n : ℕ) → n < half_range → wrap_int64 (pos n) ≡ pos n
unfolding wrap_int64
small n h = ground arith

not_negative : (n : ℕ) → ltb_ℤ (pos n) (pos 0) ≡ false
not_negative n = ground arith

add_pos : (a b : ℕ) → pos a +ℤ pos b ≡ pos (a + b)
unfolding ◌+ℤ◌
add_pos a b = ground arith

times_pos : (a b : ℕ) → times (pos a) (pos b) ≡ pos (a * b)
unfolding times
times_pos a b = refl

-- The delay where nothing wraps around.
linear_unwrapped :
    (i c m a : ℕ)
    → i + c * a < half_range
    → linear_next_delay
        (record { initial_delay = pos i; increment = pos c; max_delay = pos m })
        (pos a)
      ≡ (if ltb_ℤ (pos m) (pos (i + c * a)) then pos m else pos (i + c * a))
unfolding linear_next_delay
linear_unwrapped i c m a h =
    simp (not_negative a, times_pos, small (c * a) (omega arith), add_pos, small (i + c * a) h)

linear_grows :
    (i c m a b : ℕ)
    → i ≤ m
    → a ≤ b
    → i + c * b < half_range
    → let l : LinearBackoff = record {
      initial_delay = pos i;
      increment = pos c;
      max_delay = pos m;
    } in
      (pos i ≤ℤ linear_next_delay l (pos a))
      × (linear_next_delay l (pos a) ≤ℤ linear_next_delay l (pos b))
      × (linear_next_delay l (pos b) ≤ℤ pos m)
linear_grows i c m a b im ab h =
    rw (linear_unwrapped i c m a (omega (arith, mul-le-mul_left c ab)), linear_unwrapped i c m b h)
      (ground (arith, mul-le-mul_left c ab))

in_half : (i c b : ℕ) → pos i +ℤ times (pos c) (pos b) <ℤ pos half_range → i + c * b < half_range
unfolding times ◌+ℤ◌
in_half i c b h = ground (arith, h)

made_of :
    (i c m : ℕ) (l : LinearBackoff)
    → new_linear_backoff_with_config (pos i) (pos c) (pos m) ≡ some l
    → (record { initial_delay = pos i; increment = pos c; max_delay = pos m } ≡ l) × (i ≤ m)
unfolding new_linear_backoff_with_config
made_of i c m l h = (ground (arith, h), ground (arith, h))

abbrev Grows : ℕ → ℕ → LinearBackoff → Type 0
Grows a b l =
    (l.initial_delay ≤ℤ linear_next_delay l (pos a))
    × (linear_next_delay l (pos a) ≤ℤ linear_next_delay l (pos b))
    × (linear_next_delay l (pos b) ≤ℤ l.max_delay)

-- The delays of a linear strategy that its constructor accepts, for two attempts of which the second
-- is not smaller, as long as the larger delay fits in an int64 before it is capped: they are at least
-- the initial delay, do not fall, and are at most the largest delay.
pub linear_next_delay_grows :
    (i c m : ℤ) (l : LinearBackoff)
    → new_linear_backoff_with_config i c m ≡ some l
    → (a b : ℕ) → a ≤ b
    → l.initial_delay +ℤ times l.increment (pos b) <ℤ pos half_range
    → (l.initial_delay ≤ℤ linear_next_delay l (pos a))
      × (linear_next_delay l (pos a) ≤ℤ linear_next_delay l (pos b))
      × (linear_next_delay l (pos b) ≤ℤ l.max_delay)
unfolding new_linear_backoff_with_config
linear_next_delay_grows (pos i) (pos c) (pos m) l made a b ab h =
    let (e, im) = made_of i c m l made in
    subst (λ x. x.initial_delay +ℤ times x.increment (pos b) <ℤ pos half_range → Grows a b x) e
      (λ fits. linear_grows i c m a b im ab (in_half i c b fits)) h
linear_next_delay_grows (negsuc i) c m l made a b ab h = absurd (ground (arith, made))
linear_next_delay_grows (pos i) (negsuc c) m l made a b ab h = absurd (ground (arith, made))
linear_next_delay_grows (pos i) (pos c) (negsuc m) l made a b ab h = absurd (ground (arith, made))
