-- ===== src/Coordinator/Offsets.antt =====
-- The offsets that the redirect consumers keep, the test whether they have caught up, and the two
-- handlers that record them.
use kafka_resilience.Base.{
  ◌≡◌, refl, Bool, true, false, Option, none, some, List, [], ◌∷◌, if◌then◌else◌, ◌||◌, ◌⊎◌, inl,
  inr, ◌↔◌, arith, ℤ, pos, ◌-ℤ◌, ◌≤ℤ◌, ltb_ℤ, Bool-cases, not,
}
use kafka_resilience.Base.Exec.{Exec, Result, ok, err}
use kafka_resilience.Errors.{Error}
use kafka_resilience.Message.Envelope.{Envelope}
use kafka_resilience.Message.Values.{int_eq}
use kafka_resilience.World.{World}
use kafka_resilience.Coordinator.{Coordinator, process_redirect_message}

-- partition → offset
abbrev pub Offsets : Type 0
Offsets = List (ℤ × ℤ)

unfoldable pub offset_of : ℤ → Offsets → Option ℤ
offset_of partition [] = none
offset_of partition (at ∷ rest) =
    if int_eq at.0 partition then some at.1 else offset_of partition rest

unfoldable pub record_offset : ℤ → ℤ → Offsets → Offsets
record_offset partition offset consumed = (partition, offset) ∷ consumed

-- A target is the next offset to be written, so its partition is done behind target - 1. A target is
-- not negative, so target - 1 does not wrap around.
abbrev pub is_done : Option ℤ → ℤ → Bool
is_done none target = int_eq target (pos 0)
is_done (some consumed) target = int_eq target (pos 0) || not (ltb_ℤ consumed (target -ℤ pos 1))

-- isCaughtUpOffsets: the loop stops at the first partition that is not done.
unfoldable pub is_caught_up : Offsets → Offsets → Bool
is_caught_up consumed [] = true
is_caught_up consumed (at ∷ rest) =
    let more = is_caught_up consumed rest in
    if is_done (offset_of at.0 consumed) at.1 then more else false

-- What a redirect consumer changes: the world of its coordinator, the offsets it has consumed, and,
-- while the state is restored, whether it has asked to stop.
pub record Consumer : Type 0 where
  pub world : World
  pub consumed : Offsets
  pub cancelled : Bool

abbrev recorded : Envelope → Consumer → Offsets
recorded msg s = record_offset msg.partition msg.offset s.consumed

-- redirectFillHandler.Handle; cancelling twice is cancelling once.
abbrev pub settle_fill :
    Offsets
    → Envelope
    → Consumer
    → Result Error (Unit {0}) × World
    → Result Error (Unit {0}) × Consumer
settle_fill targets msg s (err e, w) = (err e, record s { world = w })
settle_fill targets msg s (ok u, w) = (
  ok tt,
  record {
    world = w;
    consumed = recorded msg s;
    cancelled = s.cancelled || is_caught_up (recorded msg s) targets;
  },
)

unfoldable pub fill_handle : Coordinator → Offsets → Envelope → Exec Consumer Error (Unit {0})
fill_handle k targets msg s = settle_fill targets msg s (process_redirect_message k msg s.world)

-- redirectHandler.Handle; the broadcast wakes the readers of `consumed`.
abbrev settle_redirect :
    Envelope → Consumer → Result Error (Unit {0}) × World → Result Error (Unit {0}) × Consumer
settle_redirect msg s (err e, w) = (err e, record s { world = w })
settle_redirect msg s (ok u, w) = (ok tt, record s { world = w; consumed = recorded msg s })

unfoldable pub redirect_handle : Coordinator → Envelope → Exec Consumer Error (Unit {0})
redirect_handle k msg s = settle_redirect msg s (process_redirect_message k msg s.world)

-- A partition is empty or its last record is consumed.
abbrev pub IsDone : Offsets → ℤ × ℤ → Type 0
IsDone consumed at =
    (at.1 ≡ pos 0) ⊎ ((c : ℤ) × (offset_of at.0 consumed ≡ some c) × (at.1 -ℤ pos 1 ≤ℤ c))

abbrev pub AllDone : Offsets → Offsets → Type 0
AllDone consumed [] = Unit
AllDone consumed (at ∷ rest) = IsDone consumed at × AllDone consumed rest

int_eq-true : (a b : ℤ) → int_eq a b ≡ true → a ≡ b
int_eq-true a b h = ground arith

int_eq_refl : (a : ℤ) → int_eq a a ≡ true
int_eq_refl a = ground arith

IsDone-of :
    (consumed : Offsets) (at : ℤ × ℤ) (o : Option ℤ)
    → offset_of at.0 consumed ≡ o
    → is_done o at.1 ≡ true
    → IsDone consumed at
IsDone-of consumed at none e h = inl (int_eq-true at.1 (pos 0) h)
IsDone-of consumed at (some c) e h = elim (Bool-cases (int_eq at.1 (pos 0))) [
  | inl empty ↦ inl (int_eq-true at.1 (pos 0) empty)
  | inr full ↦ inr (c, e, ground arith)
]

of_done :
    (consumed : Offsets) (at : ℤ × ℤ)
    → IsDone consumed at
    → is_done (offset_of at.0 consumed) at.1 ≡ true
of_done consumed at (inl empty) =
    rw empty (elim (offset_of at.0 consumed) as (λ o. is_done o (pos 0) ≡ true) [
      | none ↦ refl
      | some c ↦ refl
    ])
of_done consumed at (inr (c, e, done)) = rw e (ground arith)

caught_up-AllDone :
    (consumed targets : Offsets) → is_caught_up consumed targets ≡ true → AllDone consumed targets
unfolding is_caught_up
caught_up-AllDone consumed [] h = tt
caught_up-AllDone consumed (at ∷ rest) h = (
  IsDone-of consumed at (offset_of at.0 consumed) refl (ground (arith, h)),
  caught_up-AllDone consumed rest (ground (arith, h)),
)

AllDone-caught_up :
    (consumed targets : Offsets) → AllDone consumed targets → is_caught_up consumed targets ≡ true
unfolding is_caught_up
AllDone-caught_up consumed [] h = refl
AllDone-caught_up consumed (at ∷ rest) (done, more) =
    rw (of_done consumed at done) (AllDone-caught_up consumed rest more)

-- The test says that all partitions have caught up exactly when each one of the targets is 0 or an
-- offset of its partition is recorded that is at least the target less 1.
pub is_caught_up-AllDone :
    (consumed targets : Offsets) → (is_caught_up consumed targets ≡ true) ↔ AllDone consumed targets
is_caught_up-AllDone consumed targets =
    (caught_up-AllDone consumed targets, AllDone-caught_up consumed targets)

settled_cancels :
    (targets : Offsets) (msg : Envelope) (s : Consumer) (p : Result Error (Unit {0}) × World)
    → s.cancelled ≡ false
    → (settle_fill targets msg s p).1.cancelled ≡ true
    → ((settle_fill targets msg s p).0 ≡ ok tt)
      × AllDone (settle_fill targets msg s p).1.consumed targets
settled_cancels targets msg s (err e, w) running stopped = absurd (ground (arith, running, stopped))
settled_cancels targets msg s (ok u, w) running stopped =
    (refl, (is_caught_up-AllDone (recorded msg s) targets).0 (ground (arith, running, stopped)))

-- The handler that restores the state stops a consumer that was running only with a record that was
-- processed without an error, and only when every target is reached by the offsets that it leaves.
pub fill_handle_cancels :
    (k : Coordinator) (targets : Offsets) (msg : Envelope) (s : Consumer)
    → s.cancelled ≡ false
    → (fill_handle k targets msg s).1.cancelled ≡ true
    → ((fill_handle k targets msg s).0 ≡ ok tt)
      × AllDone (fill_handle k targets msg s).1.consumed targets
unfolding fill_handle
fill_handle_cancels k targets msg s =
    settled_cancels targets msg s (process_redirect_message k msg s.world)
