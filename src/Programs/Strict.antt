-- ===== src/Programs/Strict.antt =====
-- StrictConsumerGroupHandler and myBusinessHandler of examples/sarama/strict/main.go, and the loop of
-- its goroutine. The messages are those that the claim's channel hands over until it is closed.
pub mod Claims
use text.Mathlib.Text.{find?}
use kafka_resilience.Base.{
  ℕ, ◌+◌, ◌≡◌, refl, String, Bool, true, false, Option, none, some, List, [], ◌∷◌, if◌then◌else◌,
}
use kafka_resilience.Base.Exec.{Exec, Result, ok, err, pure, raise}
use kafka_resilience.Errors.{Error, new}
use kafka_resilience.Message.Envelope.{Envelope}
use kafka_resilience.Tracker.{Handler}
use kafka_resilience.Programs.{text_of}
use kafka_resilience.Sarama.Consumer.{Claim}

abbrev is_found : Option ℕ → Bool
is_found none = false
is_found (some i) = true

-- strings.Contains
unfoldable pub contains : String → String → Bool
contains s part = is_found (find? s part)

contains_examples : (contains "will fail." "fail" ≡ true) × (contains "fai" "fail" ≡ false)
unfolding contains
contains_examples = (refl, refl)

-- myBusinessHandler.Handle
unfoldable pub business_handle : Handler
business_handle msg =
    if contains (text_of msg) "fail" then raise (new "simulated failure") else pure tt

-- Behind the handler's call on a message: the error, or the mark and the messages that follow.
abbrev pub strict_after :
    {S : Type 0}
    → (Claim S → Result Error (Unit {0}) × Claim S)
    → Envelope
    → Claim S
    → Result Error (Unit {0}) × S
    → Result Error (Unit {0}) × Claim S
strict_after following msg c (ok u, s) = following (record { state = s; marked = msg ∷ c.marked })
strict_after following msg c (err e, s) = (err e, record c { state = s })

module _ {S : Type 0} (handle : Envelope → Exec S Error (Unit {0})) where
  -- ConsumeClaim; `handler` is the field of the same name.
  unfoldable pub strict_consume_claim : List Envelope → Claim S → Result Error (Unit {0}) × Claim S
  strict_consume_claim [] c = (ok tt, c)
  strict_consume_claim (msg ∷ msgs) c =
      strict_after (strict_consume_claim msgs) msg c (handle msg c.state)

-- What ConsumerGroup.Consume returns, and whether the context has ended behind it.
pub data GroupEnd : Type 0 where
  worked closed_group : GroupEnd
  failed : Error → GroupEnd

pub record Round : Type 0 where
  pub consumed : GroupEnd
  pub is_cancelled : Bool

-- The goroutine's loop, with the number of its sleeps; `false` while it goes on.
unfoldable pub consume_until_closed : List Round → ℕ → Bool × ℕ
consume_until_closed [] sleeps = (false, sleeps)
consume_until_closed (r ∷ rounds) sleeps = elim r.consumed [
  | closed_group ↦ (true, sleeps)
  | worked ↦
      (let rest = consume_until_closed rounds sleeps in
        if r.is_cancelled then (true, sleeps) else rest)
  | failed e ↦
      (let rest = consume_until_closed rounds (sleeps + 1) in
        if r.is_cancelled then (true, sleeps + 1) else rest)
]
