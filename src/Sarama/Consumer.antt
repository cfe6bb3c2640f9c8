-- ===== src/Sarama/Consumer.antt =====
-- adapter/sarama/consumer.go: the loop over the messages of a claim, and the loop around the consumer
-- group. What the channel, the session and the group do is a list that the model is given.
pub mod Marks
use kafka_resilience.Base.{Option, none, some, List, [], ◌∷◌}
use kafka_resilience.Base.Exec.{Exec, Result, ok, err}
use kafka_resilience.Errors.{Error}
use kafka_resilience.Message.Envelope.{Envelope}

-- What a round of the select in ConsumeClaim finds.
pub data Event : Type 0 where
  message : Envelope → Event
  closed : Event
  session_done : Event

-- The state of the handler, and the messages that are marked, the newest in front.
pub record Claim (S : Type 0) : Type 0 where
  pub state : S
  pub marked : List Envelope

-- Behind the handler's call on a message, with its outcome: the error, or the mark and the next round.
abbrev pub after_message :
    {S : Type 0}
    → (Claim S → Option (Result Error (Unit {0})) × Claim S)
    → Envelope
    → Claim S
    → Result Error (Unit {0}) × S
    → Option (Result Error (Unit {0})) × Claim S
after_message next_round msg c (ok u, s) =
    next_round (record { state = s; marked = msg ∷ c.marked })
after_message next_round msg c (err e, s) = (some (err e), record c { state = s })

module _ {S : Type 0} (handle : Envelope → Exec S Error (Unit {0})) where
  -- ConsumeClaim; `none` while it waits for another event.
  unfoldable pub consume_claim : List Event → Claim S → Option (Result Error (Unit {0})) × Claim S
  consume_claim [] c = (none, c)
  consume_claim (closed ∷ events) c = (some (ok tt), c)
  consume_claim (session_done ∷ events) c = (some (ok tt), c)
  consume_claim (message msg ∷ events) c =
      after_message (consume_claim events) msg c (handle msg c.state)

-- One call of ConsumerGroup.Consume: its error, and the error of the context behind it.
pub record Session : Type 0 where
  pub error : Option Error
  pub context_error : Option Error

-- ConsumerAdapter.Consume; `none` while a call goes on.
unfoldable pub consume : List Session → Option (Result Error (Unit {0}))
consume [] = none
consume (session ∷ sessions) = elim session.error [
  | some e ↦ some (err e)
  | none ↦ elim session.context_error [ some e ↦ some (err e) | none ↦ consume sessions ]
]
