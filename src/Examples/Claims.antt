-- ===== src/Examples/Claims.antt =====
-- A claim of two messages, of which the handler refuses the second one.
use kafka_resilience.Base.{ℕ, zero, suc, ◌+◌, ◌≡◌, refl, some, List, [], ◌∷◌}
use kafka_resilience.Base.Exec.{Exec, ok, err}
use kafka_resilience.Errors.{Error, new}
use kafka_resilience.Message.Envelope.{Envelope}
use kafka_resilience.Sarama.Consumer.{Event, message, closed, Claim, consume_claim}
use kafka_resilience.Sarama.Consumer.Marks.{Marks, consume_claim-Marks}
use kafka_resilience.Examples.{first, retried}

-- It counts its calls, and takes the first message only.
abbrev once : Envelope → Exec ℕ Error (Unit {0})
once msg zero = (ok tt, 1)
once msg (suc n) = (err (new "again"), suc n + 1)

abbrev events : List Event
events = message first ∷ message (retried "1") ∷ closed ∷ []

abbrev unmarked : Claim ℕ
unmarked = record { state = 0; marked = [] }

second_stops :
    consume_claim once events unmarked
    ≡ (some (err (new "again")), record { state = 2; marked = first ∷ [] })
unfolding consume_claim
second_stops = refl

consume_claim-Marks_example : Marks once events unmarked (consume_claim once events unmarked)
consume_claim-Marks_example = consume_claim-Marks once events unmarked
