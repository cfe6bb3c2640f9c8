-- ===== src/Examples/Manual.antt =====
-- The handlers of the granular and the strict program.
use kafka_resilience.Base.{◌≡◌, refl, pos, some, List, [], ◌∷◌, ◌++◌, map}
use kafka_resilience.World.{World}
use kafka_resilience.Sarama.Consumer.{message, closed, Claim, consume_claim}
use kafka_resilience.Programs.{is_retry, attempt_shown}
use kafka_resilience.Programs.Granular.Agrees.{Agrees, manual_handle-Agrees}
use kafka_resilience.Programs.Strict.{business_handle, strict_consume_claim}
use kafka_resilience.Programs.Strict.Claims.{as_returned, strict_consume_claim-agrees}
use kafka_resilience.Examples.{env, tracker, first, retried, start}

retry_is_shown : attempt_shown (retried "2") ≡ pos 2
unfolding attempt_shown kafka_resilience.Message.Headers.get
    kafka_resilience.Base.Decimal.Atoi.atoi_value
retry_is_shown = refl

manual_handle-Agrees_example : Agrees env tracker (retried "2") (is_retry (retried "2")) start
manual_handle-Agrees_example = manual_handle-Agrees env tracker (retried "2") start

abbrev claim : Claim World
claim = record { state = start; marked = [] }

strict_consume_claim-agrees_example :
    consume_claim business_handle (map message (first ∷ first ∷ []) ++ (closed ∷ [])) claim
    ≡ as_returned (strict_consume_claim business_handle (first ∷ first ∷ []) claim)
strict_consume_claim-agrees_example =
    strict_consume_claim-agrees business_handle (first ∷ first ∷ []) claim
