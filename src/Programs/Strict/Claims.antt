-- ===== src/Programs/Strict/Claims.antt =====
-- The strict program's claim loop and the adapter's.
use kafka_resilience.Base.{◌≡◌, refl, Option, some, List, [], ◌∷◌, ◌++◌, map}
use kafka_resilience.Base.Exec.{Exec, Result, ok, err}
use kafka_resilience.Errors.{Error}
use kafka_resilience.Message.Envelope.{Envelope}
use kafka_resilience.Sarama.Consumer.{message, closed, Claim, after_message, consume_claim}
use kafka_resilience.Programs.Strict.{strict_after, strict_consume_claim}

abbrev pub as_returned :
    {S : Type 0} → Result Error (Unit {0}) × Claim S → Option (Result Error (Unit {0})) × Claim S
as_returned (r, c) = (some r, c)

module _ {S : Type 0} (handle : Envelope → Exec S Error (Unit {0})) where
  agrees_behind :
      (msg : Envelope) (c : Claim S) (q : Result Error (Unit {0}) × S)
      (adapter : Claim S → Option (Result Error (Unit {0})) × Claim S)
      (strict : Claim S → Result Error (Unit {0}) × Claim S)
      → ((d : Claim S) → adapter d ≡ as_returned (strict d))
      → after_message adapter msg c q ≡ as_returned (strict_after strict msg c q)
  agrees_behind msg c (ok u, s) adapter strict same =
      same (record { state = s; marked = msg ∷ c.marked })
  agrees_behind msg c (err e, s) adapter strict same = refl

  -- On the same messages and with the same handler, ConsumeClaim of the strict program returns what
  -- ConsumeClaim of the adapter returns once the channel behind them is closed: the same error or
  -- nil, with the same messages marked and the same state.
  pub strict_consume_claim-agrees :
      (msgs : List Envelope) (c : Claim S)
      → consume_claim handle (map message msgs ++ (closed ∷ [])) c
        ≡ as_returned (strict_consume_claim handle msgs c)
  unfolding consume_claim strict_consume_claim
  strict_consume_claim-agrees [] c = refl
  strict_consume_claim-agrees (msg ∷ msgs) c =
      agrees_behind msg c (handle msg c.state)
        (consume_claim handle (map message msgs ++ (closed ∷ [])))
        (strict_consume_claim handle msgs) (λ d. strict_consume_claim-agrees msgs d)
