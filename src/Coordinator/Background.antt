-- ===== src/Coordinator/Background.antt =====
-- The goroutine of startRedirectConsumer, with the channel of Errors, and Close of
-- KafkaStateCoordinator (resilience/coordinator_kafka.go). What the consumer and the context do in a
-- round of the loop is given; nobody reads the channel meanwhile.
pub mod Queue
use kafka_resilience.Base.{
  ℕ, Bool, true, false, Option, none, some, List, [], ◌∷◌, ◌++◌, if◌then◌else◌, ltb, eqb, length,
}
use kafka_resilience.Base.Exec.{Result, ok, err}
use kafka_resilience.Errors.{Error, wrap}

-- `error` is what Consume returns, `cancelled` is whether the context is cancelled then, and
-- `interrupted` whether the select behind finds it done.
pub record Round : Type 0 where
  pub error : Option Error
  pub cancelled : Bool
  pub interrupted : Bool

-- `make(chan error, 16)`
abbrev pub capacity : ℕ
capacity = 16

-- The select with a default: a full channel takes no error.
unfoldable pub offer : Error → List Error → List Error
offer e queue = if ltb (length queue) capacity then queue ++ (e ∷ []) else queue

abbrev pub offer_if : Option Error → List Error → List Error
offer_if none queue = queue
offer_if (some e) queue = offer e queue

-- The loop; the first part is whether the goroutine has returned.
unfoldable pub run_consumer : List Round → List Error → Bool × List Error
run_consumer [] queue = (false, queue)
run_consumer (round ∷ rounds) queue =
    let next = run_consumer rounds (offer_if round.error queue) in
    if round.cancelled
    then (true, queue)
    else (if round.interrupted then (true, offer_if round.error queue) else next)

-- What Close returns, none while it is blocked, behind the call of `cancel`: `running` is the counter of
-- the WaitGroup and `context_error` the error of its context. When both cases of the select are
-- ready, one of them is taken.
unfoldable pub close_returns : ℕ → Option Error → Bool → Option (Result Error (Unit {0}))
close_returns running none takes_done = if eqb running 0 then some (ok tt) else none
close_returns running (some e) takes_done =
    let timeout : Option (Result Error (Unit {0})) =
      some (err (wrap "coordinator shutdown timeout" e)) in
    if eqb running 0 then (if takes_done then some (ok tt) else timeout) else timeout
