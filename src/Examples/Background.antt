-- ===== src/Examples/Background.antt =====
-- Three rounds of the redirect consumer: two errors, and then the context is cancelled.
use kafka_resilience.Base.{◌≤◌, none, some, List, [], ◌∷◌, true, false, length, arith}
use kafka_resilience.Errors.{Error, new}
use kafka_resilience.Coordinator.Background.{Round, run_consumer, capacity}
use kafka_resilience.Coordinator.Background.Queue.{IsKept, run_consumer-IsKept}

abbrev rounds : List Round
rounds =
    record { error = some (new "no broker"); cancelled = false; interrupted = false }
    ∷ record { error = some (new "no leader"); cancelled = false; interrupted = false }
    ∷ record { error = none; cancelled = true; interrupted = true }
    ∷ []

empty_fits : length {A = Error} [] ≤ capacity
unfolding length
empty_fits = omega arith

run_consumer-IsKept_example : IsKept rounds [] (run_consumer rounds [])
run_consumer-IsKept_example = run_consumer-IsKept rounds [] empty_fits
