-- ===== src/Examples/Creating.antt =====
-- A tracker with two loggers among its options.
use kafka_resilience.Base.{String, none, some, List, [], ◌∷◌}
use kafka_resilience.Tracker.Create.{
  TrackerOption, with_logger, with_backoff, Defaults, new_error_tracker,
}
use kafka_resilience.Tracker.Create.Options.{Outcome, new_error_tracker-Outcome}
use kafka_resilience.Base.Exec.{ok}
use kafka_resilience.Sarama.Create.{
  ProducerAdapter, ConsumerFactory, AdminAdapter, new_resilience_tracker,
}
use kafka_resilience.Sarama.Create.Made.{MadeOutcome, new_resilience_tracker-Outcome}
use kafka_resilience.Examples.{config}

abbrev defaults : Defaults String String String String String String String
defaults = record {
  logger = "no-op";
  backoff = "exponential";
  global_meter = "global";
  coordinator = λ cfg logger clients meter. "kafka";
}

abbrev options : List (TrackerOption String String String String)
options = with_logger (some "a") ∷ with_backoff none ∷ with_logger (some "b") ∷ []

new_error_tracker-Outcome_example :
    Outcome defaults (some config) (some "producer") (some "factory") (some "admin") options (
      new_error_tracker defaults
        (some config)
        (some "producer")
        (some "factory")
        (some "admin")
        options)
new_error_tracker-Outcome_example =
    new_error_tracker-Outcome defaults (some config) (some "producer") (some "factory")
      (some "admin") options

abbrev adapter_defaults :
    Defaults
      (ProducerAdapter String)
      (ConsumerFactory String)
      (AdminAdapter String String)
      String
      String
      String
      String
adapter_defaults = record {
  logger = "no-op";
  backoff = "exponential";
  global_meter = "global";
  coordinator = λ cfg logger clients meter. "kafka";
}

new_resilience_tracker-Outcome_example :
    MadeOutcome adapter_defaults (some config) "client" options (ok "producer") (ok "admin") (
      new_resilience_tracker adapter_defaults
        (some config)
        "client"
        options
        (ok "producer")
        (ok "admin"))
new_resilience_tracker-Outcome_example =
    new_resilience_tracker-Outcome adapter_defaults (some config) "client" options (ok "producer")
      (ok "admin")
