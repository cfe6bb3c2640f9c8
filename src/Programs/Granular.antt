-- ===== src/Programs/Granular.antt =====
-- ManualHandler of examples/sarama/granular/main.go, which calls Redirect and Free itself.
pub mod Agrees
use kafka_resilience.Base.{some, ◌==◌, ◌&&◌, not, if◌then◌else◌}
use kafka_resilience.Base.Exec.{pure}
use kafka_resilience.Errors.{new}
use kafka_resilience.Message.Envelope.{Envelope}
use kafka_resilience.World.{Environment}
use kafka_resilience.Tracker.{Tracker, Handler}
use kafka_resilience.Tracker.Chain.{redirect, free, is_in_retry_chain}
use kafka_resilience.Programs.{text_of, is_retry}

module _ (env : Environment) (t : Tracker) where
  -- Behind the ordering check.
  unfoldable pub process : Handler
  process msg =
      if text_of msg == "fail"
      then redirect env t msg (some (new "simulated error"))
      else if is_retry msg
      then free env t msg
      else pure tt

  unfoldable pub manual_handle : Handler
  unfolding process
  manual_handle msg w =
      if not (is_retry msg) && is_in_retry_chain env t msg w
      then redirect env t msg (some (new "strict ordering: predecessor in retry")) w
      else process msg w
