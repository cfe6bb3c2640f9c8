-- ===== src/Tracker/Chain.antt =====
-- The operations of the retry chain in resilience/tracker.go: Redirect, Free, SendToDLQ, the wait for
-- the retry time, and the two handlers. Each runs to its end before the next one starts.
use Prim.Native.String.{◌++◌}
use kafka_resilience.Base.{
  String, Bool, Option, none, some, ◌==◌, if◌then◌else◌, ℤ, pos, ◌+ℤ◌, leb_ℤ, or_else,
}
use kafka_resilience.Base.Exec.{Exec, Result, ok, err, pure, raise, ◌>>=◌, ◌>>◌, catch, ignore}
use kafka_resilience.Base.Decimal.{parse_int}
use kafka_resilience.Errors.{Error, new, wrap, is_not_retriable}
use kafka_resilience.Message.Headers.{get}
use kafka_resilience.Message.Envelope.{Envelope, new_from_message}
use kafka_resilience.Message.Values.{
  Time, Kind, unix, get_header_value, header_retry_next_time, header_retry_original_time,
  header_retry_reason, header_id, header_retry,
}
use kafka_resilience.World.{World, Environment, produce, time_now}
use kafka_resilience.Tracker.{
  Tracker, Handler, RetryData, retry_message, dlq_message, original_topic_of, attempt_of,
}
use kafka_resilience.Tracker.Clock.{add, before}

-- `if err != nil { return fmt.Errorf("…: %w", err) }`
abbrev pub wrapping : {A : Type 0} → String → Exec World Error A → Exec World Error A
wrapping text m = catch m (λ e. raise (wrap text e))

abbrev pub at_key : String → String → String → String
at_key text topic key = text ++ " (topic=" ++ topic ++ ", key=" ++ key ++ ")"

-- The id that the headers must hold behind Acquire.
abbrev pub require_id : String → String → Option String → Exec World Error String
require_id topic key (some id) = pure id
require_id topic key none = raise (new (at_key "missing lock ID header after Acquire" topic key))

-- The reason that the DLQ message names.
abbrev pub exceeded_reason : Envelope → String
exceeded_reason msg =
    let reason : String = or_else (get_header_value Kind.text msg.headers header_retry_reason) "" in
    if reason == "" then "max retries exceeded" else reason

module _ (env : Environment) (t : Tracker) where
  unfoldable pub publish_to_retry : RetryData → Envelope → Exec World Error (Unit {0})
  unfolding ◌>>=◌
  publish_to_retry d msg = do
    now ← time_now env
    let retry_msg : Envelope = retry_message t.cfg d msg now
    produce env retry_msg.topic retry_msg

  -- The rollback is tried three times; whether it works changes no result.
  unfoldable pub publish_or_roll_back : RetryData → Envelope → Exec World Error (Unit {0})
  unfolding ◌>>=◌ catch ignore
  publish_or_roll_back d msg = catch (publish_to_retry d msg) λ e. do
    ignore (env.retry_do 3 (t.coordinator.release msg))
    raise (wrap (at_key "failed to publish to retry topic" d.original_topic msg.key) e)

  -- `lastError` is not nil: the method would panic on nil.
  unfoldable pub send_to_dlq : Envelope → Error → Exec World Error (Unit {0})
  unfolding ◌>>=◌
  send_to_dlq msg₀ last_error = do
    let msg : Envelope = new_from_message msg₀
    stamp ← time_now env
    now ← time_now env
    let dlq_msg : Envelope = dlq_message t.cfg msg last_error stamp now
    produce env dlq_msg.topic dlq_msg

  unfoldable pub free_after_dlq : Envelope → Exec World Error (Unit {0})
  unfolding catch
  free_after_dlq msg =
      if t.cfg.free_on_dlq
      then wrapping "failed to free message after DLQ" (t.coordinator.release msg)
      else pure tt

  unfoldable pub handle_max_retries_exceeded : Envelope → Exec World Error (Unit {0})
  unfolding ◌>>=◌ catch
  handle_max_retries_exceeded msg = do
    wrapping "failed to send message to DLQ" (send_to_dlq msg (new (exceeded_reason msg)))
    free_after_dlq msg

  -- The lock is acquired only for a message that is not in the chain yet.
  unfoldable pub lock_first_time : String → Envelope → Exec World Error Envelope
  unfolding catch
  lock_first_time original_topic msg =
      if or_else (get_header_value Kind.text msg.headers header_retry) "" == "true"
      then pure msg
      else wrapping (at_key "failed to acquire lock" original_topic msg.key)
          (t.coordinator.acquire original_topic msg)

  abbrev pub time_or_now : Option Time → Exec World Error Time
  time_or_now (some time) = pure time
  time_or_now none = time_now env

  -- redirectMessageWithError from the lock on. `current` is below MaxRetries, so one more does not
  -- wrap around.
  unfoldable pub lock_and_publish :
      ℤ → Option Error → Time → Time → Envelope → Exec World Error (Unit {0})
  unfolding ◌>>=◌
  lock_and_publish current last_error original_time next_retry_time msg₀ = do
    let original_topic : String = original_topic_of msg₀
    msg ← lock_first_time original_topic msg₀
    id ← require_id original_topic msg.key (get_header_value Kind.text msg.headers header_id)
    publish_or_roll_back
        (record {
          id = id;
          next_attempt = current +ℤ pos 1;
          next_retry_time = next_retry_time;
          original_time = original_time;
          last_error = last_error;
          original_topic = original_topic;
        })
        msg

  -- redirectMessageWithError behind its first two tests.
  unfoldable pub redirect_to_retry : ℤ → Option Error → Envelope → Exec World Error (Unit {0})
  unfolding ◌>>=◌
  redirect_to_retry current last_error msg = do
    original_time ← time_or_now (get_header_value Kind.time msg.headers header_retry_original_time)
    now ← time_now env
    lock_and_publish current last_error original_time (add now (t.next_delay current)) msg

  -- The tests of redirectMessageWithError; `none` is a nil error.
  abbrev pub redirect_retriable : Option Error → Envelope → Exec World Error (Unit {0})
  redirect_retriable last_error msg =
      if leb_ℤ t.cfg.max_retries (attempt_of msg)
      then handle_max_retries_exceeded msg
      else redirect_to_retry (attempt_of msg) last_error msg

  unfoldable pub redirect_message_with_error : Envelope → Option Error → Exec World Error (Unit {0})
  redirect_message_with_error msg none = redirect_retriable none msg
  redirect_message_with_error msg (some e) =
      if is_not_retriable e then send_to_dlq msg e else redirect_retriable (some e) msg

  unfoldable pub redirect : Envelope → Option Error → Exec World Error (Unit {0})
  redirect msg last_error = redirect_message_with_error (new_from_message msg) last_error

  unfoldable pub free : Envelope → Exec World Error (Unit {0})
  free msg = t.coordinator.release (new_from_message msg)

  unfoldable pub is_in_retry_chain : Envelope → World → Bool
  is_in_retry_chain msg w = t.coordinator.is_locked (new_from_message msg) w

  -- The end of the wait: the timer has fired, or the context has ended with an error.
  abbrev pub end_wait : Option Error → Exec World Error (Unit {0})
  end_wait none = pure tt
  end_wait (some e) = raise e

  unfoldable pub wait_until : ℤ → Exec World Error (Unit {0})
  wait_until ts w =
      let w' : World = (time_now env w).1 in
      if before (env.clock w.clock_calls) (unix ts)
      then end_wait (env.wait_error w.clock_calls (unix ts)) w'
      else (ok tt, w')

  -- A header that is no number does not block.
  abbrev pub wait_if_time : Option ℤ → Exec World Error (Unit {0})
  wait_if_time none = pure tt
  wait_if_time (some ts) = wait_until ts

  unfoldable pub wait_for_retry_time : Envelope → Exec World Error (Unit {0})
  wait_for_retry_time msg = elim (get header_retry_next_time msg.headers) [
    | none ↦ pure tt
    | some text ↦ wait_if_time (parse_int text)
  ]

  -- What follows the user's handler: `failed` is the redirect of its error.
  abbrev pub settle :
      Result Error (Unit {0})
      → Exec World Error (Unit {0})
      → (Error → Exec World Error (Unit {0}))
      → Exec World Error (Unit {0})
  settle (ok u) succeeded failed = succeeded
  settle (err e) succeeded failed = failed e

  -- retryWorkerHandler.Handle.
  unfoldable pub retry_worker_handle : Handler → Handler
  unfolding ◌>>=◌
  retry_worker_handle handler msg = do
    wait_for_retry_time msg
    λ w. let (r, w') = handler msg w in settle r (free msg) (λ e. redirect msg (some e)) w'

  -- The handler that NewResilientHandler returns.
  unfoldable pub resilient_handle : Handler → Handler
  resilient_handle handler msg w =
      if is_in_retry_chain msg w
      then redirect msg (some (new "strict ordering: predecessor in retry")) w
      else (let (r, w') = handler msg w in settle r (pure tt) (λ e. redirect msg (some e)) w')
