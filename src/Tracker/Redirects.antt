-- ===== src/Tracker/Redirects.antt =====
-- Redirect as a whole, for a message that may be retried.
use kafka_resilience.Base.{
  ℕ, ◌≡◌, false, Bool, Option, none, some, ◌==◌, ℤ, or_else, leb_ℤ, inl, inr,
}
use kafka_resilience.Base.Exec.{Result, ok, err, ◌>>=◌}
use kafka_resilience.Errors.{Error, is_not_retriable}
use kafka_resilience.Locks.WellFormed.{IsWellFormed}
use kafka_resilience.Message.Headers.{get}
use kafka_resilience.Message.Headers.Laws.{IsDistinct}
use kafka_resilience.Message.Envelope.{Envelope, new_from_message}
use kafka_resilience.Message.Values.{
  Time, Kind, get_header_value, header_retry, header_retry_original_time,
}
use kafka_resilience.Message.Values.RoundTrip.{get_text}
use kafka_resilience.World.{World, Environment, time_now}
use kafka_resilience.World.Retry.{IsRetrying}
use kafka_resilience.Coordinator.{Coordinator}
use kafka_resilience.Tracker.{Tracker, attempt_of, original_topic_of}
use kafka_resilience.Tracker.Clock.{add}
use kafka_resilience.Tracker.Locking.{IsLocking}
use kafka_resilience.Tracker.Redirect.{
  EnterOutcome, publish_locked-Outcome, own_topic-original_topic_of,
}
use kafka_resilience.Tracker.Headers.{new_from_message-IsDistinct}
use kafka_resilience.Tracker.Chain.{
  lock_and_publish, lock_first_time, time_or_now, redirect_to_retry, redirect_message_with_error,
  redirect,
}

-- Whether the headers mark a message of the retry chain.
abbrev pub is_marked : Envelope → Bool
is_marked msg = or_else (get header_retry msg.headers) "" == "true"

abbrev ticks : ℕ → World → World
ticks n w = record w { clock_calls = n }

EnterOutcome-ticks :
    (env : Environment) (k : Coordinator) (t : Tracker) (current : ℤ) (msg : Envelope) (n : ℕ)
    (w w' : World) (r : Result Error (Unit {0}))
    → EnterOutcome env k t current msg (ticks n w) r w'
    → EnterOutcome env k t current msg w r w'
EnterOutcome-ticks env k t current msg n w w' (ok u) h = record {
  lock = h.lock;
  retried = h.retried;
  sent = h.sent;
  lock_id = h.lock_id;
  announces = h.announces;
  is_retry = h.is_retry;
  counts = h.counts;
  well_formed = h.well_formed;
}
EnterOutcome-ticks env k t current msg n w w' (err e) (inl same, wf) = (inl same, wf)
EnterOutcome-ticks env k t current msg n w w' (err e) (inr back, wf) = (
  inr (record {
    lock = back.lock;
    lock_id = back.lock_id;
    announces = back.announces;
    locked_message = back.locked_message;
    labelled = back.labelled;
    failed_at = back.failed_at;
    only_lock_sent = back.only_lock_sent;
    locked = back.locked;
    rolled_back = back.rolled_back;
    outcome = back.outcome;
  }),
  wf,
)

module _ (env : Environment) (retrying : IsRetrying env) (k : Coordinator) (t : Tracker)
    (law : IsLocking k t.coordinator) (msg : Envelope) (last_error : Option Error)
    (distinct : IsDistinct msg.headers) (unmarked : is_marked msg ≡ false) where
  lock_and_publish-Outcome :
      (current : ℤ) (original_time next_retry_time : Time) (w : World)
      → IsWellFormed w.locks
      → EnterOutcome env k t current msg w
          (lock_and_publish env t current last_error original_time next_retry_time msg w).0
          (lock_and_publish env t current last_error original_time next_retry_time msg w).1
  unfolding lock_and_publish lock_first_time
  lock_and_publish-Outcome current original_time next_retry_time w wf =
      rw (get_text, unmarked)
        (publish_locked-Outcome env retrying k t law current last_error original_time
          next_retry_time msg w (t.coordinator.acquire (original_topic_of msg) msg w) distinct
          (law.acquired (original_topic_of msg) msg w wf (own_topic-original_topic_of msg)))

  timed-Outcome :
      (current : ℤ) (w : World) (o : Option Time)
      → IsWellFormed w.locks
      → let p : Result Error (Unit {0}) × World =
          (time_or_now env t o >>= λ original_time. time_now env >>= λ now.
          lock_and_publish env t current last_error original_time
            (add now (t.next_delay current))
            msg)
            w in
        EnterOutcome env k t current msg w p.0 p.1
  unfolding ◌>>=◌ time_now
  timed-Outcome current w (some original_time) wf =
      EnterOutcome-ticks env k t current msg _ w _ _
        (lock_and_publish-Outcome current original_time _ _ wf)
  timed-Outcome current w none wf =
      EnterOutcome-ticks env k t current msg _ w _ _ (lock_and_publish-Outcome current _ _ _ wf)

  redirect_to_retry-Outcome :
      (w : World)
      → IsWellFormed w.locks
      → EnterOutcome env k t
          (attempt_of msg)
          msg
          w
          (redirect_to_retry env t (attempt_of msg) last_error msg w).0
          (redirect_to_retry env t (attempt_of msg) last_error msg w).1
  unfolding redirect_to_retry
  redirect_to_retry-Outcome w wf =
      timed-Outcome (attempt_of msg) w
        (get_header_value Kind.time msg.headers header_retry_original_time) wf

-- The error, where there is one, may be tried again.
abbrev pub MayRetry : Option Error → Type 0
MayRetry none = Unit
MayRetry (some e) = is_not_retriable e ≡ false

-- A redirect of a message that is not marked as a member of the chain, has retries left and failed with
-- an error that may be tried again (or with nil). Where it succeeds, exactly two messages are sent: the
-- lock's announcement to the redirect topic, then the message to the retry topic of its original
-- topic, with its key and payload, its attempt one higher, the lock's id and the other headers as they
-- were; its key has one reference more. Where it fails, either nothing was sent and the references are
-- as before, or the lock was announced, the message could not be sent, and from there the release of
-- the locked message was tried three times by the rollback: if that worked the references are as
-- before, and if it failed too the key has one more. The reference counts stay well-formed either way.
pub redirect-enters_chain :
    (env : Environment) (retrying : IsRetrying env) (k : Coordinator) (t : Tracker)
    → IsLocking k t.coordinator
    → (msg : Envelope) (last_error : Option Error) → is_marked (new_from_message msg) ≡ false
    → leb_ℤ t.cfg.max_retries (attempt_of (new_from_message msg)) ≡ false
    → MayRetry last_error
    → (w : World) → IsWellFormed w.locks
    → EnterOutcome env k t
        (attempt_of (new_from_message msg))
        (new_from_message msg)
        w
        (redirect env t msg last_error w).0
        (redirect env t msg last_error w).1
unfolding redirect redirect_message_with_error
redirect-enters_chain env retrying k t law msg none unmarked below may w wf = rw below (
    redirect_to_retry-Outcome env retrying k t law (new_from_message msg) none
      (new_from_message-IsDistinct msg) unmarked w wf)
redirect-enters_chain env retrying k t law msg (some e) unmarked below may w wf =
    rw (may, below)
      (redirect_to_retry-Outcome env retrying k t law (new_from_message msg) (some e)
        (new_from_message-IsDistinct msg) unmarked w wf)
