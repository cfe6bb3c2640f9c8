-- ===== src/Tracker/Workers/Branches.antt =====
-- The handler of a worker on all its branches, for a message of the chain.
use kafka_resilience.Base.{String, ◌≡◌, inl, inr, true, false, Bool, Bool-cases, some, ◌<◌, leb_ℤ}
use kafka_resilience.Base.Exec.{Result, ok, err, ◌>>=◌}
use kafka_resilience.Errors.{Error, is_not_retriable}
use kafka_resilience.Locks.WellFormed.{IsWellFormed}
use kafka_resilience.Message.Headers.{get}
use kafka_resilience.Message.Envelope.{Envelope, new_from_message}
use kafka_resilience.Message.Values.{header_id, header_topic}
use kafka_resilience.World.{World, Environment}
use kafka_resilience.World.Retry.{IsRetrying}
use kafka_resilience.Coordinator.{Coordinator}
use kafka_resilience.Coordinator.Announce.{count}
use kafka_resilience.Coordinator.Release.{ReleaseOutcome}
use kafka_resilience.Tracker.{Tracker, Handler, attempt_of}
use kafka_resilience.Tracker.Locking.{IsLocking}
use kafka_resilience.Tracker.Redirects.{is_marked}
use kafka_resilience.Tracker.Stay.{StayOutcome, redirect-stays_in_chain}
use kafka_resilience.Tracker.Dlq.{DlqOutcome}
use kafka_resilience.Tracker.Exceeded.{ExceededOutcome}
use kafka_resilience.Tracker.Policy.{redirect-not_retriable, redirect-exceeded}
use kafka_resilience.Tracker.Chain.{
  redirect, settle, free, wait_for_retry_time, retry_worker_handle,
}

-- What a worker makes of a retry that the user's handler failed with `e`, by whether the error is not
-- retriable and whether the retries are used up.
abbrev pub FailedRetry :
    Environment
    → Coordinator
    → Tracker
    → String
    → String
    → Envelope
    → Error
    → World
    → Bool
    → Bool
    → Result Error (Unit {0})
    → World
    → Type 0
FailedRetry env k t topic id msg e w true used_up r w' =
    DlqOutcome t (new_from_message (new_from_message msg)) e w r w'
FailedRetry env k t topic id msg e w false true r w' =
    ExceededOutcome k t topic id (new_from_message msg) w r w'
FailedRetry env k t topic id msg e w false false r w' =
    StayOutcome env t id (attempt_of (new_from_message msg)) (new_from_message msg) w r w'

-- What a worker makes of the outcome of the user's handler.
abbrev pub RetryOutcome :
    Environment
    → Coordinator
    → Tracker
    → String
    → String
    → Envelope
    → Result Error (Unit {0}) × World
    → Result Error (Unit {0})
    → World
    → Type 0
RetryOutcome env k t topic id msg (ok u, w) r w' =
    ReleaseOutcome k topic id (new_from_message msg) w r w'
RetryOutcome env k t topic id msg (err e, w) r w' =
    FailedRetry env k t topic id msg e w (is_not_retriable e)
      (leb_ℤ t.cfg.max_retries (attempt_of (new_from_message msg))) r w'

module _ (env : Environment) (retrying : IsRetrying env) (k : Coordinator) (t : Tracker)
    (law : IsLocking k t.coordinator) (msg : Envelope) (topic id : String)
    (has_id : get header_id (new_from_message msg).headers ≡ some id)
    (has_topic : get header_topic (new_from_message msg).headers ≡ some topic)
    (marked : is_marked (new_from_message msg) ≡ true) where
  failed_retry :
      (e : Error) (w : World)
      → IsWellFormed w.locks
      → 0 < count w topic (new_from_message msg).key
      → FailedRetry env k t topic id msg e w
          (is_not_retriable e)
          (leb_ℤ t.cfg.max_retries (attempt_of (new_from_message msg)))
          (redirect env t msg (some e) w).0
          (redirect env t msg (some e) w).1
  failed_retry e w wf held = elim (Bool-cases (is_not_retriable e)) [
    | inl final ↦ rw final (redirect-not_retriable env t msg e final w)
    | inr may ↦ elim (Bool-cases (leb_ℤ t.cfg.max_retries (attempt_of (new_from_message msg)))) [
      | inl used_up ↦
          rw (may, used_up)
            (redirect-exceeded env k t law msg (some e) used_up may topic id w wf has_id has_topic
              held)
      | inr below ↦
          rw (may, below)
            (redirect-stays_in_chain env retrying k t law msg (some e) marked below may topic id
              has_id has_topic w wf held)
    ]
  ]

  settled_retry :
      (p : Result Error (Unit {0}) × World)
      → IsWellFormed p.1.locks
      → 0 < count p.1 topic (new_from_message msg).key
      → RetryOutcome env k t topic id msg p
          (settle env t p.0 (free env t msg) (λ e. redirect env t msg (some e)) p.1).0
          (settle env t p.0 (free env t msg) (λ e. redirect env t msg (some e)) p.1).1
  unfolding free
  settled_retry (ok u, w) wf held =
      law.released topic id (new_from_message msg) w wf has_id has_topic
  settled_retry (err e, w) wf held = failed_retry e w wf held

  -- A message of the chain whose wait has ended well, by what the user's handler makes of it. Success
  -- releases the lock: the key has one reference less and the tombstone is sent, or the release fails
  -- and the count is put back. An error that is not retriable sends the dead letter, or nothing
  -- where that fails, and changes no lock. After another error, with the retries used up, the dead letter is sent and, under
  -- FreeOnDLQ, the lock released behind it, while without FreeOnDLQ the references stay; where that fails, nothing or just the dead letter is sent
  -- and the references stay. With retries left, the message is sent to the retry topic once more under
  -- the lock that it holds; where that fails, it was not sent and the release of its lock was tried
  -- three times by the rollback: if that worked one of the key's references is freed, and if it failed
  -- too the references are as before.
  pub retry_worker_handle-RetryOutcome :
      (h : Handler) (w v : World)
      → wait_for_retry_time env t msg w ≡ (ok tt, v)
      → IsWellFormed (h msg v).1.locks
      → 0 < count (h msg v).1 topic (new_from_message msg).key
      → RetryOutcome env k t topic id msg
          (h msg v)
          (retry_worker_handle env t h msg w).0
          (retry_worker_handle env t h msg w).1
  unfolding retry_worker_handle ◌>>=◌
  retry_worker_handle-RetryOutcome h w v waited wf held =
      rw waited (settled_retry (h msg v) wf held)
