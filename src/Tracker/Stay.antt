-- ===== src/Tracker/Stay.antt =====
-- Redirect of a message that is in the retry chain already: the messages of the retry topic are read
-- back, and sent again under the lock that they hold.
use kafka_resilience.Base.{
  ℕ, sym, subst, String, ◌≡◌, refl, true, false, Option, some, none, ◌∷◌, ◌∙◌, ◌<◌, arith, ap,
  leb_ℤ, ℤ, pos, ◌+ℤ◌,
}
use kafka_resilience.Base.Decimal.{IsInt64}
use kafka_resilience.Base.Decimal.RoundTrip.{parse_int-format_int}
use kafka_resilience.Base.Exec.{Result, ok, err, ◌>>=◌}
use kafka_resilience.Errors.{Error}
use kafka_resilience.Locks.WellFormed.{IsWellFormed}
use kafka_resilience.Message.Headers.{get}
use kafka_resilience.Message.Headers.Laws.{IsDistinct}
use kafka_resilience.Message.Envelope.{Envelope, new_from_message}
use kafka_resilience.Message.Values.{
  Time, Kind, get_header_value, parse_value, header_id, header_topic, header_retry_original_time,
}
use kafka_resilience.Message.Values.RoundTrip.{get_text}
use kafka_resilience.World.{World, Sent, Environment, time_now}
use kafka_resilience.World.Retry.{IsRetrying}
use kafka_resilience.Coordinator.{Coordinator}
use kafka_resilience.Coordinator.Announce.{count}
use kafka_resilience.Tracker.{Tracker, attempt_of, original_topic_of, RetryData}
use kafka_resilience.Tracker.Clock.{add}
use kafka_resilience.Tracker.Headers.{new_from_message-IsDistinct}
use kafka_resilience.Tracker.Locking.{IsLocking}
use kafka_resilience.Tracker.Publish.{
  PublishOutcome, RollbackOutcome, RolledBack, publish_or_roll_back-Outcome,
}
use kafka_resilience.Tracker.Redirect.{IsRetryOf, sent_retry, sent_retry-IsRetryOf, data_of}
use kafka_resilience.Tracker.Redirects.{is_marked, MayRetry}
use kafka_resilience.Tracker.Chain.{
  redirect, redirect_message_with_error, redirect_to_retry, lock_and_publish, lock_first_time,
  time_or_now,
}

-- A message of the retry topic, when a worker reads its headers: its attempt is one more than that of
-- the message that it retries, if that fits in an int64; it is marked as a member of the chain, so
-- that no second lock is taken; it leads back to the same original topic; and it names its lock.
pub retry_message_reads_back :
    (t : Tracker) (id : String) (current : ℤ) (msg : Envelope) (s : Sent)
    → IsRetryOf t id current msg s
    → IsInt64 (current +ℤ pos 1)
    → (attempt_of s.message ≡ current +ℤ pos 1)
      × (is_marked s.message ≡ true)
      × (original_topic_of s.message ≡ original_topic_of msg)
      × (get_header_value Kind.text s.message.headers header_id ≡ some id)
unfolding attempt_of original_topic_of get_header_value parse_value
retry_message_reads_back t id current msg s r fits = (
  ground (arith, r.attempt, parse_int-format_int (current +ℤ pos 1) fits),
  rw r.marked refl,
  ground (arith, r.topic),
  ground (arith, r.id),
)

-- A retry that succeeds under the lock that is held.
pub record Stayed (t : Tracker) (id : String) (current : ℤ) (msg : Envelope) (w w' : World)
    : Type 0 where
  pub retried : Sent
  pub sent : w'.sent ≡ retried ∷ w.sent
  pub is_retry : IsRetryOf t id current msg retried
  pub same_locks : w'.locks ≡ w.locks

abbrev pub StayOutcome :
    Environment → Tracker → String → ℤ → Envelope → World → Result Error (Unit {0}) → World → Type 0
StayOutcome env t id current msg w (ok u) w' = Stayed t id current msg w w'
StayOutcome env t id current msg w (err e) w' = RolledBack env t (original_topic_of msg) msg w w'

StayOutcome-of :
    (env : Environment) (t : Tracker) (d : RetryData) (current : ℤ) (msg : Envelope) (n : ℕ)
    (w w' : World) (r : Result Error (Unit {0}))
    → IsDistinct msg.headers
    → d.next_attempt ≡ current +ℤ pos 1
    → d.original_topic ≡ original_topic_of msg
    → PublishOutcome env t d msg (record w { clock_calls = n }) r w'
    → StayOutcome env t d.id current msg w r w'
StayOutcome-of env t d current msg n w w' (ok u) distinct att top (now, sent, locks) = record {
  retried = sent_retry t d msg now;
  sent = sent;
  is_retry =
      sent_retry-IsRetryOf t d current msg msg now att top refl refl distinct (λ j r ne. refl);
  same_locks = locks;
}
StayOutcome-of env t d current msg n w w' (err e) distinct att top back = record {
  failed_at = back.failed_at;
  nothing_sent = back.nothing_sent;
  same_locks = back.same_locks;
  ended = back.ended;
  outcome =
      subst
        (λ topic.
          RollbackOutcome topic msg.key w
            (env.retry_do 3 (t.coordinator.release msg) back.failed_at).0 w')
        top back.outcome;
}

-- Headers that lead to the lock of `topic`.
pub original_topic_of_header :
    (msg : Envelope) (topic : String)
    → get header_topic msg.headers ≡ some topic
    → original_topic_of msg ≡ topic
unfolding original_topic_of
original_topic_of_header msg topic h = ground (arith, get_text msg.headers header_topic)

module _ (env : Environment) (retrying : IsRetrying env) (k : Coordinator) (t : Tracker)
    (law : IsLocking k t.coordinator) (msg : Envelope) (last_error : Option Error)
    (distinct : IsDistinct msg.headers) (marked : is_marked msg ≡ true) (topic id : String)
    (has_id : get header_id msg.headers ≡ some id)
    (has_topic : get header_topic msg.headers ≡ some topic) (w : World) (wf : IsWellFormed w.locks)
    (held : 0 < count w topic msg.key) where
  own : original_topic_of msg ≡ topic
  own = original_topic_of_header msg topic has_topic

  lock_and_publish-Stay :
      (current : ℤ) (original_time next_retry_time : Time) (n : ℕ)
      → let p : Result Error (Unit {0}) × World =
          lock_and_publish env t current last_error original_time next_retry_time msg
            (record w { clock_calls = n }) in
        StayOutcome env t id current msg w p.0 p.1
  unfolding lock_and_publish lock_first_time ◌>>=◌
  lock_and_publish-Stay current original_time next_retry_time n =
      let d : RetryData =
        data_of current last_error original_time next_retry_time (original_topic_of msg) id in
      rw (get_text, marked, get_text, has_id)
        (StayOutcome-of env t d current msg n w _ _ distinct refl refl (
          publish_or_roll_back-Outcome env retrying k t law d msg (record w { clock_calls = n }) wf
            has_id (has_topic ∙ ap {B = Option String} some (sym own)) (rw own held)))

  timed-Stay :
      (current : ℤ) (o : Option Time)
      → let p : Result Error (Unit {0}) × World =
          (time_or_now env t o >>= λ original_time. time_now env >>= λ now.
          lock_and_publish env t current last_error original_time
            (add now (t.next_delay current))
            msg)
            w in
        StayOutcome env t id current msg w p.0 p.1
  unfolding ◌>>=◌ time_now
  timed-Stay current (some original_time) = lock_and_publish-Stay current original_time _ _
  timed-Stay current none = lock_and_publish-Stay current _ _ _

  redirect_to_retry-Stay :
      StayOutcome env t id
        (attempt_of msg)
        msg
        w
        (redirect_to_retry env t (attempt_of msg) last_error msg w).0
        (redirect_to_retry env t (attempt_of msg) last_error msg w).1
  unfolding redirect_to_retry
  redirect_to_retry-Stay =
      timed-Stay (attempt_of msg)
        (get_header_value Kind.time msg.headers header_retry_original_time)

-- A redirect of a message of the chain that is marked, holds its lock, has retries left and failed with
-- an error that may be tried again (or with nil). Where it succeeds, exactly one message is sent, to the retry topic, with
-- the attempt one higher and the same lock's id, and no lock changes. Where it fails, the message was
-- not sent, and from there the release of its lock was tried three times by the rollback: if that
-- worked one of the key's references is freed, and if it failed too the references are as before.
pub redirect-stays_in_chain :
    (env : Environment) (retrying : IsRetrying env) (k : Coordinator) (t : Tracker)
    → IsLocking k t.coordinator
    → (msg : Envelope) (last_error : Option Error) → is_marked (new_from_message msg) ≡ true
    → leb_ℤ t.cfg.max_retries (attempt_of (new_from_message msg)) ≡ false
    → MayRetry last_error
    → (topic id : String) → get header_id (new_from_message msg).headers ≡ some id
    → get header_topic (new_from_message msg).headers ≡ some topic
    → (w : World) → IsWellFormed w.locks
    → 0 < count w topic (new_from_message msg).key
    → StayOutcome env t id
        (attempt_of (new_from_message msg))
        (new_from_message msg)
        w
        (redirect env t msg last_error w).0
        (redirect env t msg last_error w).1
unfolding redirect redirect_message_with_error
redirect-stays_in_chain env retrying k t law msg none marked below may topic id has_id has_topic w
      wf held =
    rw below (
      redirect_to_retry-Stay env retrying k t law (new_from_message msg) none
        (new_from_message-IsDistinct msg) marked topic id has_id has_topic w wf held)
redirect-stays_in_chain env retrying k t law msg (some e) marked below may topic id has_id has_topic
      w wf held =
    rw (may, below)
      (redirect_to_retry-Stay env retrying k t law (new_from_message msg) (some e)
        (new_from_message-IsDistinct msg) marked topic id has_id has_topic w wf held)
