-- ===== src/Examples/Rounds.antt =====
-- One round of an order in the retry chain.
use kafka_resilience.Base.{ℕ, ◌+◌, ◌<◌, ◌≤◌, ◌≡◌, refl, subst, ap, ◌∙◌, some, pos, arith}
use kafka_resilience.Base.Decimal.{IsInt64, parse_int}
use kafka_resilience.Base.Exec.{Result, ok, err}
use kafka_resilience.Config.{retry_topic}
use kafka_resilience.Coordinator.Announce.{count}
use kafka_resilience.Message.Headers.{get, set, copy_into, range}
use kafka_resilience.Message.Envelope.{new_from_message}
use kafka_resilience.Message.Values.{get_header_value, parse_value}
use kafka_resilience.World.{World}
use kafka_resilience.Tracker.{attempt_of, original_topic_of}
use kafka_resilience.Tracker.Chain.{redirect}
use kafka_resilience.Tracker.Rounds
use kafka_resilience.Tracker.Rounds.{InChain, Round, Rounds}
use kafka_resilience.Tracker.Rounds.Bound.{Rounds-bounded}
use kafka_resilience.Tracker.Stay.{Stayed, StayOutcome, redirect-stays_in_chain}
use kafka_resilience.Examples.{
  env, env-IsRetrying, here, config, tracker, tracker-IsLocking, retried, failure, locked,
  locked-IsWellFormed,
}
use kafka_resilience.Examples.Settings.{config-IsValid}
use kafka_resilience.Examples.Retries.{
  marked, retries_left, may_retry_again, has_id, has_topic, counted,
}

order_key : (new_from_message (retried "1")).key ≡ "42"
unfolding new_from_message
order_key = refl

order_attempt : attempt_of (new_from_message (retried "1")) ≡ pos 1
unfolding new_from_message copy_into range set get attempt_of get_header_value parse_value parse_int
order_attempt = refl

order_chained : InChain "orders" "lock-1" "42" 1 (retried "1")
order_chained = record {
  attempt_is = order_attempt;
  marked = marked;
  has_id = has_id "1";
  has_topic = has_topic "1";
  has_key = order_key;
}

order_redirected : (redirect env tracker (retried "1") (some failure) locked).0 ≡ ok tt
unfolding redirect kafka_resilience.Tracker.Chain.redirect_message_with_error
    kafka_resilience.Errors.is_not_retriable attempt_of get_header_value get new_from_message
    copy_into set parse_value parse_int kafka_resilience.Tracker.Chain.redirect_to_retry
    kafka_resilience.World.time_now kafka_resilience.Tracker.Chain.lock_and_publish
    kafka_resilience.Tracker.Chain.lock_first_time
    kafka_resilience.Tracker.Chain.publish_or_roll_back
    kafka_resilience.Tracker.Chain.publish_to_retry kafka_resilience.World.produce
    kafka_resilience.Base.Exec.catch kafka_resilience.Base.Exec.◌>>=◌ range original_topic_of
order_redirected = refl

abbrev left : World
left = (redirect env tracker (retried "1") (some failure) locked).1

stayed :
    Stayed tracker "lock-1"
      (attempt_of (new_from_message (retried "1")))
      (new_from_message (retried "1"))
      locked
      left
stayed =
    subst
      (λ r.
        StayOutcome env tracker "lock-1" (attempt_of (new_from_message (retried "1")))
          (new_from_message (retried "1")) locked r left)
      order_redirected
      (redirect-stays_in_chain env env-IsRetrying here tracker tracker-IsLocking (retried "1")
        (some failure) marked retries_left may_retry_again "orders" "lock-1" (has_id "1")
        (has_topic "1") locked locked-IsWellFormed (counted "1"))

order_topic : original_topic_of (new_from_message (retried "1")) ≡ "orders"
unfolding new_from_message copy_into range set get original_topic_of get_header_value parse_value
order_topic = refl

order-Round : Round tracker "orders" "42" (retried "1") stayed.retried.message
order-Round = record {
  env = env;
  retrying = env-IsRetrying;
  before = locked;
  after = left;
  error = failure;
  sent = stayed.retried;
  well_formed = locked-IsWellFormed;
  held = subst (λ k. 0 < count locked "orders" k) order_key (counted "1");
  may_retry = may_retry_again;
  redirected = ap (λ r. (r, left)) order_redirected;
  one_sent = stayed.sent;
  to_retry_topic = stayed.is_retry.to_retry_topic ∙ ap (retry_topic config) order_topic;
  same_headers = refl;
  same_key = refl;
}

five_retries : tracker.cfg.max_retries ≡ pos 5
five_retries = refl

five_fits : IsInt64 (pos 5)
five_fits = omega arith

Rounds-bounded_example : InChain "orders" "lock-1" "42" (1 + 1) stayed.retried.message × (1 + 1 ≤ 5)
Rounds-bounded_example =
    Rounds-bounded here tracker tracker-IsLocking "orders" "lock-1" "42" config-IsValid 5
      five_retries five_fits 1 (omega arith) order_chained
      (Rounds.Rounds.again Rounds.Rounds.stay order-Round)
