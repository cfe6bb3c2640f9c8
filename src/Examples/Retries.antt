-- ===== src/Examples/Retries.antt =====
-- The retries of one order.
use kafka_resilience.Base.{
  ◌≡◌, refl, String, some, none, ℤ, pos, ◌+ℤ◌, ◌<◌, true, false, leb_ℤ, arith,
}
use kafka_resilience.Base.Decimal.{IsInt64, parse_int}
use kafka_resilience.Base.Exec.{ok, err}
use kafka_resilience.Errors.{is_not_retriable}
use kafka_resilience.Locks.{acquire, increment_ref}
use kafka_resilience.Message.Headers.{get, set, copy_into, range}
use kafka_resilience.Message.Headers.Laws.{IsDistinct, has}
use kafka_resilience.Message.Envelope.{Envelope, new_from_message}
use kafka_resilience.Message.Values.{
  Kind, parse_value, header_id, header_topic, get_header_value, unix,
}
use kafka_resilience.World.{World, Sent}
use kafka_resilience.Coordinator.Announce.{count}
use kafka_resilience.Tracker.{Tracker, Handler, attempt_of, original_topic_of}
use kafka_resilience.Tracker.Chain.{redirect, retry_worker_handle, wait_for_retry_time}
use kafka_resilience.Tracker.Redirect.{IsRetryOf, sent_retry, sent_retry-IsRetryOf, data_of}
use kafka_resilience.Tracker.Redirects.{is_marked}
use kafka_resilience.Tracker.Stay.{StayOutcome, redirect-stays_in_chain, retry_message_reads_back}
use kafka_resilience.Tracker.Exceeded.{ExceededOutcome}
use kafka_resilience.Tracker.Policy.{redirect-exceeded}
use kafka_resilience.Tracker.Workers.Branches.{retry_worker_handle-RetryOutcome, RetryOutcome}
use kafka_resilience.Tracker.Workers.{wait_for_retry_time-Waited, Waited}
use kafka_resilience.Examples.{
  env, env-IsRetrying, here, tracker, tracker-IsLocking, retried, failure, locked,
  locked-IsWellFormed,
}

pub may_retry_again : is_not_retriable failure ≡ false
unfolding is_not_retriable
may_retry_again = refl

pub marked : is_marked (new_from_message (retried "1")) ≡ true
unfolding new_from_message copy_into range set get
marked = refl

pub retries_left :
    leb_ℤ tracker.cfg.max_retries (attempt_of (new_from_message (retried "1"))) ≡ false
unfolding new_from_message copy_into range set get attempt_of get_header_value parse_value parse_int
retries_left = refl

no_retries_left : leb_ℤ tracker.cfg.max_retries (attempt_of (new_from_message (retried "5"))) ≡ true
unfolding new_from_message copy_into range set get attempt_of get_header_value parse_value parse_int
no_retries_left = refl

pub has_id :
    (attempt : String) → get header_id (new_from_message (retried attempt)).headers ≡ some "lock-1"
unfolding new_from_message copy_into range set get
has_id attempt = refl

pub has_topic :
    (attempt : String)
    → get header_topic (new_from_message (retried attempt)).headers ≡ some "orders"
unfolding new_from_message copy_into range set get
has_topic attempt = refl

pub counted :
    (attempt : String) → 0 < count locked "orders" (new_from_message (retried attempt)).key
unfolding new_from_message acquire increment_ref kafka_resilience.Locks.get_ref_count
    kafka_resilience.Base.GoMap.lookup kafka_resilience.Base.GoMap.insert ◌+ℤ◌
counted attempt = omega arith

redirect-stays_in_chain_example :
    StayOutcome env tracker "lock-1"
      (attempt_of (new_from_message (retried "1")))
      (new_from_message (retried "1"))
      locked
      (redirect env tracker (retried "1") (some failure) locked).0
      (redirect env tracker (retried "1") (some failure) locked).1
redirect-stays_in_chain_example =
    redirect-stays_in_chain env env-IsRetrying here tracker tracker-IsLocking (retried "1")
      (some failure) marked retries_left may_retry_again "orders" "lock-1" (has_id "1")
      (has_topic "1") locked locked-IsWellFormed (counted "1")

redirect-exceeded_example :
    ExceededOutcome here tracker "orders" "lock-1"
      (new_from_message (retried "5"))
      locked
      (redirect env tracker (retried "5") (some failure) locked).0
      (redirect env tracker (retried "5") (some failure) locked).1
redirect-exceeded_example =
    redirect-exceeded env here tracker tracker-IsLocking (retried "5") (some failure)
      no_retries_left may_retry_again "orders" "lock-1" locked locked-IsWellFormed (has_id "5")
      (has_topic "5") (counted "5")

abbrev completing : Handler
completing msg w = (ok tt, w)

abbrev breaking : Handler
breaking msg w = (err failure, w)

-- The state behind the wait, which has read the clock.
abbrev waited : World
waited = record locked { clock_calls = 1 }

wait_ends : wait_for_retry_time env tracker (retried "1") locked ≡ (ok tt, waited)
unfolding wait_for_retry_time get parse_int kafka_resilience.Tracker.Chain.wait_until
    kafka_resilience.Tracker.Clock.before kafka_resilience.World.time_now
wait_ends = refl

retry_worker_handle-RetryOutcome_example :
    RetryOutcome env here tracker "orders" "lock-1"
      (retried "1")
      (breaking (retried "1") waited)
      (retry_worker_handle env tracker breaking (retried "1") locked).0
      (retry_worker_handle env tracker breaking (retried "1") locked).1
retry_worker_handle-RetryOutcome_example =
    retry_worker_handle-RetryOutcome env env-IsRetrying here tracker tracker-IsLocking (retried "1")
      "orders" "lock-1" (has_id "1") (has_topic "1") marked breaking locked waited wait_ends
      locked-IsWellFormed (counted "1")

wait_for_retry_time-Waited_example :
    Waited env (retried "1") locked (wait_for_retry_time env tracker (retried "1") locked).0
    × ((wait_for_retry_time env tracker (retried "1") locked).1.locks ≡ locked.locks)
    × ((wait_for_retry_time env tracker (retried "1") locked).1.sent ≡ locked.sent)
wait_for_retry_time-Waited_example = wait_for_retry_time-Waited env tracker (retried "1") locked

abbrev order_retried : Envelope
order_retried = retried "1"

order_retried-IsDistinct : IsDistinct order_retried.headers
unfolding has
order_retried-IsDistinct = (refl, (refl, (refl, (refl, (refl, tt)))))

abbrev second_retry : Sent
second_retry =
    sent_retry tracker (data_of (pos 1) none (unix (pos 1)) (unix (pos 2)) "orders" "lock-1")
      order_retried (unix (pos 3))

second_retry_is : IsRetryOf tracker "lock-1" (pos 1) order_retried second_retry
unfolding original_topic_of get_header_value parse_value get
second_retry_is =
    sent_retry-IsRetryOf tracker
      (data_of (pos 1) none (unix (pos 1)) (unix (pos 2)) "orders" "lock-1") (pos 1) order_retried
      order_retried (unix (pos 3)) refl refl refl refl order_retried-IsDistinct (λ j r ne. refl)

two_fits : IsInt64 (pos 1 +ℤ pos 1)
unfolding ◌+ℤ◌
two_fits = omega arith

retry_message_reads_back_example :
    (attempt_of second_retry.message ≡ pos 1 +ℤ pos 1)
    × (is_marked second_retry.message ≡ true)
    × (original_topic_of second_retry.message ≡ original_topic_of order_retried)
    × (get_header_value Kind.text second_retry.message.headers header_id ≡ some "lock-1")
retry_message_reads_back_example =
    retry_message_reads_back tracker "lock-1" (pos 1) order_retried second_retry second_retry_is
      two_fits
