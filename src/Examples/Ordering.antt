-- ===== src/Examples/Ordering.antt =====
-- A claim of three orders, of which the first fails and the second has its key.
use kafka_resilience.Base.{
  ◌+◌, ◌≡◌, ◌≢◌, arith, eq_iff, refl, String, Bool, true, false, ◌==◌, Option, none, some, List, [],
  ◌∷◌, map, if◌then◌else◌, leb_ℤ, ltb,
}
use kafka_resilience.Base.Exec.{Result, ok, err}
use kafka_resilience.Errors.{is_not_retriable}
use kafka_resilience.Locks.WellFormed.{empty-IsWellFormed}
use kafka_resilience.Message.Headers.{get, set, copy_into, range}
use kafka_resilience.Message.Envelope.{Envelope, new_from_message}
use kafka_resilience.Message.Values.{get_header_value, parse_value}
use kafka_resilience.World.{World}
use kafka_resilience.Coordinator.Announce.{count}
use kafka_resilience.Sarama.Consumer.{message, Claim, consume_claim}
use kafka_resilience.Tracker.{attempt_of, original_topic_of}
use kafka_resilience.Tracker.Chain.{
  resilient_handle, is_in_retry_chain, retry_worker_handle, wait_for_retry_time,
}
use kafka_resilience.Tracker.Handlers.{MayRetryAfter}
use kafka_resilience.Tracker.Order.Queue.{Verdict, judging, queued, IsFresh, All, occurrences}
use kafka_resilience.Tracker.Order.{Kept, claim_keeps_order}
use kafka_resilience.Tracker.Order.Unlock.{IsLockedRetry, work, claim_and_retries_unlock}
use kafka_resilience.Tracker.Order.Shared.{after_all, claim_blocks_elsewhere}
use kafka_resilience.Config.{retry_topic}
use kafka_resilience.Config.Topics.{topics_apart}
use kafka_resilience.Coordinator.{redirect_topic, is_locked}
use kafka_resilience.Programs.{text_of}
use kafka_resilience.Examples.Settings.{config-IsValid}
use kafka_resilience.Examples.Retries.{has_id, has_topic}
use kafka_resilience.Examples.{
  env, env-IsRetrying, here, tracker, tracker-IsLocking, first, start, failure, retried, there,
  config,
}

abbrev pub second : Envelope
second = record first { payload = some "sent" }

abbrev third : Envelope
third = record second { key = "43" }

abbrev pub verdict : Verdict
verdict msg = if text_of msg == "paid" then err failure else ok tt

abbrev pub orders : List Envelope
orders = first ∷ second ∷ third ∷ []

two_are_queued : queued verdict (λ j. false) orders ≡ first ∷ second ∷ []
two_are_queued = refl

retriable_if : (b : Bool) → MayRetryAfter (if b then err failure else ok tt)
unfolding is_not_retriable
retriable_if true = refl
retriable_if false = tt

fresh :
    (msg : Envelope)
    → msg.topic ≡ "orders"
    → msg.headers ≡ first.headers
    → IsFresh tracker "orders" msg
unfolding new_from_message copy_into range set get original_topic_of get_header_value attempt_of
fresh msg topic headers = record {
  to_topic = topic;
  own_topic = rw (headers, topic) refl;
  unmarked = rw headers refl;
  below = rw headers refl;
}

abbrev pub unmarked_claim : Claim World
unmarked_claim = record { state = start; marked = [] }

pub nothing_is_blocked : (j : String) → false ≡ ltb 0 (count start "orders" j)
unfolding kafka_resilience.Locks.get_ref_count kafka_resilience.Base.GoMap.lookup
nothing_is_blocked j = refl

pub all_are_taken :
    (consume_claim
      (resilient_handle env tracker (judging verdict))
      (map message orders)
      unmarked_claim).0
    ≡ none
unfolding consume_claim resilient_handle is_in_retry_chain kafka_resilience.Coordinator.is_locked
    kafka_resilience.Locks.is_locked kafka_resilience.Locks.get_ref_count
    kafka_resilience.Locks.acquire kafka_resilience.Locks.increment_ref kafka_resilience.Base.◌+ℤ◌
    kafka_resilience.Base.GoMap.insert kafka_resilience.Base.GoMap.remove
    kafka_resilience.Base.GoMap.lookup kafka_resilience.Tracker.Chain.redirect
    kafka_resilience.Tracker.Chain.redirect_message_with_error
    kafka_resilience.Errors.is_not_retriable attempt_of get_header_value get new_from_message
    copy_into set kafka_resilience.Tracker.Chain.redirect_to_retry kafka_resilience.World.time_now
    kafka_resilience.Tracker.Chain.lock_and_publish kafka_resilience.Tracker.Chain.lock_first_time
    kafka_resilience.Coordinator.acquire kafka_resilience.Coordinator.ensure_id
    kafka_resilience.World.new_uuid kafka_resilience.Coordinator.announce_lock
    kafka_resilience.Coordinator.produce_with_retry kafka_resilience.Base.Exec.catch
    kafka_resilience.Base.Exec.◌>>=◌ kafka_resilience.Coordinator.ensure_topic
    kafka_resilience.Coordinator.lock_record kafka_resilience.Message.Envelope.new_message_envelope
    range parse_value kafka_resilience.Message.Values.format_value
    kafka_resilience.Message.Values.put_header kafka_resilience.Message.Values.set_header
    kafka_resilience.Tracker.Chain.publish_or_roll_back
    kafka_resilience.Tracker.Chain.publish_to_retry original_topic_of kafka_resilience.World.produce
    kafka_resilience.World.Retry.retry_loop
all_are_taken = refl

abbrev pub after : World
after =
    (consume_claim (resilient_handle env tracker (judging verdict)) (map message orders)
      unmarked_claim).1.state

pub all_are_retriable : (msg : Envelope) → MayRetryAfter (verdict msg)
all_are_retriable msg = retriable_if (text_of msg == "paid")

pub orders-IsFresh : All (IsFresh tracker "orders") orders
orders-IsFresh = (fresh first refl refl, (fresh second refl refl, (fresh third refl refl, tt)))

claim_keeps_order_example :
    Kept env env-IsRetrying here tracker tracker-IsLocking "orders" verdict all_are_retriable
      (first ∷ second ∷ [])
      start
      after
claim_keeps_order_example =
    claim_keeps_order env env-IsRetrying here tracker tracker-IsLocking "orders" verdict
      all_are_retriable orders orders-IsFresh (λ j. false) unmarked_claim empty-IsWellFormed
      nothing_is_blocked all_are_taken

abbrev retries : List Envelope
retries = retried "1" ∷ retried "1" ∷ []

order_is_locked : IsLockedRetry "orders" (retried "1")
order_is_locked = record { lock_id = "lock-1"; has_id = has_id "1"; has_topic = has_topic "1" }

retries_succeed :
    (consume_claim
      (work env here tracker tracker-IsLocking "orders")
      (map message retries)
      (record { state = after; marked = [] })).0
    ≡ none
unfolding consume_claim resilient_handle is_in_retry_chain kafka_resilience.Coordinator.is_locked
    kafka_resilience.Locks.is_locked kafka_resilience.Locks.get_ref_count
    kafka_resilience.Locks.acquire kafka_resilience.Locks.increment_ref kafka_resilience.Base.◌+ℤ◌
    kafka_resilience.Base.GoMap.insert kafka_resilience.Base.GoMap.remove
    kafka_resilience.Base.GoMap.lookup kafka_resilience.Tracker.Chain.redirect
    kafka_resilience.Tracker.Chain.redirect_message_with_error
    kafka_resilience.Errors.is_not_retriable attempt_of get_header_value get new_from_message
    copy_into set kafka_resilience.Tracker.Chain.redirect_to_retry kafka_resilience.World.time_now
    kafka_resilience.Tracker.Chain.lock_and_publish kafka_resilience.Tracker.Chain.lock_first_time
    kafka_resilience.Coordinator.acquire kafka_resilience.Coordinator.ensure_id
    kafka_resilience.World.new_uuid kafka_resilience.Coordinator.announce_lock
    kafka_resilience.Coordinator.produce_with_retry kafka_resilience.Base.Exec.catch
    kafka_resilience.Base.Exec.◌>>=◌ kafka_resilience.Coordinator.ensure_topic
    kafka_resilience.Coordinator.lock_record kafka_resilience.Message.Envelope.new_message_envelope
    range parse_value kafka_resilience.Message.Values.format_value
    kafka_resilience.Message.Values.put_header kafka_resilience.Message.Values.set_header
    kafka_resilience.Tracker.Chain.publish_or_roll_back
    kafka_resilience.Tracker.Chain.publish_to_retry original_topic_of kafka_resilience.World.produce
    kafka_resilience.World.Retry.retry_loop retry_worker_handle wait_for_retry_time
    kafka_resilience.Tracker.Chain.wait_until kafka_resilience.Tracker.Chain.free
    kafka_resilience.Base.Decimal.parse_int kafka_resilience.Tracker.Clock.before
    kafka_resilience.Coordinator.release kafka_resilience.Coordinator.announce_release
    kafka_resilience.Locks.release kafka_resilience.Locks.lock_topic
    kafka_resilience.Locks.release_ref kafka_resilience.Locks.decrement_ref
    kafka_resilience.Locks.remove_key kafka_resilience.Locks.remove_topic
    kafka_resilience.Locks.is_topic_empty kafka_resilience.Base.◌-ℤ◌
retries_succeed = refl

claim_and_retries_unlock_example :
    count
      (consume_claim
        (work env here tracker tracker-IsLocking "orders")
        (map message retries)
        (record { state = after; marked = [] })).1.state
      "orders"
      "42"
    ≡ count start "orders" "42"
claim_and_retries_unlock_example =
    claim_and_retries_unlock env env-IsRetrying here tracker tracker-IsLocking "orders" verdict
      all_are_retriable orders orders-IsFresh (λ j. false) unmarked_claim empty-IsWellFormed
      nothing_is_blocked all_are_taken retries (order_is_locked, (order_is_locked, tt)) (λ j. refl)
      (record { state = after; marked = [] }) refl retries_succeed "42"

pub topics_differ : retry_topic tracker.cfg "orders" ≢ redirect_topic here "orders"
unfolding kafka_resilience.Config.redirect_topic
topics_differ = (topics_apart config config-IsValid "orders" "orders").0

pub instances_differ : here.instance_id ≢ there.instance_id
instances_differ h = absurd (ground (arith, h, eq_iff "here" "there"))

claim_blocks_elsewhere_example :
    ((j : String)
      → count (after_all there (redirect_topic here "orders") after.sent start) "orders" j
        ≡ count start "orders" j + occurrences j (first ∷ second ∷ []))
    × (is_locked first (after_all there (redirect_topic here "orders") after.sent start)
        ≡ ltb 0 (count start "orders" first.key + occurrences first.key (first ∷ second ∷ [])))
unfolding after_all
claim_blocks_elsewhere_example =
    claim_blocks_elsewhere env env-IsRetrying here tracker tracker-IsLocking "orders" verdict
      all_are_retriable orders orders-IsFresh (λ j. false) unmarked_claim empty-IsWellFormed
      nothing_is_blocked all_are_taken there instances_differ topics_differ start empty-IsWellFormed
      first refl
