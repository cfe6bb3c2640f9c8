-- ===== src/Examples/Chain.antt =====
-- The retry chain of one order.
use kafka_resilience.Base.{
  ◌≡◌, ◌≢◌, refl, String, Option, none, some, List, [], ◌∷◌, ℤ, pos, ◌<◌, ◌⊎◌, inl, inr, true,
  false, leb_ℤ, arith,
}
use kafka_resilience.Base.Exec.{Result, ok, err}
use kafka_resilience.Errors.{not_retriable, is_not_retriable}
use kafka_resilience.Locks.WellFormed.{empty-IsWellFormed}
use kafka_resilience.Locks.{acquire, increment_ref}
use kafka_resilience.Message.Headers.{get, set, copy_into, range}
use kafka_resilience.Message.Envelope.{Envelope, new_from_message}
use kafka_resilience.Message.Values.{Kind, header_id, header_topic, get_header_value, parse_value}
use kafka_resilience.World.{World}
use kafka_resilience.Coordinator.Announce.{count}
use kafka_resilience.Tracker.{Tracker, Handler, attempt_of, original_topic_of}
use kafka_resilience.Tracker.Chain.{
  redirect, resilient_handle, retry_worker_handle, wait_for_retry_time, is_in_retry_chain,
  send_to_dlq, handle_max_retries_exceeded,
}
use kafka_resilience.Tracker.Redirect.{EnterOutcome}
use kafka_resilience.Tracker.Redirects.{is_marked, redirect-enters_chain}
use kafka_resilience.Tracker.Dlq.{DlqOutcome, send_to_dlq-Outcome}
use kafka_resilience.Tracker.Policy.{
  redirect-not_retriable, UnlabelledOutcome, handle_max_retries_exceeded_unlabelled,
}
use kafka_resilience.Tracker.Handlers.{
  resilient_handle_keeps_order, resilient_handle_handles, HandledOutcome, failure_blocks_key,
}
use kafka_resilience.Examples.{
  env, env-IsRetrying, here, tracker, tracker-IsLocking, first, failure, start, locked,
  locked-IsWellFormed,
}

pub unmarked : is_marked (new_from_message first) ≡ false
unfolding new_from_message copy_into range set get
unmarked = refl

pub below : leb_ℤ tracker.cfg.max_retries (attempt_of (new_from_message first)) ≡ false
unfolding new_from_message copy_into range set get attempt_of get_header_value
below = refl

may_retry : is_not_retriable failure ≡ false
unfolding is_not_retriable
may_retry = refl

redirect-enters_chain_example :
    EnterOutcome env here tracker
      (attempt_of (new_from_message first))
      (new_from_message first)
      start
      (redirect env tracker first (some failure) start).0
      (redirect env tracker first (some failure) start).1
redirect-enters_chain_example =
    redirect-enters_chain env env-IsRetrying here tracker tracker-IsLocking first (some failure)
      unmarked below may_retry start empty-IsWellFormed

redirect_succeeds : (redirect env tracker first (some failure) start).0 ≡ ok tt
unfolding redirect kafka_resilience.Tracker.Chain.redirect_message_with_error is_not_retriable
    attempt_of get_header_value get new_from_message copy_into set
    kafka_resilience.Tracker.Chain.redirect_to_retry kafka_resilience.World.time_now
    kafka_resilience.Tracker.Chain.lock_and_publish kafka_resilience.Tracker.Chain.lock_first_time
    kafka_resilience.Coordinator.acquire kafka_resilience.Coordinator.ensure_id
    kafka_resilience.World.new_uuid kafka_resilience.Coordinator.announce_lock
    kafka_resilience.Coordinator.produce_with_retry kafka_resilience.Base.Exec.catch
    kafka_resilience.Base.Exec.◌>>=◌ kafka_resilience.Coordinator.ensure_topic
    kafka_resilience.Coordinator.lock_record kafka_resilience.Message.Envelope.new_message_envelope
    range parse_value kafka_resilience.Message.Values.format_value
    kafka_resilience.Message.Values.put_header kafka_resilience.Message.Values.set_header
    kafka_resilience.Tracker.Chain.publish_or_roll_back
    kafka_resilience.Tracker.Chain.publish_to_retry original_topic_of kafka_resilience.World.produce
    kafka_resilience.World.Retry.retry_loop
redirect_succeeds = refl

pub first_topic : first.topic ≡ original_topic_of (new_from_message first)
unfolding new_from_message copy_into range set get original_topic_of get_header_value
first_topic = refl

pub first_key : first.key ≡ (new_from_message first).key
unfolding new_from_message
first_key = refl

failure_blocks_key_example :
    is_in_retry_chain env tracker first (redirect env tracker first (some failure) start).1 ≡ true
failure_blocks_key_example =
    failure_blocks_key env env-IsRetrying here tracker tracker-IsLocking first (some failure)
      unmarked below may_retry start empty-IsWellFormed redirect_succeeds first first_topic
      first_key

first_counted : 0 < count locked first.topic first.key
unfolding acquire increment_ref kafka_resilience.Locks.get_ref_count
    kafka_resilience.Base.GoMap.lookup kafka_resilience.Base.GoMap.insert kafka_resilience.Base.◌+ℤ◌
first_counted = omega arith

abbrev skipping : Handler
skipping msg w = (ok tt, w)

abbrev failing : Handler
failing msg w = (err failure, w)

resilient_handle_keeps_order_example :
    (resilient_handle env tracker skipping first locked
      ≡ resilient_handle env tracker failing first locked)
    × EnterOutcome env here tracker
        (attempt_of (new_from_message first))
        (new_from_message first)
        locked
        (resilient_handle env tracker skipping first locked).0
        (resilient_handle env tracker skipping first locked).1
resilient_handle_keeps_order_example =
    resilient_handle_keeps_order env env-IsRetrying here tracker tracker-IsLocking first locked
      locked-IsWellFormed first_counted unmarked below skipping failing

none_counted : count start first.topic first.key ≡ 0
unfolding kafka_resilience.Locks.get_ref_count kafka_resilience.Base.GoMap.lookup
none_counted = refl

resilient_handle_handles_example :
    HandledOutcome env here tracker first
      (failing first start)
      (resilient_handle env tracker failing first start).0
      (resilient_handle env tracker failing first start).1
resilient_handle_handles_example =
    resilient_handle_handles env env-IsRetrying here tracker tracker-IsLocking first unmarked below
      failing start none_counted may_retry empty-IsWellFormed

not_retriable_is : is_not_retriable (not_retriable failure) ≡ true
unfolding is_not_retriable
not_retriable_is = refl

redirect-not_retriable_example :
    DlqOutcome tracker
      (new_from_message (new_from_message first))
      (not_retriable failure)
      start
      (redirect env tracker first (some (not_retriable failure)) start).0
      (redirect env tracker first (some (not_retriable failure)) start).1
redirect-not_retriable_example =
    redirect-not_retriable env tracker first (not_retriable failure) not_retriable_is start

send_to_dlq-Outcome_example :
    DlqOutcome tracker
      (new_from_message first)
      failure
      start
      (send_to_dlq env tracker first failure start).0
      (send_to_dlq env tracker first failure start).1
send_to_dlq-Outcome_example = send_to_dlq-Outcome env tracker first failure start

first_has_no_id : (get header_id first.headers ≡ none) ⊎ (get header_topic first.headers ≡ none)
unfolding get
first_has_no_id = inl refl

handle_max_retries_exceeded_unlabelled_example :
    UnlabelledOutcome tracker first start
      (handle_max_retries_exceeded env tracker first start).0
      (handle_max_retries_exceeded env tracker first start).1
handle_max_retries_exceeded_unlabelled_example =
    handle_max_retries_exceeded_unlabelled env here tracker tracker-IsLocking first start
      first_has_no_id refl
