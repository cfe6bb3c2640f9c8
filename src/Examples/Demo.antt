-- ===== src/Examples/Demo.antt =====
-- The demo program: a request that arms a key, and messages with it.
use kafka_resilience.Base.{
  ◌≡◌, refl, String, Bool, true, false, some, List, [], ◌∷◌, pos, if◌then◌else◌,
}
use kafka_resilience.Base.GoMap.{remove}
use kafka_resilience.World.{World}
use kafka_resilience.Base.Exec.{Result, ok, err}
use kafka_resilience.Errors.{Error, new}
use kafka_resilience.Locks.WellFormed.{empty-IsWellFormed}
use kafka_resilience.Message.Headers.{get, set, copy_into, range}
use kafka_resilience.Message.Envelope.{new_from_message}
use kafka_resilience.Message.Values.{get_header_value, parse_value}
use kafka_resilience.Coordinator.Announce.{count}
use kafka_resilience.Tracker.{attempt_of, original_topic_of}
use kafka_resilience.Tracker.Chain.{is_in_retry_chain, resilient_handle}
use kafka_resilience.Programs.{Outbox, Sending}
use kafka_resilience.Programs.Demo.{
  DemoHandler, new_demo_handler, is_armed, demo_handle, get_locked_keys, keys,
}
use kafka_resilience.Programs.Demo.Web.{
  Request, ProduceRequest, FailRequest, handle_produce, handle_fail, handle_locks, answered,
}
use kafka_resilience.Programs.Demo.Web
use kafka_resilience.Programs.Demo.Web.Produce.{ProduceOutcome, handle_produce-Outcome}
use kafka_resilience.Programs.Demo.Accesses.{Access, produce, fail, handled, run}
use kafka_resilience.Programs.Demo.Stats.{IsBalanced, stats_balance}
use kafka_resilience.Programs.Demo.Armed.{armed, demo_handle_fails_as_asked}
use kafka_resilience.Programs.Demo.Shown.{as_handler, main_delivered, first_failure_is_not_shown}
use kafka_resilience.Examples.{env, env-IsRetrying, here, tracker, tracker-IsLocking, first, start}
use kafka_resilience.Examples.Chain.{unmarked, below, first_topic, first_key}

abbrev accepting : Sending
accepting n sample = ok (pos 0, pos n)

abbrev unsent : Outbox
unsent = record { accepted = []; calls = 0 }

abbrev failing_order : Request ProduceRequest
failing_order = record {
  method = Web.post;
  body = ok (record { key = "42"; value = "paid"; fail = true });
}

abbrev fail_42 : Request FailRequest
fail_42 = record { method = Web.post; body = ok (record { key = "42"; fail = true }) }

abbrev accesses : List Access
accesses = produce failing_order ∷ handled first start ∷ fail fail_42 ∷ []

handle_produce-Outcome_example :
    ProduceOutcome accepting "demo-orders" new_demo_handler unsent failing_order
      (handle_produce accepting "demo-orders" failing_order new_demo_handler unsent).0
      (handle_produce accepting "demo-orders" failing_order new_demo_handler unsent).1
      (handle_produce accepting "demo-orders" failing_order new_demo_handler unsent).2
handle_produce-Outcome_example =
    handle_produce-Outcome accepting "demo-orders" new_demo_handler unsent failing_order

stats_balance_example :
    IsBalanced 1 (run env tracker accepting "demo-orders" accesses (new_demo_handler, unsent)).0
stats_balance_example = stats_balance env tracker accepting "demo-orders" accesses unsent

demo_handle_fails_as_asked_example :
    (demo_handle env tracker first start
      (run env tracker accepting "demo-orders" accesses (new_demo_handler, unsent)).0).0
    ≡ (if armed first.key false accesses then err (new "simulated failure") else ok tt)
demo_handle_fails_as_asked_example =
    demo_handle_fails_as_asked env tracker accepting "demo-orders" accesses unsent first start

asked : armed first.key false accesses ≡ true
asked = refl

abbrev armed_handler : DemoHandler
armed_handler = (handle_fail fail_42 new_demo_handler).1

-- Nothing else happens in the process.
abbrev quiet : World → World
quiet w = w

order_is_free : count start first.topic first.key ≡ 0
unfolding kafka_resilience.Locks.get_ref_count kafka_resilience.Base.GoMap.lookup
order_is_free = refl

order_is_armed : is_armed first.key armed_handler ≡ true
unfolding is_armed handle_fail kafka_resilience.Programs.Demo.Web.fail_decoded
    kafka_resilience.Programs.Demo.set_fail kafka_resilience.Base.GoMap.insert
    kafka_resilience.Base.GoMap.lookup
order_is_armed = refl

order_is_redirected :
    (resilient_handle env tracker (as_handler env tracker quiet armed_handler) first start).0
    ≡ ok tt
unfolding resilient_handle is_in_retry_chain kafka_resilience.Coordinator.is_locked
    kafka_resilience.Locks.is_locked kafka_resilience.Locks.get_ref_count demo_handle
    kafka_resilience.Programs.Demo.note kafka_resilience.Programs.Demo.check_and_clear_fail
    kafka_resilience.Programs.Demo.decide is_armed handle_fail
    kafka_resilience.Programs.Demo.Web.fail_decoded kafka_resilience.Programs.Demo.set_fail
    kafka_resilience.Base.GoMap.insert kafka_resilience.Base.GoMap.lookup
    kafka_resilience.Tracker.Chain.redirect
    kafka_resilience.Tracker.Chain.redirect_message_with_error
    kafka_resilience.Errors.is_not_retriable attempt_of get_header_value get new_from_message
    copy_into set kafka_resilience.Tracker.Chain.redirect_to_retry kafka_resilience.World.time_now
    kafka_resilience.Tracker.Chain.lock_and_publish kafka_resilience.Tracker.Chain.lock_first_time
    kafka_resilience.Coordinator.acquire kafka_resilience.Coordinator.ensure_id
    kafka_resilience.World.new_uuid kafka_resilience.Coordinator.announce_lock
    kafka_resilience.Coordinator.produce_with_retry kafka_resilience.Base.Exec.catch
    kafka_resilience.Base.Exec.◌>>=◌ kafka_resilience.Coordinator.ensure_topic
    kafka_resilience.Coordinator.lock_record kafka_resilience.Message.Envelope.new_message_envelope
    range parse_value kafka_resilience.Message.Values.format_value
    kafka_resilience.Message.Values.put_header kafka_resilience.Message.Values.set_header
    kafka_resilience.Tracker.Chain.publish_or_roll_back
    kafka_resilience.Tracker.Chain.publish_to_retry original_topic_of kafka_resilience.World.produce
    kafka_resilience.World.Retry.retry_loop
order_is_redirected = refl

first_failure_is_not_shown_example :
    (is_in_retry_chain env tracker first
        (resilient_handle env tracker (as_handler env tracker quiet armed_handler) first start).1
      ≡ true)
    × (handle_locks Web.get (main_delivered env tracker quiet first start armed_handler)
        ≡ answered (record {
          locked_keys = get_locked_keys armed_handler;
          pending_fails = keys (remove first.key armed_handler.fail_keys);
        }))
first_failure_is_not_shown_example =
    first_failure_is_not_shown env env-IsRetrying here tracker tracker-IsLocking quiet start
      armed_handler empty-IsWellFormed first unmarked below order_is_free order_is_free
      order_is_armed order_is_redirected first first_topic first_key
