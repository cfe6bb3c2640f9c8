-- ===== src/Examples/Recovery.antt =====
-- An instance that starts behind the claim of three orders at another one.
use kafka_resilience.Base.{ltb, ◌+◌, ◌≡◌, refl, String, true, false, none, [], ◌∷◌, pos}
use kafka_resilience.Base.Exec.{ok}
use kafka_resilience.Locks.WellFormed.{empty-IsWellFormed}
use kafka_resilience.Admin.{AdminEnvironment, TopicMetadata}
use kafka_resilience.Coordinator.{redirect_topic, is_locked}
use kafka_resilience.Coordinator.Announce.{count}
use kafka_resilience.Coordinator.Startup.{
  Startup, StartEnvironment, Consumed, has_data, restore_state,
}
use kafka_resilience.Tracker.Order.Queue.{occurrences}
use kafka_resilience.Tracker.Order.Shared.{after_all}
use kafka_resilience.Tracker.Order.Recovery.{messages_of, restart_blocks_queued}
use kafka_resilience.Examples.{
  env, env-IsRetrying, here, there, config, tracker, tracker-IsLocking, first, start,
}
use kafka_resilience.Examples.Ordering.{
  second, verdict, orders, orders-IsFresh, all_are_retriable, unmarked_claim, nothing_is_blocked,
  all_are_taken, after, topics_differ, instances_differ,
}

abbrev metadata : TopicMetadata
metadata = record {
  name = "redirect_orders";
  partitions = pos 1;
  partition_offsets = (pos 0, pos 2) ∷ [];
}

abbrev admin : AdminEnvironment
admin = record { described = λ n names. ok (metadata ∷ []); create_error = λ n request. none }

abbrev restarting : StartEnvironment
restarting = record {
  admin = admin;
  group_id = "refill-2";
  new_consumer = λ group. none;
  handled = messages_of (redirect_topic here "orders") after.sent;
  consumed = Consumed.canceled;
}

abbrev unstarted : Startup
unstarted = record {
  started = false;
  topic = "";
  running = 0;
  world = start;
  cluster = record { requested = []; calls = 0 };
}

has_records : has_data metadata.partition_offsets ≡ true
unfolding has_data
has_records = refl

restart_blocks_queued_example :
    ((j : String)
      → count (restore_state restarting there config "orders" unstarted).1.world "orders" j
        ≡ count start "orders" j + occurrences j (first ∷ second ∷ []))
    × (is_locked first (restore_state restarting there config "orders" unstarted).1.world
        ≡ ltb 0 (count start "orders" first.key + occurrences first.key (first ∷ second ∷ [])))
unfolding after_all
restart_blocks_queued_example =
    restart_blocks_queued env env-IsRetrying here tracker tracker-IsLocking "orders" verdict
      all_are_retriable orders orders-IsFresh (λ j. false) unmarked_claim empty-IsWellFormed
      nothing_is_blocked all_are_taken there instances_differ topics_differ restarting unstarted
      empty-IsWellFormed metadata [] refl has_records refl refl first refl
