-- ===== src/Examples/Startup.antt =====
-- A coordinator that restores one lock of another instance, and one whose first Start fails.
use kafka_resilience.Base.{◌≡◌, refl, none, some, [], ◌∷◌, pos, false}
use kafka_resilience.Base.Exec.{ok}
use kafka_resilience.Errors.{new}
use kafka_resilience.Config.{redirect_topic}
use kafka_resilience.Locks.WellFormed.{empty-IsWellFormed}
use kafka_resilience.Message.Envelope.{Envelope}
use kafka_resilience.Admin.{AdminEnvironment}
use kafka_resilience.Coordinator.Startup.{Startup, StartEnvironment, Consumed, start, restore_state}
use kafka_resilience.Coordinator.Startup.Replay.{
  AllDistinct, Replays, restored_records, restore_state-Replays,
}
use kafka_resilience.Coordinator.Startup.Restart.{IsStarted, start_once}
use kafka_resilience.Examples
use kafka_resilience.Examples.{config, here, order, header}

-- The redirect topic has one partition with one record.
abbrev admin : AdminEnvironment
admin = record {
  described = λ n names. ok (
      record {
        name = "redirect_orders";
        partitions = pos 1;
        partition_offsets = (pos 0, pos 8) ∷ [];
      }
      ∷ []);
  create_error = λ n request. none;
}

abbrev foreign_lock : Envelope
foreign_lock =
    order (header "topic" "orders" ∷ header "key" "42" ∷ header "x-coordinator-id" "there" ∷ [])

abbrev restoring : StartEnvironment
restoring = record {
  admin = admin;
  group_id = "refill-1";
  new_consumer = λ group. none;
  handled = foreign_lock ∷ [];
  consumed = Consumed.canceled;
}

-- No consumer can be created.
abbrev refusing : StartEnvironment
refusing = record restoring { new_consumer = λ group. some (new "no broker") }

abbrev unstarted : Startup
unstarted = record {
  started = false;
  topic = "";
  running = 0;
  world = Examples.start;
  cluster = record { requested = []; calls = 0 };
}

start_once_example :
    IsStarted refusing here config "orders" unstarted
      (start refusing here config "orders" unstarted)
    × (start restoring here config "orders" (start refusing here config "orders" unstarted).1
        ≡ (ok tt, (start refusing here config "orders" unstarted).1))
start_once_example = start_once refusing restoring here config "orders" "orders" unstarted refl

handled_distinct : AllDistinct restoring.handled
unfolding AllDistinct kafka_resilience.Message.Headers.Laws.has
handled_distinct = ((refl, (refl, (refl, tt))), tt)

restore_state-Replays_example :
    Replays restoring here
      (restored_records restoring here (admin.described 0 (redirect_topic config "orders" ∷ [])))
      unstarted
      (restore_state restoring here config "orders" unstarted).1
restore_state-Replays_example =
    restore_state-Replays restoring here config "orders" unstarted empty-IsWellFormed
      handled_distinct
