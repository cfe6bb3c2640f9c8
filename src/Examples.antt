-- ===== src/Examples.antt =====
-- The theorems at concrete inputs: one service on the topic "orders", with the Kafka coordinator.
mod Chain
mod Retries
mod Rounds
mod Locking
mod Settings
mod Restoring
mod Adapter
mod Topics
mod Lifecycle
mod Startup
mod Claims
mod Creating
mod Background
mod Backoff
mod Synchronize
mod Demo
mod Manual
mod Ordering
mod Recovery
use kafka_resilience.Base.{
  ◌≡◌, suc, refl, String, Option, none, some, List, [], ◌∷◌, pos, ◌<◌, true, false,
}
use kafka_resilience.Errors.{Error, new}
use kafka_resilience.Config.{Config, new_default_config}
use kafka_resilience.Locks
use kafka_resilience.Locks.WellFormed.{IsWellFormed, empty-IsWellFormed}
use kafka_resilience.Locks.Local.{acquire-IsWellFormed}
use kafka_resilience.Message.Envelope.{Envelope}
use kafka_resilience.Message.Headers.{Header}
use kafka_resilience.Message.Values.{Time, unix, zero_time}
use kafka_resilience.World.{World, Environment}
use kafka_resilience.World.Retry.{retry_loop, retry_loop-Tries, IsRetrying}
use kafka_resilience.Coordinator.{Coordinator}
use kafka_resilience.Tracker.{Tracker}
use kafka_resilience.Tracker.Locking.{IsLocking, kafka_coordinator, kafka_coordinator-IsLocking}

-- A producer that accepts everything, under a clock that stands still.
abbrev pub env : Environment
env = record {
  produce_error = λ n topic msg. none;
  new_id = λ n. "lock-1";
  clock = λ n. unix (pos 1000);
  wait_error = λ n deadline. none;
  retry_do = retry_loop;
}

pub env-IsRetrying : IsRetrying env
env-IsRetrying = record { tries = λ n. retry_loop-Tries (suc n) }

abbrev pub here : Coordinator
here = record { redirect_topic_prefix = "redirect"; instance_id = "here" }

abbrev pub there : Coordinator
there = record { redirect_topic_prefix = "redirect"; instance_id = "there" }

abbrev pub config : Config
config = record new_default_config { group_id = "shop"; free_on_dlq = true }

abbrev pub tracker : Tracker
tracker = record {
  cfg = config;
  coordinator = kafka_coordinator env here;
  next_delay = λ attempt. pos 1000000000;
}

pub tracker-IsLocking : IsLocking here tracker.coordinator
tracker-IsLocking = kafka_coordinator-IsLocking env here env-IsRetrying

abbrev pub header : String → String → Header
header key value = record { key = key; value = value }

abbrev pub order : List Header → Envelope
order headers = record {
  timestamp = zero_time;
  topic = "orders";
  key = "42";
  payload = some "paid";
  headers = headers;
  partition = pos 0;
  offset = pos 7;
}

abbrev pub first : Envelope
first = order (header "trace" "t-1" ∷ [])

-- The same order in the retry chain, with its attempt.
abbrev pub retried : String → Envelope
retried attempt = order (
    header "id" "lock-1"
    ∷ header "topic" "orders"
    ∷ header "retry" "true"
    ∷ header "x-retry-attempt" attempt
    ∷ header "x-retry-next-time" "2000"
    ∷ [])

abbrev pub failure : Error
failure = new "no stock"

abbrev pub start : World
start = record { locks = []; sent = []; produce_calls = 0; id_calls = 0; clock_calls = 0 }

abbrev pub locked : World
locked = record start { locks = Locks.acquire "orders" first [] }

pub locked-IsWellFormed : IsWellFormed locked.locks
locked-IsWellFormed = acquire-IsWellFormed "orders" first [] empty-IsWellFormed
