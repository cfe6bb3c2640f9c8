-- ===== src/Tracker/Locking.antt =====
-- The interface between the tracker and its coordinator: what the tracker's proofs use of Acquire and
-- Release, and the Kafka coordinator, which provides it.
use kafka_resilience.Base.{String, none, some, ◌≡◌, ◌<◌, ◌⊎◌, true, false}
use kafka_resilience.Base.Exec.{is_err}
use kafka_resilience.Locks.WellFormed.{IsWellFormed}
use kafka_resilience.Message.Headers.{get}
use kafka_resilience.Message.Envelope.{Envelope}
use kafka_resilience.Message.Values.{header_id, header_topic}
use kafka_resilience.World.{World, Environment}
use kafka_resilience.World.Retry.{IsRetrying}
use kafka_resilience.Coordinator
use kafka_resilience.Coordinator.{Coordinator}
use kafka_resilience.Coordinator.Acquire.{AcquireSpec, own_topic, acquire-Outcome}
use kafka_resilience.Coordinator.Release.{ReleaseOutcome, release-Outcome, release_unlabelled}
use kafka_resilience.Coordinator.Announce.{count}
use kafka_resilience.Coordinator.Instances.{is_locked-count, is_locked-none}
use kafka_resilience.Tracker.{StateCoordinator}

pub record IsLocking (k : Coordinator) (c : StateCoordinator) : Type 0 where
  pub acquired :
      (t : String) (msg : Envelope) (w : World)
      → IsWellFormed w.locks
      → own_topic t msg ≡ t
      → AcquireSpec k t msg w (c.acquire t msg w).0 (c.acquire t msg w).1
  pub released :
      (t id : String) (msg : Envelope) (w : World)
      → IsWellFormed w.locks
      → get header_id msg.headers ≡ some id
      → get header_topic msg.headers ≡ some t
      → ReleaseOutcome k t id msg w (c.release msg w).0 (c.release msg w).1
  pub refused :
      (msg : Envelope) (w : World)
      → (get header_id msg.headers ≡ none) ⊎ (get header_topic msg.headers ≡ none)
      → ((c.release msg w).1 ≡ w) × (is_err (c.release msg w).0 ≡ true)
  pub locked :
      (msg : Envelope) (w : World) → 0 < count w msg.topic msg.key → c.is_locked msg w ≡ true
  pub unlocked :
      (msg : Envelope) (w : World) → count w msg.topic msg.key ≡ 0 → c.is_locked msg w ≡ false

abbrev pub kafka_coordinator : Environment → Coordinator → StateCoordinator
kafka_coordinator env k = record {
  acquire = Coordinator.acquire env k;
  release = Coordinator.release env k;
  is_locked = Coordinator.is_locked;
}

pub kafka_coordinator-IsLocking :
    (env : Environment) (k : Coordinator) → IsRetrying env → IsLocking k (kafka_coordinator env k)
kafka_coordinator-IsLocking env k law = record {
  acquired = acquire-Outcome env law k;
  released = release-Outcome env k law;
  refused = release_unlabelled env k;
  locked = is_locked-count;
  unlocked = is_locked-none;
}
