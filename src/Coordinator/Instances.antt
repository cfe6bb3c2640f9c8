-- ===== src/Coordinator/Instances.antt =====
-- Two instances of the program: what one of them announces and the other one processes.
use kafka_resilience.Base.{ltb, ◌+◌, ◌<◌, String, ◌≡◌, true, false, ◌≢◌, arith, eq_refl, eq_iff}
use kafka_resilience.Locks.WellFormed.{IsWellFormed}
use kafka_resilience.Locks.Local.{is_locked-refs}
use kafka_resilience.Message.Headers.Laws.{IsDistinct}
use kafka_resilience.Message.Envelope.{Envelope}
use kafka_resilience.World.{World, Sent}
use kafka_resilience.Coordinator.{Coordinator, is_locked, process_redirect_message}
use kafka_resilience.Coordinator.Announce.{count, Announces}
use kafka_resilience.Coordinator.Release.{Withdraws}
use kafka_resilience.Coordinator.Redirects.{process_lock, process_tombstone}

-- The state after a record of the redirect topic.
abbrev pub after : Coordinator → Sent → World → World
after k s w = (process_redirect_message k s.message w).1

-- A key is locked exactly if it is counted.
pub is_locked-ltb :
    (msg : Envelope) (w : World) → is_locked msg w ≡ ltb 0 (count w msg.topic msg.key)
unfolding is_locked
is_locked-ltb msg w = is_locked-refs msg w.locks

pub is_locked-count :
    (msg : Envelope) (w : World) → 0 < count w msg.topic msg.key → is_locked msg w ≡ true
unfolding is_locked
is_locked-count msg w h = ground (arith, is_locked-refs msg w.locks)

pub is_locked-none :
    (msg : Envelope) (w : World) → count w msg.topic msg.key ≡ 0 → is_locked msg w ≡ false
unfolding is_locked
is_locked-none msg w h = ground (arith, is_locked-refs msg w.locks)

-- The instance `here` processes the lock that the instance `there` announced for `msg` under `t`:
-- every message of that topic with that key is locked here from then on.
pub lock_is_seen :
    (here there : Coordinator) (t id : String) (msg : Envelope) (lock : Sent) (w : World)
    → there.instance_id ≢ here.instance_id
    → IsWellFormed w.locks
    → Announces there t id msg lock
    → (m : Envelope) → m.topic ≡ t
    → m.key ≡ msg.key
    → is_locked m (after here lock w) ≡ true
lock_is_seen here there t id msg lock w foreign wf a m topic key =
    let (_, counts, _) =
      process_lock here lock.message w there.instance_id foreign a.names_instance wf id t msg.key
        a.has_payload a.names_topic a.names_key in
    is_locked-count m (after here lock w)
      (ground (arith, counts m.topic m.key, eq_iff t m.topic, eq_iff msg.key m.key))

-- The instance `there` locks a message and later releases it, and the instance `here` processes both
-- records in order. The count here goes up and does not come down: the key stays locked here, if
-- the id of the lock is not the key of the message.
pub foreign_release_is_not_seen :
    (here there : Coordinator) (t id : String) (msg : Envelope) (lock tombstone : Sent) (w : World)
    → there.instance_id ≢ here.instance_id
    → IsWellFormed w.locks
    → Announces there t id msg lock
    → Withdraws there t id msg tombstone
    → IsDistinct tombstone.message.headers
    → id ≢ msg.key
    → (m : Envelope) → m.topic ≡ t
    → m.key ≡ msg.key
    → (count (after here tombstone (after here lock w)) t msg.key ≡ count w t msg.key + 1)
      × (is_locked m (after here tombstone (after here lock w)) ≡ true)
foreign_release_is_not_seen here there t id msg lock tombstone w foreign wf a d distinct ne m topic
      key =
    let (_, up, wf') =
      process_lock here lock.message w there.instance_id foreign a.names_instance wf id t msg.key
        a.has_payload a.names_topic a.names_key in
    let (_, down, _) =
      process_tombstone here tombstone.message (after here lock w) there.instance_id foreign
        d.names_instance wf' t msg.key d.has_no_payload distinct d.names_topic d.names_key in
    let stays : count (after here tombstone (after here lock w)) t msg.key ≡ count w t msg.key + 1 =
      ground (
        arith,
        down t msg.key,
        up t msg.key,
        d.keyed_by_id,
        eq_refl t,
        eq_refl msg.key,
        eq_iff tombstone.message.key msg.key,
      ) in
    (stays, is_locked-count m _ (ground (arith, stays)))
