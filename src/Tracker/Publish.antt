-- ===== src/Tracker/Publish.antt =====
-- Publishing to the retry topic, and the rollback of the lock where that fails.
use kafka_resilience.Base.{
  ℕ, ◌+◌, ◌-◌, ◌<◌, String, ◌≡◌, refl, some, ◌∷◌, ◌∙◌, subst, arith, if◌then◌else◌, eq_iff,
}
use kafka_resilience.Base.Exec.{Result, ok, err, raise, ◌>>=◌, ◌>>◌, catch, ignore}
use kafka_resilience.Errors.{Error, wrap}
use kafka_resilience.Locks.Counts.{same}
use kafka_resilience.Locks.WellFormed.{IsWellFormed}
use kafka_resilience.Message.Headers.{get}
use kafka_resilience.Message.Envelope.{Envelope}
use kafka_resilience.Message.Values.{Time, header_id, header_topic}
use kafka_resilience.World.{World, Environment, produce, time_now}
use kafka_resilience.World.Retry.{
  IsRetrying, Tries, success, again, give_up, Produced, produce-Produced,
}
use kafka_resilience.Coordinator.{Coordinator}
use kafka_resilience.Coordinator.Announce.{count}
use kafka_resilience.Coordinator.Release.{ReleaseOutcome, Released, Restored}
use kafka_resilience.Tracker.{Tracker, RetryData, retry_message}
use kafka_resilience.Tracker.Locking.{IsLocking}
use kafka_resilience.Tracker.Chain.{publish_to_retry, publish_or_roll_back, at_key}

abbrev pub SameCounts : World → World → Type 0
SameCounts w w' = (t j : String) → count w' t j ≡ count w t j

abbrev pub OneLess : String → String → World → World → Type 0
OneLess topic key w w' =
    (t j : String) → count w' t j ≡ (if same topic key t j then count w t j - 1 else count w t j)

-- A held lock after a rollback: freed where the rollback worked, and kept where it did not.
abbrev pub RollbackOutcome : String → String → World → Result Error (Unit {0}) → World → Type 0
RollbackOutcome topic key w (ok u) w' = OneLess topic key w w' × IsWellFormed w'.locks
RollbackOutcome topic key w (err e) w' = SameCounts w w' × IsWellFormed w'.locks

pub held :
    {topic : String} {msg : Envelope} {w w' : World}
    → 0 < count w topic msg.key
    → Restored topic msg w w'
    → SameCounts w w'
held {topic} {msg} {w} h r t j = ground (arith, r.counts t j, eq_iff topic t, eq_iff msg.key j)

RollbackOutcome-before :
    (topic key : String) (w v w' : World) (r : Result Error (Unit {0}))
    → SameCounts w v
    → RollbackOutcome topic key v r w'
    → RollbackOutcome topic key w r w'
RollbackOutcome-before topic key w v w' (ok u) s (less, wf) = ((λ t j. less t j ∙ rw s refl), wf)
RollbackOutcome-before topic key w v w' (err e) s (kept, wf) = ((λ t j. kept t j ∙ s t j), wf)

module _ (k : Coordinator) (t : Tracker) (law : IsLocking k t.coordinator) (topic id : String)
    (msg : Envelope) (has_id : get header_id msg.headers ≡ some id)
    (has_topic : get header_topic msg.headers ≡ some topic) where
  release-RollbackOutcome :
      (w w' : World) (r : Result Error (Unit {0}))
      → IsWellFormed w.locks
      → 0 < count w topic msg.key
      → t.coordinator.release msg w ≡ (r, w')
      → RollbackOutcome topic msg.key w r w'
  release-RollbackOutcome w w' (ok u) wf h e =
      let o : Released k topic id msg w w' =
        subst (λ p. ReleaseOutcome k topic id msg w p.0 p.1) e
          (law.released topic id msg w wf has_id has_topic) in
      (o.counts, o.well_formed)
  release-RollbackOutcome w w' (err d) wf h e =
      let o : Restored topic msg w w' =
        subst (λ p. ReleaseOutcome k topic id msg w p.0 p.1) e
          (law.released topic id msg w wf has_id has_topic) in
      (held h o, o.well_formed)

  Tries-RollbackOutcome :
      {n : ℕ} {w w' : World} {r : Result Error (Unit {0})}
      → Tries (t.coordinator.release msg) n w r w'
      → IsWellFormed w.locks
      → 0 < count w topic msg.key
      → RollbackOutcome topic msg.key w r w'
  Tries-RollbackOutcome {w} {w'} (success e) wf h = release-RollbackOutcome w w' (ok tt) wf h e
  Tries-RollbackOutcome {w} {w'} {r} (again {v} d e rest) wf h =
      let (same_counts, wf') = release-RollbackOutcome w v (err d) wf h e in
      RollbackOutcome-before topic msg.key w v w' r same_counts
        (Tries-RollbackOutcome rest wf' (rw same_counts h))
  Tries-RollbackOutcome (give_up d) wf h = ((λ t' j. refl), wf)

-- Publishing that failed: the message was not sent, and from there the release of the lock was tried
-- three times, which freed the lock or left it.
pub record RolledBack (env : Environment) (t : Tracker) (topic : String) (msg : Envelope)
    (w w' : World) : Type 0 where
  pub failed_at : World
  pub nothing_sent : failed_at.sent ≡ w.sent
  pub same_locks : failed_at.locks ≡ w.locks
  pub ended : w' ≡ (env.retry_do 3 (t.coordinator.release msg) failed_at).1
  pub outcome :
      RollbackOutcome topic msg.key w (env.retry_do 3 (t.coordinator.release msg) failed_at).0 w'

-- What publishing promises: the retry message is out and the lock stays, or the message is not out
-- and the rollback has run.
abbrev pub PublishOutcome :
    Environment → Tracker → RetryData → Envelope → World → Result Error (Unit {0}) → World → Type 0
PublishOutcome env t d msg w (ok u) w' =
    (now : Time) × (w'.sent
      ≡ record {
        topic = (retry_message t.cfg d msg now).topic;
        message = retry_message t.cfg d msg now;
      }
        ∷ w.sent)
    × (w'.locks ≡ w.locks)
PublishOutcome env t d msg w (err e) w' = RolledBack env t d.original_topic msg w w'

abbrev ticked : World → World
ticked w = record w { clock_calls = w.clock_calls + 1 }

module _ (env : Environment) (retrying : IsRetrying env) (k : Coordinator) (t : Tracker)
    (law : IsLocking k t.coordinator) where
  settled :
      (d : RetryData) (msg : Envelope) (w : World) (now : Time)
      (p : Result Error (Unit {0}) × World)
      → IsWellFormed w.locks
      → get header_id msg.headers ≡ some d.id
      → get header_topic msg.headers ≡ some d.original_topic
      → 0 < count w d.original_topic msg.key
      → Produced
          (retry_message t.cfg d msg now).topic
          (retry_message t.cfg d msg now)
          (ticked w)
          p.0
          p.1
      → PublishOutcome env t d msg w
          (catch
            (λ (s : World). p)
            (λ e. do
              ignore (env.retry_do 3 (t.coordinator.release msg))
              raise (wrap (at_key "failed to publish to retry topic" d.original_topic msg.key) e))
            w).0
          (catch
            (λ (s : World). p)
            (λ e. do
              ignore (env.retry_do 3 (t.coordinator.release msg))
              raise (wrap (at_key "failed to publish to retry topic" d.original_topic msg.key) e))
            w).1
  unfolding ◌>>=◌ catch ignore
  settled d msg w now (ok u, v) wf has_id has_topic h (sent, locks) = (now, sent, locks)
  settled d msg w now (err e, v) wf has_id has_topic h (sent, locks) = record {
    failed_at = v;
    nothing_sent = sent;
    same_locks = locks;
    ended = refl;
    outcome =
        RollbackOutcome-before d.original_topic msg.key w v
          (env.retry_do 3 (t.coordinator.release msg) v).1
          (env.retry_do 3 (t.coordinator.release msg) v).0 (λ t' j. rw locks refl)
          (Tries-RollbackOutcome k t law d.original_topic d.id msg has_id has_topic
            (retrying.tries 2 (t.coordinator.release msg) v) (rw locks wf) (rw locks h));
  }

  -- Publishing a message that holds a lock.
  pub publish_or_roll_back-Outcome :
      (d : RetryData) (msg : Envelope) (w : World)
      → IsWellFormed w.locks
      → get header_id msg.headers ≡ some d.id
      → get header_topic msg.headers ≡ some d.original_topic
      → 0 < count w d.original_topic msg.key
      → PublishOutcome env t d msg w
          (publish_or_roll_back env t d msg w).0
          (publish_or_roll_back env t d msg w).1
  unfolding publish_or_roll_back publish_to_retry time_now
  publish_or_roll_back-Outcome d msg w wf has_id has_topic h =
      let now : Time = env.clock w.clock_calls in
      let m : Envelope = retry_message t.cfg d msg now in
      let p : Result Error (Unit {0}) × World = produce env m.topic m (ticked w) in
      settled d msg w now p wf has_id has_topic h
        (produce-Produced env m.topic m (ticked w) p.1 p.0 refl)
