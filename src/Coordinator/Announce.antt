-- ===== src/Coordinator/Announce.antt =====
-- Acquire: a lock is counted and announced, or nothing is.
use kafka_resilience.Base.{ℕ, ◌+◌, String, ◌≡◌, refl, some, ◌∷◌, if◌then◌else◌, arith}
use kafka_resilience.Base.Exec.{Exec, Result, ok, err, pure, raise, ◌>>=◌, ◌>>◌, catch}
use kafka_resilience.Errors.{Error, wrap}
use kafka_resilience.Locks
use kafka_resilience.Locks.{LockMap, lock_topic}
use kafka_resilience.Locks.Counts.{same}
use kafka_resilience.Locks.WellFormed.{IsWellFormed}
use kafka_resilience.Locks.Local.{
  refs, refs-acquire, refs-acquire-release, acquire-IsWellFormed, release-IsWellFormed,
}
use kafka_resilience.Message.Headers.{get}
use kafka_resilience.Message.Envelope.{Envelope, own, new_message_envelope}
use kafka_resilience.Message.Values.{header_topic, header_key, header_coordinator_id}
use kafka_resilience.Message.Values.RoundTrip.{get_text}
use kafka_resilience.World.{World, Sent, Environment, on_locks}
use kafka_resilience.World.Retry.{IsRetrying, Produced, retry-Produced}
use kafka_resilience.Coordinator.{
  Coordinator, produce_with_retry, redirect_topic, redirect_headers, announce_lock,
}
use kafka_resilience.Message.Headers.Laws.{get-set}

-- The reference counts of a state.
abbrev pub count : World → String → String → ℕ
count w t k = refs w.locks t k

-- A message with a topic header is counted under it.
pub lock_topic_of_header :
    (msg : Envelope) (t : String) → get header_topic msg.headers ≡ some t → lock_topic msg ≡ t
unfolding lock_topic
lock_topic_of_header msg t h = ground (arith, get_text msg.headers header_topic)

-- The record of the redirect topic that announces the lock of `msg` under `topic`.
pub record Announces (k : Coordinator) (topic id : String) (msg : Envelope) (sent : Sent)
    : Type 0 where
  pub to_redirect_topic : sent.topic ≡ redirect_topic k topic
  pub keyed_by_id : sent.message.key ≡ id
  pub has_payload : sent.message.payload ≡ some id
  pub names_topic : get header_topic sent.message.headers ≡ some topic
  pub names_key : get header_key sent.message.headers ≡ some msg.key
  pub names_instance : get header_coordinator_id sent.message.headers ≡ some k.instance_id

-- The state is as it was, for everyone who reads counts or the topics.
pub record Unchanged (w w' : World) : Type 0 where
  pub counts : (t k : String) → count w' t k ≡ count w t k
  pub nothing_sent : w'.sent ≡ w.sent
  pub well_formed : IsWellFormed w'.locks

-- One more reference for the topic and key, and one record more, which announces it.
pub record Locked (k : Coordinator) (topic id : String) (msg : Envelope) (w w' : World)
    : Type 0 where
  pub counts :
      (t j : String)
      → count w' t j ≡ (if same topic msg.key t j then count w t j + 1 else count w t j)
  pub lock : Sent
  pub announced : w'.sent ≡ lock ∷ w.sent
  pub announces : Announces k topic id msg lock
  pub well_formed : IsWellFormed w'.locks

abbrev lock_message : Environment → Coordinator → String → String → Envelope → World → Envelope
lock_message env k t id msg w =
    new_message_envelope (env.clock w.clock_calls) (redirect_topic k t) id (some id)
      (own (redirect_headers k t msg))

module _ (env : Environment) (k : Coordinator) where
  lock_message-Announces :
      (t id : String) (msg : Envelope) (w : World)
      → Announces k t id msg (record {
        topic = (lock_message env k t id msg w).topic;
        message = lock_message env k t id msg w;
      })
  unfolding new_message_envelope
  lock_message-Announces t id msg w = record {
    to_redirect_topic = refl;
    keyed_by_id = refl;
    has_payload = refl;
    names_topic = simp get-set;
    names_key = simp get-set;
    names_instance = simp get-set;
  }

-- What `announce_lock` promises of its result and the state behind it.
abbrev pub AcquireOutcome :
    Coordinator → String → String → Envelope → World → Result Error Envelope → World → Type 0
AcquireOutcome k topic id msg w (ok m) w' = (m ≡ msg) × Locked k topic id msg w w'
AcquireOutcome k topic id msg w (err e) w' = Unchanged w w'

-- The end of `announce_lock`, by the result of the producer.
abbrev settle_acquire : Envelope → Result Error (Unit {0}) × World → Result Error Envelope × World
settle_acquire msg (ok u, v) = (ok msg, v)
settle_acquire msg (err e, v) = (
  err (wrap "failed to produce acquire message" e),
  record v { locks = Locks.release msg v.locks },
)

-- The state in which the record is produced.
abbrev counted : Environment → Coordinator → String → Envelope → World → World
counted env k t msg w = record w {
  locks = Locks.acquire t msg w.locks;
  clock_calls = w.clock_calls + 1;
}

abbrev release_and_fail : Envelope → Error → Exec World Error (Unit {0})
release_and_fail msg e = do
  on_locks (Locks.release msg)
  raise (wrap "failed to produce acquire message" e)

settle_acquire_lem :
    (msg : Envelope) (w : World) (p : Result Error (Unit {0}) × World)
    → (catch (λ (s : World). p) (release_and_fail msg) >>= λ u. pure msg) w ≡ settle_acquire msg p
unfolding ◌>>=◌ catch
settle_acquire_lem msg w (ok u, v) = refl
settle_acquire_lem msg w (err e, v) = refl

module _ (env : Environment) (k : Coordinator) where
  announce_lock_lem :
      (t id : String) (msg : Envelope) (w : World)
      → announce_lock env k t id msg w
        ≡ settle_acquire msg
            (produce_with_retry env (lock_message env k t id msg w) (counted env k t msg w))
  unfolding announce_lock
  announce_lock_lem t id msg w =
      settle_acquire_lem msg w
        (produce_with_retry env (lock_message env k t id msg w) (counted env k t msg w))

  settle_acquire-Outcome :
      (t id : String) (msg : Envelope) (w : World) (p : Result Error (Unit {0}) × World)
      → IsWellFormed w.locks
      → lock_topic msg ≡ t
      → Produced
          (lock_message env k t id msg w).topic
          (lock_message env k t id msg w)
          (counted env k t msg w)
          p.0
          p.1
      → AcquireOutcome k t id msg w (settle_acquire msg p).0 (settle_acquire msg p).1
  settle_acquire-Outcome t id msg w (ok u, v) wf topic (sent, locks) = (
    refl,
    record {
      counts = λ t' j. rw locks (refs-acquire t msg w.locks t' j wf);
      lock = record {
        topic = (lock_message env k t id msg w).topic;
        message = lock_message env k t id msg w;
      };
      announced = sent;
      announces = lock_message-Announces env k t id msg w;
      well_formed = rw locks (acquire-IsWellFormed t msg w.locks wf);
    },
  )
  settle_acquire-Outcome t id msg w (err e, v) wf topic (sent, locks) = record {
    counts = λ t' j. rw locks (refs-acquire-release t msg w.locks t' j wf topic);
    nothing_sent = sent;
    well_formed = rw locks (release-IsWellFormed msg _ (acquire-IsWellFormed t msg w.locks wf));
  }

  pub announce_lock-Outcome :
      IsRetrying env
      → (t id : String) (msg : Envelope) (w : World) → IsWellFormed w.locks
      → lock_topic msg ≡ t
      → AcquireOutcome k t id msg w
          (announce_lock env k t id msg w).0
          (announce_lock env k t id msg w).1
  unfolding produce_with_retry
  announce_lock-Outcome law t id msg w wf topic = rw announce_lock_lem (
      settle_acquire-Outcome t id msg w _ wf topic
        (retry-Produced env law 2 _ (lock_message env k t id msg w) (counted env k t msg w)))
