-- ===== src/Coordinator/Release.antt =====
-- Release: a reference is dropped and a tombstone written, or the count is put back.
use kafka_resilience.Base.{
  ◌+◌, ◌-◌, String, ◌≡◌, refl, ◌⊎◌, true, none, some, ◌∷◌, if◌then◌else◌, arith, ◌∙◌,
}
use kafka_resilience.Base.Exec.{Exec, Result, ok, err, raise, is_err, ◌>>=◌, ◌>>◌, catch}
use kafka_resilience.Errors.{Error, wrap}
use kafka_resilience.Locks
use kafka_resilience.Locks.{lock_topic}
use kafka_resilience.Locks.Counts.{same}
use kafka_resilience.Locks.WellFormed.{IsWellFormed}
use kafka_resilience.Locks.Local.{
  refs-acquire, refs-release, acquire-IsWellFormed, release-IsWellFormed,
}
use kafka_resilience.Message.Headers.{get, set}
use kafka_resilience.Message.Headers.Laws.{get-set}
use kafka_resilience.Message.Envelope.{Envelope, own, new_message_envelope}
use kafka_resilience.Message.Values.{header_id, header_topic, header_key, header_coordinator_id}
use kafka_resilience.Message.Values.RoundTrip.{get_text}
use kafka_resilience.World.{World, Sent, Environment, on_locks}
use kafka_resilience.World.Retry.{IsRetrying, Produced, retry-Produced}
use kafka_resilience.Coordinator.{
  Coordinator, release, announce_release, produce_with_retry, redirect_topic, redirect_headers,
}
use kafka_resilience.Coordinator.Announce.{count, lock_topic_of_header}

-- The record of the redirect topic that announces the release.
pub record Withdraws (k : Coordinator) (topic id : String) (msg : Envelope) (sent : Sent)
    : Type 0 where
  pub to_redirect_topic : sent.topic ≡ redirect_topic k topic
  pub keyed_by_id : sent.message.key ≡ id
  pub has_no_payload : sent.message.payload ≡ none
  pub names_topic : get header_topic sent.message.headers ≡ some topic
  pub names_key : get header_key sent.message.headers ≡ some msg.key
  pub names_instance : get header_coordinator_id sent.message.headers ≡ some k.instance_id

pub record Released (k : Coordinator) (topic id : String) (msg : Envelope) (w w' : World)
    : Type 0 where
  pub counts :
      (t j : String)
      → count w' t j ≡ (if same topic msg.key t j then count w t j - 1 else count w t j)
  pub tombstone : Sent
  pub announced : w'.sent ≡ tombstone ∷ w.sent
  pub withdraws : Withdraws k topic id msg tombstone
  pub well_formed : IsWellFormed w'.locks

-- The rollback adds a reference even where there was none to drop.
pub record Restored (topic : String) (msg : Envelope) (w w' : World) : Type 0 where
  pub counts :
      (t j : String)
      → count w' t j ≡ (if same topic msg.key t j then count w t j - 1 + 1 else count w t j)
  pub nothing_sent : w'.sent ≡ w.sent
  pub well_formed : IsWellFormed w'.locks

abbrev pub ReleaseOutcome :
    Coordinator → String → String → Envelope → World → Result Error (Unit {0}) → World → Type 0
ReleaseOutcome k topic id msg w (ok u) w' = Released k topic id msg w w'
ReleaseOutcome k topic id msg w (err e) w' = Restored topic msg w w'

abbrev tombstone_message : Environment → Coordinator → String → String → Envelope → World → Envelope
tombstone_message env k t id msg w =
    new_message_envelope (env.clock w.clock_calls) (redirect_topic k t) id none
      (own (set header_id id (redirect_headers k t msg)))

abbrev settle_release :
    String → Envelope → Result Error (Unit {0}) × World → Result Error (Unit {0}) × World
settle_release t msg (ok u, v) = (ok u, v)
settle_release t msg (err e, v) = (
  err (wrap "failed to produce release message" e),
  record v { locks = Locks.acquire t msg v.locks },
)

abbrev uncounted : Envelope → World → World
uncounted msg w = record w { locks = Locks.release msg w.locks; clock_calls = w.clock_calls + 1 }

abbrev acquire_and_fail : String → Envelope → Error → Exec World Error (Unit {0})
acquire_and_fail t msg e = do
  on_locks (Locks.acquire t msg)
  raise (wrap "failed to produce release message" e)

settle_release_lem :
    (t : String) (msg : Envelope) (w : World) (p : Result Error (Unit {0}) × World)
    → catch (λ (s : World). p) (acquire_and_fail t msg) w ≡ settle_release t msg p
unfolding ◌>>=◌ catch
settle_release_lem t msg w (ok u, v) = refl
settle_release_lem t msg w (err e, v) = refl

module _ (env : Environment) (k : Coordinator) where
  announce_release_lem :
      (t id : String) (msg : Envelope) (w : World)
      → announce_release env k t id msg w
        ≡ settle_release t msg
            (produce_with_retry env (tombstone_message env k t id msg w) (uncounted msg w))
  unfolding announce_release
  announce_release_lem t id msg w =
      settle_release_lem t msg w
        (produce_with_retry env (tombstone_message env k t id msg w) (uncounted msg w))

  tombstone_message-Withdraws :
      (t id : String) (msg : Envelope) (w : World)
      → Withdraws k t id msg (record {
        topic = (tombstone_message env k t id msg w).topic;
        message = tombstone_message env k t id msg w;
      })
  unfolding new_message_envelope
  tombstone_message-Withdraws t id msg w = record {
    to_redirect_topic = refl;
    keyed_by_id = refl;
    has_no_payload = refl;
    names_topic = simp get-set;
    names_key = simp get-set;
    names_instance = simp get-set;
  }

  settle_release-Outcome :
      (t id : String) (msg : Envelope) (w : World) (p : Result Error (Unit {0}) × World)
      → IsWellFormed w.locks
      → lock_topic msg ≡ t
      → Produced
          (tombstone_message env k t id msg w).topic
          (tombstone_message env k t id msg w)
          (uncounted msg w)
          p.0
          p.1
      → ReleaseOutcome k t id msg w (settle_release t msg p).0 (settle_release t msg p).1
  settle_release-Outcome t id msg w (ok u, v) wf topic (sent, locks) = record {
    counts = λ t' j. rw (locks, ← topic) (refs-release msg w.locks t' j);
    tombstone = record {
      topic = (tombstone_message env k t id msg w).topic;
      message = tombstone_message env k t id msg w;
    };
    announced = sent;
    withdraws = tombstone_message-Withdraws t id msg w;
    well_formed = rw locks (release-IsWellFormed msg w.locks wf);
  }
  settle_release-Outcome t id msg w (err e, v) wf topic (sent, locks) = record {
    counts = λ t' j. rw locks (
        refs-acquire t msg _ t' j (release-IsWellFormed msg w.locks wf)
        ∙ ground (arith, refs-release msg w.locks t' j, topic));
    nothing_sent = sent;
    well_formed = rw locks (acquire-IsWellFormed t msg _ (release-IsWellFormed msg w.locks wf));
  }

  -- Release of a message with its id and topic. Where it succeeds, the key has one reference less and
  -- one tombstone is sent. Where it fails, nothing is sent and the reference that was dropped is added
  -- again; where there was none to drop, one is added all the same. The counts stay well-formed either
  -- way.
  pub release-Outcome :
      IsRetrying env
      → (t id : String) (msg : Envelope) (w : World) → IsWellFormed w.locks
      → get header_id msg.headers ≡ some id
      → get header_topic msg.headers ≡ some t
      → ReleaseOutcome k t id msg w (release env k msg w).0 (release env k msg w).1
  unfolding release produce_with_retry
  release-Outcome law t id msg w wf has_id has_topic =
      rw (get_text, get_text, has_id, has_topic)
        (rw announce_release_lem (
          settle_release-Outcome t id msg w _ wf (lock_topic_of_header msg t has_topic)
            (retry-Produced env law 2 _ (tombstone_message env k t id msg w) (uncounted msg w))))

  -- A message that lacks its id or its topic is refused, and nothing changes.
  pub release_unlabelled :
      (msg : Envelope) (w : World)
      → (get header_id msg.headers ≡ none) ⊎ (get header_topic msg.headers ≡ none)
      → ((release env k msg w).1 ≡ w) × (is_err (release env k msg w).0 ≡ true)
  unfolding release
  release_unlabelled msg w h =
      ground (arith, get_text msg.headers header_id, get_text msg.headers header_topic)
