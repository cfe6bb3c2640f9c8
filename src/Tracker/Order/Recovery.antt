-- ===== src/Tracker/Order/Recovery.antt =====
-- The start of an instance (resilience/coordinator_kafka.go) behind a claim at another one, which may be
-- gone: what restoreState reads from the redirect topic blocks the keys of the queued messages.
use kafka_resilience.Base.{
  ltb, ◌+◌, ◌≡◌, ◌≢◌, refl, ap, ◌∙◌, Bool-cases, inl, inr, String, Bool, true, ◌==◌, none, List, [],
  ◌∷◌, ◌++◌, map, if◌then◌else◌,
}
use kafka_resilience.Base.Exec.{Result, ok, err, ◌>>=◌}
use kafka_resilience.Errors.{Error}
use kafka_resilience.Config
use kafka_resilience.Config.{Config, retry_topic}
use kafka_resilience.Locks.WellFormed.{IsWellFormed}
use kafka_resilience.Message.Envelope.{Envelope}
use kafka_resilience.World.{World, Sent, Environment}
use kafka_resilience.World.Retry.{IsRetrying}
use kafka_resilience.Admin.{TopicMetadata, describe_topics}
use kafka_resilience.Coordinator.{Coordinator, redirect_topic, is_locked, process_redirect_message}
use kafka_resilience.Coordinator.Announce.{count}
use kafka_resilience.Coordinator.Offsets.{Offsets, Consumer, fill_handle, settle_fill}
use kafka_resilience.Coordinator.Startup.{
  Startup, StartEnvironment, fill_all, filled, has_data, refill, restore_from,
  describe_redirect_topic, restore_state,
}
use kafka_resilience.Sarama.Consumer.{message, Claim, consume_claim}
use kafka_resilience.Tracker.{Tracker}
use kafka_resilience.Tracker.Locking.{IsLocking}
use kafka_resilience.Tracker.Handlers.{MayRetryAfter}
use kafka_resilience.Tracker.Order.Queue.{Verdict, queued, IsFresh, All, occurrences}
use kafka_resilience.Tracker.Order.{handle, Matching}
use kafka_resilience.Tracker.Order.Shared.{after_all, claim_blocks_elsewhere}

-- The messages of a topic among what was sent, the oldest one first.
abbrev pub messages_of : String → List Sent → List Envelope
messages_of topic [] = []
messages_of topic (s ∷ older) =
    if s.topic == topic
    then messages_of topic older ++ (s.message ∷ [])
    else messages_of topic older

module _ (k : Coordinator) (targets : Offsets) where
  settled_world :
      (msg : Envelope) (s : Consumer) (p : Result Error (Unit {0}) × World)
      → (settle_fill targets msg s p).1.world ≡ p.1
  settled_world msg s (ok u, w) = refl
  settled_world msg s (err e, w) = refl

  fill_all-append :
      (msgs : List Envelope) (msg : Envelope) (s : Consumer)
      → (fill_all k targets (msgs ++ (msg ∷ [])) s).world
        ≡ (process_redirect_message k msg (fill_all k targets msgs s).world).1
  unfolding fill_all fill_handle
  fill_all-append [] msg s = settled_world msg s (process_redirect_message k msg s.world)
  fill_all-append (m ∷ msgs) msg s = fill_all-append msgs msg (fill_handle k targets m s).1

  -- The restoring consumer, over the messages of a topic, does what processing them one after the
  -- other does.
  filled-after_all :
      (topic : String) (sent : List Sent) (s : Consumer)
      → (fill_all k targets (messages_of topic sent) s).world ≡ after_all k topic sent s.world
  unfolding fill_all after_all
  filled-after_all topic [] s = refl
  filled-after_all topic (r ∷ older) s = elim (Bool-cases (r.topic == topic)) [
    | inl redirected ↦ rw redirected (
        fill_all-append (messages_of topic older) r.message s
        ∙ ap (λ (w : World). (process_redirect_message k r.message w).1)
            (filled-after_all topic older s))
    | inr other ↦ rw other (filled-after_all topic older s)
  ]

restored_world :
    (env : StartEnvironment) (k : Coordinator) (cfg : Config) (topic : String) (s : Startup)
    (m : TopicMetadata) (ms : List TopicMetadata)
    → env.admin.described s.cluster.calls (Config.redirect_topic cfg topic ∷ []) ≡ ok (m ∷ ms)
    → has_data m.partition_offsets ≡ true
    → env.new_consumer env.group_id ≡ none
    → (restore_state env k cfg topic s).1.world
      ≡ (filled k m.partition_offsets env.handled s.world).world
unfolding restore_state describe_redirect_topic describe_topics restore_from refill ◌>>=◌
restored_world env k cfg topic s m ms described full consumer = rw (described, full, consumer) refl

-- Recovery: an instance with another id that starts behind a claim, and whose restoring consumer
-- handles the records of the redirect topic in their order, has for each key as many references more
-- as messages of the key were queued, than behind the records that were there before the claim; and a
-- message of the topic is locked there exactly if its key was counted behind those records or one of
-- its key was queued. The claim is of fresh messages of
-- one topic that the resilient handler takes, where the user's handler touches no lock and fails only
-- with errors that may be tried again; the redirect topic is described with data and is not the retry
-- topic, the consumer is created, and the locks are well formed.
pub restart_blocks_queued :
    (env : Environment) (retrying : IsRetrying env) (there : Coordinator) (t : Tracker)
    (law : IsLocking there t.coordinator) (topic : String) (verdict : Verdict)
    (may : (msg : Envelope) → MayRetryAfter (verdict msg)) (msgs : List Envelope)
    → All (IsFresh t topic) msgs
    → (blocked : String → Bool) (c : Claim World) → IsWellFormed c.state.locks
    → Matching env retrying there t law topic verdict may blocked c.state
    → (consume_claim (handle env retrying there t law topic verdict may) (map message msgs) c).0
      ≡ none
    → (here : Coordinator) → there.instance_id ≢ here.instance_id
    → retry_topic t.cfg topic ≢ redirect_topic there topic
    → (start_env : StartEnvironment) (s : Startup)
    → IsWellFormed (after_all here (redirect_topic there topic) c.state.sent s.world).locks
    → (m : TopicMetadata) (ms : List TopicMetadata)
    → start_env.admin.described s.cluster.calls (Config.redirect_topic t.cfg topic ∷ [])
      ≡ ok (m ∷ ms)
    → has_data m.partition_offsets ≡ true
    → start_env.new_consumer start_env.group_id ≡ none
    → start_env.handled
      ≡ messages_of
          (redirect_topic there topic)
          (consume_claim
            (handle env retrying there t law topic verdict may)
            (map message msgs)
            c).1.state.sent
    → (msg : Envelope) → msg.topic ≡ topic
    → ((j : String)
        → count (restore_state start_env here t.cfg topic s).1.world topic j
          ≡ count (after_all here (redirect_topic there topic) c.state.sent s.world) topic j
            + occurrences j (queued verdict blocked msgs))
      × (is_locked msg (restore_state start_env here t.cfg topic s).1.world
          ≡ ltb 0 (
              count (after_all here (redirect_topic there topic) c.state.sent s.world) topic msg.key
              + occurrences msg.key (queued verdict blocked msgs)))
restart_blocks_queued env retrying there t law topic verdict may msgs fresh blocked c wf blocks
      taken here foreign apart start_env s wf' m ms described full consumer handled msg to_topic =
    let read : (restore_state start_env here t.cfg topic s).1.world
        ≡ after_all here (redirect_topic there topic)
            (consume_claim (handle env retrying there t law topic verdict may) (map message msgs)
              c).1.state.sent
            s.world =
      restored_world start_env here t.cfg topic s m ms described full consumer
      ∙ rw handled (filled-after_all here m.partition_offsets _ _ _) in
    rw read (
      claim_blocks_elsewhere env retrying there t law topic verdict may msgs fresh blocked c wf
        blocks taken here foreign apart s.world wf' msg to_topic)
