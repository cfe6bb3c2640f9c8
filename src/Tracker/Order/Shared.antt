-- ===== src/Tracker/Order/Shared.antt =====
-- Two instances: what a claim at one of them does to the locks of another one, which processes the
-- records of the redirect topic (resilience/coordinator_kafka.go) in the order in which they were sent.
use kafka_resilience.Base.{
  ltb, ap, ◌∙◌, ◌+◌, ◌≡◌, Bool, Bool-cases, inl, inr, ◌||◌, ◌≢◌, refl, String, true, ◌==◌, none,
  List, [], ◌∷◌, map, if◌then◌else◌, arith, eq_refl, ==_of_ne,
}
use kafka_resilience.Base.Exec.{is_err}
use kafka_resilience.Config.{retry_topic}
use kafka_resilience.Locks.WellFormed.{IsWellFormed}
use kafka_resilience.Message.Envelope.{Envelope, new_from_message}
use kafka_resilience.World.{World, Sent, Environment}
use kafka_resilience.World.Retry.{IsRetrying}
use kafka_resilience.Coordinator.{Coordinator, redirect_topic, is_locked}
use kafka_resilience.Coordinator.Announce.{count, Announces}
use kafka_resilience.Coordinator.Instances.{after, is_locked-ltb}
use kafka_resilience.Coordinator.Redirects.{process_lock}
use kafka_resilience.Sarama.Consumer.{message, Claim, consume_claim}
use kafka_resilience.Tracker.{Tracker, original_topic_of}
use kafka_resilience.Tracker.Locking.{IsLocking}
use kafka_resilience.Tracker.Handlers.{MayRetryAfter}
use kafka_resilience.Tracker.Order.Queue.{
  Verdict, queued, IsFresh, All, Queued, nothing, queue, occurrences,
}
use kafka_resilience.Tracker.Order.{handle, Matching, claim_keeps_order}

-- The state behind the records of the redirect topic among what was sent, the oldest one first.
unfoldable pub after_all : Coordinator → String → List Sent → World → World
after_all here topic [] w = w
after_all here topic (s ∷ older) w =
    if s.topic == topic
    then after here s (after_all here topic older w)
    else after_all here topic older w

module _ (here there : Coordinator) (t : Tracker) (topic : String)
    (foreign : there.instance_id ≢ here.instance_id)
    (apart : retry_topic t.cfg topic ≢ redirect_topic there topic) (w : World) where
  -- The locks here, behind what there has sent.
  abbrev seen : List Sent → World
  seen sent = after_all here (redirect_topic there topic) sent w

  seen_retry :
      (retried : Sent) (sent : List Sent)
      → retried.topic ≡ retry_topic t.cfg topic
      → seen (retried ∷ sent) ≡ seen sent
  unfolding after_all
  seen_retry retried sent to =
      rw (to, ==_of_ne (retry_topic t.cfg topic) (redirect_topic there topic) apart) refl

  seen_lock :
      (lock : Sent) (sent : List Sent)
      → lock.topic ≡ redirect_topic there topic
      → seen (lock ∷ sent) ≡ after here lock (seen sent)
  unfolding after_all
  seen_lock lock sent to = rw (to, eq_refl (redirect_topic there topic)) refl

  key_of_copy : (msg : Envelope) → (new_from_message msg).key ≡ msg.key
  unfolding new_from_message
  key_of_copy msg = refl

  -- Each key has one reference more for each of the messages.
  abbrev Grown : List Envelope → World → World → Type 0
  Grown msgs v v' =
      ((j : String) → count v' topic j ≡ count v topic j + occurrences j msgs)
      × IsWellFormed v'.locks

  lock-Grown :
      (msg : Envelope) (id : String) (lock retried : Sent) (sent : List Sent)
      → IsFresh t topic msg
      → Announces there (original_topic_of (new_from_message msg)) id (new_from_message msg) lock
      → retried.topic ≡ retry_topic t.cfg (original_topic_of (new_from_message msg))
      → IsWellFormed (seen sent).locks
      → Grown (msg ∷ []) (seen sent) (seen (retried ∷ lock ∷ sent))
  lock-Grown msg id lock retried sent fresh a to wf =
      let own : original_topic_of (new_from_message msg) ≡ topic = fresh.own_topic in
      let (_, counts, wf') =
        process_lock here lock.message (seen sent) there.instance_id foreign a.names_instance wf id
          (original_topic_of (new_from_message msg)) (new_from_message msg).key a.has_payload
          a.names_topic a.names_key in
      rw
        (
          seen_retry retried (lock ∷ sent) (rw (to, own) refl),
          seen_lock lock sent (rw (a.to_redirect_topic, own) refl),
        )
        ((λ j. ground (arith, counts topic j, own, key_of_copy msg, eq_refl topic)), wf')

  Queued-Grown :
      (msgs : List Envelope) (s s' : List Sent)
      → Queued there t msgs s s'
      → All (IsFresh t topic) msgs
      → IsWellFormed (seen s).locks
      → Grown msgs (seen s) (seen s')
  Queued-Grown msgs s s' nothing fresh wf = ((λ j. omega arith), wf)
  Queued-Grown (msg ∷ msgs) s s' (queue lock retried id a is_retry rest) fresh wf =
      let (one, wf₁) = lock-Grown msg id lock retried s fresh.0 a is_retry.to_retry_topic wf in
      let (more, wf₂) = Queued-Grown msgs (retried ∷ lock ∷ s) s' rest fresh.1 wf₁ in
      ((λ j. omega (arith, one j, more j)), wf₂)

-- What is queued is fresh as well.
queued-IsFresh :
    (t : Tracker) (topic : String) (verdict : Verdict) (blocked : String → Bool)
    (msgs : List Envelope)
    → All (IsFresh t topic) msgs
    → All (IsFresh t topic) (queued verdict blocked msgs)
queued-IsFresh t topic verdict blocked [] fresh = tt
queued-IsFresh t topic verdict blocked (msg ∷ msgs) fresh =
    elim (Bool-cases (blocked msg.key || is_err (verdict msg))) [
      | inl queues ↦ rw queues (
        fresh.0,
        queued-IsFresh t topic verdict (λ j. if msg.key == j then true else blocked j) msgs fresh.1,
      )
      | inr passes ↦ rw passes (queued-IsFresh t topic verdict blocked msgs fresh.1)
    ]

-- A claim of fresh messages of one topic that the resilient handler of one instance takes,
-- where the user's handler touches no lock and fails only with errors that may be tried again,
-- blocks the same keys at every instance with another id: once that one has processed all
-- records of the redirect topic, which is not the retry topic, and from well-formed locks, it
-- counts for each key as many references more as messages of the key were queued, and a message
-- of the topic is locked there exactly if its key was counted there before the claim's records or one
-- of its key was queued.
pub claim_blocks_elsewhere :
    (env : Environment) (retrying : IsRetrying env) (there : Coordinator) (t : Tracker)
    (law : IsLocking there t.coordinator) (topic : String) (verdict : Verdict)
    (may : (msg : Envelope) → MayRetryAfter (verdict msg)) (msgs : List Envelope)
    → All (IsFresh t topic) msgs
    → (blocked : String → Bool) (c : Claim World) → IsWellFormed c.state.locks
    → Matching env retrying there t law topic verdict may blocked c.state
    → (consume_claim (handle env retrying there t law topic verdict may) (map message msgs) c).0
      ≡ none
    → (here : Coordinator) → there.instance_id ≢ here.instance_id
    → retry_topic t.cfg topic ≢ redirect_topic there topic
    → (w : World) → IsWellFormed (after_all here (redirect_topic there topic) c.state.sent w).locks
    → (msg : Envelope) → msg.topic ≡ topic
    → let sent : List Sent =
        (consume_claim
          (handle env retrying there t law topic verdict may)
          (map message msgs)
          c).1.state.sent in
      let w' : World = after_all here (redirect_topic there topic) sent w in
      ((j : String)
        → count w' topic j
          ≡ count (after_all here (redirect_topic there topic) c.state.sent w) topic j
            + occurrences j (queued verdict blocked msgs))
      × (is_locked msg w'
          ≡ ltb 0 (
              count (after_all here (redirect_topic there topic) c.state.sent w) topic msg.key
              + occurrences msg.key (queued verdict blocked msgs)))
claim_blocks_elsewhere env retrying there t law topic verdict may msgs fresh blocked c wf blocks
      taken here foreign apart w wf' msg to_topic =
    let (sent, _, _) =
      claim_keeps_order env retrying there t law topic verdict may msgs fresh blocked c wf blocks
        taken in
    let grown =
      Queued-Grown here there t topic foreign apart w (queued verdict blocked msgs) c.state.sent _
        sent (queued-IsFresh t topic verdict blocked msgs fresh) wf' in
    (grown.0, is_locked-ltb msg _ ∙ rw to_topic (ap (ltb 0) (grown.0 msg.key)))
