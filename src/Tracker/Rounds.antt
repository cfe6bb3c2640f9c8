-- ===== src/Tracker/Rounds.antt =====
-- How often a message goes round in the retry chain.
pub mod Bound
use kafka_resilience.Base.{
  ℕ, ◌+◌, ◌≤◌, ◌<◌, String, ◌≡◌, ◌≢◌, refl, sym, ap, subst, ◌∙◌, inl, inr, Bool-cases, true, false,
  some, ◌∷◌, pos, ◌+ℤ◌, leb_ℤ, arith, two_more-ne,
}
use mathlib.Core.List.{head-eq_of_cons-eq}
use kafka_resilience.Base.Decimal.{IsInt64}
use kafka_resilience.Base.Exec.{Result, ok, err}
use kafka_resilience.Errors.{Error, is_not_retriable}
use kafka_resilience.Config.{retry_topic, dlq_topic}
use kafka_resilience.Config.Valid.{IsValid}
use kafka_resilience.Config.Topics.{topics_apart}
use kafka_resilience.Locks.WellFormed.{IsWellFormed}
use kafka_resilience.Message.Headers.{get}
use kafka_resilience.Message.Headers.Laws.{IsDistinct}
use kafka_resilience.Message.Headers.Copy.{get-copy}
use kafka_resilience.Message.Envelope.{Envelope, new_from_message}
use kafka_resilience.Message.Values.{
  header_id, header_topic, header_retry, header_retry_attempt, get_header_value,
}
use kafka_resilience.World.{World, Sent, Environment}
use kafka_resilience.World.Retry.{IsRetrying}
use kafka_resilience.Coordinator.{Coordinator}
use kafka_resilience.Coordinator.Announce.{count}
use kafka_resilience.Tracker.{Tracker, attempt_of, original_topic_of}
use kafka_resilience.Tracker.Exceeded.{ExceededOutcome}
use kafka_resilience.Tracker.Headers.{new_from_message-IsDistinct}
use kafka_resilience.Tracker.Locking.{IsLocking}
use kafka_resilience.Tracker.Policy.{redirect-exceeded}
use kafka_resilience.Tracker.Redirect.{IsRetryOf}
use kafka_resilience.Tracker.Redirects.{is_marked}
use kafka_resilience.Tracker.Stay.{
  StayOutcome, original_topic_of_header, redirect-stays_in_chain, retry_message_reads_back,
}
use kafka_resilience.Tracker.Chain.{redirect}

-- What a worker reads on a message of the chain.
pub record InChain (topic id key : String) (attempt : ℕ) (msg : Envelope) : Type 0 where
  pub attempt_is : attempt_of (new_from_message msg) ≡ pos attempt
  pub marked : is_marked (new_from_message msg) ≡ true
  pub has_id : get header_id (new_from_message msg).headers ≡ some id
  pub has_topic : get header_topic (new_from_message msg).headers ≡ some topic
  pub has_key : (new_from_message msg).key ≡ key

-- One round: the message failed with an error that may be tried again while its lock was held, its
-- Redirect succeeded in some environment and world, and what that sent to the retry topic is the next
-- message, with its key and headers. What else goes on between two rounds is not restricted.
pub record Round (t : Tracker) (topic key : String) (msg next : Envelope) : Type 1 where
  pub env : Environment
  pub retrying : IsRetrying env
  pub before : World
  pub after : World
  pub error : Error
  pub sent : Sent
  pub well_formed : IsWellFormed before.locks
  pub held : 0 < count before topic key
  pub may_retry : is_not_retriable error ≡ false
  pub redirected : redirect env t msg (some error) before ≡ (ok tt, after)
  pub one_sent : after.sent ≡ sent ∷ before.sent
  pub to_retry_topic : sent.topic ≡ retry_topic t.cfg topic
  pub same_headers : next.headers ≡ sent.message.headers
  pub same_key : next.key ≡ sent.message.key

-- `n` rounds.
pub data Rounds (t : Tracker) (topic key : String) (first : Envelope) : ℕ → Envelope → Type 1 where
  stay : Rounds t topic key first 0 first
  again :
      {n : ℕ} {msg next : Envelope}
      → Rounds t topic key first n msg
      → Round t topic key msg next
      → Rounds t topic key first (n + 1) next

-- A copy reads like the message.
pub get-new_from_message :
    (j : String) (msg : Envelope)
    → IsDistinct msg.headers
    → get j (new_from_message msg).headers ≡ get j msg.headers
unfolding new_from_message
get-new_from_message j msg distinct = get-copy j msg.headers distinct

attempt_of-get :
    (m m' : Envelope)
    → get header_retry_attempt m.headers ≡ get header_retry_attempt m'.headers
    → attempt_of m ≡ attempt_of m'
unfolding attempt_of get_header_value
attempt_of-get m m' h = ground (arith, h)

key-new_from_message : (msg : Envelope) → (new_from_message msg).key ≡ msg.key
unfolding new_from_message
key-new_from_message msg = refl

pos_suc : (n : ℕ) → pos n +ℤ pos 1 ≡ pos (n + 1)
unfolding ◌+ℤ◌
pos_suc n = ground arith

module _ (k : Coordinator) (t : Tracker) (law : IsLocking k t.coordinator)
    (topic id key : String) where
  -- The message that a round sends is in the chain, with the attempt one higher.
  pub next-InChain :
      (a : ℕ) (msg next : Envelope) (s : Sent)
      → InChain topic id key a msg
      → IsInt64 (pos (a + 1))
      → IsRetryOf t id (pos a) (new_from_message msg) s
      → next.headers ≡ s.message.headers
      → next.key ≡ s.message.key
      → InChain topic id key (a + 1) next
  next-InChain a msg next s chain fits retry headers same_key =
      let read : (j : String) → get j (new_from_message next).headers ≡ get j s.message.headers =
        λ j.
          get-new_from_message j next (subst IsDistinct (sym headers) retry.distinct)
          ∙ ap (get j) headers in
      let (attempt, _, _, _) =
        retry_message_reads_back t id (pos a) (new_from_message msg) s retry
          (subst IsInt64 (sym (pos_suc a)) fits) in
      record {
        attempt_is =
            attempt_of-get (new_from_message next) s.message (read header_retry_attempt)
            ∙ attempt
            ∙ pos_suc a;
        marked = rw (read header_retry ∙ retry.marked) refl;
        has_id = read header_id ∙ retry.id;
        has_topic =
            read header_topic
            ∙ retry.topic
            ∙ ap some (original_topic_of_header (new_from_message msg) topic chain.has_topic);
        has_key = key-new_from_message next ∙ same_key ∙ retry.same_key ∙ chain.has_key;
      }
