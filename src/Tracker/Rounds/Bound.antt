-- ===== src/Tracker/Rounds/Bound.antt =====
-- A message goes round in the chain at most as often as MaxRetries allows.
use kafka_resilience.Base.{
  ℕ, ◌+◌, ◌≤◌, ◌<◌, String, ◌≡◌, ◌≢◌, refl, sym, ap, subst, ◌∙◌, inl, inr, Bool-cases, true, false,
  some, ◌∷◌, pos, leb_ℤ, arith, two_more-ne,
}
use mathlib.Core.List.{head-eq_of_cons-eq}
use kafka_resilience.Base.Decimal.{IsInt64}
use kafka_resilience.Base.Exec.{Result, ok, err}
use kafka_resilience.Errors.{Error}
use kafka_resilience.Config.{retry_topic, dlq_topic}
use kafka_resilience.Config.Valid.{IsValid}
use kafka_resilience.Config.Topics.{topics_apart}
use kafka_resilience.Message.Envelope.{Envelope, new_from_message}
use kafka_resilience.Message.Values.{header_topic}
use kafka_resilience.World.{World, Environment, Sent}
use kafka_resilience.Coordinator.{Coordinator}
use kafka_resilience.Coordinator.Announce.{count}
use kafka_resilience.Tracker.{Tracker, attempt_of, original_topic_of}
use kafka_resilience.Tracker.Exceeded.{ExceededOutcome}
use kafka_resilience.Tracker.Headers.{new_from_message-IsDistinct}
use kafka_resilience.Tracker.Locking.{IsLocking}
use kafka_resilience.Tracker.Policy.{redirect-exceeded}
use kafka_resilience.Tracker.Redirect.{IsRetryOf}
use kafka_resilience.Tracker.Stay.{StayOutcome, original_topic_of_header, redirect-stays_in_chain}
use kafka_resilience.Tracker.Rounds.{
  InChain, Round, Rounds, stay, again, get-new_from_message, next-InChain,
}

right_zero : (a : ℕ) → a + 0 ≡ a
right_zero a = omega arith

move : (a n : ℕ) → a + n + 1 ≡ a + (n + 1)
move a n = omega arith

module _ (k : Coordinator) (t : Tracker) (law : IsLocking k t.coordinator)
    (topic id key : String) where
  -- Which of the two a redirect took, by what it sent.
  stayed-IsRetryOf :
      (env : Environment) (a : ℕ) (msg : Envelope) (s : Sent) (w w' : World)
      (r : Result Error (Unit {0}))
      → StayOutcome env t id (pos a) msg w r w'
      → r ≡ ok tt
      → w'.sent ≡ s ∷ w.sent
      → IsRetryOf t id (pos a) msg s
  stayed-IsRetryOf env a msg s w w' (ok u) stayed e one =
      subst (IsRetryOf t id (pos a) msg) (head-eq_of_cons-eq (sym stayed.sent ∙ one))
        stayed.is_retry
  stayed-IsRetryOf env a msg s w w' (err d) stayed e one = absurd (cc e)

  exceeded_sends_no_retry :
      (msg : Envelope) (s : Sent) (w w' : World) (r : Result Error (Unit {0}))
      → IsValid t.cfg
      → original_topic_of (new_from_message msg) ≡ topic
      → ExceededOutcome k t topic id msg w r w'
      → r ≡ ok tt
      → w'.sent ≡ s ∷ w.sent
      → s.topic ≢ retry_topic t.cfg topic
  exceeded_sends_no_retry msg s w w' (ok u) valid own (inl (free, freed)) e one to_retry =
      two_more-ne _ _ _ _ (sym freed.sent ∙ one)
  exceeded_sends_no_retry msg s w w' (ok u) valid own (inr (free, kept)) e one to_retry =
      let sent : kept.dead_letter ≡ s = head-eq_of_cons-eq (sym kept.sent ∙ one) in
      (topics_apart t.cfg valid topic topic).1 (
        sym to_retry
        ∙ ap (λ (x : Sent). x.topic) (sym sent)
        ∙ kept.is_dlq.to_dlq_topic
        ∙ ap (dlq_topic t.cfg) own)
  exceeded_sends_no_retry msg s w w' (err d) valid own outcome e one to_retry = absurd (cc e)

  own_topic :
      (a : ℕ) (msg : Envelope)
      → InChain topic id key a msg
      → original_topic_of (new_from_message (new_from_message msg)) ≡ topic
  own_topic a msg chain = original_topic_of_header (new_from_message (new_from_message msg)) topic (
      get-new_from_message header_topic (new_from_message msg) (new_from_message-IsDistinct msg)
      ∙ chain.has_topic)

  module _ (valid : IsValid t.cfg) (max : ℕ) (max_is : t.cfg.max_retries ≡ pos max)
      (fits : IsInt64 (pos max)) where
    module _ (a : ℕ) (msg next : Envelope) (chain : InChain topic id key a msg)
        (round : Round t topic key msg next) where
      held : 0 < count round.before topic (new_from_message msg).key
      held = subst (λ j. 0 < count round.before topic j) (sym chain.has_key) round.held

      -- A round of a message that has used up its retries sends nothing to the retry topic.
      used_up : leb_ℤ t.cfg.max_retries (attempt_of (new_from_message msg)) ≢ true
      used_up used =
          exceeded_sends_no_retry (new_from_message msg) round.sent round.before round.after (ok tt)
            valid (own_topic a msg chain)
            (subst (λ p. ExceededOutcome k t topic id (new_from_message msg) round.before p.0 p.1)
              round.redirected
              (redirect-exceeded round.env k t law msg (some round.error) used round.may_retry topic
                id round.before round.well_formed chain.has_id chain.has_topic held))
            refl round.one_sent round.to_retry_topic

      below : leb_ℤ t.cfg.max_retries (attempt_of (new_from_message msg)) ≡ false
      below = elim (Bool-cases (leb_ℤ t.cfg.max_retries (attempt_of (new_from_message msg)))) [
        | inl used ↦ absurd (used_up used)
        | inr less ↦ less
      ]

      left : a + 1 ≤ max
      left = ground (arith, below, max_is, chain.attempt_is)

      sent-IsRetryOf : IsRetryOf t id (pos a) (new_from_message msg) round.sent
      sent-IsRetryOf =
          stayed-IsRetryOf round.env a (new_from_message msg) round.sent round.before round.after
            (ok tt)
            (subst
              (λ n.
                StayOutcome round.env t id n (new_from_message msg) round.before (ok tt)
                  round.after)
              chain.attempt_is
              (subst
                (λ p.
                  StayOutcome round.env t id (attempt_of (new_from_message msg))
                    (new_from_message msg) round.before p.0 p.1)
                round.redirected
                (redirect-stays_in_chain round.env round.retrying k t law msg (some round.error)
                  chain.marked below round.may_retry topic id chain.has_id chain.has_topic
                  round.before round.well_formed held)))
            refl round.one_sent

      Round-InChain : InChain topic id key (a + 1) next × (a + 1 ≤ max)
      Round-InChain = (
        next-InChain k t law topic id key a msg next round.sent chain (omega (arith, left, fits))
            sent-IsRetryOf round.same_headers round.same_key,
        left,
      )

-- A message of the chain with `a` retries behind it, under a valid configuration with `max` retries,
-- where `a` is at most `max` and `max` fits in an int64. After any n rounds of failure and Redirect,
-- in any environments and worlds in which its lock is held, the message of the last round is in the
-- chain with the attempt a + n, under the same topic, id and key, and a + n is at most `max`: so no
-- message goes round more than max - a times.
pub Rounds-bounded :
    (k : Coordinator) (t : Tracker)
    → IsLocking k t.coordinator
    → (topic id key : String) → IsValid t.cfg
    → (max : ℕ) → t.cfg.max_retries ≡ pos max
    → IsInt64 (pos max)
    → (a : ℕ) → a ≤ max
    → {first msg : Envelope} {n : ℕ} → InChain topic id key a first
    → Rounds t topic key first n msg
    → InChain topic id key (a + n) msg × (a + n ≤ max)
Rounds-bounded k t law topic id key valid max max_is fits a few chain stay =
    (rw (right_zero a) chain, omega (arith, few))
Rounds-bounded k t law topic id key valid max max_is fits a few chain
      (again {n} {msg} {next} before round) =
    let (in_chain, bound) =
      Rounds-bounded k t law topic id key valid max max_is fits a few chain before in
    subst (λ m. InChain topic id key m next × (m ≤ max)) (move a n)
      (Round-InChain k t law topic id key valid max max_is fits (a + n) msg next in_chain round)
