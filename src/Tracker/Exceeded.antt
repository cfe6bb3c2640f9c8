-- ===== src/Tracker/Exceeded.antt =====
-- handleMaxRetriesExceeded: the dead letter of a message that has used up its retries, and what
-- becomes of its lock.
use kafka_resilience.Base.{
  String, ◌≡◌, refl, ◌⊎◌, inl, inr, true, false, Bool, some, ◌∷◌, ◌∙◌, ◌<◌, ap, if◌then◌else◌,
}
use kafka_resilience.Base.Exec.{Result, ok, err, pure, ◌>>=◌, catch}
use kafka_resilience.Errors.{Error, new}
use kafka_resilience.Locks.WellFormed.{IsWellFormed}
use kafka_resilience.Message.Headers.{get}
use kafka_resilience.Message.Envelope.{Envelope, new_from_message}
use kafka_resilience.Message.Values.{header_id, header_topic}
use kafka_resilience.World.{World, Sent, Environment}
use kafka_resilience.Coordinator.{Coordinator}
use kafka_resilience.Coordinator.Announce.{count}
use kafka_resilience.Coordinator.Release.{Withdraws, ReleaseOutcome}
use kafka_resilience.Tracker.{Tracker}
use kafka_resilience.Tracker.Dlq.{IsDlqOf, DlqOutcome, send_to_dlq-Outcome}
use kafka_resilience.Tracker.Locking.{IsLocking}
use kafka_resilience.Tracker.Publish.{SameCounts, OneLess, held}
use kafka_resilience.Tracker.Chain.{
  send_to_dlq, handle_max_retries_exceeded, free_after_dlq, exceeded_reason, wrapping,
}

abbrev pub exceeded : Envelope → Error
exceeded msg = new (exceeded_reason msg)

-- FreeOnDLQ releases the lock behind the dead letter.
pub record Freed (k : Coordinator) (t : Tracker) (topic id : String) (msg : Envelope) (w w' : World)
    : Type 0 where
  pub dead_letter : Sent
  pub tombstone : Sent
  pub sent : w'.sent ≡ tombstone ∷ dead_letter ∷ w.sent
  pub is_dlq : IsDlqOf t (new_from_message msg) (exceeded msg) dead_letter
  pub withdraws : Withdraws k topic id msg tombstone
  pub counts : OneLess topic msg.key w w'
  pub well_formed : IsWellFormed w'.locks

-- Without it, the lock stays.
pub record Kept (t : Tracker) (msg : Envelope) (w w' : World) : Type 0 where
  pub dead_letter : Sent
  pub sent : w'.sent ≡ dead_letter ∷ w.sent
  pub is_dlq : IsDlqOf t (new_from_message msg) (exceeded msg) dead_letter
  pub counts : SameCounts w w'
  pub well_formed : IsWellFormed w'.locks

abbrev pub ExceededOutcome :
    Coordinator
    → Tracker
    → String
    → String
    → Envelope
    → World
    → Result Error (Unit {0})
    → World
    → Type 0
ExceededOutcome k t topic id msg w (ok u) w' =
    ((t.cfg.free_on_dlq ≡ true) × Freed k t topic id msg w w')
    ⊎ ((t.cfg.free_on_dlq ≡ false) × Kept t msg w w')
ExceededOutcome k t topic id msg w (err e) w' =
    ((w'.sent ≡ w.sent) × SameCounts w w') ⊎ Kept t msg w w'

module _ (env : Environment) (k : Coordinator) (t : Tracker) (law : IsLocking k t.coordinator)
    (msg : Envelope) (w : World) (wf : IsWellFormed w.locks) where
  kept :
      (v w' : World) (s : Sent)
      → IsDlqOf t (new_from_message msg) (exceeded msg) s
      → v.sent ≡ s ∷ w.sent
      → v.locks ≡ w.locks
      → w'.sent ≡ v.sent
      → SameCounts v w'
      → IsWellFormed w'.locks
      → Kept t msg w w'
  kept v w' s is_dlq sent locks sent' counts wf' = record {
    dead_letter = s;
    sent = sent' ∙ sent;
    is_dlq = is_dlq;
    counts = λ t' j. rw (← locks) (counts t' j);
    well_formed = wf';
  }

  module _ (topic id : String) (v : World) (s : Sent)
      (is_dlq : IsDlqOf t (new_from_message msg) (exceeded msg) s) (sent : v.sent ≡ s ∷ w.sent)
      (locks : v.locks ≡ w.locks) (h : 0 < count w topic msg.key) where
    freed :
        (p : Result Error (Unit {0}) × World)
        → t.cfg.free_on_dlq ≡ true
        → ReleaseOutcome k topic id msg v p.0 p.1
        → ExceededOutcome k t topic id msg w
            (wrapping "failed to free message after DLQ" (λ (s : World). p) v).0
            (wrapping "failed to free message after DLQ" (λ (s : World). p) v).1
    unfolding catch
    freed (ok u, w') free o = inl (
      free,
      record {
        dead_letter = s;
        tombstone = o.tombstone;
        sent = o.announced ∙ ap (λ ss. o.tombstone ∷ ss) sent;
        is_dlq = is_dlq;
        withdraws = o.withdraws;
        counts = λ t' j. rw (← locks) (o.counts t' j);
        well_formed = o.well_formed;
      },
    )
    freed (err e, w') free o =
        inr (kept v w' s is_dlq sent locks o.nothing_sent (held (rw locks h) o) o.well_formed)

    module _ (has_id : get header_id msg.headers ≡ some id)
        (has_topic : get header_topic msg.headers ≡ some topic) where
      by_policy :
          (free : Bool)
          → t.cfg.free_on_dlq ≡ free
          → let p : Result Error (Unit {0}) × World =
              (if free
                  then wrapping "failed to free message after DLQ" (t.coordinator.release msg)
                  else pure tt)
                v in
            ExceededOutcome k t topic id msg w p.0 p.1
      unfolding catch
      by_policy true free =
          freed (t.coordinator.release msg v) free
            (law.released topic id msg v (rw locks wf) has_id has_topic)
      by_policy false free =
          inr (free, kept v v s is_dlq sent locks refl (λ t' j. refl) (rw locks wf))

      after_dlq :
          ExceededOutcome k t topic id msg w
            (free_after_dlq env t msg v).0
            (free_after_dlq env t msg v).1
      unfolding free_after_dlq
      after_dlq = by_policy t.cfg.free_on_dlq refl

  module _ (topic id : String) (has_id : get header_id msg.headers ≡ some id)
      (has_topic : get header_topic msg.headers ≡ some topic) (h : 0 < count w topic msg.key) where
    settled_dlq :
        (p : Result Error (Unit {0}) × World)
        → DlqOutcome t (new_from_message msg) (exceeded msg) w p.0 p.1
        → ExceededOutcome k t topic id msg w
            ((wrapping "failed to send message to DLQ" (λ (s : World). p) >>= λ u.
                free_after_dlq env t msg)
              w).0
            ((wrapping "failed to send message to DLQ" (λ (s : World). p) >>= λ u.
                free_after_dlq env t msg)
              w).1
    unfolding catch ◌>>=◌
    settled_dlq (ok u, v) (s, is_dlq, sent, locks) =
        after_dlq topic id v s is_dlq sent locks h has_id has_topic
    settled_dlq (err e, v) (sent, locks) = inl (sent, λ t' j. rw locks refl)

    pub handle_max_retries_exceeded-Outcome :
        ExceededOutcome k t topic id msg w
          (handle_max_retries_exceeded env t msg w).0
          (handle_max_retries_exceeded env t msg w).1
    unfolding handle_max_retries_exceeded
    handle_max_retries_exceeded-Outcome =
        settled_dlq (send_to_dlq env t msg (exceeded msg) w)
          (send_to_dlq-Outcome env t msg (exceeded msg) w)
