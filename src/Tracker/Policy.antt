-- ===== src/Tracker/Policy.antt =====
-- Redirect of a message that must not be retried again.
use kafka_resilience.Base.{
  String, ◌≡◌, refl, ◌⊎◌, inl, inr, true, Option, some, none, ◌∷◌, ◌∙◌, ◌<◌, ap, leb_ℤ,
}
use kafka_resilience.Base.Exec.{Result, ok, err, is_err, ◌>>=◌, catch}
use kafka_resilience.Errors.{Error, is_not_retriable}
use kafka_resilience.Locks.WellFormed.{IsWellFormed}
use kafka_resilience.Message.Headers.{get}
use kafka_resilience.Message.Envelope.{Envelope, new_from_message}
use kafka_resilience.Message.Values.{header_id, header_topic}
use kafka_resilience.World.{World, Sent, Environment}
use kafka_resilience.Coordinator.{Coordinator}
use kafka_resilience.Coordinator.Announce.{count}
use kafka_resilience.Tracker.{Tracker, attempt_of}
use kafka_resilience.Tracker.Dlq.{IsDlqOf, DlqOutcome, send_to_dlq-Outcome}
use kafka_resilience.Tracker.Exceeded.{
  ExceededOutcome, handle_max_retries_exceeded-Outcome, exceeded,
}
use kafka_resilience.Tracker.Locking.{IsLocking}
use kafka_resilience.Tracker.Redirects.{MayRetry}
use kafka_resilience.Tracker.Chain.{
  redirect, redirect_message_with_error, send_to_dlq, handle_max_retries_exceeded, free_after_dlq,
  wrapping,
}

-- A redirect with an error that is not retriable sends the message to the dead letter topic at once,
-- whatever its attempts are, and changes no lock: where it succeeds, the one message sent is the dead
-- letter with the error's text; where it fails, nothing is sent. Even a
-- message that holds a lock keeps it, whatever FreeOnDLQ says.
pub redirect-not_retriable :
    (env : Environment) (t : Tracker) (msg : Envelope) (e : Error)
    → is_not_retriable e ≡ true
    → (w : World)
    → DlqOutcome t
        (new_from_message (new_from_message msg))
        e
        w
        (redirect env t msg (some e) w).0
        (redirect env t msg (some e) w).1
unfolding redirect redirect_message_with_error
redirect-not_retriable env t msg e h w = rw h (send_to_dlq-Outcome env t (new_from_message msg) e w)

-- A redirect of a message that holds its lock, has used up its retries and failed with an error that
-- may be tried again (or with nil). Where it succeeds, the dead letter is sent, and then, under
-- FreeOnDLQ, the lock is released: its tombstone follows and the key has one reference less; without
-- FreeOnDLQ the references stay. Where it fails, either nothing is sent, or just the dead letter is,
-- and the references stay.
pub redirect-exceeded :
    (env : Environment) (k : Coordinator) (t : Tracker)
    → IsLocking k t.coordinator
    → (msg : Envelope) (last_error : Option Error)
    → leb_ℤ t.cfg.max_retries (attempt_of (new_from_message msg)) ≡ true
    → MayRetry last_error
    → (topic id : String) (w : World) → IsWellFormed w.locks
    → get header_id (new_from_message msg).headers ≡ some id
    → get header_topic (new_from_message msg).headers ≡ some topic
    → 0 < count w topic (new_from_message msg).key
    → ExceededOutcome k t topic id
        (new_from_message msg)
        w
        (redirect env t msg last_error w).0
        (redirect env t msg last_error w).1
unfolding redirect redirect_message_with_error
redirect-exceeded env k t law msg none h may topic id w wf has_id has_topic held = rw h (
    handle_max_retries_exceeded-Outcome env k t law (new_from_message msg) w wf topic id has_id
      has_topic held)
redirect-exceeded env k t law msg (some e) h may topic id w wf has_id has_topic held =
    rw (may, h)
      (handle_max_retries_exceeded-Outcome env k t law (new_from_message msg) w wf topic id has_id
        has_topic held)

-- What is left of a dead letter behind a release that was refused.
abbrev pub UnlabelledOutcome : Tracker → Envelope → World → Result Error (Unit {0}) → World → Type 0
UnlabelledOutcome t msg w r w' =
    (is_err r ≡ true)
    × (w'.locks ≡ w.locks)
    × ((w'.sent ≡ w.sent)
        ⊎ ((s : Sent) × IsDlqOf t (new_from_message msg) (exceeded msg) s × (w'.sent ≡ s ∷ w.sent)))

module _ (env : Environment) (k : Coordinator) (t : Tracker) (law : IsLocking k t.coordinator)
    (msg : Envelope) (w : World)
    (unlabelled : (get header_id msg.headers ≡ none) ⊎ (get header_topic msg.headers ≡ none)) where
  refused :
      (v : World) (s : Sent) (p : Result Error (Unit {0}) × World)
      → (v.sent ≡ s ∷ w.sent)
      → (v.locks ≡ w.locks)
      → IsDlqOf t (new_from_message msg) (exceeded msg) s
      → (p.1 ≡ v) × (is_err p.0 ≡ true)
      → UnlabelledOutcome t msg w
          (wrapping "failed to free message after DLQ" (λ (s' : World). p) v).0
          (wrapping "failed to free message after DLQ" (λ (s' : World). p) v).1
  unfolding catch
  refused v s (ok u, w') sent locks is_dlq (same, e) = cc e
  refused v s (err d, w') sent locks is_dlq (same, e) = (
    refl,
    ap (λ (x : World). x.locks) same ∙ locks,
    inr (s, is_dlq, ap (λ (x : World). x.sent) same ∙ sent),
  )

  settled_unlabelled :
      (p : Result Error (Unit {0}) × World)
      → t.cfg.free_on_dlq ≡ true
      → DlqOutcome t (new_from_message msg) (exceeded msg) w p.0 p.1
      → UnlabelledOutcome t msg w
          ((wrapping "failed to send message to DLQ" (λ (s : World). p) >>= λ u.
              free_after_dlq env t msg)
            w).0
          ((wrapping "failed to send message to DLQ" (λ (s : World). p) >>= λ u.
              free_after_dlq env t msg)
            w).1
  unfolding catch ◌>>=◌ free_after_dlq
  settled_unlabelled (ok u, v) free (s, is_dlq, sent, locks) =
      simp free
        (refused v s (t.coordinator.release msg v) sent locks is_dlq (law.refused msg v unlabelled))
  settled_unlabelled (err e, v) free (sent, locks) = (refl, locks, inl sent)

  -- With FreeOnDLQ, a message that has used up its retries but carries no lock's id or topic, as
  -- every first failure under MaxRetries = 0, always ends in an error, though its dead letter may
  -- have been sent; no lock changes.
  pub handle_max_retries_exceeded_unlabelled :
      t.cfg.free_on_dlq ≡ true
      → UnlabelledOutcome t msg w
          (handle_max_retries_exceeded env t msg w).0
          (handle_max_retries_exceeded env t msg w).1
  unfolding handle_max_retries_exceeded
  handle_max_retries_exceeded_unlabelled free =
      settled_unlabelled (send_to_dlq env t msg (exceeded msg) w) free
        (send_to_dlq-Outcome env t msg (exceeded msg) w)
