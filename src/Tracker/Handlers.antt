-- ===== src/Tracker/Handlers.antt =====
-- The two handlers around the user's handler: strict ordering of the messages of a key, and the
-- release of a lock behind a retry that worked.
use kafka_resilience.Base.{◌≡◌, refl, true, false, Option, some, ◌<◌, arith, leb_ℤ, ℤ, eq_refl}
use kafka_resilience.Base.Exec.{Result, ok, err}
use kafka_resilience.Errors.{Error, new, is_not_retriable}
use kafka_resilience.Locks.WellFormed.{IsWellFormed}
use kafka_resilience.Message.Envelope.{Envelope, new_from_message}
use kafka_resilience.World.{World, Environment}
use kafka_resilience.World.Retry.{IsRetrying}
use kafka_resilience.Coordinator.{Coordinator}
use kafka_resilience.Coordinator.Announce.{count}
use kafka_resilience.Tracker.{Tracker, Handler, attempt_of, original_topic_of}
use kafka_resilience.Tracker.Locking.{IsLocking}
use kafka_resilience.Tracker.Redirect.{Entered, EnterOutcome}
use kafka_resilience.Tracker.Redirects.{is_marked, MayRetry, redirect-enters_chain}
use kafka_resilience.Tracker.Chain.{redirect, is_in_retry_chain, resilient_handle, settle}

new_from_message-route :
    (msg : Envelope)
    → ((new_from_message msg).topic ≡ msg.topic) × ((new_from_message msg).key ≡ msg.key)
unfolding new_from_message
new_from_message-route msg = (refl, refl)

module _ (env : Environment) (k : Coordinator) (t : Tracker) (law : IsLocking k t.coordinator) where
  counted_is_in_chain :
      (msg : Envelope) (w : World)
      → 0 < count w msg.topic msg.key
      → is_in_retry_chain env t msg w ≡ true
  unfolding is_in_retry_chain
  counted_is_in_chain msg w h =
      let (topic, key) = new_from_message-route msg in
      law.locked (new_from_message msg) w (rw (topic, key) h)

  pub uncounted_is_not_in_chain :
      (msg : Envelope) (w : World)
      → count w msg.topic msg.key ≡ 0
      → is_in_retry_chain env t msg w ≡ false
  unfolding is_in_retry_chain
  uncounted_is_not_in_chain msg w h =
      let (topic, key) = new_from_message-route msg in
      law.unlocked (new_from_message msg) w (rw (topic, key) h)

-- Strict ordering, for a message that is not marked as a member of the chain and has retries left:
-- while its key is counted under its topic, the resilient handler never calls the user's handler, so
-- any two handlers have the same outcome, which is that of its redirect. Where the redirect succeeds,
-- the message is queued behind its predecessor with a lock of its own. Where it fails, either nothing
-- was sent and the references are as before, or the lock was announced, the message could not be sent
-- and the rollback was tried: the references are as before if the rollback worked, and the key has one
-- more if it did not.
pub resilient_handle_keeps_order :
    (env : Environment) (retrying : IsRetrying env) (k : Coordinator) (t : Tracker)
    → IsLocking k t.coordinator
    → (msg : Envelope) (w : World) → IsWellFormed w.locks
    → 0 < count w msg.topic msg.key
    → is_marked (new_from_message msg) ≡ false
    → leb_ℤ t.cfg.max_retries (attempt_of (new_from_message msg)) ≡ false
    → (h h' : Handler)
    → (resilient_handle env t h msg w ≡ resilient_handle env t h' msg w)
      × EnterOutcome env k t
          (attempt_of (new_from_message msg))
          (new_from_message msg)
          w
          (resilient_handle env t h msg w).0
          (resilient_handle env t h msg w).1
unfolding resilient_handle is_not_retriable
resilient_handle_keeps_order env retrying k t law msg w wf counted unmarked below h h' =
    let queued =
      redirect-enters_chain env retrying k t law msg
        (some (new "strict ordering: predecessor in retry")) unmarked below refl w wf in
    rw (counted_is_in_chain env k t law msg w counted) (refl, queued)

-- The error of the outcome, where there is one, may be tried again.
abbrev pub MayRetryAfter : Result Error (Unit {0}) → Type 0
MayRetryAfter (ok u) = Unit
MayRetryAfter (err e) = is_not_retriable e ≡ false

-- What the resilient handler makes of the user's outcome.
abbrev pub HandledOutcome :
    Environment
    → Coordinator
    → Tracker
    → Envelope
    → Result Error (Unit {0}) × World
    → Result Error (Unit {0})
    → World
    → Type 0
HandledOutcome env k t msg (ok u, v) r w' = (r ≡ ok tt) × (w' ≡ v)
HandledOutcome env k t msg (err e, v) r w' =
    EnterOutcome env k t (attempt_of (new_from_message msg)) (new_from_message msg) v r w'

module _ (env : Environment) (retrying : IsRetrying env) (k : Coordinator) (t : Tracker)
    (law : IsLocking k t.coordinator) (msg : Envelope)
    (unmarked : is_marked (new_from_message msg) ≡ false)
    (below : leb_ℤ t.cfg.max_retries (attempt_of (new_from_message msg)) ≡ false) where
  settled_handler :
      (p : Result Error (Unit {0}) × World)
      → MayRetryAfter p.0
      → IsWellFormed p.1.locks
      → HandledOutcome env k t msg p
          (settle env t p.0 (λ v. (ok tt, v)) (λ e. redirect env t msg (some e)) p.1).0
          (settle env t p.0 (λ v. (ok tt, v)) (λ e. redirect env t msg (some e)) p.1).1
  settled_handler (ok u, v) may wf = (refl, refl)
  settled_handler (err e, v) retriable wf =
      redirect-enters_chain env retrying k t law msg (some e) unmarked below retriable v wf

  -- For a message that is not marked as a member of the chain and has retries left: while no
  -- reference is counted for its topic and key, the resilient handler calls the user's handler. Its
  -- success is the outcome, with its state. After an error that may be tried again, the outcome is
  -- that of the redirect from the state that the handler left: where it succeeds, the message has
  -- entered the chain. Where it fails, either nothing was sent and the references are as before, or
  -- the lock was announced, the message could not be sent and the rollback was tried: the references
  -- are as before if the rollback worked, and the key has one more if it did not.
  pub resilient_handle_handles :
      (h : Handler) (w : World)
      → count w msg.topic msg.key ≡ 0
      → MayRetryAfter (h msg w).0
      → IsWellFormed (h msg w).1.locks
      → HandledOutcome env k t msg
          (h msg w)
          (resilient_handle env t h msg w).0
          (resilient_handle env t h msg w).1
  unfolding resilient_handle
  resilient_handle_handles h w none_counted may wf =
      rw (uncounted_is_not_in_chain env k t law msg w none_counted)
        (settled_handler (h msg w) may wf)

pub Entered-of :
    (env : Environment) (k : Coordinator) (t : Tracker) (current : ℤ) (msg : Envelope)
    (w w' : World) (r : Result Error (Unit {0}))
    → r ≡ ok tt
    → EnterOutcome env k t current msg w r w'
    → Entered k t current msg w w'
Entered-of env k t current msg w w' (ok u) done h = h
Entered-of env k t current msg w w' (err e) done h = absurd (ground (arith, done))

-- A message that is not marked as a member of the chain, has retries left and failed with an error that
-- may be tried again (or with nil), and whose redirect succeeds from well-formed reference counts,
-- blocks its key: behind it, every message of the same key and of its original topic is in the retry
-- chain.
pub failure_blocks_key :
    (env : Environment) (retrying : IsRetrying env) (k : Coordinator) (t : Tracker)
    → IsLocking k t.coordinator
    → (msg : Envelope) (last_error : Option Error) → is_marked (new_from_message msg) ≡ false
    → leb_ℤ t.cfg.max_retries (attempt_of (new_from_message msg)) ≡ false
    → MayRetry last_error
    → (w : World) → IsWellFormed w.locks
    → (redirect env t msg last_error w).0 ≡ ok tt
    → (successor : Envelope) → successor.topic ≡ original_topic_of (new_from_message msg)
    → successor.key ≡ (new_from_message msg).key
    → is_in_retry_chain env t successor (redirect env t msg last_error w).1 ≡ true
failure_blocks_key env retrying k t law msg last_error unmarked below may w wf done successor topic
      key =
    let m : Envelope = new_from_message msg in
    let w' : World = (redirect env t msg last_error w).1 in
    let h : Entered k t (attempt_of m) m w w' =
      Entered-of env k t (attempt_of m) m w w' (redirect env t msg last_error w).0 done
        (redirect-enters_chain env retrying k t law msg last_error unmarked below may w wf) in
    counted_is_in_chain env k t law successor w' (
      rw (topic, key)
        (ground (
          arith,
          h.counts (original_topic_of m) m.key,
          eq_refl (original_topic_of m),
          eq_refl m.key,
        )))
