-- ===== src/Programs/Demo/Shown.antt =====
-- The demo handler behind the resilient handler, on the messages of the main topic, and what GET /locks
-- shows of it.
use kafka_resilience.Base.{◌≡◌, sym, ap, ◌∙◌, refl, true, false, some, leb_ℤ, if◌then◌else◌, arith}
use kafka_resilience.Base.GoMap.{remove}
use kafka_resilience.Base.Exec.{Result, ok}
use kafka_resilience.Errors.{Error, new, is_not_retriable}
use kafka_resilience.Locks.WellFormed.{IsWellFormed}
use kafka_resilience.Message.Envelope.{Envelope, new_from_message}
use kafka_resilience.World.{World, Environment}
use kafka_resilience.World.Retry.{IsRetrying}
use kafka_resilience.Coordinator.{Coordinator}
use kafka_resilience.Coordinator.Announce.{count}
use kafka_resilience.Tracker.{Tracker, Handler, attempt_of, original_topic_of}
use kafka_resilience.Tracker.Locking.{IsLocking}
use kafka_resilience.Tracker.Redirects.{is_marked}
use kafka_resilience.Tracker.Chain.{redirect, is_in_retry_chain, resilient_handle}
use kafka_resilience.Tracker.Handlers.{uncounted_is_not_in_chain, failure_blocks_key}
use kafka_resilience.Programs.Demo.{
  DemoHandler, is_armed, note, check_and_clear_fail, decide, demo_handle, get_locked_keys,
  get_pending_fails, keys,
}
use kafka_resilience.Programs.Demo.Web.{get, answered, handle_locks}
use kafka_resilience.Programs.Demo.Armed.{demo_handle-result}

-- `between` is what the rest of the process does to its state, such as the record of a foreign lock,
-- between the tracker's test of the locks and the handler's.
module _ (env : Environment) (t : Tracker) (between : World → World) where
  -- Handle as the tracker calls it: by itself it changes nothing of the process's state.
  abbrev pub as_handler : DemoHandler → Handler
  as_handler h msg w = ((demo_handle env t msg (between w) h).0, between w)

  -- The handler's own state behind a message of the main topic: the tracker calls it only where its
  -- test finds the message outside the chain.
  unfoldable pub main_delivered : Envelope → World → DemoHandler → DemoHandler
  main_delivered msg w h =
      if is_in_retry_chain env t msg w then h else (demo_handle env t msg (between w) h).1

-- A failure that Handle simulates outside the chain uses the mark up and shows no key.
failed_outside :
    (env : Environment) (t : Tracker) (msg : Envelope) (w : World) (h : DemoHandler)
    → is_in_retry_chain env t msg w ≡ false
    → is_armed msg.key h ≡ true
    → ((demo_handle env t msg w h).1.locked_keys ≡ h.locked_keys)
      × ((demo_handle env t msg w h).1.fail_keys ≡ remove msg.key h.fail_keys)
unfolding demo_handle note check_and_clear_fail decide is_armed
failed_outside env t msg w h outside armed = ground arith

-- The resilient handler redirects a message that the demo program fails.
failed_delivery :
    (env : Environment) (t : Tracker) (between : World → World) (msg : Envelope) (w : World)
    (h : DemoHandler)
    → is_in_retry_chain env t msg w ≡ false
    → is_armed msg.key h ≡ true
    → resilient_handle env t (as_handler env t between h) msg w
      ≡ redirect env t msg (some (new "simulated failure")) (between w)
unfolding resilient_handle
failed_delivery env t between msg w h outside armed =
    rw (outside, demo_handle-result env t msg (between w) h, armed) refl

-- What GET /locks lists behind a message that is failed at its first delivery.
listed :
    (env : Environment) (t : Tracker) (between : World → World) (msg : Envelope) (w : World)
    (h : DemoHandler)
    → is_in_retry_chain env t msg w ≡ false
    → is_in_retry_chain env t msg (between w) ≡ false
    → is_armed msg.key h ≡ true
    → handle_locks get (main_delivered env t between msg w h)
      ≡ answered (record {
        locked_keys = get_locked_keys h;
        pending_fails = keys (remove msg.key h.fail_keys);
      })
unfolding handle_locks get_locked_keys get_pending_fails main_delivered
listed env t between msg w h outside still armed =
    let (locked, pending) = failed_outside env t msg (between w) h still armed in
    rw (outside, locked, pending) refl

-- A message of the main topic that is not marked as a member of the chain, has retries left, and whose
-- key is uncounted both at the tracker's test of the locks and at the handler's, is to fail, and is
-- redirected without an error from well-formed reference counts: behind it, every message of its key
-- and original topic is in the retry chain, while GET /locks lists exactly the keys that it listed
-- before the message; the key's mark is used up.
pub first_failure_is_not_shown :
    (env : Environment) (retrying : IsRetrying env) (k : Coordinator) (t : Tracker)
    → (law : IsLocking k t.coordinator) → (between : World → World) (w : World) (h : DemoHandler)
    → IsWellFormed (between w).locks
    → (msg : Envelope) → is_marked (new_from_message msg) ≡ false
    → leb_ℤ t.cfg.max_retries (attempt_of (new_from_message msg)) ≡ false
    → count w msg.topic msg.key ≡ 0
    → count (between w) msg.topic msg.key ≡ 0
    → is_armed msg.key h ≡ true
    → (resilient_handle env t (as_handler env t between h) msg w).0 ≡ ok tt
    → (successor : Envelope) → successor.topic ≡ original_topic_of (new_from_message msg)
    → successor.key ≡ (new_from_message msg).key
    → (is_in_retry_chain env t successor
          (resilient_handle env t (as_handler env t between h) msg w).1
        ≡ true)
      × (handle_locks get (main_delivered env t between msg w h)
          ≡ answered (record {
            locked_keys = get_locked_keys h;
            pending_fails = keys (remove msg.key h.fail_keys);
          }))
unfolding is_not_retriable
first_failure_is_not_shown env retrying k t law between w h wf msg unmarked below free still armed
      done successor topic key =
    let outside : is_in_retry_chain env t msg w ≡ false =
      uncounted_is_not_in_chain env k t law msg w free in
    let e : resilient_handle env t (as_handler env t between h) msg w
        ≡ redirect env t msg (some (new "simulated failure")) (between w) =
      failed_delivery env t between msg w h outside armed in
    (
      rw e (
          failure_blocks_key env retrying k t law msg (some (new "simulated failure")) unmarked
            below refl (between w) wf
            (ap (λ (p : Result Error (Unit {0}) × World). p.0) (sym e) ∙ done) successor topic key),
      listed env t between msg w h outside
          (uncounted_is_not_in_chain env k t law msg (between w) still) armed,
    )
