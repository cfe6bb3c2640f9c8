-- ===== src/Programs/Demo/Armed.antt =====
-- Which messages the demo program fails.
use kafka_resilience.Base.{
  ◌≡◌, refl, String, Bool, true, false, List, [], ◌∷◌, ◌==◌, if◌then◌else◌, ◌&&◌, not, arith,
  eq_iff,
}
use kafka_resilience.Base.GoMap.{lookup-insert, lookup-remove, lookup-empty}
use kafka_resilience.Base.Exec.{Result, ok, err}
use kafka_resilience.Errors.{new}
use kafka_resilience.Message.Envelope.{Envelope}
use kafka_resilience.World.{World, Environment}
use kafka_resilience.Tracker.{Tracker}
use kafka_resilience.Programs.{Outbox, Sending}
use kafka_resilience.Programs.Demo.{
  DemoHandler, new_demo_handler, set_fail, clear_fail, is_armed, note, check_and_clear_fail, decide,
  demo_handle,
}
use kafka_resilience.Programs.Demo.Web.{
  ProduceRequest, FailRequest, is_post, handle_produce, produce_decoded, handle_fail, fail_decoded,
}
use kafka_resilience.Programs.Demo.Accesses.{Access, produce, fail, handled, access, run}

-- Whether a key is to fail behind an access, if it was (or was not) before: a POST /fail with the key
-- decides it either way, a POST /produce with the key only where it asks for a failure, and a message
-- with the key uses the mark up.
abbrev pub produce_arms : String → Bool → Result String ProduceRequest → Bool
produce_arms key before (err text) = before
produce_arms key before (ok req) =
    if not (req.key == "") && req.fail && req.key == key then true else before

abbrev pub fail_arms : String → Bool → Result String FailRequest → Bool
fail_arms key before (err text) = before
fail_arms key before (ok req) = if req.key == key then req.fail else before

abbrev pub arms : String → Bool → Access → Bool
arms key before (produce r) = if is_post r.method then produce_arms key before r.body else before
arms key before (fail r) = if is_post r.method then fail_arms key before r.body else before
arms key before (handled msg w) = if msg.key == key then false else before

abbrev pub armed : String → Bool → List Access → Bool
armed key before [] = before
armed key before (a ∷ accesses) = armed key (arms key before a) accesses

is_armed-set_fail :
    (key k : String) (h : DemoHandler)
    → is_armed key (set_fail k h) ≡ (if k == key then true else is_armed key h)
unfolding is_armed set_fail
is_armed-set_fail key k h = ground (arith, lookup-insert k key true h.fail_keys)

is_armed-clear_fail :
    (key k : String) (h : DemoHandler)
    → is_armed key (clear_fail k h) ≡ (if k == key then false else is_armed key h)
unfolding is_armed clear_fail
is_armed-clear_fail key k h = ground (arith, lookup-remove k key h.fail_keys)

is_armed-new : (key : String) → is_armed key new_demo_handler ≡ false
unfolding is_armed
is_armed-new key = rw (lookup-empty {V = Bool} key) refl

module _ (env : Environment) (t : Tracker) where
  is_armed-note :
      (key : String) (msg : Envelope) (w : World) (h : DemoHandler)
      → is_armed key (note env t msg w h) ≡ is_armed key h
  unfolding is_armed note
  is_armed-note key msg w h = ground arith

  is_armed-check :
      (key k : String) (h : DemoHandler)
      → is_armed key (check_and_clear_fail k h).1 ≡ (if k == key then false else is_armed key h)
  unfolding check_and_clear_fail is_armed
  is_armed-check key k h = ground (arith, lookup-remove k key h.fail_keys, eq_iff k key)

  is_armed-decide :
      (key : String) (msg : Envelope) (b : Bool) (h : DemoHandler)
      → is_armed key (decide msg (b, h)).1 ≡ is_armed key h
  unfolding decide is_armed
  is_armed-decide key msg true h = refl
  is_armed-decide key msg false h = refl

  is_armed-handle :
      (key : String) (msg : Envelope) (w : World) (h : DemoHandler)
      → is_armed key (demo_handle env t msg w h).1
        ≡ (if msg.key == key then false else is_armed key h)
  unfolding demo_handle
  is_armed-handle key msg w h =
      let noted : DemoHandler = note env t msg w h in
      let (b, h') = check_and_clear_fail msg.key noted in
      rw (is_armed-decide key msg b h', is_armed-check key msg.key noted, is_armed-note key msg w h)
        refl

  -- The outcome of a message is decided by the mark of its key.
  pub demo_handle-result :
      (msg : Envelope) (w : World) (h : DemoHandler)
      → (demo_handle env t msg w h).0
        ≡ (if is_armed msg.key h then err (new "simulated failure") else ok tt)
  unfolding demo_handle check_and_clear_fail decide
  demo_handle-result msg w h = ground (arith, is_armed-note msg.key msg w h)

  module _ (sending : Sending) (topic : String) where
    is_armed-produce :
        (key : String) (body : Result String ProduceRequest) (h : DemoHandler) (o : Outbox)
        → is_armed key (produce_decoded sending topic body h o).1
          ≡ produce_arms key (is_armed key h) body
    unfolding produce_decoded
    is_armed-produce key (err text) h o = refl
    is_armed-produce key (ok req) h o = ground (arith, is_armed-set_fail key req.key h)

    is_armed-fail :
        (key : String) (body : Result String FailRequest) (h : DemoHandler)
        → is_armed key (fail_decoded body h).1 ≡ fail_arms key (is_armed key h) body
    unfolding fail_decoded
    is_armed-fail key (err text) h = refl
    is_armed-fail key (ok req) h =
        ground (arith, is_armed-set_fail key req.key h, is_armed-clear_fail key req.key h)

    is_armed-access :
        (key : String) (a : Access) (h : DemoHandler) (o : Outbox)
        → is_armed key (access env t sending topic a (h, o)).0 ≡ arms key (is_armed key h) a
    unfolding handle_produce handle_fail
    is_armed-access key (produce r) h o = ground (arith, is_armed-produce key r.body h o)
    is_armed-access key (fail r) h o = ground (arith, is_armed-fail key r.body h)
    is_armed-access key (handled msg w) h o = is_armed-handle key msg w h

    is_armed-run :
        (key : String) (accesses : List Access) (s : DemoHandler × Outbox)
        → is_armed key (run env t sending topic accesses s).0
          ≡ armed key (is_armed key s.0) accesses
    unfolding run
    is_armed-run key [] s = refl
    is_armed-run key (a ∷ accesses) s =
        rw (← is_armed-access key a s.0 s.1)
          (is_armed-run key accesses (access env t sending topic a s))

    -- After any sequence of requests and messages from a new handler, Handle fails a message
    -- exactly if a failure was asked for by the last of the accesses that decide about its key: a
    -- POST /fail that names the key in a body that is decoded, which asks for a failure or takes
    -- one back, a POST /produce that names it, where it is not empty, and asks for a failure, even
    -- where its message is then not sent, and the handling of a message with the key, which uses
    -- the mark up. A POST /produce that asks for no failure leaves the mark as it is.
    pub demo_handle_fails_as_asked :
        (accesses : List Access) (o : Outbox) (msg : Envelope) (w : World)
        → (demo_handle env t msg w (run env t sending topic accesses (new_demo_handler, o)).0).0
          ≡ (if armed msg.key false accesses then err (new "simulated failure") else ok tt)
    demo_handle_fails_as_asked accesses o msg w =
        rw
          (
            demo_handle-result msg w (run env t sending topic accesses (new_demo_handler, o)).0,
            is_armed-run msg.key accesses (new_demo_handler, o),
            is_armed-new msg.key,
          )
          refl
