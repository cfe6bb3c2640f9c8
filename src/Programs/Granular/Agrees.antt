-- ===== src/Programs/Granular/Agrees.antt =====
-- The handler that calls Redirect and Free itself does what the tracker's two handlers do around the
-- handler of the basic program.
use kafka_resilience.Base.{◌≡◌, refl, Bool, Bool-cases, inl, inr, true, false, ◌==◌}
use kafka_resilience.Base.Exec.{Result, ok, err, ◌>>=◌}
use kafka_resilience.Errors.{Error}
use kafka_resilience.Message.Envelope.{Envelope}
use kafka_resilience.World.{World, Environment}
use kafka_resilience.Tracker.{Tracker}
use kafka_resilience.Tracker.Chain.{
  is_in_retry_chain, wait_for_retry_time, resilient_handle, retry_worker_handle,
}
use kafka_resilience.Programs.{text_of, is_retry, order_handle}
use kafka_resilience.Programs.Granular.{manual_handle}

module _ (env : Environment) (t : Tracker) (msg : Envelope) where
  -- On a message that is no retry, the resilient handler; on a retry, the retry worker, but for the
  -- wait in front.
  abbrev pub Agrees : Bool → World → Type 0
  Agrees false w = manual_handle env t msg w ≡ resilient_handle env t order_handle msg w
  Agrees true w =
      (wait_for_retry_time env t msg >>= λ _. manual_handle env t msg) w
      ≡ retry_worker_handle env t order_handle msg w

  agrees_first :
      (w : World)
      → is_retry msg ≡ false
      → manual_handle env t msg w ≡ resilient_handle env t order_handle msg w
  unfolding manual_handle resilient_handle order_handle
  agrees_first w first = elim (Bool-cases (is_in_retry_chain env t msg w)) [
    | inl chained ↦ rw (first, chained) refl
    | inr free ↦ elim (Bool-cases (text_of msg == "fail")) [
      | inl fails ↦ rw (first, free, fails) refl
      | inr works ↦ rw (first, free, works) refl
    ]
  ]

  waited :
      (w : World) (r : Result Error (Unit {0})) (w' : World)
      → is_retry msg ≡ true
      → wait_for_retry_time env t msg w ≡ (r, w')
      → Agrees true w
  unfolding manual_handle retry_worker_handle order_handle ◌>>=◌
  waited w (err e) w' again h = rw h refl
  waited w (ok u) w' again h = elim (Bool-cases (text_of msg == "fail")) [
    | inl fails ↦ rw (h, again, fails) refl
    | inr works ↦ rw (h, again, works) refl
  ]

  agrees_by : (b : Bool) (w : World) → is_retry msg ≡ b → Agrees b w
  agrees_by false w first = agrees_first w first
  agrees_by true w again = waited w _ _ again refl

  -- On a message that is no retry, the manual handler returns what the resilient handler returns
  -- around the handler of the basic program, and leaves the same state. On a retry, it does so as the
  -- handler of the retry worker, if the wait for the retry time is put in front of it.
  pub manual_handle-Agrees : (w : World) → Agrees (is_retry msg) w
  manual_handle-Agrees w = agrees_by (is_retry msg) w refl
