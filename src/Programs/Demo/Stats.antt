-- ===== src/Programs/Demo/Stats.antt =====
-- The counters of the demo program.
use kafka_resilience.Base.{ℕ, ◌+◌, ◌≤◌, ◌≡◌, refl, String, List, [], ◌∷◌, arith}
use kafka_resilience.Message.Envelope.{Envelope}
use kafka_resilience.World.{World, Environment}
use kafka_resilience.Tracker.{Tracker}
use kafka_resilience.Programs.{Outbox, Sending}
use kafka_resilience.Programs.Demo.{
  DemoHandler, new_demo_handler, set_fail, clear_fail, note, check_and_clear_fail, decide,
  demo_handle,
}
use kafka_resilience.Programs.Demo.Web.{
  Request, ProduceRequest, FailRequest, handle_produce, produce_decoded, handle_fail, fail_decoded,
}
use kafka_resilience.Programs.Demo.Accesses.{Access, produce, fail, handled, access, run}

-- Behind n messages.
pub record IsBalanced (n : ℕ) (h : DemoHandler) : Type 0 where
  pub all_counted : h.processed ≡ n
  pub balanced : h.succeeded + h.failed ≡ n
  pub retried_failed : h.retried ≤ h.failed

module _ (n : ℕ) (h : DemoHandler) (v : IsBalanced n h) where
  produce-IsBalanced :
      (sending : Sending) (topic : String) (r : Request ProduceRequest) (o : Outbox)
      → IsBalanced n (handle_produce sending topic r h o).1
  unfolding handle_produce produce_decoded set_fail
  produce-IsBalanced sending topic r o = ground arith

  fail-IsBalanced : (r : Request FailRequest) → IsBalanced n (handle_fail r h).1
  unfolding handle_fail fail_decoded set_fail clear_fail
  fail-IsBalanced r = ground arith

  handled-IsBalanced :
      (env : Environment) (t : Tracker) (msg : Envelope) (w : World)
      → IsBalanced (n + 1) (demo_handle env t msg w h).1
  unfolding demo_handle note check_and_clear_fail decide
  handled-IsBalanced env t msg w = ground arith

module _ (env : Environment) (t : Tracker) (sending : Sending) (topic : String) where
  -- The number of messages among the accesses.
  abbrev pub messages : List Access → ℕ
  messages [] = 0
  messages (produce r ∷ accesses) = messages accesses
  messages (fail r ∷ accesses) = messages accesses
  messages (handled msg w ∷ accesses) = messages accesses + 1

  run-IsBalanced :
      (accesses : List Access) (n : ℕ) (s : DemoHandler × Outbox)
      → IsBalanced n s.0
      → IsBalanced (n + messages accesses) (run env t sending topic accesses s).0
  unfolding run
  run-IsBalanced [] n s v = ground arith
  run-IsBalanced (produce r ∷ accesses) n s v =
      run-IsBalanced accesses n (access env t sending topic (produce r) s)
        (produce-IsBalanced n s.0 v sending topic r s.1)
  run-IsBalanced (fail r ∷ accesses) n s v =
      run-IsBalanced accesses n (access env t sending topic (fail r) s) (fail-IsBalanced n s.0 v r)
  run-IsBalanced (handled msg w ∷ accesses) n s v = ground (
    arith,
    run-IsBalanced accesses (n + 1) (access env t sending topic (handled msg w) s)
        (handled-IsBalanced n s.0 v env t msg w),
  )

  -- After any sequence of requests and messages from a new handler, the total is the number of the
  -- messages, each one has succeeded or failed, and no more are counted as retried than have failed.
  pub stats_balance :
      (accesses : List Access) (o : Outbox)
      → IsBalanced (messages accesses) (run env t sending topic accesses (new_demo_handler, o)).0
  stats_balance accesses o =
      let b : IsBalanced (0 + messages accesses)
          (run env t sending topic accesses (new_demo_handler, o)).0 =
        run-IsBalanced accesses 0 (new_demo_handler, o)
          (record { all_counted = refl; balanced = refl; retried_failed = omega arith }) in
      ground arith
