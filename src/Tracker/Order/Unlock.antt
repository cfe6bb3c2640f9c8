-- ===== src/Tracker/Order/Unlock.antt =====
-- What the retry worker of resilience/tracker.go does to the locks that a claim left: where the retries
-- of the queued messages succeed, in any order, every key has the references that it had.
use kafka_resilience.Base.{
  ◌+◌, ◌-◌, ◌≤◌, ◌≡◌, ◌≢◌, refl, sym, ap, subst, ◌∙◌, String, Bool, ◌==◌, Option, none, some, List,
  [], ◌∷◌, map, if◌then◌else◌, arith, eq_refl,
}
use kafka_resilience.Base.Exec.{Result, ok, err, ◌>>=◌}
use kafka_resilience.Errors.{Error}
use kafka_resilience.Locks.{LockMap}
use kafka_resilience.Locks.Local.{refs}
use kafka_resilience.Locks.WellFormed.{IsWellFormed}
use kafka_resilience.Message.Headers.{get}
use kafka_resilience.Message.Envelope.{Envelope, new_from_message}
use kafka_resilience.Message.Values.{header_id, header_topic}
use kafka_resilience.World.{World, Environment}
use kafka_resilience.World.Retry.{IsRetrying}
use kafka_resilience.Coordinator.{Coordinator}
use kafka_resilience.Coordinator.Announce.{count}
use kafka_resilience.Coordinator.Release.{ReleaseOutcome}
use kafka_resilience.Sarama.Consumer.{message, Claim, consume_claim}
use kafka_resilience.Sarama.Consumer.Marks.{consume_claim_err, consume_claim_ok}
use kafka_resilience.Tracker.{Tracker, Handler}
use kafka_resilience.Tracker.Locking.{IsLocking}
use kafka_resilience.Tracker.Chain.{wait_for_retry_time, retry_worker_handle}
use kafka_resilience.Tracker.Handlers.{MayRetryAfter}
use kafka_resilience.Tracker.Workers.{wait_for_retry_time-Waited, retry_worker_handle-frees}
use kafka_resilience.Tracker.Order.Queue.{Verdict, judging, queued, IsFresh, All, occurrences}
use kafka_resilience.Tracker.Order.{some-ne-none, handle, Matching, claim_keeps_order}

-- A retry that holds a lock of the topic.
pub record IsLockedRetry (topic : String) (msg : Envelope) : Type 0 where
  pub lock_id : String
  pub has_id : get header_id (new_from_message msg).headers ≡ some lock_id
  pub has_topic : get header_topic (new_from_message msg).headers ≡ some topic

err-ne-ok : (e : Error) → ◌≢◌ {A = Result Error (Unit {0})} (err e) (ok tt)
err-ne-ok e h = cc

module _ (env : Environment) (k : Coordinator) (t : Tracker) (law : IsLocking k t.coordinator)
    (topic : String) where
  -- The worker around a handler to which every message succeeds.
  abbrev pub work : Handler
  work = retry_worker_handle env t (judging (λ msg. ok tt))

  key_of_retry : (msg : Envelope) → (new_from_message msg).key ≡ msg.key
  unfolding new_from_message
  key_of_retry msg = refl

  abbrev Freed : Envelope → World → World → Type 0
  Freed msg w w' =
      ((j : String)
        → count w' topic j ≡ (if msg.key == j then count w topic j - 1 else count w topic j))
      × IsWellFormed w'.locks

  release-Freed :
      (msg : Envelope) (id : String) (w v : World) (r : Result Error (Unit {0})) (w' : World)
      → v.locks ≡ w.locks
      → r ≡ ok tt
      → ReleaseOutcome k topic id (new_from_message msg) v r w'
      → Freed msg w w'
  release-Freed msg id w v (ok u) w' locks done h = (
    (λ j. ground (
      arith,
      h.counts topic j,
      key_of_retry msg,
      eq_refl topic,
      ap (λ (m : LockMap). refs m topic j) locks,
    )),
    h.well_formed,
  )
  release-Freed msg id w v (err e) w' locks done h = absurd (ground (arith, done))

  work-Freed :
      (msg : Envelope) (w : World) (q : Result Error (Unit {0}) × World)
      → IsLockedRetry topic msg
      → IsWellFormed w.locks
      → wait_for_retry_time env t msg w ≡ q
      → (work msg w).0 ≡ ok tt
      → Freed msg w (work msg w).1
  unfolding retry_worker_handle ◌>>=◌
  work-Freed msg w (err e, v) locked wf waited done = absurd (err-ne-ok e (rw waited at done))
  work-Freed msg w (ok u, v) locked wf waited done =
      let same_locks : v.locks ≡ w.locks =
        sym (ap (λ (p : Result Error (Unit {0}) × World). p.1.locks) waited)
        ∙ (wait_for_retry_time-Waited env t msg w).1 in
      release-Freed msg locked.lock_id w v (work msg w).0 (work msg w).1 same_locks done (
        retry_worker_handle-frees env k t law msg topic locked.lock_id locked.has_id
          locked.has_topic (judging (λ msg. ok tt)) w v v waited (rw same_locks wf) refl)

  work_claim_step :
      (msg : Envelope) (rest : List Envelope) (c : Claim World)
      (q : Result Error (Unit {0}) × World)
      → IsLockedRetry topic msg
      → IsWellFormed c.state.locks
      → ((d : Claim World)
          → IsWellFormed d.state.locks
          → (consume_claim work (map message rest) d).0 ≡ none
          → ((j : String) → occurrences j rest ≤ count d.state topic j)
          → (j : String)
          → count (consume_claim work (map message rest) d).1.state topic j + occurrences j rest
            ≡ count d.state topic j)
      → work msg c.state ≡ q
      → (consume_claim work (map message (msg ∷ rest)) c).0 ≡ none
      → ((j : String) → occurrences j (msg ∷ rest) ≤ count c.state topic j)
      → (j : String)
      → count (consume_claim work (map message (msg ∷ rest)) c).1.state topic j
          + occurrences j (msg ∷ rest)
        ≡ count c.state topic j
  work_claim_step msg rest c (err e, s) locked wf more h done enough j = absurd (
      some-ne-none (err e) (
        sym (
          ap (λ (p : Option (Result Error (Unit {0})) × Claim World). p.0)
            (consume_claim_err work msg (map message rest) c e s h))
        ∙ done))
  work_claim_step msg rest c (ok u, s) locked wf more h done enough j =
      let next : Claim World = record { state = s; marked = msg ∷ c.marked } in
      let step : consume_claim work (message msg ∷ map message rest) c
          ≡ consume_claim work (map message rest) next =
        consume_claim_ok work msg (map message rest) c s h in
      let freed : Freed msg c.state s =
        subst (λ (w : World). Freed msg c.state w)
          (ap (λ (p : Result Error (Unit {0}) × World). p.1) h)
          (work-Freed msg c.state _ locked wf refl
            (ap (λ (p : Result Error (Unit {0}) × World). p.0) h)) in
      rw step (
        ground (
          arith,
          more next freed.1 (rw (← step) done) (λ i. ground (arith, freed.0 i, enough i)) j,
          freed.0 j,
          enough j,
        ))

  -- Where the worker takes every retry of a list, each under a lock of the topic, and every one
  -- succeeds, each key loses as many references as it has messages in the list, if it has as many.
  pub retries_free :
      (msgs : List Envelope)
      → All (IsLockedRetry topic) msgs
      → (c : Claim World) → IsWellFormed c.state.locks
      → (consume_claim work (map message msgs) c).0 ≡ none
      → ((j : String) → occurrences j msgs ≤ count c.state topic j)
      → (j : String)
      → count (consume_claim work (map message msgs) c).1.state topic j + occurrences j msgs
        ≡ count c.state topic j
  unfolding consume_claim
  retries_free [] locked c wf done enough j = omega arith
  retries_free (msg ∷ msgs) locked c wf done enough j =
      work_claim_step msg msgs c _ locked.0 wf (retries_free msgs locked.1) refl done enough j

-- A claim of fresh messages of one topic that the resilient handler takes, where the user's
-- handler touches no lock and fails only with errors that may be tried again, and then retries
-- under locks of the topic that the worker takes and to which the user's handler succeeds, in
-- any order but for each key as many as the claim queued of it, leave every key of the topic
-- with the references that it had before the claim: a key that was free is free again. No other
-- lock changes between the two.
pub claim_and_retries_unlock :
    (env : Environment) (retrying : IsRetrying env) (k : Coordinator) (t : Tracker)
    (law : IsLocking k t.coordinator) (topic : String) (verdict : Verdict)
    (may : (msg : Envelope) → MayRetryAfter (verdict msg)) (msgs : List Envelope)
    → All (IsFresh t topic) msgs
    → (blocked : String → Bool) (c : Claim World) → IsWellFormed c.state.locks
    → Matching env retrying k t law topic verdict may blocked c.state
    → (consume_claim (handle env retrying k t law topic verdict may) (map message msgs) c).0 ≡ none
    → (retries : List Envelope) → All (IsLockedRetry topic) retries
    → ((j : String) → occurrences j retries ≡ occurrences j (queued verdict blocked msgs))
    → (d : Claim World)
    → d.state
      ≡ (consume_claim (handle env retrying k t law topic verdict may) (map message msgs) c).1.state
    → (consume_claim (work env k t law topic) (map message retries) d).0 ≡ none
    → (j : String)
    → count (consume_claim (work env k t law topic) (map message retries) d).1.state topic j
      ≡ count c.state topic j
claim_and_retries_unlock env retrying k t law topic verdict may msgs fresh blocked c wf blocks taken
      retries locked as_many d from succeeded j =
    let (sent, counts, wf') =
      claim_keeps_order env retrying k t law topic verdict may msgs fresh blocked c wf blocks
        taken in
    let counts' : (i : String)
        → count d.state topic i ≡ count c.state topic i + occurrences i retries =
      (λ i. rw (from, as_many i) (counts i)) in
    omega (
      arith,
      counts' j,
      retries_free env k t law topic retries locked d (rw from wf') succeeded
          (λ i. omega (arith, counts' i)) j,
    )
