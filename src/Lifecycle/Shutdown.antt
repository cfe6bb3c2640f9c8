-- ===== src/Lifecycle/Shutdown.antt =====
-- What Close waits for: after its region under the mutex, the Starts and the workers that are left
-- come to an end, and the counter of the WaitGroup falls to the number of the failed set-ups.
use kafka_resilience.Base.{
  length, ℕ, ◌+◌, ◌-◌, ◌*◌, ◌≤◌, ◌<◌, ◌≡◌, refl, ◌⊎◌, inl, inr, Bool, true, Option, List, [], ◌∷◌,
  arith,
}
use kafka_resilience.Base.Exec.{Result}
use kafka_resilience.Errors.{Error}
use kafka_resilience.Lifecycle.{
  Job, Service, roll_back, add_worker, launch, give_up, end_round, cancel_all, is_cancelled,
  close_returns, timed_out,
}
use kafka_resilience.Lifecycle.Steps.{
  Removed, here, Proceed, fails, adds, launches, gives_up, rounds, Open, start, later, Reach,
  closes, Drain, stay, onward,
}
use kafka_resilience.Lifecycle.Waits.{length-Removed, IsCounted, Proceed-IsCounted, Reach-IsCounted}
use kafka_resilience.Lifecycle.Contexts.{All, All-map, All-Removed, IsCancelled, cancelled_still}
use kafka_resilience.Lifecycle.Owned.{IsStopped, Open-IsOwned, cancel_all-IsStopped}

-- The steps that are left: a Start can add a worker and launch it, and a worker ends.
unfoldable pub steps_left : Service → ℕ
steps_left s = 3 * length s.starting + 2 * length s.setting_up + length s.workers

end_round_lem :
    (job : Job) (rest : List Job) (s : Service)
    → IsCancelled s job
    → end_round job rest s ≡ record s { workers = rest; waiting = s.waiting - 1 }
unfolding end_round
end_round_lem job rest s h = rw h refl

Proceed-IsStopped : {s t : Service} → Proceed s t → IsStopped s → IsStopped t
unfolding roll_back add_worker launch give_up All
Proceed-IsStopped {s} (fails {job} {rest} r) h =
    let still : (k : Job)
        → IsCancelled s k
        → is_cancelled k.context (job.context ∷ s.cancelled) ≡ true =
      λ k c. cancelled_still k.context job.context s.cancelled c in
    record {
      starting = All-map _ _ still rest (All-Removed _ r h.starting).1;
      set = All-map _ _ still s.setting_up h.set;
      live = All-map _ _ still s.workers h.live;
    }
Proceed-IsStopped (adds r) h =
    let (c, rest) = All-Removed _ r h.starting in
    record { starting = rest; set = (c, h.set); live = h.live }
Proceed-IsStopped (launches r) h =
    let (c, rest) = All-Removed _ r h.set in
    record { starting = h.starting; set = rest; live = (c, h.live) }
Proceed-IsStopped (gives_up r) h = record {
  starting = h.starting;
  set = (All-Removed _ r h.set).1;
  live = h.live;
}
Proceed-IsStopped {s} (rounds {job} {rest} r) h =
    let (c, live) = All-Removed _ r h.live in
    rw (end_round_lem job rest s c) (record { starting = h.starting; set = h.set; live = live })

steps_left-Proceed : {s t : Service} → Proceed s t → IsStopped s → steps_left t < steps_left s
unfolding steps_left roll_back add_worker launch give_up length
steps_left-Proceed (fails r) h = omega (arith, length-Removed r)
steps_left-Proceed (adds r) h = omega (arith, length-Removed r)
steps_left-Proceed (launches r) h = omega (arith, length-Removed r)
steps_left-Proceed (gives_up r) h = omega (arith, length-Removed r)
steps_left-Proceed {s} (rounds {job} {rest} r) h =
    let (c, live) = All-Removed _ r h.live in
    rw (end_round_lem job rest s c) (omega (arith, length-Removed r))

length-cases :
    {A : Type 0} (l : List A) → (length l ≡ 0) ⊎ ((x : A) × (rest : List A) × Removed x l rest)
unfolding length
length-cases [] = inl refl
length-cases (x ∷ l) = inr (x, l, here)

Proceed-Progress : (s : Service) → (steps_left s ≡ 0) ⊎ ((t : Service) × Proceed s t)
unfolding steps_left
Proceed-Progress s = elim (length-cases s.starting) [
  | inr (job, rest, r) ↦ inr (_, adds r)
  | inl a ↦ elim (length-cases s.setting_up) [
    | inr (job, rest, r) ↦ inr (_, launches r)
    | inl b ↦ elim (length-cases s.workers) [
      | inr (job, rest, r) ↦ inr (_, rounds r)
      | inl c ↦ inl (omega (arith, a, b, c))
    ]
  ]
]

drained-IsCounted : (s : Service) → IsCounted s → steps_left s ≡ 0 → s.waiting ≡ length s.failed
unfolding IsCounted steps_left
drained-IsCounted s h e = omega (arith, h, e)

module _ {s : Service} where
  Drain-IsCounted : {n : ℕ} {t : Service} → Drain s n t → IsCounted s → IsCounted t
  Drain-IsCounted stay h = h
  Drain-IsCounted (onward d p) h = Proceed-IsCounted p (Drain-IsCounted d h)

  Drain-IsStopped : {n : ℕ} {t : Service} → Drain s n t → IsStopped s → IsStopped t
  Drain-IsStopped stay h = h
  Drain-IsStopped (onward d p) h = Proceed-IsStopped p (Drain-IsStopped d h)

  steps_left-Drain :
      {n : ℕ} {t : Service} → Drain s n t → IsStopped s → n + steps_left t ≤ steps_left s
  steps_left-Drain stay h = omega arith
  steps_left-Drain (onward d p) h =
      omega (arith, steps_left-Drain d h, steps_left-Proceed p (Drain-IsStopped d h))

Open-Reach : {s : Service} → Open s → Reach s
Open-Reach start = start
Open-Reach (later o st) = later (Open-Reach o) st

bounded : {n : ℕ} (k : ℕ) (s : Service) → n + k ≤ steps_left (cancel_all s) → n ≤ steps_left s
unfolding steps_left cancel_all
bounded k s h = omega (arith, h)

-- Close called in a state s that was reached by calls of Start, cancellations and the goroutines'
-- own steps, without a Close before: from there, as long as Start is not called again, every
-- sequence of n steps of the goroutines has n at most three for each Start in progress, two for each
-- set-up in progress and one for each worker; and in the state t that it leads to, a goroutine can
-- still go on, or the counter of the WaitGroup is the number of the set-ups that have failed.
pub Drain-terminates :
    {s t : Service} {n : ℕ}
    → Open s
    → Drain (cancel_all s) n t
    → (n ≤ steps_left s) × (((u : Service) × Proceed t u) ⊎ (t.waiting ≡ length t.failed))
Drain-terminates {s} {t} o d =
    let stopped = cancel_all-IsStopped s (Open-IsOwned o) in
    (
      bounded (steps_left t) s (steps_left-Drain d stopped),
      elim (Proceed-Progress t) [
        | inr step ↦ inl step
        | inl e ↦
            inr
              (drained-IsCounted t (Drain-IsCounted d (Reach-IsCounted (closes (Open-Reach o)))) e)
      ],
    )

failed-end_round :
    (job : Job) (rest : List Job) (s : Service) → (end_round job rest s).failed ≡ s.failed
unfolding end_round
failed-end_round job rest s = ground arith

failed-Proceed : {s t : Service} → Proceed s t → length s.failed ≤ length t.failed
unfolding roll_back add_worker launch give_up length
failed-Proceed (fails r) = omega arith
failed-Proceed (adds r) = omega arith
failed-Proceed (launches r) = omega arith
failed-Proceed (gives_up r) = omega arith
failed-Proceed {s} (rounds {job} {rest} r) = rw (failed-end_round job rest s) (omega arith)

module _ {s : Service} where
  failed-Drain : {n : ℕ} {t : Service} → Drain s n t → length s.failed ≤ length t.failed
  failed-Drain stay = omega arith
  failed-Drain (onward d p) = omega (arith, failed-Drain d, failed-Proceed p)

close_returns-blocked :
    (r : Result Error (Unit {0})) (e : Option Error) (b : Bool) (s : Service)
    → IsCounted s
    → 0 < length s.failed
    → close_returns r e b s ≡ timed_out e
unfolding close_returns IsCounted
close_returns-blocked r e b s h lost = ground (arith, h, lost)

-- Once startRetryWorker has returned an error to a Start, in any reachable state s, no later Close
-- returns but by the end of its own context: after any number of steps of the goroutines, the counter
-- of the WaitGroup is not 0, so it returns the timeout error if its context is done, and else it is
-- blocked.
pub failed-blocks_close :
    {s t : Service} {n : ℕ} (r : Result Error (Unit {0})) (e : Option Error) (b : Bool)
    → Reach s
    → 0 < length s.failed
    → Drain (cancel_all s) n t
    → close_returns r e b t ≡ timed_out e
unfolding cancel_all
failed-blocks_close {s} {t} r e b reach lost d =
    close_returns-blocked r e b t (Drain-IsCounted d (Reach-IsCounted (closes reach)))
      (omega (arith, failed-Drain d, lost))
