-- ===== src/Lifecycle/Waits.antt =====
-- The counter of the WaitGroup, and how many steps are left.
use kafka_resilience.Base.{
  length, ◌+◌, ◌≡◌, refl, inl, inr, Bool-cases, List, Option, String, arith,
}
use kafka_resilience.Lifecycle.{
  Job, Service, claimed, claim, roll_back, add_worker, launch, give_up, end_round, cancel_all,
  is_cancelled,
}
use kafka_resilience.Base.GoMap.{lookup}
use kafka_resilience.Lifecycle.Steps.{
  Removed, here, there, Proceed, fails, adds, launches, gives_up, rounds, Step, claims, interrupts,
  proceeds, Reach, start, later, closes,
}

pub length-Removed :
    {A : Type 0} {x : A} {l rest : List A} → Removed x l rest → length l ≡ length rest + 1
unfolding length
length-Removed here = refl
length-Removed (there r) = omega (arith, length-Removed r)

-- The counter is the number of the workers and of the calls of startRetryWorker, those that failed
-- included.
unfoldable pub IsCounted : Service → Type 0
IsCounted s = s.waiting ≡ length s.workers + length s.setting_up + length s.failed

end_round-IsCounted :
    (s : Service) (job : Job) (rest : List Job)
    → Removed job s.workers rest
    → IsCounted s
    → IsCounted (end_round job rest s)
unfolding IsCounted end_round
end_round-IsCounted s job rest r h = elim (Bool-cases (is_cancelled job.context s.cancelled)) [
  | inl a ↦ rw a (omega (arith, h, length-Removed r))
  | inr b ↦ rw b h
]

pub Proceed-IsCounted : {s t : Service} → Proceed s t → IsCounted s → IsCounted t
unfolding IsCounted roll_back add_worker launch give_up length
Proceed-IsCounted (fails r) h = h
Proceed-IsCounted (adds r) h = omega (arith, h)
Proceed-IsCounted (launches r) h = omega (arith, h, length-Removed r)
Proceed-IsCounted (gives_up r) h = omega (arith, h, length-Removed r)
Proceed-IsCounted {s} (rounds {job} {rest} r) h = end_round-IsCounted s job rest r h

pub claim-IsCounted : (topic : String) (s : Service) → IsCounted s → IsCounted (claim topic s)
unfolding IsCounted claim
claim-IsCounted topic s h =
    elim (lookup topic s.started_topics) as (λ o. IsCounted (claimed o topic s)) [
      | Option.none ↦ h
      | Option.some u ↦ h
    ]

pub Step-IsCounted : {s t : Service} → Step s t → IsCounted s → IsCounted t
unfolding IsCounted
Step-IsCounted (claims topic) h = claim-IsCounted topic _ h
Step-IsCounted (interrupts c) h = h
Step-IsCounted (proceeds p) h = Proceed-IsCounted p h

pub Reach-IsCounted : {s : Service} → Reach s → IsCounted s
unfolding IsCounted length cancel_all
Reach-IsCounted start = refl
Reach-IsCounted (later r st) = Step-IsCounted st (Reach-IsCounted r)
Reach-IsCounted (closes r) = Reach-IsCounted r
