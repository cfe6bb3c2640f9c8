-- ===== src/Lifecycle/Steps.antt =====
-- The runs of the tracker's goroutines: which region of code runs next is not determined.
use kafka_resilience.Base.{ℕ, ◌+◌, String, List, ◌∷◌}
use kafka_resilience.Lifecycle.{
  Job, Service, new_service, claim, roll_back, add_worker, launch, give_up, end_round, cancel_all,
}

-- The second list is the first one without one entry `x`.
pub data Removed {A : Type 0} (x : A) : List A → List A → Type 0 where
  here : {l : List A} → Removed x (x ∷ l) l
  there : {y : A} {l rest : List A} → Removed x l rest → Removed x (y ∷ l) (y ∷ rest)

-- A Start, or a worker, that goes on.
pub data Proceed (s : Service) : Service → Type 0 where
  fails :
      {job : Job} {rest : List Job}
      → Removed job s.starting rest
      → Proceed s (roll_back job (record s { starting = rest }))
  adds :
      {job : Job} {rest : List Job}
      → Removed job s.starting rest
      → Proceed s (add_worker job (record s { starting = rest }))
  launches :
      {job : Job} {rest : List Job}
      → Removed job s.setting_up rest
      → Proceed s (launch job (record s { setting_up = rest }))
  gives_up :
      {job : Job} {rest : List Job}
      → Removed job s.setting_up rest
      → Proceed s (give_up job (record s { setting_up = rest }))
  rounds :
      {job : Job} {rest : List Job} → Removed job s.workers rest → Proceed s (end_round job rest s)

-- Besides, a Start can be called, and the caller can cancel a context that it gave to Start.
pub data Step (s : Service) : Service → Type 0 where
  claims : (topic : String) → Step s (claim topic s)
  interrupts : (context : ℕ) → Step s (record s { cancelled = context ∷ s.cancelled })
  proceeds : {t : Service} → Proceed s t → Step s t

-- The states before any Close.
pub data Open : Service → Type 0 where
  start : Open new_service
  later : {s t : Service} → Open s → Step s t → Open t

-- All states.
pub data Reach : Service → Type 0 where
  start : Reach new_service
  later : {s t : Service} → Reach s → Step s t → Reach t
  closes : {s : Service} → Reach s → Reach (cancel_all s)

-- `n` steps without a call from outside.
pub data Drain (s : Service) : ℕ → Service → Type 0 where
  stay : Drain s 0 s
  onward : {n : ℕ} {t u : Service} → Drain s n t → Proceed t u → Drain s (n + 1) u
