-- ===== src/Examples/Lifecycle.antt =====
-- A service that starts the topic "orders": once well, and once with a failed set-up.
use kafka_resilience.Base.{
  length, ℕ, ◌<◌, ◌≤◌, ◌≡◌, ◌⊎◌, refl, Option, none, some, [], ◌∷◌, true, arith,
}
use kafka_resilience.Base.Exec.{ok}
use kafka_resilience.Lifecycle.{
  Job, Service, new_service, claim, add_worker, launch, give_up, end_round, cancel_all,
  close_returns,
}
use kafka_resilience.Lifecycle.Steps.{
  Removed, Proceed, fails, adds, launches, gives_up, rounds, claims, proceeds, Open, Reach, Drain,
  onward, stay,
}
use kafka_resilience.Lifecycle.Steps
use kafka_resilience.Lifecycle.Shutdown.{steps_left, Drain-terminates, failed-blocks_close}

abbrev job : Job
job = record { topic = "orders"; context = 0 }

abbrev claimed_once : Service
claimed_once = claim "orders" new_service

claimed_job : Removed job claimed_once.starting []
unfolding claim kafka_resilience.Base.GoMap.lookup
claimed_job = Steps.Removed.here

claimed_open : Open claimed_once
claimed_open = Steps.Open.later Steps.Open.start (claims "orders")

abbrev added : Service
added = add_worker job (record claimed_once { starting = [] })

added_open : Open added
added_open = Steps.Open.later claimed_open (proceeds (adds claimed_job))

added_job : Removed job added.setting_up []
unfolding claim add_worker kafka_resilience.Base.GoMap.lookup
added_job = Steps.Removed.here

abbrev running : Service
running = launch job (record added { setting_up = [] })

running_open : Open running
running_open = Steps.Open.later added_open (proceeds (launches added_job))

running_job : Removed job (cancel_all running).workers []
unfolding claim add_worker launch cancel_all kafka_resilience.Base.GoMap.lookup
running_job = Steps.Removed.here

abbrev drained : Service
drained = end_round job [] (cancel_all running)

-- The worker's one round after the Close.
one_round : Drain (cancel_all running) 1 drained
one_round = Steps.Drain.onward Steps.Drain.stay (rounds running_job)

drained_closes : close_returns (ok tt) none true drained ≡ some (ok tt)
unfolding claim add_worker launch cancel_all end_round close_returns
    kafka_resilience.Lifecycle.is_cancelled kafka_resilience.Lifecycle.contexts_of
    kafka_resilience.Base.GoMap.lookup kafka_resilience.Base.GoMap.insert
    kafka_resilience.Base.GoMap.remove
drained_closes = refl

Drain-terminates_example :
    (1 ≤ steps_left running)
    × (((u : Service) × Proceed drained u) ⊎ (drained.waiting ≡ length drained.failed))
Drain-terminates_example = Drain-terminates running_open one_round

-- The consumer of the retry topic cannot be created.
abbrev lost : Service
lost = give_up job (record added { setting_up = [] })

lost_reached : Reach lost
lost_reached =
    Steps.Reach.later
      (Steps.Reach.later (Steps.Reach.later Steps.Reach.start (claims "orders"))
        (proceeds (adds claimed_job)))
      (proceeds (gives_up added_job))

lost_one : 0 < length lost.failed
unfolding claim add_worker give_up kafka_resilience.Base.GoMap.lookup length
lost_one = omega arith

failed-blocks_close_example : close_returns (ok tt) none true (cancel_all lost) ≡ none
failed-blocks_close_example =
    failed-blocks_close (ok tt) none true lost_reached lost_one Steps.Drain.stay
