-- ===== src/Lifecycle.antt =====
-- The life cycle of the tracker (resilience/tracker.go): Start, startRetryWorker and Close. A
-- function below is what one goroutine does between two points where others can run: a region under
-- the mutex, or one call on the WaitGroup. A context is a number, and is done when it stands in
-- `cancelled`; a deadline of the context that Start is given is not modelled.
pub mod Steps
pub mod Waits
pub mod Contexts
pub mod Owned
pub mod Shutdown
use kafka_resilience.Base.{
  ℕ, ◌+◌, ◌-◌, String, Bool, true, false, Option, none, some, List, [], ◌∷◌, ◌++◌, if◌then◌else◌,
  eqb,
}
use kafka_resilience.Base.GoMap.{GoMap, lookup, insert, remove}
use kafka_resilience.Base.Exec.{Result, ok, err}
use kafka_resilience.Errors.{Error, wrap}

-- A Start that goes on, or the retry worker that it has launched.
pub record Job : Type 0 where
  pub topic : String
  pub context : ℕ

-- `waiting` is the counter of the WaitGroup. The jobs are listed by where they are: in
-- coordinator.Start, in startRetryWorker before the goroutine, in the goroutine; `failed` are those
-- of which startRetryWorker returned an error.
pub record Service : Type 0 where
  pub started_topics : GoMap (Unit {0})
  pub cancels : GoMap ℕ
  pub cancelled : List ℕ
  pub contexts : ℕ
  pub waiting : ℕ
  pub starting : List Job
  pub setting_up : List Job
  pub workers : List Job
  pub failed : List Job

abbrev pub new_service : Service
new_service = record {
  started_topics = [];
  cancels = [];
  cancelled = [];
  contexts = 0;
  waiting = 0;
  starting = [];
  setting_up = [];
  workers = [];
  failed = [];
}

unfoldable pub is_cancelled : ℕ → List ℕ → Bool
is_cancelled context [] = false
is_cancelled context (c ∷ cs) = if eqb c context then true else is_cancelled context cs

unfoldable pub contexts_of : GoMap ℕ → List ℕ
contexts_of [] = []
contexts_of (entry ∷ rest) = entry.1 ∷ contexts_of rest

-- Start, under the mutex, with the outcome of the test for a started topic.
abbrev pub claimed : Option (Unit {0}) → String → Service → Service
claimed (some u) topic s = s
claimed none topic s = record s {
  started_topics = insert topic tt s.started_topics;
  cancels = insert topic s.contexts s.cancels;
  contexts = s.contexts + 1;
  starting = record { topic = topic; context = s.contexts } ∷ s.starting;
}

unfoldable pub claim : String → Service → Service
claim topic s = claimed (lookup topic s.started_topics) topic s

-- Start, when coordinator.Start has failed. The context is cancelled before the mutex is taken for the
-- two maps; here both are one step.
unfoldable pub roll_back : Job → Service → Service
roll_back job s = record s {
  cancelled = job.context ∷ s.cancelled;
  started_topics = remove job.topic s.started_topics;
  cancels = remove job.topic s.cancels;
}

-- `t.wg.Add(1)`, before startRetryWorker.
unfoldable pub add_worker : Job → Service → Service
add_worker job s = record s { waiting = s.waiting + 1; setting_up = job ∷ s.setting_up }

-- startRetryWorker launches the goroutine.
unfoldable pub launch : Job → Service → Service
launch job s = record s { workers = job ∷ s.workers }

-- startRetryWorker returns an error: of ensureTopicsExist, or of NewConsumer.
unfoldable pub give_up : Job → Service → Service
give_up job s = record s { failed = job ∷ s.failed }

-- The end of a round of the worker's loop, when Consume has returned. `others` are the other
-- workers. A worker whose context is cancelled leaves the loop, and its deferred `t.wg.Done()` runs.
unfoldable pub end_round : Job → List Job → Service → Service
end_round job others s =
    if is_cancelled job.context s.cancelled
    then record s { workers = others; waiting = s.waiting - 1 }
    else s

-- Close, under the mutex.
unfoldable pub cancel_all : Service → Service
cancel_all s = record s {
  cancelled = contexts_of s.cancels ++ s.cancelled;
  cancels = [];
  started_topics = [];
}

-- The context of Close is done, with this error.
abbrev pub timed_out : Option Error → Option (Result Error (Unit {0}))
timed_out none = none
timed_out (some e) = some (err (wrap "shutdown timeout waiting for workers" e))

-- What Close returns in this state, none while it is blocked, from the outcome of coordinator.Close
-- and the error of its context. When both cases of the select are ready, one of them is taken.
unfoldable pub close_returns :
    Result Error (Unit {0}) → Option Error → Bool → Service → Option (Result Error (Unit {0}))
close_returns coordinator_close context_error takes_done s =
    if eqb s.waiting 0
    then elim context_error [
      | none ↦ some coordinator_close
      | some e ↦ if takes_done then some coordinator_close else timed_out (some e)
    ]
    else timed_out context_error
