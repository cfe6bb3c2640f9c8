-- ===== src/World.antt =====
-- What the tracker and the coordinator of one process change and ask for: the lock map, what the
-- producer has accepted, and the outcomes of the calls that leave the program. The n-th call of the
-- producer, of the id generator and of the clock has the outcome that the environment gives it, so
-- every behaviour of theirs is some environment.
pub mod Retry
use kafka_resilience.Base.{ℕ, ◌+◌, String, Option, none, some, List, ◌∷◌, ℤ}
use kafka_resilience.Base.Exec.{Exec, ok, err}
use kafka_resilience.Errors.{Error}
use kafka_resilience.Locks.{LockMap}
use kafka_resilience.Message.Envelope.{Envelope}
use kafka_resilience.Message.Values.{Time}

-- A message that the producer accepted, with the topic of the call.
pub record Sent : Type 0 where
  pub topic : String
  pub message : Envelope

-- `sent` has the newest message in front.
pub record World : Type 0 where
  pub locks : LockMap
  pub sent : List Sent
  pub produce_calls : ℕ
  pub id_calls : ℕ
  pub clock_calls : ℕ

pub record Environment : Type 0 where
  -- Producer.Produce: `none` is nil.
  pub produce_error : ℕ → String → Envelope → Option Error
  -- uuid.New().String()
  pub new_id : ℕ → String
  -- time.Now()
  pub clock : ℕ → Time
  -- The end of the n-th wait for a deadline: `none` if the timer fires first, else the error of the
  -- context that ended.
  pub wait_error : ℕ → Time → Option Error
  -- retry.Do(f, retry.Attempts(n), …) of github.com/avast/retry-go, under the call's context.
  pub retry_do : ℕ → Exec World Error (Unit {0}) → Exec World Error (Unit {0})

module _ (env : Environment) where
  unfoldable pub produce : String → Envelope → Exec World Error (Unit {0})
  produce topic msg w = elim (env.produce_error w.produce_calls topic msg) [
    | none ↦ (
      ok tt,
      record w {
        sent = record { topic = topic; message = msg } ∷ w.sent;
        produce_calls = w.produce_calls + 1;
      },
    )
    | some e ↦ (err e, record w { produce_calls = w.produce_calls + 1 })
  ]

  unfoldable pub new_uuid : Exec World Error String
  new_uuid w = (ok (env.new_id w.id_calls), record w { id_calls = w.id_calls + 1 })

  unfoldable pub time_now : Exec World Error Time
  time_now w = (ok (env.clock w.clock_calls), record w { clock_calls = w.clock_calls + 1 })

-- A call on the local coordinator.
abbrev pub on_locks : (LockMap → LockMap) → Exec World Error (Unit {0})
on_locks f w = (ok tt, record w { locks = f w.locks })
