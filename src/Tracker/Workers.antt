-- ===== src/Tracker/Workers.antt =====
-- A worker of the retry topic: the wait for a message's retry time, the user's handler, and what
-- follows it.
pub mod Branches
use kafka_resilience.Base.{
  subst, sym, if◌then◌else◌, String, ◌≡◌, refl, ◌⊎◌, inl, inr, true, false, Bool, Bool-cases,
  Option, some, none, ◌<◌, leb_ℤ, ℤ,
}
use kafka_resilience.Base.Decimal.{parse_int}
use kafka_resilience.Base.Exec.{Exec, pure, Result, ok, err, ◌>>=◌}
use kafka_resilience.Errors.{Error, is_not_retriable}
use kafka_resilience.Locks.WellFormed.{IsWellFormed}
use kafka_resilience.Message.Headers.{get}
use kafka_resilience.Message.Envelope.{Envelope, new_from_message}
use kafka_resilience.Message.Values.{unix, header_id, header_topic, header_retry_next_time}
use kafka_resilience.World.{World, Environment, time_now}
use kafka_resilience.World.Retry.{IsRetrying}
use kafka_resilience.Coordinator.{Coordinator}
use kafka_resilience.Coordinator.Announce.{count}
use kafka_resilience.Coordinator.Release.{ReleaseOutcome}
use kafka_resilience.Tracker.{Tracker, Handler, attempt_of}
use kafka_resilience.Tracker.Clock.{before}
use kafka_resilience.Tracker.Locking.{IsLocking}
use kafka_resilience.Tracker.Redirects.{is_marked}
use kafka_resilience.Tracker.Stay.{StayOutcome, redirect-stays_in_chain}
use kafka_resilience.Tracker.Dlq.{DlqOutcome}
use kafka_resilience.Tracker.Exceeded.{ExceededOutcome}
use kafka_resilience.Tracker.Policy.{redirect-not_retriable, redirect-exceeded}
use kafka_resilience.Tracker.Chain.{
  redirect, settle, wait_if_time, wait_until, end_wait, free, wait_for_retry_time,
  retry_worker_handle,
}

-- The retry time that the headers name, in seconds.
abbrev pub retry_time : Envelope → Option ℤ
retry_time msg = elim (get header_retry_next_time msg.headers) [
  | none ↦ none
  | some text ↦ parse_int text
]

abbrev pub Waited : Environment → Envelope → World → Result Error (Unit {0}) → Type 0
Waited env msg w (ok u) =
    (retry_time msg ≡ none)
    ⊎ ((ts : ℤ) × (retry_time msg ≡ some ts)
        × ((before (env.clock w.clock_calls) (unix ts) ≡ false)
            ⊎ (env.wait_error w.clock_calls (unix ts) ≡ none)))
Waited env msg w (err e) =
    (ts : ℤ) × (retry_time msg ≡ some ts)
    × (before (env.clock w.clock_calls) (unix ts) ≡ true)
    × (env.wait_error w.clock_calls (unix ts) ≡ some e)

abbrev WaitOutcome : Environment → Envelope → World → Result Error (Unit {0}) × World → Type 0
WaitOutcome env msg w p = Waited env msg w p.0 × (p.1.locks ≡ w.locks) × (p.1.sent ≡ w.sent)

module _ (env : Environment) (t : Tracker) (msg : Envelope) (w : World) where
  wait_for_retry_time_lem : wait_for_retry_time env t msg w ≡ wait_if_time env t (retry_time msg) w
  unfolding wait_for_retry_time
  wait_for_retry_time_lem =
      elim (get header_retry_next_time msg.headers)
        as (λ o.
          let p : Result Error (Unit {0}) × World =
            (elim o as (λ x. Exec World Error (Unit {0})) [
              | none ↦ pure tt
              | some text ↦ wait_if_time env t (parse_int text)
            ])
              w in
          let q : Option ℤ = elim o [ none ↦ none | some text ↦ parse_int text ] in
          p ≡ wait_if_time env t q w) [ none ↦ refl | some text ↦ refl ]

  ended :
      (ts : ℤ) (late : Bool) (o : Option Error)
      → retry_time msg ≡ some ts
      → before (env.clock w.clock_calls) (unix ts) ≡ late
      → env.wait_error w.clock_calls (unix ts) ≡ o
      → WaitOutcome env msg w
          (let w' : World = (time_now env w).1 in if late then end_wait env t o w' else (ok tt, w'))
  unfolding time_now
  ended ts true none time late timer = (inr (ts, time, inr timer), refl, refl)
  ended ts true (some e) time late context = ((ts, time, late, context), refl, refl)
  ended ts false o time past timer = (inr (ts, time, inl past), refl, refl)

  waited_if : (o : Option ℤ) → retry_time msg ≡ o → WaitOutcome env msg w (wait_if_time env t o w)
  unfolding wait_until
  waited_if none time = (inl time, refl, refl)
  waited_if (some ts) time = ended ts _ _ time refl refl

-- The wait changes no lock and sends nothing. It ends without an error only if the headers name no
-- retry time, or the time has come, or the timer for it has fired; and with an error only if the time
-- has not come and the context has ended first, whose error it is.
pub wait_for_retry_time-Waited :
    (env : Environment) (t : Tracker) (msg : Envelope) (w : World)
    → Waited env msg w (wait_for_retry_time env t msg w).0
      × ((wait_for_retry_time env t msg w).1.locks ≡ w.locks)
      × ((wait_for_retry_time env t msg w).1.sent ≡ w.sent)
wait_for_retry_time-Waited env t msg w =
    subst (WaitOutcome env msg w) (sym (wait_for_retry_time_lem env t msg w))
      (waited_if env t msg w (retry_time msg) refl)

module _ (env : Environment) (k : Coordinator) (t : Tracker) (law : IsLocking k t.coordinator)
    (msg : Envelope) (topic id : String)
    (has_id : get header_id (new_from_message msg).headers ≡ some id)
    (has_topic : get header_topic (new_from_message msg).headers ≡ some topic) (h : Handler)
    (w v w' : World) (waited : wait_for_retry_time env t msg w ≡ (ok tt, v))
    (wf : IsWellFormed w'.locks) where
  pub retry_worker_handle-frees :
      h msg v ≡ (ok tt, w')
      → ReleaseOutcome k topic id
          (new_from_message msg)
          w'
          (retry_worker_handle env t h msg w).0
          (retry_worker_handle env t h msg w).1
  unfolding retry_worker_handle ◌>>=◌ free
  retry_worker_handle-frees handled =
      rw (waited, handled) (law.released topic id (new_from_message msg) w' wf has_id has_topic)
