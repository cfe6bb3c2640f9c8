-- ===== src/Coordinator/Synchronize.antt =====
-- Synchronize of KafkaStateCoordinator (resilience/coordinator_kafka.go): its tests before it waits,
-- and the wait, in which its select, the goroutine that waits for the condition, the redirect
-- consumer and the clock take steps in any order. The goroutine holds the mutex but for Wait, so
-- its steps are from one Wait to the next.
pub mod Wait
use kafka_resilience.Base.{
  String, Bool, true, false, Option, none, some, List, [], ◌∷◌, ◌==◌, if◌then◌else◌, ℤ,
}
use kafka_resilience.Base.Exec.{Exec, Result, ok, err}
use kafka_resilience.Errors.{Error, new, wrap}
use kafka_resilience.Config.{Config, redirect_topic}
use kafka_resilience.Admin.{TopicMetadata, Cluster, AdminEnvironment, describe_topics}
use kafka_resilience.Coordinator.Offsets.{Offsets, is_caught_up, record_offset}

-- What the tests say: Synchronize returns, or it waits for the targets.
pub data Entry : Type 0 where
  returns : Result Error (Unit {0}) → Entry
  waits : Offsets → Entry

-- Behind the call of DescribeTopics, with its outcome.
abbrev pub entry_from : Offsets → Result Error (List TopicMetadata) → Entry
entry_from consumed (err e) = returns (err (wrap "failed to describe redirect topic for sync" e))
entry_from consumed (ok []) = returns (ok tt)
entry_from consumed (ok (m ∷ ms)) =
    if is_caught_up consumed m.partition_offsets then returns (ok tt) else waits m.partition_offsets

unfoldable pub enter : AdminEnvironment → Config → String → Offsets → Cluster → Entry × Cluster
enter env cfg topic consumed c =
    if topic == ""
    then (returns (err (new "coordinator not started: topic is empty")), c)
    else (let (r, c') = describe_topics env (redirect_topic cfg topic ∷ []) c in
        (entry_from consumed r, c'))

-- Where the goroutine is: before the test of the loop, in Wait, woken, or returned.
pub data Place : Type 0 where
  checking : Place
  waiting : Place
  woken : Place
  gone : Place

-- `done` is the closed channel, `context_error` is ctx.Err(), `expired` is time.Now().After(deadline),
-- and `fired` is that the timer's channel has its value.
pub record Sync : Type 0 where
  pub consumed : Offsets
  pub place : Place
  pub done : Bool
  pub context_error : Option Error
  pub expired : Bool
  pub fired : Bool
  pub result : Option (Result Error (Unit {0}))

-- offsetsCond.Broadcast()
abbrev pub broadcast : Place → Place
broadcast waiting = woken
broadcast checking = checking
broadcast woken = woken
broadcast gone = gone

abbrev pub entered : Offsets → Sync
entered consumed = record {
  consumed = consumed;
  place = checking;
  done = false;
  context_error = none;
  expired = false;
  fired = false;
  result = none;
}

-- `if ctx.Err() != nil { return }`, and Wait.
abbrev pub wait_or_leave : Option Error → Place
wait_or_leave none = waiting
wait_or_leave (some e) = gone

-- The goroutine from the test of its loop on.
unfoldable pub check : Offsets → Sync → Sync
check targets s =
    if is_caught_up s.consumed targets
    then record s { done = true; place = gone }
    else record s { place = wait_or_leave s.context_error }

-- The goroutine behind Wait.
unfoldable pub wake : Sync → Sync
wake s = if s.expired then record s { done = true; place = gone } else record s { place = checking }

-- redirectHandler.Handle, behind a record that it has processed.
unfoldable pub deliver : ℤ → ℤ → Sync → Sync
deliver partition offset s = record s {
  consumed = record_offset partition offset s.consumed;
  place = broadcast s.place;
}

-- The cases of the select.
unfoldable pub select_context : Error → Sync → Sync
select_context e s = record s { result = some (err e); place = broadcast s.place }

unfoldable pub select_timer : Sync → Sync
select_timer s = record s {
  result = some (err (new "timeout waiting for redirect consumer to catch up"));
  place = broadcast s.place;
}

unfoldable pub select_done : Sync → Sync
select_done s = record s { result = some (ok tt) }
