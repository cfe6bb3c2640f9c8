-- ===== src/Examples/Restoring.antt =====
-- A delay, and the state that is restored from one partition.
use kafka_resilience.Base.{
  ◌≡◌, refl, some, [], ◌∷◌, pos, ◌≤ℤ◌, ◌<ℤ◌, ◌+ℤ◌, ◌-ℤ◌, ◌↔◌, true, false, arith,
}
use kafka_resilience.Base.Exec.{ok}
use kafka_resilience.Backoff.{
  LinearBackoff, new_linear_backoff_with_config, linear_next_delay, times, linear_next_delay_grows,
}
use kafka_resilience.Message.Envelope.{Envelope}
use kafka_resilience.Coordinator.Offsets.{
  Consumer, AllDone, is_caught_up, fill_handle, is_caught_up-AllDone, fill_handle_cancels,
}
use kafka_resilience.Examples.{here, order, header, start}

abbrev linear : LinearBackoff
linear = record { initial_delay = pos 10; increment = pos 5; max_delay = pos 22 }

linear_is_made : new_linear_backoff_with_config (pos 10) (pos 5) (pos 22) ≡ some linear
unfolding new_linear_backoff_with_config
linear_is_made = refl

linear_fits : linear.initial_delay +ℤ times linear.increment (pos 3) <ℤ pos 9223372036854775808
unfolding ◌+ℤ◌ times
linear_fits = omega arith

linear_next_delay_grows_example :
    (linear.initial_delay ≤ℤ linear_next_delay linear (pos 1))
    × (linear_next_delay linear (pos 1) ≤ℤ linear_next_delay linear (pos 3))
    × (linear_next_delay linear (pos 3) ≤ℤ linear.max_delay)
linear_next_delay_grows_example =
    linear_next_delay_grows (pos 10) (pos 5) (pos 22) linear linear_is_made 1 3 (omega arith)
      linear_fits

is_caught_up-AllDone_example :
    (is_caught_up ((pos 0, pos 7) ∷ []) ((pos 0, pos 8) ∷ []) ≡ true)
    ↔ AllDone ((pos 0, pos 7) ∷ []) ((pos 0, pos 8) ∷ [])
is_caught_up-AllDone_example = is_caught_up-AllDone ((pos 0, pos 7) ∷ []) ((pos 0, pos 8) ∷ [])

abbrev running : Consumer
running = record { world = start; consumed = []; cancelled = false }

abbrev own_record : Envelope
own_record = order (header "x-coordinator-id" "here" ∷ [])

running_stops : (fill_handle here ((pos 0, pos 8) ∷ []) own_record running).1.cancelled ≡ true
unfolding fill_handle is_caught_up kafka_resilience.Coordinator.process_redirect_message
    kafka_resilience.Message.Headers.get kafka_resilience.Coordinator.Offsets.offset_of
    kafka_resilience.Coordinator.Offsets.record_offset ◌-ℤ◌
running_stops = refl

fill_handle_cancels_example :
    ((fill_handle here ((pos 0, pos 8) ∷ []) own_record running).0 ≡ ok tt)
    × AllDone
        (fill_handle here ((pos 0, pos 8) ∷ []) own_record running).1.consumed
        ((pos 0, pos 8) ∷ [])
fill_handle_cancels_example =
    fill_handle_cancels here ((pos 0, pos 8) ∷ []) own_record running refl running_stops
