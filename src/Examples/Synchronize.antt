-- ===== src/Examples/Synchronize.antt =====
-- Synchronize waits for offset 7, the deadline passes, and the record of offset 3 wakes the goroutine:
-- it returns nil.
use kafka_resilience.Base.{◌≡◌, refl, some, [], ◌∷◌, pos, true, false}
use kafka_resilience.Base.Exec.{ok}
use kafka_resilience.Coordinator.Offsets.{Offsets, is_caught_up}
use kafka_resilience.Coordinator.Synchronize.{Sync, entered, check, wake, deliver, select_done}
use kafka_resilience.Coordinator.Synchronize.Wait
use kafka_resilience.Coordinator.Synchronize.Wait.{
  Steps, checks, expires, delivers, wakes, selects_done, Justified, result-Justified,
}

abbrev targets : Offsets
targets = (pos 0, pos 8) ∷ []

abbrev waiting : Sync
waiting = check targets (entered [])

abbrev woken : Sync
woken = deliver (pos 0) (pos 3) (record waiting { expired = true })

abbrev returned : Sync
returned = select_done (wake woken)

returned_early : Steps targets (entered []) returned
unfolding check deliver wake select_done is_caught_up kafka_resilience.Coordinator.Offsets.offset_of
returned_early =
    Wait.Steps.onward
      (Wait.Steps.onward
        (Wait.Steps.onward
          (Wait.Steps.onward (Wait.Steps.onward Wait.Steps.stay (checks refl)) expires)
          (delivers (pos 0) (pos 3)))
        (wakes refl))
      (selects_done refl refl)

returned_behind : is_caught_up returned.consumed targets ≡ false
unfolding check deliver wake select_done is_caught_up kafka_resilience.Coordinator.Offsets.offset_of
    kafka_resilience.Coordinator.Offsets.record_offset kafka_resilience.Base.Int.◌-ℤ◌
returned_behind = refl

result-Justified_example : Justified targets (entered []) returned (ok tt)
unfolding select_done
result-Justified_example = result-Justified targets [] (ok tt) returned_early refl
