-- ===== src/Tracker/Clock.antt =====
-- Instants and durations, as resilience/tracker.go uses them of package time.
use kafka_resilience.Base.{
  ℕ, suc, ◌+◌, ◌-◌, ◌*◌, ◌/◌, ◌%◌, Bool, ◌&&◌, ◌||◌, ℤ, pos, negsuc, ◌+ℤ◌, ◌-ℤ◌, ltb_ℤ, ltb, ◌≡◌,
  refl,
}
use kafka_resilience.Message.Values.{Time, int_eq}

-- t.Add(d), d in nanoseconds; seconds are borrowed for a negative d.
unfoldable pub add : Time → ℤ → Time
add t (pos d) = record {
  sec = t.sec +ℤ pos ((t.nsec + d) / 1000000000);
  nsec = (t.nsec + d) % 1000000000;
}
add t (negsuc d) =
    let borrow : ℕ = (suc d - t.nsec + 999999999) / 1000000000 in
    record { sec = t.sec -ℤ pos borrow; nsec = t.nsec + borrow * 1000000000 - suc d }

-- t.Before(u)
unfoldable pub before : Time → Time → Bool
before t u = ltb_ℤ t.sec u.sec || (int_eq t.sec u.sec && ltb t.nsec u.nsec)

add_second_and_half :
    add (record { sec = pos 10; nsec = 700000000 }) (pos 1500000000)
    ≡ record { sec = pos 12; nsec = 200000000 }
unfolding add ◌+ℤ◌
add_second_and_half = refl

add_negative :
    add (record { sec = pos 10; nsec = 200000000 }) (negsuc 1499999999)
    ≡ record { sec = pos 8; nsec = 700000000 }
unfolding add ◌-ℤ◌
add_negative = refl
