-- ===== src/Examples/Locking.antt =====
-- The locks of one order, here and at another instance.
use kafka_resilience.Base.{
  ◌≡◌, ◌≢◌, refl, String, none, some, [], ◌∷◌, ◌+◌, ◌⊎◌, inl, true, ltb, eq_iff, arith,
}
use mathlib.Core.List.{foldl}
use kafka_resilience.Base.Exec.{ok, is_err}
use kafka_resilience.Locks.{is_locked}
use kafka_resilience.Locks.WellFormed.{empty-IsWellFormed, IsWellFormed}
use kafka_resilience.Locks.Local.{acquiring, releasing, step, outstanding, is_locked-outstanding}
use kafka_resilience.Message.Headers.{get, set}
use kafka_resilience.Message.Headers.Laws.{IsDistinct}
use kafka_resilience.Message.Values.{header_id, header_topic}
use kafka_resilience.World.{Sent}
use kafka_resilience.Coordinator
use kafka_resilience.Coordinator.{process_redirect_message}
use kafka_resilience.Coordinator.Announce.{count, Announces}
use kafka_resilience.Coordinator.Acquire.{AcquireSpec, own_topic, acquire-Outcome}
use kafka_resilience.Coordinator.Release.{
  ReleaseOutcome, Withdraws, release-Outcome, release_unlabelled,
}
use kafka_resilience.Coordinator.Redirects.{process_echo}
use kafka_resilience.Coordinator.Instances.{after, lock_is_seen, foreign_release_is_not_seen}
use kafka_resilience.Examples.{
  env, env-IsRetrying, here, there, header, order, first, start, retried, locked,
  locked-IsWellFormed,
}

first-own_topic : own_topic "orders" first ≡ "orders"
unfolding get
first-own_topic = refl

acquire-Outcome_example :
    AcquireSpec here "orders" first start
      (Coordinator.acquire env here "orders" first start).0
      (Coordinator.acquire env here "orders" first start).1
acquire-Outcome_example =
    acquire-Outcome env env-IsRetrying here "orders" first start empty-IsWellFormed first-own_topic

retried_id : get header_id (retried "1").headers ≡ some "lock-1"
unfolding get
retried_id = refl

retried_topic : get header_topic (retried "1").headers ≡ some "orders"
unfolding get
retried_topic = refl

release-Outcome_example :
    ReleaseOutcome here "orders" "lock-1"
      (retried "1")
      locked
      (Coordinator.release env here (retried "1") locked).0
      (Coordinator.release env here (retried "1") locked).1
release-Outcome_example =
    release-Outcome env here env-IsRetrying "orders" "lock-1" (retried "1") locked
      locked-IsWellFormed retried_id retried_topic

first_unlabelled : (get header_id first.headers ≡ none) ⊎ (get header_topic first.headers ≡ none)
unfolding get
first_unlabelled = inl refl

release_unlabelled_example :
    ((Coordinator.release env here first locked).1 ≡ locked)
    × (is_err (Coordinator.release env here first locked).0 ≡ true)
release_unlabelled_example = release_unlabelled env here first locked first_unlabelled

is_locked-outstanding_example :
    IsWellFormed
      (foldl step [] (acquiring "orders" first ∷ acquiring "orders" first ∷ releasing first ∷ []))
    × (is_locked first (
          foldl step []
            (acquiring "orders" first ∷ acquiring "orders" first ∷ releasing first ∷ []))
        ≡ ltb 0 (
            outstanding "orders" "42" 0
              (acquiring "orders" first ∷ acquiring "orders" first ∷ releasing first ∷ [])))
is_locked-outstanding_example =
    is_locked-outstanding
      (acquiring "orders" first ∷ acquiring "orders" first ∷ releasing first ∷ []) first

-- What the other instance writes for an order of its own.

abbrev foreign_record : String → Sent
foreign_record instance = record {
  topic = "redirect_orders";
  message =
      record (order (
        header "topic" "orders"
        ∷ header "key" "42"
        ∷ header "x-coordinator-id" instance
        ∷ header "id" "lock-9"
        ∷ [])) { topic = "redirect_orders"; key = "lock-9"; payload = some "lock-9" };
}

abbrev foreign_tombstone : Sent
foreign_tombstone = record {
  topic = "redirect_orders";
  message = record (foreign_record "there").message { payload = none };
}

foreign-Announces : Announces there "orders" "lock-9" first (foreign_record "there")
unfolding get
foreign-Announces = record {
  to_redirect_topic = refl;
  keyed_by_id = refl;
  has_payload = refl;
  names_topic = refl;
  names_key = refl;
  names_instance = refl;
}

foreign-Withdraws : Withdraws there "orders" "lock-9" first foreign_tombstone
unfolding get
foreign-Withdraws = record {
  to_redirect_topic = refl;
  keyed_by_id = refl;
  has_no_payload = refl;
  names_topic = refl;
  names_key = refl;
  names_instance = refl;
}

tombstone-IsDistinct : IsDistinct foreign_tombstone.message.headers
unfolding kafka_resilience.Message.Headers.Laws.has
tombstone-IsDistinct = (refl, (refl, (refl, (refl, tt))))

there_ne_here : there.instance_id ≢ here.instance_id
there_ne_here = ground (arith, eq_iff "there" "here")

id_ne_key : "lock-9" ≢ first.key
id_ne_key = ground (arith, eq_iff "lock-9" "42")

lock_is_seen_example :
    Coordinator.is_locked first (after here (foreign_record "there") start) ≡ true
lock_is_seen_example =
    lock_is_seen here there "orders" "lock-9" first (foreign_record "there") start there_ne_here
      empty-IsWellFormed foreign-Announces first refl refl

foreign_release_is_not_seen_example :
    (count (after here foreign_tombstone (after here (foreign_record "there") start)) "orders" "42"
      ≡ count start "orders" "42" + 1)
    × (Coordinator.is_locked first
          (after here foreign_tombstone (after here (foreign_record "there") start))
        ≡ true)
foreign_release_is_not_seen_example =
    foreign_release_is_not_seen here there "orders" "lock-9" first (foreign_record "there")
      foreign_tombstone start there_ne_here empty-IsWellFormed foreign-Announces foreign-Withdraws
      tombstone-IsDistinct id_ne_key first refl refl

own_record : get "x-coordinator-id" (foreign_record "here").message.headers ≡ some "here"
unfolding get
own_record = refl

process_echo_example :
    process_redirect_message here (foreign_record "here").message locked ≡ (ok tt, locked)
process_echo_example = process_echo here (foreign_record "here").message locked own_record
