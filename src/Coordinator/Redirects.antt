-- ===== src/Coordinator/Redirects.antt =====
-- The records of the redirect topic, as each instance processes them.
use kafka_resilience.Base.{
  ◌+◌, ◌-◌, String, ◌≡◌, refl, false, none, some, [], if◌then◌else◌, pos, arith, eq_refl, ◌≢◌, ◌∙◌,
  ==_of_ne,
}
use kafka_resilience.Base.Exec.{ok}
use kafka_resilience.Locks.Counts.{same}
use kafka_resilience.Locks.WellFormed.{IsWellFormed}
use kafka_resilience.Locks.Local.{
  refs-acquire, refs-release, acquire-IsWellFormed, release-IsWellFormed,
}
use kafka_resilience.Message.Headers.{get}
use kafka_resilience.Message.Headers.Laws.{IsDistinct}
use kafka_resilience.Message.Headers.Copy.{get-copy}
use kafka_resilience.Message.Envelope.{Envelope, new_from_message}
use kafka_resilience.Message.Values.{zero_time, header_topic, header_key, header_coordinator_id}
use kafka_resilience.Message.Values.RoundTrip.{get_text}
use kafka_resilience.World.{World}
use kafka_resilience.Coordinator.{Coordinator, is_echo, process_redirect_message}
use kafka_resilience.Coordinator.Announce.{count, lock_topic_of_header}

-- The message under which `acquire_message` counts a foreign lock.
abbrev pub lock_of : String → String → Envelope
lock_of t key = record {
  timestamp = zero_time;
  topic = t;
  key = key;
  payload = none;
  headers = [];
  partition = pos 0;
  offset = pos 0;
}

module _ (k : Coordinator) (msg : Envelope) (w : World) where
  -- A record that this instance has written changes nothing when it comes back.
  pub process_echo :
      get header_coordinator_id msg.headers ≡ some k.instance_id
      → process_redirect_message k msg w ≡ (ok tt, w)
  unfolding process_redirect_message
  process_echo own = ground (arith, eq_refl k.instance_id)

  module _ (writer : String) (foreign : writer ≢ k.instance_id)
      (written : get header_coordinator_id msg.headers ≡ some writer)
      (wf : IsWellFormed w.locks) where
    not_echo : is_echo k msg ≡ false
    unfolding is_echo
    not_echo = ground (arith, written, ==_of_ne writer k.instance_id foreign)

    -- A lock of another instance adds a reference for the topic and key that it names.
    pub process_lock :
        (p t key : String)
        → msg.payload ≡ some p
        → get header_topic msg.headers ≡ some t
        → get header_key msg.headers ≡ some key
        → ((process_redirect_message k msg w).0 ≡ ok tt)
          × ((t' j : String)
              → count (process_redirect_message k msg w).1 t' j
                ≡ (if same t key t' j then count w t' j + 1 else count w t' j))
          × IsWellFormed (process_redirect_message k msg w).1.locks
    unfolding process_redirect_message
    process_lock p t key has_payload has_topic has_key =
        rw (not_echo, has_payload, has_topic, has_key)
          (
            refl,
            (λ t' j. refs-acquire t (lock_of t key) w.locks t' j wf),
            acquire-IsWellFormed t (lock_of t key) w.locks wf,
          )

    -- A tombstone of another instance drops a reference for the topic that it names and for its own
    -- key, which is not the key that it names.
    pub process_tombstone :
        (t key : String)
        → msg.payload ≡ none
        → IsDistinct msg.headers
        → get header_topic msg.headers ≡ some t
        → get header_key msg.headers ≡ some key
        → ((process_redirect_message k msg w).0 ≡ ok tt)
          × ((t' j : String)
              → count (process_redirect_message k msg w).1 t' j
                ≡ (if same t msg.key t' j then count w t' j - 1 else count w t' j))
          × IsWellFormed (process_redirect_message k msg w).1.locks
    unfolding process_redirect_message new_from_message
    process_tombstone t key no_payload distinct has_topic has_key =
        let m : Envelope = new_from_message msg in
        let topic : get header_topic m.headers ≡ some t =
          get-copy header_topic msg.headers distinct ∙ has_topic in
        let named : get header_key m.headers ≡ some key =
          get-copy header_key msg.headers distinct ∙ has_key in
        rw (not_echo, no_payload, get_text, topic, get_text, named)
          (
            refl,
            (λ t' j. refs-release m w.locks t' j ∙ rw (lock_topic_of_header m t topic) refl),
            release-IsWellFormed m w.locks wf,
          )
