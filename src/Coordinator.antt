-- ===== src/Coordinator.antt =====
-- KafkaStateCoordinator of resilience/coordinator_kafka.go: locks that are counted locally and
-- announced to the other instances by records of the redirect topic. Each method runs to its end
-- before the next one starts. Logging and metrics are left out.
pub mod Announce
pub mod Acquire
pub mod Release
pub mod Redirects
pub mod Instances
pub mod Offsets
pub mod Startup
pub mod Synchronize
pub mod Background
use Prim.Native.String.{◌++◌}
use kafka_resilience.Base.{
  String, Bool, true, false, Option, none, some, List, [], ◌==◌, if◌then◌else◌, pos,
}
use kafka_resilience.Base.Exec.{Exec, Result, ok, err, pure, raise, ◌>>=◌, ◌>>◌, catch}
use kafka_resilience.Errors.{Error, new, wrap}
use kafka_resilience.Locks
use kafka_resilience.Message.Headers.{Header, get, set, clone}
use kafka_resilience.Message.Envelope.{Envelope, own, new_message_envelope, new_from_message}
use kafka_resilience.Message.Values.{
  Kind, get_header_value, put_header, zero_time, header_id, header_topic, header_key,
  header_coordinator_id,
}
use kafka_resilience.World.{World, Environment, produce, new_uuid, time_now, on_locks}

-- The fields of the coordinator that its methods read; Config supplies the prefix.
pub record Coordinator : Type 0 where
  pub redirect_topic_prefix : String
  pub instance_id : String

abbrev pub redirect_topic : Coordinator → String → String
redirect_topic k topic = k.redirect_topic_prefix ++ "_" ++ topic

-- The headers that Acquire and Release add to their records.
abbrev pub redirect_headers : Coordinator → String → Envelope → List Header
redirect_headers k topic msg =
    set header_coordinator_id k.instance_id
      (set header_key msg.key (set header_topic topic (clone msg.headers)))

-- A header that Release needs.
abbrev pub required : Option String → String → Exec World Error String
required none problem = raise (new problem)
required (some v) problem = pure v

unfoldable pub ensure_topic : String → Envelope → Envelope
ensure_topic original_topic msg = elim (get_header_value Kind.text msg.headers header_topic) [
  | some t ↦ msg
  | none ↦ record msg { headers = put_header Kind.text msg.headers header_topic original_topic }
]

module _ (env : Environment) where
  -- The id of the lock, and the message with the id among its headers.
  unfoldable pub ensure_id : Envelope → Exec World Error (String × Envelope)
  ensure_id msg = elim (get_header_value Kind.text msg.headers header_id) [
    | some id ↦ pure (id, msg)
    | none ↦ do
      id ← new_uuid env
      pure (id, record msg { headers = put_header Kind.text msg.headers header_id id })
  ]

  -- Three attempts by retry.Do.
  unfoldable pub produce_with_retry : Envelope → Exec World Error (Unit {0})
  produce_with_retry msg = env.retry_do 3 (produce env msg.topic msg)

unfoldable pub is_locked : Envelope → World → Bool
is_locked msg w = Locks.is_locked msg w.locks

-- A tombstone of another instance: the message's own key names the lock that is released.
unfoldable pub release_message : Envelope → Exec World Error (Unit {0})
release_message msg = do
  required (get_header_value Kind.text msg.headers header_topic) "topic header not found"
  required (get_header_value Kind.text msg.headers header_key) "key header not found"
  on_locks (Locks.release msg)

-- A lock of another instance, under the topic and key that its headers name.
unfoldable pub acquire_message : Envelope → Exec World Error (Unit {0})
acquire_message msg = do
  original_topic ← required (get header_topic msg.headers) "redirect message missing topic header"
  original_key ← required (get header_key msg.headers) "redirect message missing key header"
  let original_msg : Envelope = record {
    timestamp = zero_time;
    topic = original_topic;
    key = original_key;
    payload = none;
    headers = [];
    partition = pos 0;
    offset = pos 0;
  }
  on_locks (Locks.acquire original_topic original_msg)

module _ (env : Environment) (k : Coordinator) where
  -- The record that announces a lock: the id is its key and its payload.
  unfoldable pub lock_record : String → String → Envelope → Exec World Error Envelope
  lock_record original_topic id msg = do
    now ← time_now env
    pure (
        new_message_envelope now (redirect_topic k original_topic) id (some id)
          (own (redirect_headers k original_topic msg)))

  -- Acquire behind the headers: the count goes up first, and goes down again if the record cannot
  -- be written.
  unfoldable pub announce_lock : String → String → Envelope → Exec World Error Envelope
  unfolding ◌>>=◌ catch lock_record time_now
  announce_lock original_topic id msg = do
    on_locks (Locks.acquire original_topic msg)
    redirect_msg ← lock_record original_topic id msg
    catch (produce_with_retry env redirect_msg)
        λ e. do on_locks (Locks.release msg); raise (wrap "failed to produce acquire message" e)
    pure msg

  -- Acquire returns the message with the headers that it has set; they are lost with the message
  -- where it fails, since every caller in the program drops the message then.
  unfoldable pub acquire : String → Envelope → Exec World Error Envelope
  unfolding ◌>>=◌
  acquire original_topic msg₀ = do
    (id, msg₁) ← ensure_id env msg₀
    announce_lock original_topic id (ensure_topic original_topic msg₁)

  -- The record that announces a release: the id is its key, and the payload is nil.
  unfoldable pub tombstone : String → String → Envelope → Exec World Error Envelope
  tombstone topic id msg = do
    now ← time_now env
    pure (
        new_message_envelope now (redirect_topic k topic) id none
          (own (set header_id id (redirect_headers k topic msg))))

  -- Release behind the headers, with the same order of steps.
  unfoldable pub announce_release : String → String → Envelope → Exec World Error (Unit {0})
  unfolding ◌>>=◌ catch tombstone time_now
  announce_release topic id msg = do
    on_locks (Locks.release msg)
    tombstone_msg ← tombstone topic id msg
    catch (produce_with_retry env tombstone_msg) λ e. do
      on_locks (Locks.acquire topic msg)
      raise (wrap "failed to produce release message" e)

  unfoldable pub release : Envelope → Exec World Error (Unit {0})
  unfolding ◌>>=◌
  release msg = do
    id ←
        required (get_header_value Kind.text msg.headers header_id)
          "headerID is required for Release: message was not properly acquired"
    topic ←
        required (get_header_value Kind.text msg.headers header_topic)
          "headerTopic is required for Release: message was not properly acquired"
    announce_release topic id msg

module _ (k : Coordinator) where
  -- Whether this instance has written the record.
  unfoldable pub is_echo : Envelope → Bool
  is_echo msg = elim (get header_coordinator_id msg.headers) [
    | none ↦ false
    | some id ↦ id == k.instance_id
  ]

  unfoldable pub process_redirect_message : Envelope → Exec World Error (Unit {0})
  unfolding ◌>>=◌ is_echo release_message acquire_message
  process_redirect_message msg = if is_echo msg then pure tt else elim msg.payload [
    | none ↦ release_message (new_from_message msg)
    | some p ↦ acquire_message msg
  ]
