-- ===== src/Tracker.antt =====
-- ErrorTracker of resilience/tracker.go: the retry chain of a message. The coordinator, the producer,
-- the backoff strategy and the user's handler are given; logging and metrics are left out.
pub mod Clock
pub mod Chain
pub mod Headers
pub mod Locking
pub mod Publish
pub mod Redirect
pub mod Redirects
pub mod Dlq
pub mod Exceeded
pub mod Policy
pub mod Stay
pub mod Handlers
pub mod Order
pub mod Workers
pub mod Create
pub mod Rounds
use Prim.Native.String.{◌++◌}
use kafka_resilience.Base.{
  ℕ, String, Bool, true, false, Option, none, some, List, [], ◌∷◌, ◌==◌, ◌||◌, if◌then◌else◌, pos,
  ℤ, ◌+ℤ◌, leb_ℤ, or_else, not,
}
use kafka_resilience.Base.Exec.{
  Exec, Result, ok, err, pure, raise, lift, ◌>>=◌, ◌>>◌, catch, ignore,
}
use kafka_resilience.Base.Decimal.{parse_int}
use kafka_resilience.Errors.{Error, new, wrap, error_text, is_not_retriable}
use kafka_resilience.Config.{Config, retry_topic, dlq_topic}
use kafka_resilience.Message.Headers.{Header, get, set}
use kafka_resilience.Message.Envelope.{Envelope, new_from_message}
use kafka_resilience.Message.Values.{
  Time, Kind, unix, zero_time, is_zero, get_header_value, put_header, header_retry_attempt,
  header_retry_max, header_retry_next_time, header_retry_original_time, header_retry_reason,
  header_dlq_reason, header_dlq_timestamp, header_dlq_source_topic, header_dlq_retry_attempts,
  header_dlq_original_failure_time, header_id, header_topic, header_retry,
}
use kafka_resilience.World.{World, Environment, produce, time_now}
use kafka_resilience.Tracker.Clock.{add, before}

-- The methods of the interface StateCoordinator that the chain calls. Acquire returns the message
-- with the headers that it set.
pub record StateCoordinator : Type 0 where
  pub acquire : String → Envelope → Exec World Error Envelope
  pub release : Envelope → Exec World Error (Unit {0})
  pub is_locked : Envelope → World → Bool

-- `next_delay` is the backoff strategy, in nanoseconds.
pub record Tracker : Type 0 where
  pub cfg : Config
  pub coordinator : StateCoordinator
  pub next_delay : ℤ → ℤ

-- ConsumerHandler.
abbrev pub Handler : Type 0
Handler = Envelope → Exec World Error (Unit {0})

-- The headers that a retry message gets anew.
unfoldable pub is_retry_header : String → Bool
is_retry_header key =
    key == header_retry_attempt
    || key == header_retry_max
    || key == header_retry_next_time
    || key == header_retry_original_time
    || key == header_retry_reason
    || key == header_id
    || key == header_retry

-- The headers that a DLQ message loses.
unfoldable pub is_dropped_by_dlq : String → Bool
is_dropped_by_dlq key =
    key == header_retry_attempt
    || key == header_retry_max
    || key == header_retry_next_time
    || key == header_id
    || key == header_retry

-- The loop that copies the other headers.
unfoldable pub copy_except : (String → Bool) → List Header → List Header → List Header
copy_except excluded [] to = to
copy_except excluded (h ∷ hs) to =
    copy_except excluded hs (if excluded h.key then to else set h.key h.value to)

-- The reason is left out where there is no error.
unfoldable pub put_reason : Option Error → List Header → List Header
put_reason none hs = hs
put_reason (some e) hs = put_header Kind.text hs header_retry_reason (error_text e)

-- What a redirect writes on the retry message.
pub record RetryData : Type 0 where
  pub id : String
  pub next_attempt : ℤ
  pub next_retry_time : Time
  pub original_time : Time
  pub last_error : Option Error
  pub original_topic : String

unfoldable pub retry_headers : Config → RetryData → List Header → List Header
retry_headers cfg d hs =
    let h₀ : List Header = copy_except is_retry_header hs [] in
    let h₁ : List Header = put_header Kind.int h₀ header_retry_attempt d.next_attempt in
    let h₂ : List Header = put_header Kind.int h₁ header_retry_max cfg.max_retries in
    let h₃ : List Header = put_header Kind.time h₂ header_retry_next_time d.next_retry_time in
    let h₄ : List Header = put_header Kind.time h₃ header_retry_original_time d.original_time in
    let h₅ : List Header = put_reason d.last_error h₄ in
    let h₆ : List Header = put_header Kind.text h₅ header_id d.id in
    let h₇ : List Header = put_header Kind.text h₆ header_retry "true" in
    put_header Kind.text h₇ header_topic d.original_topic

unfoldable pub retry_message : Config → RetryData → Envelope → Time → Envelope
unfolding retry_headers
retry_message cfg d msg now = record {
  timestamp = now;
  topic = retry_topic cfg d.original_topic;
  key = msg.key;
  payload = msg.payload;
  headers = retry_headers cfg d msg.headers;
  partition = pos 0;
  offset = pos 0;
}

unfoldable pub put_original_time : Time → List Header → List Header
put_original_time t hs =
    if is_zero t then hs else put_header Kind.time hs header_dlq_original_failure_time t

-- The topic in the headers, or else the message's own.
unfoldable pub original_topic_of : Envelope → String
original_topic_of msg = or_else (get_header_value Kind.text msg.headers header_topic) msg.topic

-- The number of retries in the headers, or else 0.
unfoldable pub attempt_of : Envelope → ℤ
attempt_of msg = or_else (get_header_value Kind.int msg.headers header_retry_attempt) (pos 0)

unfoldable pub dlq_headers : Envelope → Error → Time → List Header
dlq_headers msg last_error now =
    let h₀ : List Header = copy_except is_dropped_by_dlq msg.headers [] in
    let h₁ : List Header = put_header Kind.text h₀ header_dlq_reason (error_text last_error) in
    let h₂ : List Header = put_header Kind.time h₁ header_dlq_timestamp now in
    let h₃ : List Header =
      put_header Kind.text h₂ header_dlq_source_topic (original_topic_of msg) in
    let h₄ : List Header = put_header Kind.int h₃ header_dlq_retry_attempts (attempt_of msg) in
    put_original_time
      (or_else (get_header_value Kind.time msg.headers header_retry_original_time) zero_time) h₄

unfoldable pub dlq_message : Config → Envelope → Error → Time → Time → Envelope
unfolding dlq_headers
dlq_message cfg msg last_error stamp now = record {
  timestamp = now;
  topic = dlq_topic cfg (original_topic_of msg);
  key = msg.key;
  payload = msg.payload;
  headers = dlq_headers msg last_error stamp;
  partition = pos 0;
  offset = pos 0;
}
