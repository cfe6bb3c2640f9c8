-- ===== src/Message/Values.antt =====
-- GetHeaderValue and SetHeader of resilience/message.go, with the types that they support, and the
-- header names. A nil `Headers` is not modelled: every caller passes a list.
pub mod RoundTrip
use kafka_resilience.Base.{
  ℕ, zero, suc, String, ◌≡◌, refl, Bool, true, false, Option, none, some, List, [], ◌∷◌, ◌&&◌, ℤ,
  pos, negsuc, eqb, or_else,
}
use kafka_resilience.Base.Decimal.{format_int, parse_int}
use kafka_resilience.Message.Headers.{Header, get, set}

-- An instant: seconds since the Unix epoch, and nanoseconds into the second.
pub record Time : Type 0 where
  pub sec : ℤ
  pub nsec : ℕ

-- time.Unix(s, 0)
abbrev pub unix : ℤ → Time
unix s = record { sec = s; nsec = 0 }

-- time.Time{}, the first second of the year 1.
abbrev pub zero_time : Time
zero_time = unix (negsuc 62135596799)

abbrev pub int_eq : ℤ → ℤ → Bool
int_eq (pos a) (pos b) = eqb a b
int_eq (negsuc a) (negsuc b) = eqb a b
int_eq _ _ = false

unfoldable pub is_zero : Time → Bool
is_zero t = int_eq t.sec (negsuc 62135596799) && eqb t.nsec 0

-- The types between which the two functions switch.
pub data Kind : Type 0 where
  text int time other : Kind

abbrev pub ValueOf : Kind → Type 0
ValueOf Kind.text = String
ValueOf Kind.int = ℤ
ValueOf Kind.time = Time
ValueOf Kind.other = Unit

unfoldable pub parse_value : (t : Kind) → String → Option (ValueOf t)
parse_value Kind.text s = some s
parse_value Kind.int s = parse_int s
parse_value Kind.time s = elim (parse_int s) [ none ↦ none | some n ↦ some (unix n) ]
parse_value Kind.other s = none

unfoldable pub get_header_value : (t : Kind) → List Header → String → Option (ValueOf t)
get_header_value t hs key = elim (get key hs) [ none ↦ none | some val ↦ parse_value t val ]

unfoldable pub format_value : (t : Kind) → ValueOf t → Option String
format_value Kind.text v = some v
format_value Kind.int v = some (format_int v)
format_value Kind.time v = some (format_int v.sec)
format_value Kind.other v = none

-- `none` is the error for an unsupported type.
unfoldable pub set_header : (t : Kind) → List Header → String → ValueOf t → Option (List Header)
set_header t hs key value = elim (format_value t value) [
  | none ↦ none
  | some s ↦ some (set key s hs)
]

-- `_ = SetHeader(hs, key, value)`: an error leaves the headers as they are.
unfoldable pub put_header : (t : Kind) → List Header → String → ValueOf t → List Header
put_header t hs key value = or_else (set_header t hs key value) hs

abbrev pub header_retry_attempt : String
header_retry_attempt = "x-retry-attempt"

abbrev pub header_retry_max : String
header_retry_max = "x-retry-max"

abbrev pub header_retry_next_time : String
header_retry_next_time = "x-retry-next-time"

abbrev pub header_retry_original_time : String
header_retry_original_time = "x-retry-original-time"

abbrev pub header_retry_reason : String
header_retry_reason = "x-retry-reason"

abbrev pub header_dlq_reason : String
header_dlq_reason = "x-dlq-reason"

abbrev pub header_dlq_timestamp : String
header_dlq_timestamp = "x-dlq-timestamp"

abbrev pub header_dlq_source_topic : String
header_dlq_source_topic = "x-dlq-source-topic"

abbrev pub header_dlq_retry_attempts : String
header_dlq_retry_attempts = "x-dlq-retry-attempts"

abbrev pub header_dlq_original_failure_time : String
header_dlq_original_failure_time = "x-dlq-original-failure-time"

abbrev pub header_coordinator_id : String
header_coordinator_id = "x-coordinator-id"

abbrev pub header_topic : String
header_topic = "topic"

abbrev pub header_id : String
header_id = "id"

abbrev pub header_retry : String
header_retry = "retry"

abbrev pub header_key : String
header_key = "key"
