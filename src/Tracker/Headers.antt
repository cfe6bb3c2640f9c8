-- ===== src/Tracker/Headers.antt =====
-- What the messages of the retry topic and of the DLQ carry.
pub mod Distinct
use kafka_resilience.Base.{
  String, ◌≡◌, ◌≢◌, refl, Bool, false, Option, none, some, List, [], ◌∷◌, ◌∙◌, arith, ◌==◌, eq_iff,
  if◌then◌else◌, ℤ, ==_of_ne, Bool-cases, inl, inr,
}
use kafka_resilience.Base.Decimal.{format_int}
use kafka_resilience.Errors.{Error, error_text}
use kafka_resilience.Config.{Config}
use kafka_resilience.Message.Headers.{Header, get, set}
use kafka_resilience.Message.Headers.Laws.{get-set, set-IsDistinct, IsDistinct}
use kafka_resilience.Message.Headers.Copy.{
  get_last, first_of, get_last-IsDistinct, copy_into-IsDistinct,
}
use kafka_resilience.Message.Envelope.{Envelope, new_from_message}
use kafka_resilience.Message.Values.{
  Time, Kind, is_zero, put_header, set_header, format_value, header_retry_attempt, header_retry_max,
  header_retry_next_time, header_retry_original_time, header_retry_reason, header_dlq_reason,
  header_dlq_timestamp, header_dlq_source_topic, header_dlq_retry_attempts,
  header_dlq_original_failure_time, header_id, header_topic, header_retry,
}
use kafka_resilience.Tracker.{
  copy_except, is_retry_header, is_dropped_by_dlq, RetryData, retry_headers, put_reason,
  put_original_time, dlq_headers, attempt_of, original_topic_of,
}

-- The copy without the excluded headers.
pub get-copy_except :
    (ex : String → Bool) (j : String) (hs to : List Header)
    → get j (copy_except ex hs to)
      ≡ (if ex j then get j to else first_of (get_last j hs) (get j to))
unfolding copy_except get_last
get-copy_except ex j [] to = ground arith
get-copy_except ex j (h ∷ hs) to = ground (
  arith,
  get-copy_except ex j hs to,
  get-copy_except ex j hs (set h.key h.value to),
  get-set h.key j h.value to,
  eq_iff h.key j,
)

put_int :
    (hs : List Header) (k : String) (v : ℤ) → put_header Kind.int hs k v ≡ set k (format_int v) hs
unfolding put_header set_header format_value
put_int hs k v = refl

pub put_text : (hs : List Header) (k v : String) → put_header Kind.text hs k v ≡ set k v hs
unfolding put_header set_header format_value
put_text hs k v = refl

put_time :
    (hs : List Header) (k : String) (v : Time)
    → put_header Kind.time hs k v ≡ set k (format_int v.sec) hs
unfolding put_header set_header format_value
put_time hs k v = refl

get-put_reason :
    (e : Option Error) (hs : List Header) (j : String)
    → header_retry_reason ≢ j
    → get j (put_reason e hs) ≡ get j hs
unfolding put_reason
get-put_reason none hs j ne = refl
get-put_reason (some e) hs j ne =
    rw put_text (
      get-set header_retry_reason j (error_text e) hs ∙ rw (==_of_ne header_retry_reason j ne) refl)

reason_ne : (k : String) → (header_retry_reason == k) ≡ false → header_retry_reason ≢ k
reason_ne k h = ground (arith, eq_iff header_retry_reason k)

ruleset put_laws = (put_int, put_text, put_time, get-set)

-- The headers that every retry message has, by their texts.
pub record HasRetryHeaders (cfg : Config) (d : RetryData) (hs : List Header) : Type 0 where
  pub attempt : get header_retry_attempt hs ≡ some (format_int d.next_attempt)
  pub max : get header_retry_max hs ≡ some (format_int cfg.max_retries)
  pub next_time : get header_retry_next_time hs ≡ some (format_int d.next_retry_time.sec)
  pub original_time : get header_retry_original_time hs ≡ some (format_int d.original_time.sec)
  pub id : get header_id hs ≡ some d.id
  pub retry : get header_retry hs ≡ some "true"
  pub topic : get header_topic hs ≡ some d.original_topic

module _ (cfg : Config) (d : RetryData) (hs : List Header) where
  pub retry_headers-HasRetryHeaders : HasRetryHeaders cfg d (retry_headers cfg d hs)
  unfolding retry_headers
  retry_headers-HasRetryHeaders = record {
    attempt =
        simp
          (put_laws, get-put_reason _ _ header_retry_attempt (reason_ne header_retry_attempt refl));
    max = simp (put_laws, get-put_reason _ _ header_retry_max (reason_ne header_retry_max refl));
    next_time = simp (
      put_laws,
      get-put_reason _ _ header_retry_next_time (reason_ne header_retry_next_time refl),
    );
    original_time = simp (
      put_laws,
      get-put_reason _ _ header_retry_original_time (reason_ne header_retry_original_time refl),
    );
    id = simp put_laws;
    retry = simp put_laws;
    topic = simp put_laws;
  }

abbrev pub Misses : String → String → Type 0
Misses k j = (k == j) ≡ false

-- A header that is not replaced has none of the names that are.
not_retry_header :
    (j : String)
    → is_retry_header j ≡ false
    → Misses header_retry_attempt j
      × Misses header_retry_max j
      × Misses header_retry_next_time j
      × Misses header_retry_original_time j
      × Misses header_retry_reason j
      × Misses header_id j
      × Misses header_retry j
unfolding is_retry_header
not_retry_header j h = ground (
  arith,
  eq_iff header_retry_attempt j,
  eq_iff header_retry_max j,
  eq_iff header_retry_next_time j,
  eq_iff header_retry_original_time j,
  eq_iff header_retry_reason j,
  eq_iff header_id j,
  eq_iff header_retry j,
)

-- Any other header but the topic is carried over.
pub retry_headers_keep :
    (cfg : Config) (d : RetryData) (hs : List Header) (j : String)
    → IsDistinct hs
    → is_retry_header j ≡ false
    → header_topic ≢ j
    → get j (retry_headers cfg d hs) ≡ get j hs
unfolding retry_headers get
retry_headers_keep cfg d hs j distinct kept ne =
    let (a, m, n, o, r, i, y) = not_retry_header j kept in
    simp
      (
        put_int,
        put_text,
        put_time,
        get-set,
        get-put_reason _ _ j (reason_ne j r),
        get-copy_except,
        ==_of_ne header_topic j ne,
        a,
        m,
        n,
        o,
        i,
        y,
        kept,
      )
      (ground (arith, get_last-IsDistinct j hs distinct))

-- The headers that every DLQ message has.
pub record HasDlqHeaders (msg : Envelope) (e : Error) (stamp : Time) (hs : List Header)
    : Type 0 where
  pub reason : get header_dlq_reason hs ≡ some (error_text e)
  pub timestamp : get header_dlq_timestamp hs ≡ some (format_int stamp.sec)
  pub source_topic : get header_dlq_source_topic hs ≡ some (original_topic_of msg)
  pub attempts : get header_dlq_retry_attempts hs ≡ some (format_int (attempt_of msg))

get-put_original_time :
    (t : Time) (hs : List Header) (j : String)
    → Misses header_dlq_original_failure_time j
    → get j (put_original_time t hs) ≡ get j hs
unfolding put_original_time
get-put_original_time t hs j ne = elim (Bool-cases (is_zero t)) [
  | inl z ↦ rw z
  | inr z ↦
      rw (z, put_time)
        (get-set header_dlq_original_failure_time j (format_int t.sec) hs ∙ rw ne refl)
]

module _ (msg : Envelope) (e : Error) (stamp : Time) where
  pub dlq_headers-HasDlqHeaders : HasDlqHeaders msg e stamp (dlq_headers msg e stamp)
  unfolding dlq_headers
  dlq_headers-HasDlqHeaders = record {
    reason = simp (put_laws, get-put_original_time _ _ header_dlq_reason refl);
    timestamp = simp (put_laws, get-put_original_time _ _ header_dlq_timestamp refl);
    source_topic = simp (put_laws, get-put_original_time _ _ header_dlq_source_topic refl);
    attempts = simp (put_laws, get-put_original_time _ _ header_dlq_retry_attempts refl);
  }

  -- What a DLQ message carries over: all but the dropped headers and those of its own.
  pub dlq_headers_keep :
      (j : String)
      → IsDistinct msg.headers
      → is_dropped_by_dlq j ≡ false
      → Misses header_dlq_reason j
      → Misses header_dlq_timestamp j
      → Misses header_dlq_source_topic j
      → Misses header_dlq_retry_attempts j
      → Misses header_dlq_original_failure_time j
      → get j (dlq_headers msg e stamp) ≡ get j msg.headers
  unfolding dlq_headers get
  dlq_headers_keep j distinct kept r t s a o =
      simp
        (
          put_int,
          put_text,
          put_time,
          get-set,
          get-put_original_time _ _ j o,
          get-copy_except,
          r,
          t,
          s,
          a,
          kept,
        )
        (ground (arith, get_last-IsDistinct j msg.headers distinct))

-- The id is one of the headers that are replaced.
pub id-ne : (j : String) → is_retry_header j ≡ false → header_id ≢ j
unfolding is_retry_header
id-ne j h = ground (arith, eq_iff j header_id)

-- A copy by NewFromMessage has each header once.
pub new_from_message-IsDistinct : (msg : Envelope) → IsDistinct (new_from_message msg).headers
unfolding new_from_message
new_from_message-IsDistinct msg = copy_into-IsDistinct msg.headers [] tt
