-- ===== src/Programs/Demo/Web.antt =====
-- The HTTP endpoints of examples/sarama/demo/main.go. A request carries what the JSON decoder returns
-- for its body; an answer is the status with the value that is encoded.
pub mod Produce
use Prim.Native.String.{◌++◌}
use kafka_resilience.Base.{ℕ, String, Bool, true, false, List, ◌==◌, if◌then◌else◌, ℤ}
use kafka_resilience.Base.GoMap.{GoMap}
use kafka_resilience.Base.Exec.{Result, ok, err}
use kafka_resilience.Errors.{Error, error_text}
use kafka_resilience.Programs.{Sample, Outbox, Sending, send_message}
use kafka_resilience.Programs.Demo.{
  DemoHandler, set_fail, clear_fail, get_pending_fails, get_locked_keys,
}

pub data Method : Type 0 where
  get post other_method : Method

-- The body is decoded, or the decoder's error has this text.
pub record Request (B : Type 0) : Type 0 where
  pub method : Method
  pub body : Result String B

pub record ProduceRequest : Type 0 where
  pub key : String
  pub value : String
  pub fail : Bool

pub record FailRequest : Type 0 where
  pub key : String
  pub fail : Bool

-- GetStats.
pub record Stats : Type 0 where
  pub total_processed : ℕ
  pub succeeded : ℕ
  pub failed : ℕ
  pub retried : ℕ
  pub last_values : GoMap String

abbrev pub get_stats : DemoHandler → Stats
get_stats h = record {
  total_processed = h.processed;
  succeeded = h.succeeded;
  failed = h.failed;
  retried = h.retried;
  last_values = h.processed_at;
}

-- http.Error with a status, or status 200 with the encoded value.
pub data Answer (A : Type 0) : Type 0 where
  refused : ℕ → String → Answer A
  answered : A → Answer A

pub record Produced : Type 0 where
  pub key : String
  pub partition : ℤ
  pub offset : ℤ
  pub will_fail : Bool

pub record LocksShown : Type 0 where
  pub locked_keys : List String
  pub pending_fails : List String

pub record FailSet : Type 0 where
  pub key : String
  pub will_fail : Bool

abbrev pub is_post : Method → Bool
is_post get = false
is_post post = true
is_post other_method = false

abbrev pub is_get : Method → Bool
is_get get = true
is_get post = false
is_get other_method = false

-- The answer behind SendMessage.
abbrev pub produce_answer : ProduceRequest → Result Error (ℤ × ℤ) → Answer Produced
produce_answer req (ok (partition, offset)) =
    answered
      (record { key = req.key; partition = partition; offset = offset; will_fail = req.fail })
produce_answer req (err e) = refused 500 ("Failed to produce: " ++ error_text e)

-- If `fail` is set, the key is armed, before the message is sent.
abbrev pub arm : ProduceRequest → DemoHandler → DemoHandler
arm req h = if req.fail then set_fail req.key h else h

-- handleProduce behind the decoder.
unfoldable pub produce_decoded :
    Sending
    → String
    → Result String ProduceRequest
    → DemoHandler
    → Outbox
    → Answer Produced × DemoHandler × Outbox
produce_decoded sending topic (err text) h o = (refused 400 ("Invalid JSON: " ++ text), h, o)
produce_decoded sending topic (ok req) h o =
    if req.key == ""
    then (refused 400 "key is required", h, o)
    else (let (r, o') =
          send_message sending (record { topic = topic; key = req.key; value = req.value }) o in
        (produce_answer req r, arm req h, o'))

unfoldable pub handle_produce :
    Sending
    → String
    → Request ProduceRequest
    → DemoHandler
    → Outbox
    → Answer Produced × DemoHandler × Outbox
unfolding produce_decoded
handle_produce sending topic r h o =
    if is_post r.method
    then produce_decoded sending topic r.body h o
    else (refused 405 "Method not allowed", h, o)

-- handleLocks, which reads no body.
unfoldable pub handle_locks : Method → DemoHandler → Answer LocksShown
unfolding get_locked_keys get_pending_fails
handle_locks method h =
    if is_get method
    then answered (record { locked_keys = get_locked_keys h; pending_fails = get_pending_fails h })
    else refused 405 "Method not allowed"

unfoldable pub handle_stats : Method → DemoHandler → Answer Stats
handle_stats method h =
    if is_get method then answered (get_stats h) else refused 405 "Method not allowed"

-- handleFail behind the decoder.
unfoldable pub fail_decoded : Result String FailRequest → DemoHandler → Answer FailSet × DemoHandler
fail_decoded (err text) h = (refused 400 ("Invalid JSON: " ++ text), h)
fail_decoded (ok req) h = (
  answered (record { key = req.key; will_fail = req.fail }),
  if req.fail then set_fail req.key h else clear_fail req.key h,
)

unfoldable pub handle_fail : Request FailRequest → DemoHandler → Answer FailSet × DemoHandler
unfolding fail_decoded
handle_fail r h =
    if is_post r.method then fail_decoded r.body h else (refused 405 "Method not allowed", h)
