-- ===== src/Tracker/Dlq.antt =====
-- SendToDLQ and handleMaxRetriesExceeded.
use kafka_resilience.Base.{String, ◌≡◌, refl, false, some, ◌∷◌, ◌+◌}
use kafka_resilience.Base.Decimal.{format_int}
use kafka_resilience.Base.Exec.{Result, ok, err, ◌>>=◌}
use kafka_resilience.Errors.{Error, error_text}
use kafka_resilience.Config.{dlq_topic}
use kafka_resilience.Message.Headers.{get}
use kafka_resilience.Message.Headers.Laws.{IsDistinct}
use kafka_resilience.Message.Envelope.{Envelope, new_from_message}
use kafka_resilience.Message.Values.{
  Time, header_dlq_reason, header_dlq_timestamp, header_dlq_source_topic, header_dlq_retry_attempts,
  header_dlq_original_failure_time,
}
use kafka_resilience.World.{World, Sent, Environment, produce, time_now}
use kafka_resilience.World.Retry.{Produced, produce-Produced}
use kafka_resilience.Tracker.{
  Tracker, attempt_of, original_topic_of, is_dropped_by_dlq, dlq_message,
}
use kafka_resilience.Tracker.Headers.{
  Misses, new_from_message-IsDistinct, dlq_headers-HasDlqHeaders, HasDlqHeaders, dlq_headers_keep,
}
use kafka_resilience.Tracker.Chain.{send_to_dlq}

-- The message of the dead letter topic for `msg`, which is a copy already, and its last error.
pub record IsDlqOf (t : Tracker) (msg : Envelope) (e : Error) (s : Sent) : Type 0 where
  pub to_dlq_topic : s.topic ≡ dlq_topic t.cfg (original_topic_of msg)
  pub same_key : s.message.key ≡ msg.key
  pub same_payload : s.message.payload ≡ msg.payload
  pub reason : get header_dlq_reason s.message.headers ≡ some (error_text e)
  pub source_topic : get header_dlq_source_topic s.message.headers ≡ some (original_topic_of msg)
  pub attempts :
      get header_dlq_retry_attempts s.message.headers ≡ some (format_int (attempt_of msg))
  pub keeps :
      (j : String)
      → is_dropped_by_dlq j ≡ false
      → Misses header_dlq_reason j
      → Misses header_dlq_timestamp j
      → Misses header_dlq_source_topic j
      → Misses header_dlq_retry_attempts j
      → Misses header_dlq_original_failure_time j
      → get j s.message.headers ≡ get j msg.headers

abbrev sent_dlq : Tracker → Envelope → Error → Time → Time → Sent
sent_dlq t msg e stamp now = record {
  topic = (dlq_message t.cfg msg e stamp now).topic;
  message = dlq_message t.cfg msg e stamp now;
}

sent_dlq-IsDlqOf :
    (t : Tracker) (msg : Envelope) (e : Error) (stamp now : Time)
    → IsDistinct msg.headers
    → IsDlqOf t msg e (sent_dlq t msg e stamp now)
unfolding dlq_message
sent_dlq-IsDlqOf t msg e stamp now distinct =
    let h : HasDlqHeaders msg e stamp (dlq_message t.cfg msg e stamp now).headers =
      dlq_headers-HasDlqHeaders msg e stamp in
    record {
      to_dlq_topic = refl;
      same_key = refl;
      same_payload = refl;
      reason = h.reason;
      source_topic = h.source_topic;
      attempts = h.attempts;
      keeps = λ j. dlq_headers_keep msg e stamp j distinct;
    }

-- The dead letter is out, or nothing is; the locks stay as they are.
abbrev pub DlqOutcome :
    Tracker → Envelope → Error → World → Result Error (Unit {0}) → World → Type 0
DlqOutcome t msg e w (ok u) w' =
    (s : Sent) × IsDlqOf t msg e s × (w'.sent ≡ s ∷ w.sent) × (w'.locks ≡ w.locks)
DlqOutcome t msg e w (err d) w' = (w'.sent ≡ w.sent) × (w'.locks ≡ w.locks)

abbrev later : World → World
later w = record w { clock_calls = w.clock_calls + 1 + 1 }

DlqOutcome-of :
    (t : Tracker) (msg : Envelope) (e : Error) (stamp now : Time) (w w' : World)
    (r : Result Error (Unit {0}))
    → IsDistinct msg.headers
    → Produced
        (dlq_message t.cfg msg e stamp now).topic
        (dlq_message t.cfg msg e stamp now)
        (later w)
        r
        w'
    → DlqOutcome t msg e w r w'
DlqOutcome-of t msg e stamp now w w' (ok u) distinct (sent, locks) =
    (sent_dlq t msg e stamp now, sent_dlq-IsDlqOf t msg e stamp now distinct, sent, locks)
DlqOutcome-of t msg e stamp now w w' (err d) distinct p = p

-- SendToDLQ sends exactly one message where it succeeds: to the dead letter topic of the original
-- topic, with the key and payload, the error's text, the original topic and the number of attempts
-- among the headers, and every header of the copy that is neither dropped nor replaced. Where it
-- fails, nothing is sent. The locks stay as they are either way.
pub send_to_dlq-Outcome :
    (env : Environment) (t : Tracker) (msg : Envelope) (e : Error) (w : World)
    → DlqOutcome t
        (new_from_message msg)
        e
        w
        (send_to_dlq env t msg e w).0
        (send_to_dlq env t msg e w).1
unfolding send_to_dlq ◌>>=◌ time_now
send_to_dlq-Outcome env t msg₀ e w =
    let msg : Envelope = new_from_message msg₀ in
    let stamp : Time = env.clock w.clock_calls in
    let now : Time = env.clock (w.clock_calls + 1) in
    let m : Envelope = dlq_message t.cfg msg e stamp now in
    let p : Result Error (Unit {0}) × World = produce env m.topic m (later w) in
    DlqOutcome-of t msg e stamp now w p.1 p.0 (new_from_message-IsDistinct msg₀)
      (produce-Produced env m.topic m (later w) p.1 p.0 refl)
