-- ===== src/Programs.antt =====
-- The example programs of examples/sarama: what they share, which is the configuration, the reading of
-- a message by their handlers, and the sample messages. The client library's SendMessage is an
-- environment; logging is left out.
pub mod Granular
pub mod Demo
pub mod Strict
use kafka_resilience.Base.{
  ℕ, ◌+◌, String, Bool, Option, none, some, List, [], ◌∷◌, ◌==◌, if◌then◌else◌, ℤ, pos, ltb_ℤ,
  or_else,
}
use kafka_resilience.Base.Exec.{Exec, Result, ok, err, pure, raise, ◌>>=◌, ◌>>◌, ignore}
use kafka_resilience.Base.Decimal.Atoi.{atoi_value}
use kafka_resilience.Errors.{Error, new}
use kafka_resilience.Config.{Config, new_default_config}
use kafka_resilience.Message.Headers.{Header, get}
use kafka_resilience.Message.Envelope.{Envelope}
use kafka_resilience.Message.Values.{header_retry_attempt}
use kafka_resilience.Tracker.{Handler}

-- The configuration that the programs build.
abbrev pub program_config : String → Config
program_config group_id = record new_default_config {
  group_id = group_id;
  max_retries = pos 3;
  retry_topic_partitions = pos 1;
}

-- string(msg.Value())
abbrev pub text_of : Envelope → String
text_of msg = or_else msg.payload ""

-- The attempt as the handlers read it: an error of Atoi is dropped.
unfoldable pub attempt_shown : Envelope → ℤ
attempt_shown msg = elim (get header_retry_attempt msg.headers) [
  | none ↦ pos 0
  | some bytes ↦ atoi_value bytes
]

unfoldable pub is_retry : Envelope → Bool
is_retry msg = ltb_ℤ (pos 0) (attempt_shown msg)

-- OrderHandler.Handle of the basic program.
unfoldable pub order_handle : Handler
order_handle msg = if text_of msg == "fail" then raise (new "simulated error") else pure tt

-- sarama.ProducerMessage with the fields that the programs set.
pub record Sample : Type 0 where
  pub topic : String
  pub key : String
  pub value : String

-- What the program's own producer has accepted, the newest in front, and the number of its calls.
pub record Outbox : Type 0 where
  pub accepted : List Sample
  pub calls : ℕ

-- SyncProducer.SendMessage: the n-th call returns the partition and the offset, or an error.
abbrev pub Sending : Type 0
Sending = ℕ → Sample → Result Error (ℤ × ℤ)

abbrev pub sent_as : Sample → Outbox → Result Error (ℤ × ℤ) → Result Error (ℤ × ℤ) × Outbox
sent_as sample o (ok place) =
    (ok place, record { accepted = sample ∷ o.accepted; calls = o.calls + 1 })
sent_as sample o (err e) = (err e, record o { calls = o.calls + 1 })

unfoldable pub send_message : Sending → Sample → Exec Outbox Error (ℤ × ℤ)
send_message sending sample o = sent_as sample o (sending o.calls sample)

-- The loop of produceSampleMessages: a failure is logged, and the next message follows.
unfoldable pub produce_samples : Sending → String → List (String × String) → Outbox → Outbox
unfolding send_message
produce_samples sending topic [] o = o
produce_samples sending topic ((key, val) ∷ messages) o =
    let sample : Sample = record { topic = topic; key = key; value = val } in
    produce_samples sending topic messages (send_message sending sample o).1

-- The messages of the basic program.
abbrev pub basic_messages : List (String × String)
basic_messages = ("order-1", "success") ∷ ("order-2", "fail") ∷ ("order-3", "success") ∷ []

-- Those of the granular program.
abbrev pub granular_messages : List (String × String)
granular_messages =
    ("order-1", "success")
    ∷ ("order-2", "fail")
    ∷ ("order-3", "success")
    ∷ ("order-2", "success")
    ∷ []
