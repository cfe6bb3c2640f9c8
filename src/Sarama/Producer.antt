-- ===== src/Sarama/Producer.antt =====
-- adapter/sarama/producer.go: the message that Produce builds, with ToSaramaHeaders of
-- adapter/sarama/message.go.
use kafka_resilience.Base.{
  String, ◌≡◌, refl, sym, ap, ◌∙◌, append_snoc, Bool, true, Option, List, [], ◌∷◌, ◌++◌,
}
use kafka_resilience.Message.Headers
use kafka_resilience.Message.Headers.{Header}
use kafka_resilience.Message.Envelope.{Envelope}
use kafka_resilience.Message.Values.{Time}
use kafka_resilience.Base.Exec.{Result}
use kafka_resilience.Errors.{Error}

-- Headers of the adapter's own type, or of another type, by what Range goes through.
pub data Source : Type 0 where
  own : List Header → Source
  other : List Header → Source

-- The function that is given to Range: it appends and goes on.
abbrev pub append_header : String → String → List Header → Bool × List Header
append_header key value result = (true, result ++ (record { key = key; value = value } ∷ []))

unfoldable pub to_sarama_headers : Source → List Header
to_sarama_headers (own hs) = hs
to_sarama_headers (other hs) = Headers.range append_header hs []

-- sarama.ProducerMessage, with the fields that Produce sets.
pub record ProducerMessage : Type 0 where
  pub topic : String
  pub key : String
  pub value : Option String
  pub headers : List Header
  pub timestamp : Time

-- The message that Produce hands to the library.
unfoldable pub producer_message : (List Header → Source) → String → Envelope → ProducerMessage
unfolding to_sarama_headers
producer_message source topic msg = record {
  topic = topic;
  key = msg.key;
  value = msg.payload;
  headers = to_sarama_headers (source msg.headers);
  timestamp = msg.timestamp;
}

-- Produce: the library's SendMessage is `send`, and its outcome is returned.
unfoldable pub produce :
    (ProducerMessage → Result Error (Unit {0}))
    → (List Header → Source)
    → String
    → Envelope
    → Result Error (Unit {0})
unfolding producer_message
produce send source topic msg = send (producer_message source topic msg)

append_nil : (hs : List Header) → hs ++ [] ≡ hs
append_nil [] = refl
append_nil (h ∷ hs) = ap (λ l. h ∷ l) (append_nil hs)

ranged : (hs result : List Header) → Headers.range append_header hs result ≡ result ++ hs
unfolding Headers.range
ranged [] result = sym (append_nil result)
ranged (h ∷ hs) result = ranged hs (result ++ (h ∷ [])) ∙ append_snoc result h hs

-- Either type of headers becomes the same list, in its order and with every duplicate.
pub to_sarama_headers_lem :
    (hs : List Header) → to_sarama_headers (other hs) ≡ to_sarama_headers (own hs)
unfolding to_sarama_headers
to_sarama_headers_lem hs = ranged hs []
