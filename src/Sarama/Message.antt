-- ===== src/Sarama/Message.antt =====
-- Message of adapter/sarama/message.go, which wraps a message that the client library has consumed, and
-- what becomes of a message that is produced and then consumed.
use kafka_resilience.Base.{String, ◌≡◌, refl, ap, ◌∙◌, Option, List, ◌⊎◌, inl, inr, ℤ}
use kafka_resilience.Message.Headers.{Header}
use kafka_resilience.Message.Envelope.{Envelope}
use kafka_resilience.Message.Values.{Time}
use kafka_resilience.Sarama.Producer.{
  Source, own, other, to_sarama_headers, to_sarama_headers_lem, ProducerMessage, producer_message,
}

-- sarama.ConsumerMessage, with the fields that the getters read.
pub record ConsumerMessage : Type 0 where
  pub topic : String
  pub partition : ℤ
  pub offset : ℤ
  pub key : String
  pub value : Option String
  pub headers : List Header
  pub timestamp : Time

-- NewMessage, by what its getters return.
unfoldable pub new_message : ConsumerMessage → Envelope
new_message m = record {
  timestamp = m.timestamp;
  topic = m.topic;
  key = m.key;
  payload = m.value;
  headers = m.headers;
  partition = m.partition;
  offset = m.offset;
}

-- What is relied on of the cluster and the library, for a topic with the producer's timestamps: a
-- message is consumed with the fields with which it was produced. The partition and the offset are
-- the cluster's.
pub record IsDelivery (deliver : ProducerMessage → ConsumerMessage) : Type 0 where
  pub topic : (pm : ProducerMessage) → (deliver pm).topic ≡ pm.topic
  pub key : (pm : ProducerMessage) → (deliver pm).key ≡ pm.key
  pub value : (pm : ProducerMessage) → (deliver pm).value ≡ pm.value
  pub headers : (pm : ProducerMessage) → (deliver pm).headers ≡ pm.headers
  pub timestamp : (pm : ProducerMessage) → (deliver pm).timestamp ≡ pm.timestamp

own_headers : (hs : List Header) → to_sarama_headers (own hs) ≡ hs
unfolding to_sarama_headers
own_headers hs = refl

sent_headers :
    (source : List Header → Source) (msg : Envelope)
    → (source msg.headers ≡ own msg.headers) ⊎ (source msg.headers ≡ other msg.headers)
    → to_sarama_headers (source msg.headers) ≡ msg.headers
sent_headers source msg (inl e) = ap to_sarama_headers e ∙ own_headers msg.headers
sent_headers source msg (inr e) =
    ap to_sarama_headers e ∙ to_sarama_headers_lem msg.headers ∙ own_headers msg.headers

-- A message that Produce sends to a topic is read back, by the adapter's own message, with that
-- topic and its key, payload, timestamp and headers, in their order and with every duplicate, whether
-- its headers were of the adapter's type or of another one.
pub new_message-producer_message :
    (deliver : ProducerMessage → ConsumerMessage)
    → (delivery : IsDelivery deliver)
    → (source : List Header → Source) (topic : String) (msg : Envelope)
    → (source msg.headers ≡ own msg.headers) ⊎ (source msg.headers ≡ other msg.headers)
    → let read : Envelope = new_message (deliver (producer_message source topic msg)) in
      (read.topic ≡ topic)
      × (read.key ≡ msg.key)
      × (read.payload ≡ msg.payload)
      × (read.timestamp ≡ msg.timestamp)
      × (read.headers ≡ msg.headers)
unfolding new_message producer_message
new_message-producer_message deliver d source topic msg kind = (
  d.topic (producer_message source topic msg),
  d.key (producer_message source topic msg),
  d.value (producer_message source topic msg),
  d.timestamp (producer_message source topic msg),
  d.headers (producer_message source topic msg) ∙ sent_headers source msg kind,
)
