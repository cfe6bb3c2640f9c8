-- ===== src/Message/Envelope.antt =====
-- MessageEnvelope of resilience/message.go. The getters are the record's fields. The same record
-- stands for a value of the interface Message, of which the code reads just these fields.
use kafka_resilience.Base.{String, ◌≡◌, refl, Option, List, [], ℤ, pos}
use kafka_resilience.Message.Headers.{Header, copy_into}
use kafka_resilience.Message.Values.{Time}

-- A nil payload is `none`. A nil key reads as the empty text.
pub record Envelope : Type 0 where
  pub timestamp : Time
  pub topic : String
  pub key : String
  pub payload : Option String
  pub headers : List Header
  pub partition : ℤ
  pub offset : ℤ

-- NewMessageEnvelope takes over a header list of its own kind, and copies a foreign one.
pub data HeaderSource : Type 0 where
  own : List Header → HeaderSource
  foreign : List Header → HeaderSource
  missing : HeaderSource

unfoldable pub header_data : HeaderSource → List Header
header_data (own hs) = hs
header_data (foreign hs) = copy_into hs []
header_data missing = []

unfoldable pub new_message_envelope :
    Time → String → String → Option String → HeaderSource → Envelope
unfolding header_data
new_message_envelope now topic key value source = record {
  timestamp = now;
  topic = topic;
  key = key;
  payload = value;
  headers = header_data source;
  partition = pos 0;
  offset = pos 0;
}

-- NewFromMessage: the headers are set one by one in a new list.
unfoldable pub new_from_message : Envelope → Envelope
new_from_message msg = record {
  timestamp = msg.timestamp;
  topic = msg.topic;
  key = msg.key;
  payload = msg.payload;
  headers = copy_into msg.headers [];
  partition = msg.partition;
  offset = msg.offset;
}

-- SetTopic.
unfoldable pub set_topic : String → Envelope → Envelope
set_topic topic m = record m { topic = topic }

-- SetPartition.
unfoldable pub set_partition : ℤ → Envelope → Envelope
set_partition partition m = record m { partition = partition }

-- SetOffset.
unfoldable pub set_offset : ℤ → Envelope → Envelope
set_offset offset m = record m { offset = offset }

-- The three setters commute with the copy, which keeps what they wrote.
pub new_from_message-setters :
    (topic : String) (partition offset : ℤ) (m : Envelope)
    → new_from_message (set_topic topic (set_partition partition (set_offset offset m)))
      ≡ set_topic topic (set_partition partition (set_offset offset (new_from_message m)))
unfolding new_from_message set_topic set_partition set_offset
new_from_message-setters topic partition offset m = refl
