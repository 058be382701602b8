-- ===== src/Message.antt =====
-- Message of confluent_kafka/src/confluent_kafka.c: construction from a librdkafka message, getters
-- and setters.
pub mod Access
pub mod Trip
use confluent_kafka_python.Base.{
  ℕ, Bool, true, false, not, ◌&&◌, Option, none, some, List, if◌then◌else◌,
}
use confluent_kafka_python.Base.Int.{ℤ, pos, eqb_ℤ}
use confluent_kafka_python.Base.Text.{Text}
use confluent_kafka_python.Object.{Object, bytes, message, none_object, kafka_error, KafkaError}
use confluent_kafka_python.KafkaError.{new_or_none}
use confluent_kafka_python.World.{CMessage, ClientType, producer}

-- `none` of `value`, `key` and `headers` is a NULL pointer; `error` is None or a KafkaError.
pub record Message : Type 0 where
  pub topic : Option Text
  pub value : Option Object
  pub key : Option Object
  pub headers : Option Object
  pub c_headers : Option (List (Text × Option Text))
  pub error : Option KafkaError
  pub partition : ℤ
  pub offset : ℤ
  pub timestamp : ℤ
  pub timestamp_type : ℕ

abbrev is_producer : ClientType → Bool
is_producer producer = true
is_producer _ = false

abbrev to_bytes : Option Text → Option Object
to_bytes none = none
to_bytes (some t) = some (bytes t)

-- The text of the error object: a Producer's message holds its payload there.
abbrev error_text : ClientType → CMessage → Option Text
error_text type rkm =
    if not (eqb_ℤ rkm.err (pos 0)) && not (is_producer type) then some rkm.error_text else none

-- Message_new0
unfoldable pub new0 : (ℤ → Text) → ClientType → CMessage → Message
unfolding new_or_none
new0 err2str type rkm = record {
  topic = rkm.topic;
  value = to_bytes rkm.payload;
  key = to_bytes rkm.key;
  headers = none;
  c_headers = none;
  error = new_or_none err2str rkm.err (error_text type rkm);
  partition = rkm.partition;
  offset = rkm.offset;
  timestamp = rkm.timestamp;
  timestamp_type = rkm.timestamp_type;
}

-- rd_kafka_message_detach_headers, which Consumer_poll and Consumer_consume call behind Message_new0.
unfoldable pub with_headers : Message → CMessage → Message
with_headers m rkm = record m { c_headers = rkm.headers }

-- The message, and its error, as arguments of a callback.
unfoldable pub as_object : Message → Object
as_object m = message m.topic m.partition m.offset

unfoldable pub error_object : Option KafkaError → Object
error_object none = none_object
error_object (some e) = kafka_error e
