-- ===== src/Options.antt =====
-- The configuration records of src/producer.rs and src/consumer.rs, and the message that a producer
-- hands to its connection. A BTreeMap or HashMap of properties is an association list.
use pulsar_rs.Shared.{ℕ, Bool, Option, none, List, [], map}
use pulsar_rs.Proto.{Bytes, Str, KeyValue, Schema, MessageIdData, EncryptionKeys}

-- `proto::CompressionType`, with the zeroth constructor named apart from `Option::None`.
pub data CompressionType : Type 0 where
  uncompressed lz4 zlib zstd snappy : CompressionType

pub record ProducerOptions : Type 0 where
  pub encrypted : Option Bool
  pub metadata : List (Str × Str)
  pub schema : Option Schema
  pub batch_size : Option ℕ
  pub compression : Option CompressionType
  pub access_mode : Option ℕ

-- What the user gives to a producer.
pub record UserMessage : Type 0 where
  pub payload : Bytes
  pub properties : List (Str × Str)
  pub partition_key : Option Str
  pub ordering_key : Option Bytes
  pub replicate_to : List Str
  pub event_time : Option ℕ
  pub schema_version : Option Bytes

pub record ProducerMessage : Type 0 where
  pub payload : Bytes
  pub properties : List (Str × Str)
  pub partition_key : Option Str
  pub ordering_key : Option Bytes
  pub replicate_to : List Str
  pub compression : Option ℕ
  pub uncompressed_size : Option ℕ
  pub num_messages_in_batch : Option ℕ
  pub event_time : Option ℕ
  pub encryption_keys : List EncryptionKeys
  pub encryption_algo : Option Str
  pub encryption_param : Option Bytes
  pub schema_version : Option Bytes
  pub deliver_at_time : Option ℕ

-- `ProducerMessage::default()`.
abbrev pub default_producer_message : ProducerMessage
default_producer_message = record {
  payload = [];
  properties = [];
  partition_key = none;
  ordering_key = none;
  replicate_to = [];
  compression = none;
  uncompressed_size = none;
  num_messages_in_batch = none;
  event_time = none;
  encryption_keys = [];
  encryption_algo = none;
  encryption_param = none;
  schema_version = none;
  deliver_at_time = none;
}

-- `From<Message> for ProducerMessage`.
unfoldable pub from_message : UserMessage → ProducerMessage
from_message m = record default_producer_message {
  payload = m.payload;
  properties = m.properties;
  partition_key = m.partition_key;
  ordering_key = m.ordering_key;
  replicate_to = m.replicate_to;
  event_time = m.event_time;
  schema_version = m.schema_version;
}

pub data InitialPosition : Type 0 where
  earliest latest : InitialPosition

-- `From<InitialPosition> for i32`.
unfoldable pub position_number : InitialPosition → ℕ
position_number earliest = 1
position_number latest = 0

pub record ConsumerOptions : Type 0 where
  pub priority_level : Option ℕ
  pub durable : Option Bool
  pub start_message_id : Option MessageIdData
  pub metadata : List (Str × Str)
  pub read_compacted : Option Bool
  pub schema : Option Schema
  pub initial_position : InitialPosition

pub record DeadLetterPolicy : Type 0 where
  pub max_redeliver_count : ℕ
  pub dead_letter_topic : Str

-- `SubType` of PulsarApi.proto.
pub data SubType : Type 0 where
  exclusive shared failover key_shared : SubType

unfoldable pub sub_type_number : SubType → ℕ
sub_type_number exclusive = 0
sub_type_number shared = 1
sub_type_number failover = 2
sub_type_number key_shared = 3

-- The conversion of a property map into the entries of a message.
unfoldable pub key_values : List (Str × Str) → List KeyValue
key_values = map λ p. record { key = p.0; value = p.1 }
