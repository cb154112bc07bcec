-- ===== src/Proto/Values.antt =====
-- The values of PulsarApi.proto that the messages carry, with the fields that the client names.
-- A string or a byte vector is the list of its bytes; an i32 or i64 is its two's complement pattern.
use pulsar_rs.Shared.{ℕ, Option, none, List, []}

abbrev pub Bytes : Type 0
Bytes = List ℕ

abbrev pub Str : Type 0
Str = List ℕ

pub record KeyValue : Type 0 where
  pub key : Str
  pub value : Str

pub record Schema : Type 0 where
  pub name : Str
  pub schema_data : Bytes
  pub type_ : ℕ
  pub properties : List KeyValue

pub record MessageIdData : Type 0 where
  pub ledger_id : ℕ
  pub entry_id : ℕ
  pub partition : Option ℕ
  pub batch_index : Option ℕ
  pub ack_set : List ℕ
  pub batch_size : Option ℕ

pub record EncryptionKeys : Type 0 where
  pub key : Str
  pub value : Bytes
  pub metadata : List KeyValue

pub record MessageMetadata : Type 0 where
  pub producer_name : Str
  pub sequence_id : ℕ
  pub publish_time : ℕ
  pub properties : List KeyValue
  pub replicated_from : Option Str
  pub partition_key : Option Str
  pub replicate_to : List Str
  pub compression : Option ℕ
  pub uncompressed_size : Option ℕ
  pub num_messages_in_batch : Option ℕ
  pub event_time : Option ℕ
  pub encryption_keys : List EncryptionKeys
  pub encryption_algo : Option Str
  pub encryption_param : Option Bytes
  pub schema_version : Option Bytes
  pub ordering_key : Option Bytes
  pub deliver_at_time : Option ℕ

pub record SingleMessageMetadata : Type 0 where
  pub properties : List KeyValue
  pub partition_key : Option Str
  pub payload_size : ℕ
  pub event_time : Option ℕ
  pub ordering_key : Option Bytes

-- `Default::default()` of the two metadata messages.
abbrev pub default_metadata : MessageMetadata
default_metadata = record {
  producer_name = [];
  sequence_id = 0;
  publish_time = 0;
  properties = [];
  replicated_from = none;
  partition_key = none;
  replicate_to = [];
  compression = none;
  uncompressed_size = none;
  num_messages_in_batch = none;
  event_time = none;
  encryption_keys = [];
  encryption_algo = none;
  encryption_param = none;
  schema_version = none;
  ordering_key = none;
  deliver_at_time = none;
}

abbrev pub default_single_metadata : SingleMessageMetadata
default_single_metadata = record {
  properties = [];
  partition_key = none;
  payload_size = 0;
  event_time = none;
  ordering_key = none;
}
