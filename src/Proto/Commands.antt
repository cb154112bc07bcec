-- ===== src/Proto/Commands.antt =====
-- The commands of PulsarApi.proto, with the fields that the client names.
use pulsar_rs.Shared.{ℕ, Option, List, Bool}
use pulsar_rs.Proto.Values.{Bytes, Str, KeyValue, Schema, MessageIdData}

pub record CommandConnect : Type 0 where
  pub client_version : Str
  pub auth_method_name : Option Str
  pub auth_data : Option Bytes
  pub protocol_version : Option ℕ
  pub proxy_to_broker_url : Option Str

pub record CommandConnected : Type 0 where
  pub server_version : Str

pub record CommandSubscribe : Type 0 where
  pub topic : Str
  pub subscription : Str
  pub sub_type : ℕ
  pub consumer_id : ℕ
  pub request_id : ℕ
  pub consumer_name : Option Str
  pub priority_level : Option ℕ
  pub durable : Option Bool
  pub start_message_id : Option MessageIdData
  pub metadata : List KeyValue
  pub read_compacted : Option Bool
  pub schema : Option Schema
  pub initial_position : Option ℕ

pub record CommandPartitionedTopicMetadata : Type 0 where
  pub topic : Str
  pub request_id : ℕ

pub record CommandPartitionedTopicMetadataResponse : Type 0 where
  pub partitions : Option ℕ
  pub request_id : ℕ
  pub response : Option ℕ
  pub error : Option ℕ
  pub message : Option Str

pub record CommandLookupTopic : Type 0 where
  pub topic : Str
  pub request_id : ℕ
  pub authoritative : Option Bool

pub record CommandLookupTopicResponse : Type 0 where
  pub broker_service_url : Option Str
  pub broker_service_url_tls : Option Str
  pub response : Option ℕ
  pub request_id : ℕ
  pub authoritative : Option Bool
  pub error : Option ℕ
  pub message : Option Str
  pub proxy_through_service_url : Option Bool

pub record CommandProducer : Type 0 where
  pub topic : Str
  pub producer_id : ℕ
  pub request_id : ℕ
  pub producer_name : Option Str
  pub encrypted : Option Bool
  pub metadata : List KeyValue
  pub schema : Option Schema
  pub producer_access_mode : Option ℕ

pub record CommandSend : Type 0 where
  pub producer_id : ℕ
  pub sequence_id : ℕ
  pub num_messages : Option ℕ

pub record CommandSendReceipt : Type 0 where
  pub producer_id : ℕ
  pub sequence_id : ℕ
  pub message_id : Option MessageIdData

pub record CommandSendError : Type 0 where
  pub producer_id : ℕ
  pub sequence_id : ℕ
  pub error : ℕ
  pub message : Str

pub record CommandMessage : Type 0 where
  pub consumer_id : ℕ
  pub message_id : MessageIdData
  pub redelivery_count : Option ℕ

pub record CommandAck : Type 0 where
  pub consumer_id : ℕ
  pub ack_type : ℕ
  pub message_id : List MessageIdData

pub record CommandActiveConsumerChange : Type 0 where
  pub consumer_id : ℕ
  pub is_active : Option Bool

pub record CommandFlow : Type 0 where
  pub consumer_id : ℕ
  pub message_permits : ℕ

pub record CommandUnsubscribe : Type 0 where
  pub consumer_id : ℕ
  pub request_id : ℕ

pub record CommandSeek : Type 0 where
  pub consumer_id : ℕ
  pub request_id : ℕ
  pub message_id : Option MessageIdData
  pub message_publish_time : Option ℕ

pub record CommandReachedEndOfTopic : Type 0 where
  pub consumer_id : ℕ

pub record CommandCloseProducer : Type 0 where
  pub producer_id : ℕ
  pub request_id : ℕ

pub record CommandCloseConsumer : Type 0 where
  pub consumer_id : ℕ
  pub request_id : ℕ

pub record CommandRedeliverUnacknowledgedMessages : Type 0 where
  pub consumer_id : ℕ
  pub message_ids : List MessageIdData

pub record CommandSuccess : Type 0 where
  pub request_id : ℕ

pub record CommandProducerSuccess : Type 0 where
  pub request_id : ℕ
  pub producer_name : Str
  pub producer_ready : Option Bool

pub record CommandError : Type 0 where
  pub request_id : ℕ
  pub error : ℕ
  pub message : Str

pub record CommandConsumerStats : Type 0 where
  pub request_id : ℕ
  pub consumer_id : ℕ

pub record CommandConsumerStatsResponse : Type 0 where
  pub request_id : ℕ

pub record CommandGetLastMessageId : Type 0 where
  pub consumer_id : ℕ
  pub request_id : ℕ

pub record CommandGetLastMessageIdResponse : Type 0 where
  pub last_message_id : MessageIdData
  pub request_id : ℕ

pub record CommandGetTopicsOfNamespace : Type 0 where
  pub request_id : ℕ
  pub namespace : Str
  pub mode : Option ℕ

pub record CommandGetTopicsOfNamespaceResponse : Type 0 where
  pub request_id : ℕ
  pub topics : List Str

pub record CommandGetSchema : Type 0 where
  pub request_id : ℕ
  pub topic : Str

pub record CommandGetSchemaResponse : Type 0 where
  pub request_id : ℕ

pub data CommandPing : Type 0 where
  ping : CommandPing

pub data CommandPong : Type 0 where
  pong : CommandPong
