-- ===== src/Proto/Base.antt =====
-- `BaseCommand` of PulsarApi.proto: a type number and one optional field for each command that the
-- client knows.
use pulsar_rs.Shared.{ℕ, Option, none}
use pulsar_rs.Proto.Commands.{
  CommandAck, CommandActiveConsumerChange, CommandCloseConsumer, CommandCloseProducer,
  CommandConnect, CommandConnected, CommandConsumerStats, CommandConsumerStatsResponse,
  CommandError, CommandFlow, CommandGetLastMessageId, CommandGetLastMessageIdResponse,
  CommandGetSchema, CommandGetSchemaResponse, CommandGetTopicsOfNamespace,
  CommandGetTopicsOfNamespaceResponse, CommandLookupTopic, CommandLookupTopicResponse,
  CommandMessage, CommandPartitionedTopicMetadata, CommandPartitionedTopicMetadataResponse,
  CommandPing, CommandPong, CommandProducer, CommandProducerSuccess, CommandReachedEndOfTopic,
  CommandRedeliverUnacknowledgedMessages, CommandSeek, CommandSend, CommandSendError,
  CommandSendReceipt, CommandSubscribe, CommandSuccess, CommandUnsubscribe,
}

pub record BaseCommand : Type 0 where
  pub type_ : ℕ
  pub connect : Option CommandConnect
  pub connected : Option CommandConnected
  pub subscribe : Option CommandSubscribe
  pub producer : Option CommandProducer
  pub send : Option CommandSend
  pub send_receipt : Option CommandSendReceipt
  pub send_error : Option CommandSendError
  pub message : Option CommandMessage
  pub ack : Option CommandAck
  pub flow : Option CommandFlow
  pub unsubscribe : Option CommandUnsubscribe
  pub success : Option CommandSuccess
  pub error : Option CommandError
  pub close_producer : Option CommandCloseProducer
  pub close_consumer : Option CommandCloseConsumer
  pub producer_success : Option CommandProducerSuccess
  pub ping : Option CommandPing
  pub pong : Option CommandPong
  pub redeliver_unacknowledged_messages : Option CommandRedeliverUnacknowledgedMessages
  pub partition_metadata : Option CommandPartitionedTopicMetadata
  pub partition_metadata_response : Option CommandPartitionedTopicMetadataResponse
  pub lookup_topic : Option CommandLookupTopic
  pub lookup_topic_response : Option CommandLookupTopicResponse
  pub consumer_stats : Option CommandConsumerStats
  pub consumer_stats_response : Option CommandConsumerStatsResponse
  pub reached_end_of_topic : Option CommandReachedEndOfTopic
  pub seek : Option CommandSeek
  pub get_last_message_id : Option CommandGetLastMessageId
  pub get_last_message_id_response : Option CommandGetLastMessageIdResponse
  pub active_consumer_change : Option CommandActiveConsumerChange
  pub get_topics_of_namespace : Option CommandGetTopicsOfNamespace
  pub get_topics_of_namespace_response : Option CommandGetTopicsOfNamespaceResponse
  pub get_schema : Option CommandGetSchema
  pub get_schema_response : Option CommandGetSchemaResponse

-- `BaseCommand { r#type, ..Default::default() }`.
abbrev pub command_of_type : ℕ → BaseCommand
command_of_type t = record {
  type_ = t;
  connect = none;
  connected = none;
  subscribe = none;
  producer = none;
  send = none;
  send_receipt = none;
  send_error = none;
  message = none;
  ack = none;
  flow = none;
  unsubscribe = none;
  success = none;
  error = none;
  close_producer = none;
  close_consumer = none;
  producer_success = none;
  ping = none;
  pong = none;
  redeliver_unacknowledged_messages = none;
  partition_metadata = none;
  partition_metadata_response = none;
  lookup_topic = none;
  lookup_topic_response = none;
  consumer_stats = none;
  consumer_stats_response = none;
  reached_end_of_topic = none;
  seek = none;
  get_last_message_id = none;
  get_last_message_id_response = none;
  active_consumer_change = none;
  get_topics_of_namespace = none;
  get_topics_of_namespace_response = none;
  get_schema = none;
  get_schema_response = none;
}
