-- ===== src/Connection/Messages.antt =====
-- `connection::messages` of src/connection.rs: the commands that the client sends.
use pulsar_rs.Shared.{
  ℕ, Bool, false, Option, none, some, unwrap_or, map_option, codes, List, if◌then◌else◌,
}
use pulsar_rs.Proto.{
  Bytes, Str, MessageIdData, default_metadata, BaseCommand, command_of_type, CommandPing,
  CommandPong,
}
use pulsar_rs.Options.{
  ProducerOptions, ProducerMessage, ConsumerOptions, SubType, sub_type_number, position_number,
  key_values,
}
use pulsar_rs.Message.Key.{Message}
use pulsar_rs.Message.TypeNumber.{type_number}
use pulsar_rs.Message.TypeNumber

-- `Authentication` of src/connection.rs.
pub record Authentication : Type 0 where
  pub name : Str
  pub content : Bytes

-- A command without payload.
abbrev pub plain : BaseCommand → Message
plain c = record { command = c; payload = none }

-- The bytes of "2.0.1-incubating".
abbrev pub client_version : Str
client_version = codes "2.0.1-incubating"

unfoldable pub connect : Option Authentication → Option Str → Message
unfolding type_number
connect auth proxy_to_broker_url =
    plain (record (command_of_type (type_number TypeNumber.connect)) {
      connect = some (record {
        client_version = client_version;
        auth_method_name = map_option (λ a. a.name) auth;
        auth_data = map_option (λ a. a.content) auth;
        protocol_version = some 12;
        proxy_to_broker_url = proxy_to_broker_url;
      });
    })

unfoldable pub ping : Message
unfolding type_number
ping =
    plain (record (command_of_type (type_number TypeNumber.ping)) { ping = some CommandPing.ping })

unfoldable pub pong : Message
unfolding type_number
pong =
    plain (record (command_of_type (type_number TypeNumber.pong)) { pong = some CommandPong.pong })

unfoldable pub create_producer : Str → Option Str → ℕ → ℕ → ProducerOptions → Message
unfolding type_number key_values
create_producer topic producer_name producer_id request_id options =
    plain (record (command_of_type (type_number TypeNumber.producer)) {
      producer = some (record {
        topic = topic;
        producer_id = producer_id;
        request_id = request_id;
        producer_name = producer_name;
        encrypted = options.encrypted;
        metadata = key_values options.metadata;
        schema = options.schema;
        producer_access_mode = options.access_mode;
      });
    })

-- The mode is its number in PulsarApi.proto.
unfoldable pub get_topics_of_namespace : ℕ → Str → ℕ → Message
unfolding type_number
get_topics_of_namespace request_id namespace mode =
    plain (record (command_of_type (type_number TypeNumber.get_topics_of_namespace)) {
      get_topics_of_namespace =
          some (record { request_id = request_id; namespace = namespace; mode = some mode });
    })

-- `now` is `Utc::now().timestamp_millis()`.
unfoldable pub send : ℕ → ℕ → Str → ℕ → ProducerMessage → Message
unfolding type_number key_values
send now producer_id producer_name sequence_id message = record {
  command = record (command_of_type (type_number TypeNumber.send)) {
    send = some (record {
      producer_id = producer_id;
      sequence_id = sequence_id;
      num_messages = message.num_messages_in_batch;
    });
  };
  payload = some (record {
    metadata = record default_metadata {
      producer_name = producer_name;
      sequence_id = sequence_id;
      properties = key_values message.properties;
      publish_time = now;
      replicated_from = none;
      partition_key = message.partition_key;
      replicate_to = message.replicate_to;
      compression = message.compression;
      uncompressed_size = message.uncompressed_size;
      num_messages_in_batch = message.num_messages_in_batch;
      event_time = message.event_time;
      encryption_keys = message.encryption_keys;
      encryption_algo = message.encryption_algo;
      encryption_param = message.encryption_param;
      schema_version = message.schema_version;
      deliver_at_time = message.deliver_at_time;
    };
    content = message.payload;
  });
}

unfoldable pub lookup_topic : Str → Bool → ℕ → Message
unfolding type_number
lookup_topic topic authoritative request_id =
    plain (record (command_of_type (type_number TypeNumber.lookup)) {
      lookup_topic =
          some
            (record { topic = topic; request_id = request_id; authoritative = some authoritative });
    })

unfoldable pub lookup_partitioned_topic : Str → ℕ → Message
unfolding type_number
lookup_partitioned_topic topic request_id =
    plain (record (command_of_type (type_number TypeNumber.partitioned_metadata)) {
      partition_metadata = some (record { topic = topic; request_id = request_id });
    })

unfoldable pub consumer_stats : ℕ → ℕ → Message
unfolding type_number
consumer_stats request_id consumer_id =
    plain (record (command_of_type (type_number TypeNumber.consumer_stats)) {
      consumer_stats = some (record { request_id = request_id; consumer_id = consumer_id });
    })

unfoldable pub get_last_message_id : ℕ → ℕ → Message
unfolding type_number
get_last_message_id consumer_id request_id =
    plain (record (command_of_type (type_number TypeNumber.get_last_message_id)) {
      get_last_message_id = some (record { consumer_id = consumer_id; request_id = request_id });
    })

unfoldable pub close_producer : ℕ → ℕ → Message
unfolding type_number
close_producer producer_id request_id =
    plain (record (command_of_type (type_number TypeNumber.close_producer)) {
      close_producer = some (record { producer_id = producer_id; request_id = request_id });
    })

unfoldable pub subscribe : Str → Str → SubType → ℕ → ℕ → Option Str → ConsumerOptions → Message
unfolding type_number sub_type_number position_number key_values
subscribe topic subscription sub_type consumer_id request_id consumer_name options =
    plain (record (command_of_type (type_number TypeNumber.subscribe)) {
      subscribe = some (record {
        topic = topic;
        subscription = subscription;
        sub_type = sub_type_number sub_type;
        consumer_id = consumer_id;
        request_id = request_id;
        consumer_name = consumer_name;
        priority_level = options.priority_level;
        durable = options.durable;
        metadata = key_values options.metadata;
        read_compacted = some (unwrap_or options.read_compacted false);
        initial_position = some (position_number options.initial_position);
        schema = options.schema;
        start_message_id = options.start_message_id;
      });
    })

unfoldable pub flow : ℕ → ℕ → Message
unfolding type_number
flow consumer_id message_permits = plain (record (command_of_type (type_number TypeNumber.flow)) {
  flow = some (record { consumer_id = consumer_id; message_permits = message_permits });
})

unfoldable pub ack : ℕ → List MessageIdData → Bool → Message
unfolding type_number
ack consumer_id message_id cumulative =
    plain (record (command_of_type (type_number TypeNumber.ack)) {
      ack = some (record {
        consumer_id = consumer_id;
        ack_type = if cumulative then 1 else 0;
        message_id = message_id;
      });
    })

unfoldable pub redeliver_unacknowleged_messages : ℕ → List MessageIdData → Message
unfolding type_number
redeliver_unacknowleged_messages consumer_id message_ids =
    plain (record (command_of_type (type_number TypeNumber.redeliver_unacknowledged_messages)) {
      redeliver_unacknowledged_messages =
          some (record { consumer_id = consumer_id; message_ids = message_ids });
    })

unfoldable pub close_consumer : ℕ → ℕ → Message
unfolding type_number
close_consumer consumer_id request_id =
    plain (record (command_of_type (type_number TypeNumber.close_consumer)) {
      close_consumer = some (record { consumer_id = consumer_id; request_id = request_id });
    })

unfoldable pub seek : ℕ → ℕ → Option MessageIdData → Option ℕ → Message
unfolding type_number
seek consumer_id request_id message_id message_publish_time =
    plain (record (command_of_type (type_number TypeNumber.seek)) {
      seek = some (record {
        consumer_id = consumer_id;
        request_id = request_id;
        message_id = message_id;
        message_publish_time = message_publish_time;
      });
    })

unfoldable pub unsubscribe : ℕ → ℕ → Message
unfolding type_number
unsubscribe consumer_id request_id =
    plain (record (command_of_type (type_number TypeNumber.unsubscribe)) {
      unsubscribe = some (record { consumer_id = consumer_id; request_id = request_id });
    })
