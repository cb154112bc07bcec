-- ===== src/Message/TypeNumber.antt =====
-- `base_command::Type` of PulsarApi.proto and its reading from a number in src/message.rs.
use pulsar_rs.Shared.{nat_eq, ℕ, Option, List, [], ◌∷◌}
use pulsar_rs.Shared.Assoc

pub data CommandType : Type 0 where
  connect connected subscribe producer send send_receipt send_error message ack flow unsubscribe
        success error close_producer close_consumer producer_success ping pong
        redeliver_unacknowledged_messages partitioned_metadata partitioned_metadata_response lookup
        lookup_response consumer_stats consumer_stats_response reached_end_of_topic seek
        get_last_message_id get_last_message_id_response active_consumer_change
        get_topics_of_namespace get_topics_of_namespace_response get_schema get_schema_response :
      CommandType

-- `t as i32`: the numbers of PulsarApi.proto.
unfoldable pub type_number : CommandType → ℕ
type_number connect = 2
type_number connected = 3
type_number subscribe = 4
type_number producer = 5
type_number send = 6
type_number send_receipt = 7
type_number send_error = 8
type_number message = 9
type_number ack = 10
type_number flow = 11
type_number unsubscribe = 12
type_number success = 13
type_number error = 14
type_number close_producer = 15
type_number close_consumer = 16
type_number producer_success = 17
type_number ping = 18
type_number pong = 19
type_number redeliver_unacknowledged_messages = 20
type_number partitioned_metadata = 21
type_number partitioned_metadata_response = 22
type_number lookup = 23
type_number lookup_response = 24
type_number consumer_stats = 25
type_number consumer_stats_response = 26
type_number reached_end_of_topic = 27
type_number seek = 28
type_number get_last_message_id = 29
type_number get_last_message_id_response = 30
type_number active_consumer_change = 31
type_number get_topics_of_namespace = 32
type_number get_topics_of_namespace_response = 33
type_number get_schema = 34
type_number get_schema_response = 35

-- The arms of the match in `try_from`, in order.
abbrev pub type_table : List (ℕ × CommandType)
type_table =
    (2, connect)
    ∷ (3, connected)
    ∷ (4, subscribe)
    ∷ (5, producer)
    ∷ (6, send)
    ∷ (7, send_receipt)
    ∷ (8, send_error)
    ∷ (9, message)
    ∷ (10, ack)
    ∷ (11, flow)
    ∷ (12, unsubscribe)
    ∷ (13, success)
    ∷ (14, error)
    ∷ (15, close_producer)
    ∷ (16, close_consumer)
    ∷ (17, producer_success)
    ∷ (18, ping)
    ∷ (19, pong)
    ∷ (20, redeliver_unacknowledged_messages)
    ∷ (21, partitioned_metadata)
    ∷ (22, partitioned_metadata_response)
    ∷ (23, lookup)
    ∷ (24, lookup_response)
    ∷ (25, consumer_stats)
    ∷ (26, consumer_stats_response)
    ∷ (27, reached_end_of_topic)
    ∷ (28, seek)
    ∷ (29, get_last_message_id)
    ∷ (30, get_last_message_id_response)
    ∷ (31, active_consumer_change)
    ∷ (32, get_topics_of_namespace)
    ∷ (33, get_topics_of_namespace_response)
    ∷ (34, get_schema)
    ∷ (35, get_schema_response)
    ∷ []

-- `TryFrom<i32> for base_command::Type`; `none` is `Err(())`.
unfoldable pub try_from : ℕ → Option CommandType
unfolding Assoc.lookup
try_from value = Assoc.lookup value type_table
