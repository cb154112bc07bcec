-- ===== src/Tests/Engine.antt =====
-- An engine over a world that counts the calls, which all succeed.
use pulsar_rs.Shared.{
  ℕ, ◌+◌, ◌%◌, ◌^◌, ◌≡◌, ◌≤◌, ◌<◌, ◌⊎◌, refl, ap, sym, arith, true, false, Option, none, some, List,
  [], ◌∷◌, length, map, Returns,
}
use pulsar_rs.Shared.Assoc
use pulsar_rs.Proto.{Bytes, MessageIdData, default_metadata, CommandMessage, command_of_type}
use pulsar_rs.Errors.{ConnectionError, IoErrorKind, Result, ok, err}
use pulsar_rs.Options.{
  ProducerMessage, default_producer_message, CompressionType, snappy, shared, ConsumerOptions,
  earliest, DeadLetterPolicy, key_values,
}
use pulsar_rs.Message.Key.{Payload}
use pulsar_rs.Message.Batch.{serialize_all}
use pulsar_rs.Connection.Messages.{send}
use pulsar_rs.Producer.Batch.{batched}
use pulsar_rs.Producer.Topic.{Network, compressed}
use pulsar_rs.Producer.Send.{batch_message}
use pulsar_rs.Consumer.Batches.EndToEnd.{received}
use pulsar_rs.Consumer.Engine.{
  id_beq, Call, acked, dead_lettered, to_consumer, redelivered, Outside, ConsumerEngine, new, ack,
  unacked_redelivery,
}
use pulsar_rs.Consumer.Engine.Process.{process_payload, decompressed}
use pulsar_rs.Consumer.Engine.Rounds.{Event, delay, message, request, engine}
use pulsar_rs.Consumer.Engine.Ledger.{Steps, ledger}
use pulsar_rs.Consumer.Engine.Refines.Loop.{engine-Steps}
use pulsar_rs.Consumer.Engine.Redelivery.{IsTracked, IsJustified, engine-Justified}
use pulsar_rs.Consumer.Engine.DeadLetter.{IsDeadLettered, IsDelivered, process_payload-dead_letter}
use pulsar_rs.Consumer.Engine.Delivery.{IsInverse, delivered, process_payload-batch}
use pulsar_rs.Tests.Crates.{wire, single_metadata, nom}

abbrev outside : Outside ℕ
outside = record {
  is_valid = λ world. true;
  take_error = λ world. (false, world);
  find_connection = λ world topic. (ok tt, world + 1);
  subscribe = λ world topic subscription sub_type id name options. (ok tt, world + 1);
  send_flow = λ world id permits. (ok tt, world + 1);
  send_ack = λ world id ids cumulative. (ok tt, world + 1);
  send_redeliver_unacknowleged_messages = λ world id ids. (ok tt, world + 1);
  tx_send = λ world item. (true, world + 1);
  send = λ world topic content. (ok (ok tt), world + 1);
  now = λ world. world;
}

abbrev unpack : CompressionType → Bytes → Option ℕ → Result Bytes IoErrorKind
unpack algorithm [] size = err pulsar_rs.Errors.other
unpack algorithm (b ∷ bytes) size = ok bytes

abbrev pack : CompressionType → Bytes → Result Bytes IoErrorKind
pack algorithm bytes = ok (7 ∷ bytes)

unpack-pack : IsInverse pack unpack
unpack-pack algorithm bytes packed h =
    ap (λ r. elim r [ ok b ↦ unpack algorithm b (some (length bytes % 2 ^ 32)) | err e ↦ err e ])
      (sym h)

abbrev pub options : ConsumerOptions
options = record {
  priority_level = none;
  durable = none;
  start_message_id = none;
  metadata = [];
  read_compacted = none;
  schema = none;
  initial_position = earliest;
}

abbrev policy : DeadLetterPolicy
policy = record { max_redeliver_count = 3; dead_letter_topic = 68 ∷ [] }

abbrev start : ConsumerEngine ℕ
start = new (84 ∷ []) (83 ∷ []) shared 1 none 10 (some 0) (some policy) options 0

abbrev pub entry : ℕ → MessageIdData
entry n = record {
  ledger_id = 1;
  entry_id = n;
  partition = none;
  batch_index = none;
  ack_set = [];
  batch_size = none;
}

abbrev command : ℕ → ℕ → CommandMessage
command n count = record { consumer_id = 1; message_id = entry n; redelivery_count = some count }

abbrev pub content_of : Bytes → Payload
content_of bytes = record { metadata = default_metadata; content = bytes }

abbrev arrival : ℕ → ℕ → Event
arrival n count = message (
    some (record {
      command = record (command_of_type 9) { message = some (command n count) };
      payload = some (content_of (n ∷ []));
    }))

-- Two messages arrive, one is acked, the overdue one is asked for and comes again.
abbrev events : List Event
events =
    arrival 5 0
    ∷ arrival 6 0
    ∷ delay
    ∷ request (some (ack (record { id = entry 5; batch_size = none }) false))
    ∷ request (some unacked_redelivery)
    ∷ arrival 6 1
    ∷ arrival 7 3
    ∷ []

engine-Steps_example :
    Steps (ledger start) (ledger (engine outside unpack wire single_metadata nom events start).1)
engine-Steps_example = engine-Steps outside unpack wire single_metadata nom events start

engine-Justified_example :
    IsTracked (ledger (engine outside unpack wire single_metadata nom events start).1)
    × IsJustified (engine outside unpack wire single_metadata nom events start).1.log
engine-Justified_example =
    engine-Justified outside unpack wire single_metadata nom (84 ∷ []) (83 ∷ []) shared 1 none 10
      (some 0) (some policy) options 0 events

process_payload-dead_letter_example :
    ((3 ≤ 3)
      × IsDeadLettered policy (entry 7) (content_of (7 ∷ [])) start (
          process_payload outside unpack wire single_metadata nom
            (command 7 3)
            (content_of (7 ∷ []))
            start))
    ⊎ ((3 < 3)
        × IsDelivered (entry 7) (content_of (7 ∷ [])) start (
            process_payload outside unpack wire single_metadata nom
              (command 7 3)
              (content_of (7 ∷ []))
              start))
unfolding new decompressed
process_payload-dead_letter_example =
    process_payload-dead_letter outside unpack wire single_metadata nom policy 3 (command 7 3)
      (content_of (7 ∷ [])) (content_of (7 ∷ [])) start refl refl refl refl

-- Two messages in one batch, compressed.
abbrev network : Network ℕ
network = record {
  send = λ world id name sequence_id message. (err ConnectionError.disconnected, world);
  create_producer = λ world topic id name options. (err ConnectionError.disconnected, world);
  find_connection = λ world topic. some (ok tt, world);
  delay = λ world. world;
}

abbrev sent : List ProducerMessage
sent =
    record default_producer_message { payload = 4 ∷ 5 ∷ [] }
    ∷ record default_producer_message { payload = 6 ∷ [] }
    ∷ []

abbrev packed : ProducerMessage
packed = record (batch_message (serialize_all wire single_metadata (map batched sent) []) 2) {
  uncompressed_size =
      some (length (serialize_all wire single_metadata (map batched sent) []) % 2 ^ 32);
  payload = 7 ∷ serialize_all wire single_metadata (map batched sent) [];
  compression = some 4;
}

process_payload-batch_example :
    Returns
      (λ payload.
        ((process_payload outside unpack wire single_metadata nom (command 8 0) payload start).0
          ≡ ok tt)
        × ((process_payload outside unpack wire single_metadata nom
              (command 8 0)
              payload
              start).1.log
            ≡ delivered (received (entry 8) payload.metadata 0 sent) start.log))
      (send 9 1 (80 ∷ []) 2 packed).payload
unfolding batched key_values compressed batch_message
process_payload-batch_example =
    process_payload-batch network outside pack unpack wire single_metadata nom sent (some snappy)
      packed 9 1 2 (80 ∷ []) (command 8 0) start unpack-pack (λ world item. refl)
      ((refl, omega arith, omega arith), ((refl, omega arith, omega arith), tt)) refl

abbrev log_of : List Event → List Call
unfolding engine new
log_of events = (engine outside unpack wire single_metadata nom events start).1.log

-- The overdue message 6 is asked for, the acked message 5 is not, and message 7 is dead.
engine_run :
    log_of events
    ≡ acked (entry 7) false true
      ∷ dead_lettered (68 ∷ []) (7 ∷ []) true
      ∷ to_consumer (ok (entry 6, content_of (6 ∷ []))) true
      ∷ redelivered (entry 6 ∷ []) true
      ∷ acked (entry 5) false true
      ∷ to_consumer (ok (entry 6, content_of (6 ∷ []))) true
      ∷ to_consumer (ok (entry 5, content_of (5 ∷ []))) true
      ∷ []
unfolding log_of Assoc.remove Assoc.insert id_beq
engine_run = refl
