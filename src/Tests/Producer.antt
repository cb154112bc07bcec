-- ===== src/Tests/Producer.antt =====
-- A producer that batches two messages, over a connection that is lost once.
use pulsar_rs.Shared.{
  ℕ, zero, suc, ◌+◌, ◌≡◌, refl, ◌∙◌, arith, none, some, List, [], ◌∷◌, Returns, Returns-is_some,
  map_option, is_some-map_option,
}
use pulsar_rs.Proto.{Bytes, CommandSendReceipt}
use pulsar_rs.Errors.{ConnectionError, IoErrorKind, Result, ok, err}
use pulsar_rs.Options.{ProducerMessage, default_producer_message, CompressionType, snappy}
use pulsar_rs.Producer.Batch.{Batch, batched}
use pulsar_rs.Producer.Topic.{Network, Channels, TopicProducer}
use pulsar_rs.Producer.Topic.Returns.{LookupsEnd}
use pulsar_rs.Discovery.Topic.{lookup_topic}
use pulsar_rs.Discovery.Topic.Ends.{EndsTold, lookup_topic-Told}
use pulsar_rs.Tests.Lookup.{brokers, few}
use pulsar_rs.Producer.Send.{send_raw, send_batch}
use pulsar_rs.Producer.Send.Receipts.{
  HandsOut, Flushed, IsOpen, send_raw-receipts, send_batch-flushes,
}
use pulsar_rs.Producer.Partitions.{build, partitioned}
use pulsar_rs.Producer.Partitions.RoundRobin.{turns, turns-build}
use pulsar_rs.Tests.Crates.{wire, single_metadata}

-- The world counts the requests; the first one finds the connection lost.
abbrev receipt_of : ℕ → ℕ → ℕ → Result CommandSendReceipt ConnectionError × ℕ
receipt_of zero id sequence_id = (err ConnectionError.disconnected, 1)
receipt_of (suc n) id sequence_id =
    (ok (record { producer_id = id; sequence_id = sequence_id; message_id = none }), suc (suc n))

abbrev network : Network ℕ
network = record {
  send = λ world id name sequence_id message. receipt_of world id sequence_id;
  create_producer = λ world topic id name options.
      (ok (record { request_id = world; producer_name = []; producer_ready = none }), world + 1);
  find_connection =
      λ world topic. map_option (λ r. (ok tt, world + 1)) (lookup_topic brokers (some 2) topic 7 4);
  delay = λ world. world;
}

-- The lookup ends.
network_ends : LookupsEnd network
network_ends world topic =
    is_some-map_option (λ r. (ok tt, world + 1)) (lookup_topic brokers (some 2) topic 7 4)
    ∙ Returns-is_some (EndsTold brokers (λ world. world) few 2 (omega arith) topic)
        (lookup_topic-Told brokers (λ world. world) few 2 (omega arith) topic 4)

abbrev keep : CompressionType → Bytes → Result Bytes IoErrorKind
keep algorithm payload = ok payload

abbrev given : ProducerMessage
given = record default_producer_message { payload = 1 ∷ 2 ∷ [] }

-- One message waits on channel 0.
abbrev two_at_once : Batch
two_at_once = record { length = 2; storage = (0, batched given) ∷ [] }

abbrev producer : TopicProducer
producer = record {
  id = 3;
  name = [];
  topic = 116 ∷ [];
  message_id = 0;
  batch = some two_at_once;
  compression = some snappy;
  options = record {
    encrypted = none;
    metadata = [];
    schema = none;
    batch_size = some 2;
    compression = some snappy;
    access_mode = none;
  };
}

abbrev channels : Channels ℕ
channels = record { world = 0; next_channel = 1; resolved = [] }

producer-IsOpen : IsOpen producer
producer-IsOpen = (omega arith, (omega arith, omega arith))

send_raw-receipts_example :
    Returns
      (HandsOut network keep wire single_metadata 4 (some 3) producer channels)
      (send_raw network keep wire single_metadata 4 (some 3) producer given channels)
send_raw-receipts_example =
    send_raw-receipts network keep wire single_metadata network_ends 3 (omega arith) 4 (omega arith)
      producer given channels producer-IsOpen

send_batch-flushes_example :
    Returns
      (Flushed network keep wire single_metadata 4 (some 3) producer channels)
      (send_batch network keep wire single_metadata 4 (some 3) producer channels)
send_batch-flushes_example =
    send_batch-flushes network keep wire single_metadata network_ends 3 (omega arith) 4
      (omega arith) producer two_at_once channels refl producer-IsOpen

turns-build_example :
    (queue : List ℕ) × (build (0 ∷ 1 ∷ 2 ∷ []) ≡ ok (partitioned queue))
    × (turns 3 queue ≡ (some 0 ∷ some 1 ∷ some 2 ∷ [], queue))
turns-build_example = turns-build 0 1 (2 ∷ [])
