-- ===== src/Producer/Topic.antt =====
-- `TopicProducer` of src/producer.rs. What it does with its connection and its client goes through
-- the interface `Network`, over the state `W` of the world outside. Cargo's default features, which
-- have all the compression algorithms, are taken.
pub mod Drained
pub mod Returns
use pulsar_rs.Shared.{
  ℕ, zero, suc, ◌+◌, ◌%◌, ◌^◌, Bool, true, false, ◌&&◌, ◌||◌, Option, none, some, List, [], ◌∷◌,
  ◌++◌, length, ltb, nat_beq, map, if◌then◌else◌, and_then, map_option,
}
use pulsar_rs.Proto.{Bytes, Str, SingleMessageMetadata, CommandSendReceipt, CommandProducerSuccess}
use pulsar_rs.Errors.{
  ConnectionError, Error, ProducerError, connection_error, producer_error, IoErrorKind, Result, ok,
  err, map_err,
}
use pulsar_rs.Errors
use pulsar_rs.Errors.Server.{ServerError, service_not_ready}
use pulsar_rs.Options.{
  ProducerOptions, ProducerMessage, default_producer_message, CompressionType, uncompressed, lz4,
  zlib, zstd, snappy,
}
use pulsar_rs.Message.Wire.{Wire, Prost}
use pulsar_rs.Message.Batch.{BatchedMessage, serialize_all}
use pulsar_rs.Producer.Batch.{Batch}
use pulsar_rs.Producer.Batch

pub record Network (W : Type 0) : Type 0 where
  -- `ConnectionSender::send` with the producer's id and name and a sequence id.
  pub send : W → ℕ → Str → ℕ → ProducerMessage → Result CommandSendReceipt ConnectionError × W
  pub create_producer :
      W → Str → ℕ → Option Str → ProducerOptions → Result CommandProducerSuccess ConnectionError × W
  -- `lookup_topic` and `get_connection`, which give the producer another connection; `none` is a lookup
  -- that does not end.
  pub find_connection : W → Str → Option (Result (Unit {0}) Error × W)
  -- `delay`.
  pub delay : W → W

-- The oneshot channels: the number of the next one, and what was sent on them, in order.
pub record Channels (W : Type 0) : Type 0 where
  pub world : W
  pub next_channel : ℕ
  pub resolved : List (ℕ × Result CommandSendReceipt Error)

pub record TopicProducer : Type 0 where
  pub id : ℕ
  pub name : Str
  pub topic : Str
  pub message_id : ℕ
  pub batch : Option Batch
  pub compression : Option CompressionType
  pub options : ProducerOptions

module _ {W : Type 0} (net : Network W) where
  -- Whether the loop that creates a producer tries again after ServiceNotReady.
  abbrev pub may_retry : Option ℕ → ℕ → Bool
  may_retry none current_retries = true
  may_retry (some max_retries) current_retries = ltb current_retries max_retries

  abbrev pub is_service_not_ready : ConnectionError → Bool
  is_service_not_ready (ConnectionError.pulsar_error (some service_not_ready) text) = true
  is_service_not_ready e = false

  -- What follows a lookup.
  abbrev pub on_found :
      (W → Option (Result (Unit {0}) Error × W))
      → Option (Result (Unit {0}) Error × W)
      → Option (Result (Unit {0}) Error × W)
  on_found next none = none
  on_found next (some (ok u, world)) = next world
  on_found next (some (err e, world)) = some (err e, world)

  -- The loop of `reconnect`: `none` is a loop that has not ended after `fuel` requests, or whose
  -- lookup does not end.
  unfoldable pub create_loop :
      ℕ → Option ℕ → TopicProducer → ℕ → W → Option (Result (Unit {0}) Error × W)
  create_loop zero max_retries p current_retries world = none
  create_loop (suc fuel) max_retries p current_retries world =
      let rest : W → Option (Result (Unit {0}) Error × W) =
        λ world. create_loop fuel max_retries p ((current_retries + 1) % 2 ^ 32) world in
      let (created, world) = net.create_producer world p.topic p.id (some p.name) p.options in
      elim created [
        | ok success ↦ some (ok tt, world)
        | err e ↦
            if is_service_not_ready e && may_retry max_retries current_retries
            then on_found rest (net.find_connection (net.delay world) p.topic)
            else some (err (connection_error e), world)
      ]

  -- After the loop: a created producer starts with a new batch.
  unfoldable pub renew :
      TopicProducer → Result (Unit {0}) Error × W → Result (Unit {0}) Error × TopicProducer × W
  renew p (ok u, world) =
      (ok u, record p { batch = map_option Batch.new p.options.batch_size }, world)
  renew p (err e, world) = (err e, p, world)

  unfoldable pub reconnect :
      ℕ → Option ℕ → TopicProducer → W → Option (Result (Unit {0}) Error × TopicProducer × W)
  unfolding create_loop renew
  reconnect fuel max_retries p world =
      map_option (renew p)
        (on_found (create_loop fuel max_retries p 0) (net.find_connection world p.topic))

  -- One request with the next sequence id.
  unfoldable pub send_once :
      TopicProducer
      → ProducerMessage
      → W
      → Result CommandSendReceipt ConnectionError × TopicProducer × W
  send_once p message world =
      let (r, world) = net.send world p.id p.name p.message_id message in
      (r, record p { message_id = (p.message_id + 1) % 2 ^ 64 }, world)

  -- The errors after which `send_inner` reconnects.
  abbrev pub is_lost : ConnectionError → Bool
  is_lost ConnectionError.disconnected = true
  is_lost (ConnectionError.io Errors.timed_out) = true
  is_lost e = false

  abbrev pub as_producer_error :
      Result CommandSendReceipt ConnectionError → Result CommandSendReceipt Error
  as_producer_error = map_err (λ e. producer_error (ProducerError.connection e))

  -- The second request of `send_inner`, after `reconnect`.
  unfoldable pub send_again :
      ProducerMessage
      → Result (Unit {0}) Error × TopicProducer × W
      → Result CommandSendReceipt Error × TopicProducer × W
  unfolding send_once
  send_again message (err e, p, world) = (err e, p, world)
  send_again message (ok u, p, world) =
      let (r, p, world) = send_once p message world in (as_producer_error r, p, world)

  unfoldable pub send_inner :
      ℕ
      → Option ℕ
      → TopicProducer
      → ProducerMessage
      → W
      → Option (Result CommandSendReceipt Error × TopicProducer × W)
  unfolding send_once reconnect send_again
  send_inner fuel max_retries p message world =
      let (r, p, world) = send_once p message world in
      elim r [
        | ok receipt ↦ some (ok receipt, p, world)
        | err e ↦
            if is_lost e
            then map_option (send_again message) (reconnect fuel max_retries p world)
            else some (err (producer_error (ProducerError.connection e)), p, world)
      ]

  -- The compression libraries, as one function of the algorithm.
  module _ (compress : CompressionType → Bytes → Result Bytes IoErrorKind) where
    -- The number of an algorithm in the metadata.
    abbrev pub compression_number : CompressionType → ℕ
    compression_number uncompressed = 0
    compression_number lz4 = 1
    compression_number zlib = 2
    compression_number zstd = 3
    compression_number snappy = 4

    abbrev pub with_compressed :
        CompressionType → ProducerMessage → Result Bytes IoErrorKind → Result ProducerMessage Error
    with_compressed algorithm message (err e) = err (producer_error (ProducerError.io e))
    with_compressed algorithm message (ok compressed_payload) = ok (record message {
      uncompressed_size = some (length message.payload % 2 ^ 32);
      payload = compressed_payload;
      compression = some (compression_number algorithm);
    })

    abbrev pub compress_with : CompressionType → ProducerMessage → Result ProducerMessage Error
    compress_with algorithm message =
        with_compressed algorithm message (compress algorithm message.payload)

    unfoldable pub compressed :
        Option CompressionType → ProducerMessage → Result ProducerMessage Error
    compressed none message = ok message
    compressed (some uncompressed) message = ok message
    compressed (some lz4) message = compress_with lz4 message
    compressed (some zlib) message = compress_with zlib message
    compressed (some zstd) message = compress_with zstd message
    compressed (some snappy) message = compress_with snappy message

    unfoldable pub send_compress :
        ℕ
        → Option ℕ
        → TopicProducer
        → ProducerMessage
        → W
        → Option (Result CommandSendReceipt Error × TopicProducer × W)
    unfolding compressed send_inner
    send_compress fuel max_retries p message world = elim (compressed p.compression message) [
      | err e ↦ some (err e, p, world)
      | ok message ↦ send_inner fuel max_retries p message world
    ]
