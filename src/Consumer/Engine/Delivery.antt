-- ===== src/Consumer/Engine/Delivery.antt =====
-- From a producer's batch to the channel of a consumer.
use pulsar_rs.Shared.{
  ℕ, ◌+◌, ◌%◌, ◌^◌, ◌≡◌, refl, ap, sym, subst, ◌∙◌, Bool, true, false, Option, none, some, Returns,
  List, [], ◌∷◌, length, map, length-map, All, arith,
}
use pulsar_rs.Proto.{
  Bytes, Str, MessageIdData, MessageMetadata, SingleMessageMetadata, CommandMessage,
}
use pulsar_rs.Options.{ProducerMessage, CompressionType, uncompressed, lz4, zlib, zstd, snappy}
use pulsar_rs.Errors.{Error, IoErrorKind, Result, ok, err}
use pulsar_rs.Message.Key.{Payload}
use pulsar_rs.Message.Wire.{Wire, Prost}
use pulsar_rs.Message.Batch.{Nom, serialize_all}
use pulsar_rs.Connection.Messages.{send}
use pulsar_rs.Producer.Batch.{batched}
use pulsar_rs.Producer.Batch.Parsed.{IsSendable}
use pulsar_rs.Producer.Topic.{Network, compression_number, compressed, with_compressed}
use pulsar_rs.Producer.Send.{batch_message}
use pulsar_rs.Consumer.Batches.EndToEnd.{received, new-batch, collect-received}
use pulsar_rs.Consumer.Engine.{
  Call, to_consumer, Outside, ConsumerEngine, send_to_consumer, on_sent,
}
use pulsar_rs.Consumer.Engine.Process.{
  decompressed, with_bytes, deliver_all, process_batch, process_decompressed, process_payload,
  then_deliver, decompress_with, on_decompressed, by_count,
}

-- The items, each taken by the consumer's channel, in front of the log.
abbrev pub delivered : List (MessageIdData × Payload) → List Call → List Call
delivered [] log = log
delivered (item ∷ items) log = delivered items (to_consumer (ok item) true ∷ log)

-- What was compressed is decompressed, given the size that it had.
abbrev pub IsInverse :
    (CompressionType → Bytes → Result Bytes IoErrorKind)
    → (CompressionType → Bytes → Option ℕ → Result Bytes IoErrorKind)
    → Type 0
IsInverse compress decompress =
    (c : CompressionType) (data_ packed : Bytes)
    → compress c data_ ≡ ok packed
    → decompress c packed (some (length data_ % 2 ^ 32)) ≡ ok data_

-- The consumer's channel takes every item.
abbrev pub TakesAll : {W : Type 0} → Outside W → Type 0
TakesAll {W} out =
    (world : W) (item : MessageIdData × Payload) → (out.tx_send world (ok item)).0 ≡ true

module _ {W : Type 0} (out : Outside W) (takes : TakesAll out) where
  abbrev Delivers :
      List (MessageIdData × Payload)
      → ConsumerEngine W
      → Result (Unit {0}) Error × ConsumerEngine W
      → Type 0
  Delivers items s (r, s') = (r ≡ ok tt) × (s'.log ≡ delivered items s.log)

  on_sent-Delivers :
      (id : MessageIdData) (payload : Payload) (now : ℕ) (items : List (MessageIdData × Payload))
      (s : ConsumerEngine W) (p : Bool × W)
      → p.0 ≡ true
      → ((s : ConsumerEngine W) → Delivers items s (deliver_all out items s))
      → Delivers
          ((id, payload) ∷ items)
          s
          (then_deliver out (deliver_all out items) (on_sent out id payload now s p))
  on_sent-Delivers id payload now items s (true, world) h rest = rest _
  on_sent-Delivers id payload now items s (false, world) h rest = absurd (ground (arith, h))

  deliver_all-Delivers :
      (items : List (MessageIdData × Payload)) (s : ConsumerEngine W)
      → Delivers items s (deliver_all out items s)
  unfolding deliver_all send_to_consumer
  deliver_all-Delivers [] s = (refl, refl)
  deliver_all-Delivers ((id, payload) ∷ items) s =
      on_sent-Delivers id payload _ items s _ (takes s.world (id, payload))
        (deliver_all-Delivers items)

module _ {V : Type 0} (net : Network V)
    (compress : CompressionType → Bytes → Result Bytes IoErrorKind)
    (decompress : CompressionType → Bytes → Option ℕ → Result Bytes IoErrorKind)
    (inverse : IsInverse compress decompress) (bytes : Bytes) (count : ℕ) where
  -- The bytes and the count stay, whatever the compression, and the consumer restores the bytes.
  abbrev Restores : ProducerMessage → Type 0
  Restores m =
      (m.num_messages_in_batch ≡ some count)
      × ((md : MessageMetadata)
          → md.uncompressed_size ≡ m.uncompressed_size
          → decompressed decompress m.compression (record { metadata = md; content = m.payload })
            ≡ ok (record { metadata = md; content = bytes }))

  plain-Restores : (m : ProducerMessage) → batch_message bytes count ≡ m → Restores m
  unfolding batch_message decompressed
  plain-Restores m h = subst Restores h (refl, (λ md q. refl))

  restored :
      (algorithm : CompressionType) (packed : Bytes) (md : MessageMetadata)
      → compress algorithm bytes ≡ ok packed
      → md.uncompressed_size ≡ some (length bytes % 2 ^ 32)
      → decompress_with decompress algorithm (record { metadata = md; content = packed })
        ≡ ok (record { metadata = md; content = bytes })
  restored algorithm packed md h q =
      ap
        (λ o.
          with_bytes decompress (record { metadata = md; content = packed })
            (decompress algorithm packed o))
        q
      ∙ ap (with_bytes decompress (record { metadata = md; content = packed }))
          (inverse algorithm bytes packed h)

  with_compressed-Restores :
      (algorithm : CompressionType) (r : Result Bytes IoErrorKind) (m : ProducerMessage)
      → ((md : MessageMetadata) (packed : Bytes)
          → decompressed decompress
              (some (compression_number net compress algorithm))
              (record { metadata = md; content = packed })
            ≡ decompress_with decompress algorithm (record { metadata = md; content = packed }))
      → compress algorithm bytes ≡ r
      → with_compressed net compress algorithm (batch_message bytes count) r ≡ ok m
      → Restores m
  unfolding batch_message
  with_compressed-Restores algorithm (err e) m number h k = absurd cc
  with_compressed-Restores algorithm (ok packed) m number h k =
      let same : record (batch_message bytes count) {
        uncompressed_size = some (length bytes % 2 ^ 32);
        payload = packed;
        compression = some (compression_number net compress algorithm);
      }
          ≡ m =
        cc in
      subst Restores same (refl, (λ md q. number md packed ∙ restored algorithm packed md h q))

  compressed-Restores :
      (algorithm : Option CompressionType) (m : ProducerMessage)
      → compressed net compress algorithm (batch_message bytes count) ≡ ok m
      → Restores m
  unfolding compressed batch_message decompressed
  compressed-Restores none m h = plain-Restores m cc
  compressed-Restores (some uncompressed) m h = plain-Restores m cc
  compressed-Restores (some lz4) m h = with_compressed-Restores lz4 _ m (λ md packed. refl) refl h
  compressed-Restores (some zlib) m h = with_compressed-Restores zlib _ m (λ md packed. refl) refl h
  compressed-Restores (some zstd) m h = with_compressed-Restores zstd _ m (λ md packed. refl) refl h
  compressed-Restores (some snappy) m h =
      with_compressed-Restores snappy _ m (λ md packed. refl) refl h

module _ {V W : Type 0} (net : Network V) (out : Outside W)
    (compress : CompressionType → Bytes → Result Bytes IoErrorKind)
    (decompress : CompressionType → Bytes → Option ℕ → Result Bytes IoErrorKind) (w : Wire)
    (ps : Prost SingleMessageMetadata) (nom : Nom) where
  batch-Delivers :
      (takes : TakesAll out) (command : CommandMessage) (md : MessageMetadata)
      (ms : List ProducerMessage) (s : ConsumerEngine W)
      → All (IsSendable w ps nom) ms
      → Delivers out takes (received command.message_id md 0 ms) s (
          process_batch out decompress w ps nom
            (length ms)
            command.message_id
            (record { metadata = md; content = serialize_all w ps (map batched ms) [] })
            s)
  unfolding process_batch
  batch-Delivers takes command md ms s h =
      rw
        (
          new-batch w ps nom command.message_id md ms h,
          process_batch,
          length-map batched ms,
          collect-received command.message_id md ms 0 (length ms) (length ms + 1) (omega arith)
              (omega arith),
        )
        (deliver_all-Delivers out takes _ s)

  payload-Delivers :
      (takes : TakesAll out) (command : CommandMessage) (md : MessageMetadata) (content : Bytes)
      (ms : List ProducerMessage) (s : ConsumerEngine W)
      → All (IsSendable w ps nom) ms
      → md.num_messages_in_batch ≡ some (length ms)
      → decompressed decompress md.compression (record { metadata = md; content = content })
        ≡ ok (record { metadata = md; content = serialize_all w ps (map batched ms) [] })
      → Delivers out takes (received command.message_id md 0 ms) s (
          process_payload out decompress w ps nom command
            (record { metadata = md; content = content })
            s)
  unfolding process_payload process_decompressed
  payload-Delivers takes command md content ms s h n d =
      subst (Delivers out takes items s)
        (sym (
          ap (λ p. on_decompressed out decompress w ps nom command p s) d
          ∙ ap
              (λ o.
                by_count out decompress w ps nom o command
                  (record { metadata = md; content = serialize_all w ps (map batched ms) [] }) s)
              n))
        (batch-Delivers takes command md ms s h)
    where
      items : List (MessageIdData × Payload)
      items = received command.message_id md 0 ms

  -- When what was compressed can be decompressed, prost reads back the messages' metadata, their payloads
  -- are below 2^31 bytes and the consumer's channel takes every item: the messages that a producer
  -- serialized as a batch, compressed with any of its algorithms, and sent through its connection, are
  -- handed to the consumer all and in their order, with their indexes in the batch.
  pub process_payload-batch :
      (ms : List ProducerMessage) (algorithm : Option CompressionType) (m : ProducerMessage)
      (now producer_id sequence_id : ℕ) (producer_name : Str) (command : CommandMessage)
      (s : ConsumerEngine W)
      → IsInverse compress decompress
      → TakesAll out
      → All (IsSendable w ps nom) ms
      → compressed net compress algorithm
          (batch_message (serialize_all w ps (map batched ms) []) (length ms))
        ≡ ok m
      → Returns
          (λ payload.
            ((process_payload out decompress w ps nom command payload s).0 ≡ ok tt)
            × ((process_payload out decompress w ps nom command payload s).1.log
                ≡ delivered (received command.message_id payload.metadata 0 ms) s.log))
          (send now producer_id producer_name sequence_id m).payload
  unfolding send process_payload process_decompressed
  process_payload-batch ms algorithm m now producer_id sequence_id producer_name command s inverse
        takes h k =
      let restores =
        compressed-Restores net compress decompress inverse (serialize_all w ps (map batched ms) [])
          (length ms) algorithm m k in
      (_, refl, payload-Delivers takes command _ m.payload ms s h restores.0 (restores.1 _ refl))
