-- ===== src/Consumer/Batches/EndToEnd.antt =====
-- What a batching producer sent is what a consumer takes out of the batch.
use pulsar_rs.Shared.{
  ℕ, zero, suc, ◌+◌, ◌-◌, ◌≡◌, ◌<◌, refl, ap, true, false, some, none, List, [], ◌∷◌, map, length,
  All, arith, nat_beq,
}
use pulsar_rs.Proto.{MessageIdData, MessageMetadata, SingleMessageMetadata}
use pulsar_rs.Options.{ProducerMessage, key_values}
use pulsar_rs.Errors.{ok}
use pulsar_rs.Message.Key.{Payload}
use pulsar_rs.Message.Wire.{Wire, Prost}
use pulsar_rs.Message.Batch.{Nom, BatchedMessage, serialize_all}
use pulsar_rs.Producer.Batch.{batched}
use pulsar_rs.Producer.Batch.Parsed.{IsSendable, parse_batched_message-batched}
use pulsar_rs.Consumer.Batches.{BatchedMessageIterator, new, item, next, collect}

module _ (id : MessageIdData) (md : MessageMetadata) where
  -- The messages as a consumer gets them, from index `i` on.
  unfoldable pub received : ℕ → List ProducerMessage → List (MessageIdData × Payload)
  received i [] = []
  received i (m ∷ ms) =
      (
        record id { batch_index = some i },
        record {
          metadata = record md {
            properties = key_values m.properties;
            partition_key = m.partition_key;
            event_time = m.event_time;
          };
          content = m.payload;
        },
      )
      ∷ received (i + 1) ms

  abbrev pub at : ℕ → ℕ → List BatchedMessage → BatchedMessageIterator
  at i total ms = record {
    messages = ms;
    message_id = id;
    metadata = md;
    total_messages = total;
    current_index = i;
  }

  next-item :
      (m : BatchedMessage) (ms : List BatchedMessage) (i total : ℕ)
      → i < total
      → next (at i total (m ∷ ms)) ≡ (some (item (at i total (m ∷ ms)) m), at (i + 1) total ms)
  unfolding next
  next-item m ms i total h = let more : nat_beq (total - i) 0 ≡ false = ground arith in rw more refl

  next-end : (i : ℕ) → next (at i i []) ≡ (none, at i i [])
  unfolding next
  next-end i = let done : nat_beq (i - i) 0 ≡ true = ground arith in rw done refl

  pub collect-received :
      (ms : List ProducerMessage) (i total fuel : ℕ)
      → i + length ms ≡ total
      → length ms < fuel
      → collect fuel (at i total (map batched ms)) ≡ received i ms
  unfolding collect item received batched
  collect-received ms i total zero h k = absurd (omega arith)
  collect-received [] i total (suc fuel) h k =
      let same : total ≡ i = omega arith in rw (same, collect, next-end i) refl
  collect-received (m ∷ ms) i total (suc fuel) h k =
      rw (next-item (batched m) (map batched ms) i total (omega arith), collect)
        (ap (◌∷◌ (item (at i total (map batched (m ∷ ms))) (batched m)))
          (collect-received ms (i + 1) total fuel (omega arith) (omega arith)))

module _ (w : Wire) (ps : Prost SingleMessageMetadata) (nom : Nom) where
  pub new-batch :
      (id : MessageIdData) (md : MessageMetadata) (ms : List ProducerMessage)
      → All (IsSendable w ps nom) ms
      → new w ps nom
          (length ms)
          id
          (record { metadata = md; content = serialize_all w ps (map batched ms) [] })
        ≡ ok (at id md 0 (length ms) (map batched ms))
  unfolding new
  new-batch id md ms h = rw (parse_batched_message-batched w ps nom ms h) refl

  -- When the payloads of messages are below 2^31 bytes and prost reads back their metadata, a consumer
  -- takes out of their serialized batch exactly these messages in their order: each with its payload,
  -- properties, partition key and event time, the rest of the batch's metadata, and the batch's id with
  -- the message's index. One step more than the number of messages ends its loop.
  pub collect-batch :
      (id : MessageIdData) (md : MessageMetadata) (ms : List ProducerMessage)
      → All (IsSendable w ps nom) ms
      → (it : BatchedMessageIterator) × (new w ps nom
            (length ms)
            id
            (record { metadata = md; content = serialize_all w ps (map batched ms) [] })
          ≡ ok it)
        × (collect (length ms + 1) it ≡ received id md 0 ms)
  collect-batch id md ms h = (
    at id md 0 (length ms) (map batched ms),
    new-batch id md ms h,
    collect-received id md ms 0 (length ms) (length ms + 1) (omega arith) (omega arith),
  )
