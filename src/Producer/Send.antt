-- ===== src/Producer/Send.antt =====
-- `send_raw` and `send_batch` of the producer of one topic in src/producer.rs.
pub mod Receipts
use pulsar_rs.Shared.{
  ℕ, ◌+◌, ◌%◌, ◌^◌, Bool, ◌&&◌, Option, none, some, List, [], ◌∷◌, ◌++◌, length, ltb, nat_beq, map,
  if◌then◌else◌, map_option,
}
use pulsar_rs.Proto.{Bytes, SingleMessageMetadata, CommandSendReceipt}
use pulsar_rs.Errors.{
  Error, ProducerError, producer_error, batch, IoErrorKind, Result, ok, err, map_err,
}
use pulsar_rs.Options.{ProducerMessage, default_producer_message, CompressionType}
use pulsar_rs.Message.Wire.{Wire, Prost}
use pulsar_rs.Message.Batch.{BatchedMessage, serialize_all}
use pulsar_rs.Producer.Batch.{Batch, push_back, is_full, get_messages}
use pulsar_rs.Producer.Topic.{Network, Channels, TopicProducer, send_compress}

-- The channels and the entries of stored messages.
abbrev pub channels_of : List (ℕ × BatchedMessage) → List ℕ
channels_of = map (λ m. m.0)

abbrev pub entries_of : List (ℕ × BatchedMessage) → List BatchedMessage
entries_of = map (λ m. m.1)

-- The message of a batch of `count` serialized entries.
unfoldable pub batch_message : Bytes → ℕ → ProducerMessage
batch_message payload count = record default_producer_message {
  payload = payload;
  num_messages_in_batch = some count;
}

-- The same receipt, or the same error of the batch, on every channel.
unfoldable pub resolve :
    {W : Type 0} → Channels W → Result CommandSendReceipt Error → List ℕ → W → Channels W
resolve c receipt txs world = record c {
  resolved =
      c.resolved
      ++ map (λ tx. (tx, map_err (λ e. producer_error (ProducerError.batch e)) receipt)) txs;
  world = world;
}

module _ {W : Type 0} (net : Network W)
    (compress : CompressionType → Bytes → Result Bytes IoErrorKind) (w : Wire)
    (ps : Prost SingleMessageMetadata) (fuel : ℕ) (max_retries : Option ℕ) where
  -- A message or a batch to the broker.
  abbrev pub transfer :
      TopicProducer
      → ProducerMessage
      → W
      → Option (Result CommandSendReceipt Error × TopicProducer × W)
  transfer p message world = send_compress net compress fuel max_retries p message world

  -- What is drained from the batch is sent as one message, and its channels get the receipt.
  unfoldable pub send_drained :
      TopicProducer → Batch → ℕ → Channels W → Option (TopicProducer × Channels W)
  unfolding resolve batch_message get_messages
  send_drained p b count c =
      let (messages, b) = get_messages b in
      let message = batch_message (serialize_all w ps (entries_of messages) []) count in
      map_option (λ r. (r.1, resolve c r.0 (channels_of messages) r.2))
        (transfer (record p { batch = some b }) message c.world)

  -- `counter > 0` on an i32.
  abbrev pub is_positive : ℕ → Bool
  is_positive counter = ltb 0 counter && ltb counter (2 ^ 31)

  -- Without a batch, the receipt is sent on the channel at once, or the error is returned.
  unfoldable pub answer_single :
      Channels W
      → Result CommandSendReceipt Error × TopicProducer × W
      → Result ℕ Error × TopicProducer × Channels W
  answer_single c (ok receipt, p, world) = (
    ok c.next_channel,
    p,
    record c {
      resolved = c.resolved ++ (c.next_channel, ok receipt) ∷ [];
      next_channel = c.next_channel + 1;
      world = world;
    },
  )
  answer_single c (err e, p, world) =
      (err e, p, record c { next_channel = c.next_channel + 1; world = world })

  -- With a batch, the message is stored, and a full batch is drained and sent.
  unfoldable pub send_batched :
      TopicProducer
      → Batch
      → ProducerMessage
      → Channels W
      → Option (Result ℕ Error × TopicProducer × Channels W)
  unfolding push_back is_full send_drained get_messages
  send_batched p b message c =
      let tx = c.next_channel in
      let c : Channels W = record c { next_channel = tx + 1 } in
      let b = push_back b tx message in
      let counter = length b.storage % 2 ^ 32 in
      if is_full b
      then (if is_positive counter
          then map_option (λ r. (ok tx, r.0, r.1)) (send_drained p b counter c)
          else some (ok tx, record p { batch = some (get_messages b).1 }, c))
      else some (ok tx, record p { batch = some b }, c)

  unfoldable pub send_raw :
      TopicProducer
      → ProducerMessage
      → Channels W
      → Option (Result ℕ Error × TopicProducer × Channels W)
  unfolding answer_single send_batched
  send_raw p message c = elim p.batch [
    | none ↦ map_option (answer_single c) (transfer p message c.world)
    | some b ↦ send_batched p b message c
  ]

  unfoldable pub send_batch :
      TopicProducer → Channels W → Option (Result (Unit {0}) Error × TopicProducer × Channels W)
  unfolding send_drained
  send_batch p c = elim p.batch [
    | none ↦ some (err (producer_error ProducerError.custom_error), p, c)
    | some b ↦
        if nat_beq (length b.storage) 0
        then some (ok tt, p, c)
        else map_option (λ r. (ok tt, r.0, r.1)) (send_drained p b (length b.storage % 2 ^ 32) c)
  ]
