-- ===== src/Consumer/Engine/Process.antt =====
-- `process_message` and `process_payload` of `ConsumerEngine` in src/consumer.rs, with Cargo's default
-- features, which have all the compression algorithms.
use pulsar_rs.Shared.{
  ℕ, ◌+◌, Bool, true, false, Option, none, some, List, [], ◌∷◌, length, leb, if◌then◌else◌, ◌==◌,
  nat_eq,
}
use pulsar_rs.Proto.{
  Bytes, MessageIdData, SingleMessageMetadata, CommandMessage, CommandCloseConsumer,
  CommandReachedEndOfTopic, CommandActiveConsumerChange,
}
use pulsar_rs.Options.{CompressionType, lz4, zlib, zstd, snappy, DeadLetterPolicy}
use pulsar_rs.Errors.{
  ConnectionError, ConsumerError, Error, connection_error, consumer_error, custom, IoErrorKind,
  Result, ok, err,
}
use pulsar_rs.Errors
use pulsar_rs.Message.Key.{Message, Payload}
use pulsar_rs.Message.Wire.{Wire, Prost}
use pulsar_rs.Message.Batch.{Nom}
use pulsar_rs.Consumer.Batches.{BatchedMessageIterator, new, collect}
use pulsar_rs.Consumer.Engine.{
  dead_lettered, Outside, ConsumerEngine, send_to_consumer, acknowledge, reconnect,
}

-- `Err` when a step failed, and `value` when it succeeded.
abbrev pub succeed {ℓ κ} :
    {A : Type ℓ} {S : Type κ} → A → Result (Unit {0}) Error × S → Result A Error × S
succeed value (ok u, s) = (ok value, s)
succeed value (err e, s) = (err e, s)

-- The compression libraries, as one function of the algorithm, the bytes and the size before.
module _ (decompress : CompressionType → Bytes → Option ℕ → Result Bytes IoErrorKind) where
  abbrev pub with_bytes : Payload → Result Bytes IoErrorKind → Result Payload Error
  with_bytes payload (err e) = err (consumer_error (ConsumerError.io e))
  with_bytes payload (ok decompressed_payload) =
      ok (record payload { content = decompressed_payload })

  abbrev pub decompress_with : CompressionType → Payload → Result Payload Error
  decompress_with algorithm payload =
      with_bytes payload (decompress algorithm payload.content payload.metadata.uncompressed_size)

  unfoldable pub decompressed : Option ℕ → Payload → Result Payload Error
  decompressed none payload = ok payload
  decompressed (some i) payload =
      if i == 0
      then ok payload
      else if i == 1
      then decompress_with lz4 payload
      else if i == 2
      then decompress_with zlib payload
      else if i == 3
      then decompress_with zstd payload
      else if i == 4
      then decompress_with snappy payload
      else err (consumer_error (ConsumerError.io Errors.other))

module _ {W : Type 0} (out : Outside W) where
  -- The items of a batch, up to the first that the consumer's channel does not take.
  abbrev pub then_deliver :
      (ConsumerEngine W → Result (Unit {0}) Error × ConsumerEngine W)
      → Result (Unit {0}) Error × ConsumerEngine W
      → Result (Unit {0}) Error × ConsumerEngine W
  then_deliver rest (ok u, s) = rest s
  then_deliver rest (err e, s) = (err e, s)

  unfoldable pub deliver_all :
      List (MessageIdData × Payload) → ConsumerEngine W → Result (Unit {0}) Error × ConsumerEngine W
  unfolding send_to_consumer
  deliver_all [] s = (ok tt, s)
  deliver_all ((id, payload) ∷ items) s =
      then_deliver (deliver_all items) (send_to_consumer out id payload s)

  -- The message is acked when the dead letter topic has it.
  abbrev pub after_dead_letter :
      MessageIdData
      → Result (Result (Unit {0}) Error) Error
      → ConsumerEngine W
      → Result (Unit {0}) Error × ConsumerEngine W
  after_dead_letter id (err e) s = (err e, s)
  after_dead_letter id (ok (err e)) s = (err custom, s)
  after_dead_letter id (ok (ok u)) s =
      (ok tt, acknowledge out (record { id = id; batch_size = none }) false s)

  abbrev pub is_taken : Result (Result (Unit {0}) Error) Error → Bool
  is_taken (ok (ok u)) = true
  is_taken (ok (err e)) = false
  is_taken (err e) = false

  unfoldable pub send_to_dead_letter :
      DeadLetterPolicy
      → MessageIdData
      → Payload
      → ConsumerEngine W
      → Result (Unit {0}) Error × ConsumerEngine W
  unfolding acknowledge
  send_to_dead_letter policy id payload s =
      let (r, world) = out.send s.world policy.dead_letter_topic payload.content in
      after_dead_letter id r (record s {
        world = world;
        log = dead_lettered policy.dead_letter_topic payload.content (is_taken r) ∷ s.log;
      })

  -- A message that is not a batch, by its redelivery count and the policy.
  unfoldable pub process_single :
      Option ℕ
      → Option DeadLetterPolicy
      → MessageIdData
      → Payload
      → ConsumerEngine W
      → Result (Unit {0}) Error × ConsumerEngine W
  unfolding send_to_dead_letter send_to_consumer
  process_single (some redelivery_count) (some policy) id payload s =
      if leb policy.max_redeliver_count redelivery_count
      then send_to_dead_letter policy id payload s
      else send_to_consumer out id payload s
  process_single none policy id payload s = send_to_consumer out id payload s
  process_single (some redelivery_count) none id payload s = send_to_consumer out id payload s

module _ {W : Type 0} (out : Outside W)
    (decompress : CompressionType → Bytes → Option ℕ → Result Bytes IoErrorKind) (w : Wire)
    (ps : Prost SingleMessageMetadata) (nom : Nom) where
  -- One step more than the parsed messages ends the iterator.
  abbrev pub deliver_batch :
      Result BatchedMessageIterator ConnectionError
      → ConsumerEngine W
      → Result (Unit {0}) Error × ConsumerEngine W
  deliver_batch (err e) s = (err (connection_error e), s)
  deliver_batch (ok it) s = deliver_all out (collect (length it.messages + 1) it) s

  unfoldable pub process_batch :
      ℕ → MessageIdData → Payload → ConsumerEngine W → Result (Unit {0}) Error × ConsumerEngine W
  unfolding new deliver_all collect
  process_batch count id payload s = deliver_batch (new w ps nom count id payload) s

  abbrev pub by_count :
      Option ℕ
      → CommandMessage
      → Payload
      → ConsumerEngine W
      → Result (Unit {0}) Error × ConsumerEngine W
  by_count (some count) message payload s = process_batch count message.message_id payload s
  by_count none message payload s =
      process_single out message.redelivery_count s.dead_letter_policy message.message_id payload s

  unfoldable pub process_decompressed :
      CommandMessage → Payload → ConsumerEngine W → Result (Unit {0}) Error × ConsumerEngine W
  unfolding process_batch process_single
  process_decompressed message payload s =
      by_count payload.metadata.num_messages_in_batch message payload s

  abbrev pub on_decompressed :
      CommandMessage
      → Result Payload Error
      → ConsumerEngine W
      → Result (Unit {0}) Error × ConsumerEngine W
  on_decompressed message (err e) s = (err e, s)
  on_decompressed message (ok payload) s = process_decompressed message payload s

  unfoldable pub process_payload :
      CommandMessage → Payload → ConsumerEngine W → Result (Unit {0}) Error × ConsumerEngine W
  unfolding decompressed process_decompressed
  process_payload message payload s =
      on_decompressed message (decompressed decompress payload.metadata.compression payload) s

  -- The arms of the match, in order; `false` is the end of the topic.
  unfoldable pub by_command :
      Option CommandReachedEndOfTopic
      → Option CommandActiveConsumerChange
      → Option CommandMessage
      → Option Payload
      → Option CommandCloseConsumer
      → ConsumerEngine W
      → Result Bool Error × ConsumerEngine W
  unfolding process_payload reconnect
  by_command (some c) active message payload close s = (ok false, s)
  by_command none (some c) message payload close s = (ok true, s)
  by_command none none (some message) (some payload) close s =
      succeed true (process_payload message payload s)
  by_command none none (some message) none close s = (ok true, s)
  by_command none none none payload (some c) s = succeed true (reconnect out s)
  by_command none none none payload none s = (ok true, s)

  unfoldable pub process_message : Message → ConsumerEngine W → Result Bool Error × ConsumerEngine W
  unfolding by_command
  process_message message s =
      by_command message.command.reached_end_of_topic message.command.active_consumer_change
        message.command.message message.payload message.command.close_consumer s
