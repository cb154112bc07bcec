-- ===== src/Consumer/Batches.antt =====
-- `BatchedMessageIterator` of src/consumer.rs.
pub mod EndToEnd
use pulsar_rs.Shared.{
  ℕ, zero, suc, ◌+◌, ◌-◌, Option, none, some, List, [], ◌∷◌, nat_beq, if◌then◌else◌,
}
use pulsar_rs.Proto.{MessageIdData, MessageMetadata, SingleMessageMetadata}
use pulsar_rs.Errors.{ConnectionError, Result, ok, ◌>>=◌}
use pulsar_rs.Message.Key.{Payload}
use pulsar_rs.Message.Wire.{Wire, Prost}
use pulsar_rs.Message.Batch.{Nom, BatchedMessage, parse_batched_message}

pub record BatchedMessageIterator : Type 0 where
  pub messages : List BatchedMessage
  pub message_id : MessageIdData
  pub metadata : MessageMetadata
  pub total_messages : ℕ
  pub current_index : ℕ

-- `total_messages` is the number of messages in the payload's metadata, which is there.
unfoldable pub new :
    Wire
    → Prost SingleMessageMetadata
    → Nom
    → ℕ
    → MessageIdData
    → Payload
    → Result BatchedMessageIterator ConnectionError
new w ps nom total_messages message_id payload = do
  messages ← parse_batched_message w ps nom total_messages payload.content
  ok (record {
    messages = messages;
    message_id = message_id;
    metadata = payload.metadata;
    total_messages = total_messages;
    current_index = 0;
  })

-- The item of one message of the batch.
unfoldable pub item : BatchedMessageIterator → BatchedMessage → MessageIdData × Payload
item it batched_message = (
  record it.message_id { batch_index = some it.current_index },
  record {
    metadata = record it.metadata {
      properties = batched_message.metadata.properties;
      partition_key = batched_message.metadata.partition_key;
      event_time = batched_message.metadata.event_time;
    };
    content = batched_message.payload;
  },
)

-- The index never passes the total, so that the difference is what it is on ℕ.
unfoldable pub next :
    BatchedMessageIterator → Option (MessageIdData × Payload) × BatchedMessageIterator
unfolding item
next it =
    if nat_beq (it.total_messages - it.current_index) 0 then (none, it) else elim it.messages [
      | [] ↦ (none, record it { current_index = it.current_index + 1 })
      | ◌∷◌ m ms ↦
          (some (item it m), record it { current_index = it.current_index + 1; messages = ms })
    ]

-- The items of a `for` loop over the iterator, which `fuel` bounds.
abbrev pub with_rest :
    (BatchedMessageIterator → List (MessageIdData × Payload))
    → Option (MessageIdData × Payload) × BatchedMessageIterator
    → List (MessageIdData × Payload)
with_rest rest (none, it) = []
with_rest rest (some x, it) = x ∷ rest it

unfoldable pub collect : ℕ → BatchedMessageIterator → List (MessageIdData × Payload)
unfolding next
collect zero it = []
collect (suc fuel) it = with_rest (collect fuel) (next it)
