-- ===== src/Producer/Batch.antt =====
-- `Batch` of src/producer.rs. A oneshot channel is its number; the mutexes are left out, since every
-- operation holds the lock for its whole run.
pub mod Parsed
use pulsar_rs.Shared.{ℕ, ◌%◌, ◌^◌, Bool, List, [], ◌∷◌, ◌++◌, length, leb}
use pulsar_rs.Proto.{default_single_metadata}
use pulsar_rs.Options.{ProducerMessage, key_values}
use pulsar_rs.Message.Batch.{BatchedMessage}

pub record Batch : Type 0 where
  pub length : ℕ
  pub storage : List (ℕ × BatchedMessage)

unfoldable pub new : ℕ → Batch
new length = record { length = length; storage = [] }

unfoldable pub is_full : Batch → Bool
is_full b = leb b.length (length b.storage)

-- The message as an entry of a batch; the payload's length is cut to an i32.
unfoldable pub batched : ProducerMessage → BatchedMessage
batched message = record {
  metadata = record default_single_metadata {
    properties = key_values message.properties;
    partition_key = message.partition_key;
    ordering_key = message.ordering_key;
    payload_size = length message.payload % 2 ^ 32;
    event_time = message.event_time;
  };
  payload = message.payload;
}

unfoldable pub push_back : Batch → ℕ → ProducerMessage → Batch
unfolding batched
push_back b tx message = record b { storage = b.storage ++ (tx, batched message) ∷ [] }

-- All that is stored, and the batch without it.
unfoldable pub get_messages : Batch → List (ℕ × BatchedMessage) × Batch
get_messages b = (b.storage, record b { storage = [] })
