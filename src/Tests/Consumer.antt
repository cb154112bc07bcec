-- ===== src/Tests/Consumer.antt =====
-- A batch of two messages from the producer to the consumer.
use pulsar_rs.Shared.{◌≡◌, refl, arith, none, List, [], ◌∷◌, map}
use pulsar_rs.Proto.{Bytes, MessageIdData, default_metadata}
use pulsar_rs.Options.{ProducerMessage, default_producer_message, key_values}
use pulsar_rs.Errors.{ok}
use pulsar_rs.Message.Batch.{serialize_all}
use pulsar_rs.Producer.Batch.{batched}
use pulsar_rs.Consumer.Batches.{BatchedMessageIterator, new, collect}
use pulsar_rs.Consumer.Batches.EndToEnd.{received, collect-batch}
use pulsar_rs.Tests.Crates.{wire, single_metadata, nom}

abbrev given : Bytes → ProducerMessage
given payload = record default_producer_message { payload = payload }

abbrev sent : List ProducerMessage
sent = given (4 ∷ 5 ∷ []) ∷ given (6 ∷ []) ∷ []

abbrev batch_id : MessageIdData
batch_id = record {
  ledger_id = 1;
  entry_id = 2;
  partition = none;
  batch_index = none;
  ack_set = [];
  batch_size = none;
}

collect-batch_example :
    (it : BatchedMessageIterator) × (new wire single_metadata nom 2 batch_id (record {
      metadata = default_metadata;
      content = serialize_all wire single_metadata (map batched sent) [];
    })
      ≡ ok it)
    × (collect 3 it ≡ received batch_id default_metadata 0 sent)
unfolding batched key_values
collect-batch_example =
    collect-batch wire single_metadata nom batch_id default_metadata sent
      ((refl, omega arith, omega arith), ((refl, omega arith, omega arith), tt))
