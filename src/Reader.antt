-- ===== src/Reader.antt =====
-- src/reader.rs: `Reader`, which acks each message before it returns it.
pub mod Reads
use pulsar_rs.Shared.{ℕ, Bool, true, false, Option, none, some, List, [], ◌∷◌, ◌++◌}
use pulsar_rs.Errors.{ConsumerError, Error, consumer_error, Result, ok, err}
use pulsar_rs.Consumer.Engine.{EngineMessage, ack}
use pulsar_rs.Consumer.Topic.{Poll, pending, ready, Message, TopicConsumer, on_answer}
use pulsar_rs.Consumer.Topic

pub data State : Type 0 where
  polling_consumer : State
  polling_ack : Message → State

-- `ack_polls` are the answers of the futures that send the acks to the polls that come; after them a
-- future is pending.
pub record Reader : Type 0 where
  pub consumer : TopicConsumer
  pub state : Option State
  pub ack_polls : List (Poll (Result (Unit {0}) ConsumerError))

-- `ConsumerBuilder::into_reader`.
unfoldable pub new : TopicConsumer → List (Poll (Result (Unit {0}) ConsumerError)) → Reader
new consumer ack_polls = record {
  consumer = consumer;
  state = some polling_consumer;
  ack_polls = ack_polls;
}

-- How a poll ends; `unwrap` of a missing state panics.
pub data Outcome : Type 0 where
  panics : Outcome
  polled : Poll (Option (Result Message Error)) → Outcome

abbrev pub first_ack :
    List (Poll (Result (Unit {0}) ConsumerError))
    → Poll (Result (Unit {0}) ConsumerError) × List (Poll (Result (Unit {0}) ConsumerError))
first_ack [] = (pending, [])
first_ack (a ∷ ack_polls) = (a, ack_polls)

-- A sent ack is a request to the engine.
unfoldable pub sent : Message → Reader → Reader
sent msg r = record r {
  consumer = record r.consumer { requests = r.consumer.requests ++ ack msg.message_id false ∷ [] };
}

unfoldable pub on_ack : Message → Reader → Poll (Result (Unit {0}) ConsumerError) → Outcome × Reader
unfolding sent
on_ack msg r pending = (polled pending, record r { state = some (polling_ack msg) })
on_ack msg r (ready (ok u)) =
    (polled (ready (some (ok msg))), sent msg (record r { state = some polling_consumer }))
on_ack msg r (ready (err e)) =
    (polled (ready (some (err (consumer_error e)))), record r { state = some polling_consumer })

unfoldable pub poll_ack : Message → Reader → Outcome × Reader
unfolding on_ack
poll_ack msg r =
    let (answer, ack_polls) = first_ack r.ack_polls in
    on_ack msg (record r { ack_polls = ack_polls }) answer

-- A message of the consumer is acked at once.
unfoldable pub on_item : Reader → Poll (Option (Result Message Error)) → Outcome × Reader
unfolding poll_ack
on_item r pending = (polled pending, record r { state = some polling_consumer })
on_item r (ready none) = (polled (ready none), record r { state = some polling_consumer })
on_item r (ready (some (ok msg))) = poll_ack msg (record r { state = some (polling_ack msg) })
on_item r (ready (some (err e))) =
    (polled (ready (some (err e))), record r { state = some polling_consumer })

unfoldable pub poll_consumer : ℕ → Reader → Outcome × Reader
unfolding on_item Topic.poll_next
poll_consumer now r =
    let (item, consumer) = Topic.poll_next now r.consumer in
    on_item (record r { consumer = consumer }) item

-- The state is taken out, and every arm puts one back.
unfoldable pub on_state : ℕ → Option State → Reader → Outcome × Reader
unfolding poll_consumer poll_ack
on_state now none r = (panics, r)
on_state now (some polling_consumer) r = poll_consumer now r
on_state now (some (polling_ack msg)) r = poll_ack msg r

unfoldable pub poll_next : ℕ → Reader → Outcome × Reader
unfolding on_state
poll_next now r = on_state now r.state (record r { state = none })
