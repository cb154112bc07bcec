-- ===== src/Consumer/Topic.antt =====
-- `TopicConsumer` and `Message` of src/consumer.rs: a topic's stream of messages, and the requests to
-- its engine.
use pulsar_rs.Shared.{ℕ, ◌+◌, ◌%◌, ◌^◌, Bool, true, false, Option, none, some, List, [], ◌∷◌, ◌++◌}
use pulsar_rs.Proto.{Str, MessageIdData}
use pulsar_rs.Errors.{ConsumerError, Error, Result, ok, err}
use pulsar_rs.Message.Key.{Payload}
use pulsar_rs.Consumer.Engine.{MessageData, EngineMessage, ack, nack}

-- `Poll` of the standard library.
pub data Poll {ℓ} (A : Type ℓ) : Type ℓ where
  pending : Poll A
  ready : A → Poll A

pub record Message : Type 0 where
  pub topic : Str
  pub payload : Payload
  pub message_id : MessageData

-- What the channel from the engine holds for a poll.
abbrev pub Answer : Type 0
Answer = Poll (Option (Result (MessageIdData × Payload) Error))

-- `messages` are the answers of the channel to the polls that come; after them it is pending.
-- `requests` is what was sent on `engine_tx`, which is open or closed.
pub record TopicConsumer : Type 0 where
  pub consumer_id : ℕ
  pub topic : Str
  pub messages : List Answer
  pub engine_is_open : Bool
  pub requests : List EngineMessage
  pub last_message_received : Option ℕ
  pub messages_received : ℕ

-- The end of `TopicConsumer::new`.
unfoldable pub new : ℕ → Str → List Answer → TopicConsumer
new consumer_id topic messages = record {
  consumer_id = consumer_id;
  topic = topic;
  messages = messages;
  engine_is_open = true;
  requests = [];
  last_message_received = none;
  messages_received = 0;
}

unfoldable pub create_message : TopicConsumer → MessageIdData → Payload → Message
create_message c message_id payload = record {
  topic = c.topic;
  message_id = record { id = message_id; batch_size = payload.metadata.num_messages_in_batch };
  payload = payload;
}

-- The arms of `poll_next`; `now` is `Utc::now()`.
unfoldable pub on_answer :
    ℕ → TopicConsumer → Answer → Poll (Option (Result Message Error)) × TopicConsumer
unfolding create_message
on_answer now c pending = (pending, c)
on_answer now c (ready none) = (ready none, c)
on_answer now c (ready (some (err e))) = (ready (some (err e)), c)
on_answer now c (ready (some (ok (id, payload)))) = (
  ready (some (ok (create_message c id payload))),
  record c {
    last_message_received = some now;
    messages_received = (c.messages_received + 1) % 2 ^ 64;
  },
)

-- The next answer of the channel.
abbrev pub first : List Answer → Answer × List Answer
first [] = (pending, [])
first (a ∷ answers) = (a, answers)

unfoldable pub poll_next : ℕ → TopicConsumer → Poll (Option (Result Message Error)) × TopicConsumer
unfolding on_answer
poll_next now c =
    let (answer, messages) = first c.messages in
    on_answer now (record c { messages = messages }) answer

-- A request to the engine.
unfoldable pub request :
    EngineMessage → TopicConsumer → Result (Unit {0}) ConsumerError × TopicConsumer
request m c = elim c.engine_is_open [
  | true ↦ (ok tt, record c { requests = c.requests ++ m ∷ [] })
  | false ↦ (err ConsumerError.closed, c)
]

unfoldable pub ack_message :
    Message → TopicConsumer → Result (Unit {0}) ConsumerError × TopicConsumer
unfolding request
ack_message msg c = request (ack msg.message_id false) c

unfoldable pub cumulative_ack :
    Message → TopicConsumer → Result (Unit {0}) ConsumerError × TopicConsumer
unfolding request
cumulative_ack msg c = request (ack msg.message_id true) c

unfoldable pub nack_message :
    Message → TopicConsumer → Result (Unit {0}) ConsumerError × TopicConsumer
unfolding request
nack_message msg c = request (nack msg.message_id) c
