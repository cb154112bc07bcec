-- ===== src/Consumer/Topics.antt =====
-- `MultiTopicConsumer` of src/consumer.rs. What is outside answers each poll with a `Turn`.
pub mod Polls
pub mod Acks
pub mod Queue
pub mod Metrics
use pulsar_rs.Shared.{
  ℕ, zero, suc, ◌+◌, ◌%◌, ◌^◌, Bool, true, false, Option, none, some, List, [], ◌∷◌, ◌++◌, length,
  ltb, map, if◌then◌else◌, ◌==◌, list_eq, nat_eq, member, without,
}
use pulsar_rs.Shared.Assoc
use pulsar_rs.Shared.Assoc.Weights.{weigh}
use pulsar_rs.Proto.{Str}
use pulsar_rs.Errors.{ConnectionError, ConsumerError, Error, Result, ok, err}
use pulsar_rs.Consumer.Topic.{
  Poll, pending, ready, Message, Answer, TopicConsumer, on_answer, ack_message, cumulative_ack,
  nack_message,
}
use pulsar_rs.Consumer.Topic

-- `new_consumers` is the future that makes consumers, with the topics that it leaves out.
pub record MultiTopicConsumer : Type 0 where
  pub topic_regex : Bool
  pub consumers : List (Str × TopicConsumer)
  pub topics : List Str
  pub new_consumers : Option (List Str)
  pub disc_messages_received : ℕ
  pub disc_last_message_received : Option ℕ

-- The later of two optional times.
abbrev pub max_option : Option ℕ → Option ℕ → Option ℕ
max_option none b = b
max_option (some a) none = some a
max_option (some a) (some b) = if ltb a b then some b else some a

abbrev pub latest : Option ℕ → List (Str × TopicConsumer) → Option ℕ
latest disc [] = disc
latest disc ((t, c) ∷ consumers) = max_option c.last_message_received (latest disc consumers)

unfoldable pub last_message_received : MultiTopicConsumer → Option ℕ
last_message_received m = latest m.disc_last_message_received m.consumers

-- A sum on a u64.
unfoldable pub messages_received : MultiTopicConsumer → ℕ
messages_received m =
    (weigh (λ c. c.messages_received) m.consumers + m.disc_messages_received) % 2 ^ 64

unfoldable pub add_consumers : List TopicConsumer → MultiTopicConsumer → MultiTopicConsumer
add_consumers [] m = m
add_consumers (c ∷ consumers) m =
    add_consumers consumers (record m {
      consumers = Assoc.insert c.topic c m.consumers;
      topics = m.topics ++ c.topic ∷ [];
    })

-- A consumer that is removed leaves its counts.
abbrev pub discard : Option TopicConsumer → MultiTopicConsumer → MultiTopicConsumer
discard none m = m
discard (some c) m = record m {
  disc_messages_received = (m.disc_messages_received + c.messages_received) % 2 ^ 64;
  disc_last_message_received = max_option m.disc_last_message_received c.last_message_received;
}

unfoldable pub remove_each : List Str → MultiTopicConsumer → MultiTopicConsumer
remove_each [] m = m
remove_each (topic ∷ topics) m = remove_each topics (
    discard (Assoc.lookup topic m.consumers)
      (record m { consumers = Assoc.remove topic m.consumers }))

unfoldable pub remove_consumers : List Str → MultiTopicConsumer → MultiTopicConsumer
unfolding remove_each
remove_consumers topics m = remove_each topics (record m { topics = without topics m.topics })

abbrev pub keys : List (Str × TopicConsumer) → List Str
keys = map (λ p. p.0)

-- With a regex, a future is made that looks for topics other than those of now.
unfoldable pub update_topics : MultiTopicConsumer → MultiTopicConsumer
update_topics m = if m.topic_regex then record m { new_consumers = some (keys m.consumers) } else m

-- The consumers that the future makes, of the topics that match.
abbrev pub created : List Str → List (ℕ × Str × List Answer) → List TopicConsumer
created existing_topics [] = []
created existing_topics ((id, topic, messages) ∷ matched) =
    if member topic existing_topics
    then created existing_topics matched
    else Topic.new id topic messages ∷ created existing_topics matched
