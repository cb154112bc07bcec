-- ===== src/Consumer/Topics/Acks.antt =====
-- The requests of `MultiTopicConsumer` in src/consumer.rs to the consumers of its topics.
use pulsar_rs.Shared.{
  ◌≡◌, refl, Option, none, some, list_eq, nat_eq, ◌==◌, if◌then◌else◌, unwrap_or, map_option,
}
use pulsar_rs.Shared.Assoc
use pulsar_rs.Shared.Assoc.{lookup-map_absent, lookup-map_present}
use pulsar_rs.Proto.{Str}
use pulsar_rs.Errors.{ConnectionError, ConsumerError, Result, err}
use pulsar_rs.Consumer.Topic.{Message, TopicConsumer}
use pulsar_rs.Consumer.Topic
use pulsar_rs.Consumer.Topics.{MultiTopicConsumer}

-- A request through the consumer of the topic, if there is one.
abbrev pub on_consumer :
    (TopicConsumer → Result (Unit {0}) ConsumerError × TopicConsumer)
    → Str
    → Option TopicConsumer
    → MultiTopicConsumer
    → Result (Unit {0}) ConsumerError × MultiTopicConsumer
on_consumer f topic none m = (err (ConsumerError.connection ConnectionError.unexpected), m)
on_consumer f topic (some c) m =
    let (r, c) = f c in (r, record m { consumers = Assoc.insert topic c m.consumers })

unfoldable pub ack :
    Message → MultiTopicConsumer → Result (Unit {0}) ConsumerError × MultiTopicConsumer
unfolding Topic.ack_message
ack msg m = on_consumer (Topic.ack_message msg) msg.topic (Assoc.lookup msg.topic m.consumers) m

unfoldable pub cumulative_ack :
    Message → MultiTopicConsumer → Result (Unit {0}) ConsumerError × MultiTopicConsumer
unfolding Topic.cumulative_ack
cumulative_ack msg m =
    on_consumer (Topic.cumulative_ack msg) msg.topic (Assoc.lookup msg.topic m.consumers) m

unfoldable pub nack :
    Message → MultiTopicConsumer → Result (Unit {0}) ConsumerError × MultiTopicConsumer
unfolding Topic.nack_message
nack msg m = on_consumer (Topic.nack_message msg) msg.topic (Assoc.lookup msg.topic m.consumers) m

-- What a request does to the table: the consumer of the message's topic has its engine's answer, and no
-- other consumer is touched.
abbrev pub Routes :
    (TopicConsumer → Result (Unit {0}) ConsumerError × TopicConsumer)
    → Str
    → MultiTopicConsumer
    → Result (Unit {0}) ConsumerError × MultiTopicConsumer
    → Type 0
Routes f topic m (r, m') =
    (r
      ≡ unwrap_or (map_option (λ c. (f c).0) (Assoc.lookup topic m.consumers))
          (err (ConsumerError.connection ConnectionError.unexpected)))
    × ((t : Str)
        → Assoc.lookup t m'.consumers ≡ (
            if topic == t
            then map_option (λ c. (f c).1) (Assoc.lookup t m.consumers)
            else Assoc.lookup t m.consumers))
    × (m'.topics ≡ m.topics)

on_consumer-Routes :
    (f : TopicConsumer → Result (Unit {0}) ConsumerError × TopicConsumer) (topic : Str)
    (o : Option TopicConsumer) (m : MultiTopicConsumer)
    → Assoc.lookup topic m.consumers ≡ o
    → Routes f topic m (on_consumer f topic o m)
on_consumer-Routes f topic none m q =
    (rw q refl, (λ t. lookup-map_absent topic t (λ c. (f c).1) m.consumers q), refl)
on_consumer-Routes f topic (some c) m q =
    (rw q refl, (λ t. lookup-map_present topic t (λ c. (f c).1) m.consumers q), refl)

-- An ack, a cumulative ack and a nack go to the consumer of the message's topic, whose answer they
-- return, and touch neither another consumer nor the queue; without such a consumer they return an error
-- and change nothing.
pub acks-Routes :
    (msg : Message) (m : MultiTopicConsumer)
    → Routes (Topic.ack_message msg) msg.topic m (ack msg m)
      × Routes (Topic.cumulative_ack msg) msg.topic m (cumulative_ack msg m)
      × Routes (Topic.nack_message msg) msg.topic m (nack msg m)
unfolding ack cumulative_ack nack
acks-Routes msg m =
    let at = Assoc.lookup msg.topic m.consumers in
    (
      on_consumer-Routes (Topic.ack_message msg) msg.topic at m refl,
      on_consumer-Routes (Topic.cumulative_ack msg) msg.topic at m refl,
      on_consumer-Routes (Topic.nack_message msg) msg.topic at m refl,
    )
