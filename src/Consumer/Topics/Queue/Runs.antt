-- ===== src/Consumer/Topics/Queue/Runs.antt =====
-- The queue over every use of a `MultiTopicConsumer`.
use pulsar_rs.Shared.{
  ℕ, ◌≡◌, refl, sym, ◌∙◌, Bool, Option, none, some, List, [], ◌∷◌, list_eq, nat_eq, arith,
}
use pulsar_rs.Shared.Assoc
use pulsar_rs.Shared.Assoc.{is_some-insert}
use pulsar_rs.Proto.{Str}
use pulsar_rs.Errors.{ConsumerError, Result, ok}
use pulsar_rs.Consumer.Topic.{ready, Message, Answer, TopicConsumer}
use pulsar_rs.Consumer.Topics.{MultiTopicConsumer, update_topics, keys}
use pulsar_rs.Consumer.Topics.Polls.{Found, poll_next, collect, build}
use pulsar_rs.Consumer.Topics.Acks
use pulsar_rs.Consumer.Topics.Acks.{on_consumer}
use pulsar_rs.Consumer.Topics.Queue.{
  SameTopics, IsConsistent, on_new_consumers-IsConsistent, update_topics-IsConsistent,
  poll_next-IsConsistent,
}

-- What a user does with the consumer.
pub data Use : Type 0 where
  polls : ℕ → List Found → Found → Use
  acks cumulative_acks nacks : Message → Use

unfoldable pub apply : Use → MultiTopicConsumer → MultiTopicConsumer
unfolding poll_next Acks.ack Acks.cumulative_ack Acks.nack
apply (polls now refreshes found) m = (poll_next now refreshes found m).1
apply (acks msg) m = (Acks.ack msg m).1
apply (cumulative_acks msg) m = (Acks.cumulative_ack msg m).1
apply (nacks msg) m = (Acks.nack msg m).1

abbrev pub run : List Use → MultiTopicConsumer → MultiTopicConsumer
run [] m = m
run (use_ ∷ uses) m = run uses (apply use_ m)

on_consumer-IsConsistent :
    (f : TopicConsumer → Result (Unit {0}) ConsumerError × TopicConsumer) (topic : Str)
    (o : Option TopicConsumer) (m : MultiTopicConsumer)
    → Assoc.lookup topic m.consumers ≡ o
    → IsConsistent m
    → IsConsistent (on_consumer f topic o m).1
on_consumer-IsConsistent f topic none m q h = h
on_consumer-IsConsistent f topic (some c) m q h =
    λ t. h t ∙ sym (is_some-insert topic t (f c).1 m.consumers q)

apply-IsConsistent :
    (use_ : Use) (m : MultiTopicConsumer) → IsConsistent m → IsConsistent (apply use_ m)
unfolding apply
apply-IsConsistent (polls now refreshes found) m h = poll_next-IsConsistent now refreshes found m h
apply-IsConsistent (acks msg) m h = on_consumer-IsConsistent _ msg.topic _ m refl h
apply-IsConsistent (cumulative_acks msg) m h = on_consumer-IsConsistent _ msg.topic _ m refl h
apply-IsConsistent (nacks msg) m h = on_consumer-IsConsistent _ msg.topic _ m refl h

run-keeps : (uses : List Use) (m : MultiTopicConsumer) → IsConsistent m → IsConsistent (run uses m)
run-keeps [] m h = h
run-keeps (use_ ∷ uses) m h = run-keeps uses (apply use_ m) (apply-IsConsistent use_ m h)

keys-SameTopics : (cs : List (Str × TopicConsumer)) → SameTopics (keys cs) cs
unfolding Assoc.lookup
keys-SameTopics [] t = refl
keys-SameTopics ((j, c) ∷ cs) t = ground (arith, keys-SameTopics cs t)

build-IsConsistent :
    (topic_regex : Bool) (joined matched : List (ℕ × Str × List Answer))
    → IsConsistent (build topic_regex joined matched)
unfolding build
build-IsConsistent topic_regex joined matched =
    let m : MultiTopicConsumer = record {
      topic_regex = topic_regex;
      consumers = collect joined;
      topics = keys (collect joined);
      new_consumers = none;
      disc_messages_received = 0;
      disc_last_message_received = none;
    } in
    on_new_consumers-IsConsistent (update_topics m).new_consumers (ready (ok matched))
      (update_topics m) (update_topics-IsConsistent m (keys-SameTopics (collect joined)))

-- Of a consumer of several topics, however it is polled and its messages are acked: a topic is in the
-- queue exactly when it has a consumer. So no poll finds a topic of the queue without a consumer, and
-- no consumer is left out of the queue.
pub run-IsConsistent :
    (topic_regex : Bool) (joined matched : List (ℕ × Str × List Answer)) (uses : List Use)
    → IsConsistent (run uses (build topic_regex joined matched))
run-IsConsistent topic_regex joined matched uses =
    run-keeps uses (build topic_regex joined matched)
      (build-IsConsistent topic_regex joined matched)
