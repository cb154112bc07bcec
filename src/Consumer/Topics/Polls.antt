-- ===== src/Consumer/Topics/Polls.antt =====
-- `poll_next` of `MultiTopicConsumer` in src/consumer.rs.
use pulsar_rs.Shared.{
  ℕ, zero, suc, Bool, Option, none, some, List, [], ◌∷◌, ◌++◌, length, list_eq, nat_eq,
}
use pulsar_rs.Shared.Assoc
use pulsar_rs.Proto.{Str}
use pulsar_rs.Errors.{Error, Result, ok, err}
use pulsar_rs.Consumer.Topic.{Poll, pending, ready, Message, Answer, TopicConsumer}
use pulsar_rs.Consumer.Topic
use pulsar_rs.Consumer.Topics.{
  MultiTopicConsumer, add_consumers, remove_consumers, update_topics, created, keys,
}

-- How the future of new consumers answers, if there is one: with the topics that match.
abbrev pub Found : Type 0
Found = Poll (Result (List (ℕ × Str × List Answer)) Error)

-- An error of the future is logged, and the next refresh tries again.
unfoldable pub on_new_consumers :
    Option (List Str) → Found → MultiTopicConsumer → MultiTopicConsumer
unfolding add_consumers
on_new_consumers none found m = m
on_new_consumers (some existing) pending m = m
on_new_consumers (some existing) (ready (ok matched)) m =
    add_consumers (created existing matched) (record m { new_consumers = none })
on_new_consumers (some existing) (ready (err e)) m = record m { new_consumers = none }

-- What one consumer's poll adds: a message, or the topic to those that are removed.
abbrev pub Out : Type 0
Out = Option Message × List Str × MultiTopicConsumer

abbrev pub on_item :
    Str → List Str → MultiTopicConsumer → Poll (Option (Result Message Error)) → Out
on_item topic removed m pending = (none, removed, m)
on_item topic removed m (ready none) = (none, removed ++ topic ∷ [], m)
on_item topic removed m (ready (some (ok msg))) = (some msg, removed, m)
on_item topic removed m (ready (some (err e))) = (none, removed ++ topic ∷ [], m)

unfoldable pub visit : ℕ → Str → List Str → Option TopicConsumer → MultiTopicConsumer → Out
unfolding Topic.poll_next
visit now topic removed none m = (none, removed, m)
visit now topic removed (some c) m =
    let (item, c) = Topic.poll_next now c in
    on_item topic removed (record m { consumers = Assoc.insert topic c m.consumers }) item

-- The front of the queue is visited and goes to its back.
unfoldable pub turn : ℕ → List Str → List Str → MultiTopicConsumer → Out
unfolding visit
turn now removed [] m = (none, removed, m)
turn now removed (topic ∷ topics) m =
    visit now topic removed (Assoc.lookup topic m.consumers)
      (record m { topics = topics ++ topic ∷ [] })

-- The rounds that are left, until there is a message.
abbrev pub go_on : (List Str → MultiTopicConsumer → Out) → Out → Out
go_on rest (some msg, removed, m) = (some msg, removed, m)
go_on rest (none, removed, m) = rest removed m

unfoldable pub poll_topics : ℕ → ℕ → List Str → MultiTopicConsumer → Out
unfolding turn
poll_topics now zero removed m = (none, removed, m)
poll_topics now (suc n) removed m = go_on (poll_topics now n) (turn now removed m.topics m)

abbrev pub as_poll : Option Message → Poll (Option (Result Message Error))
as_poll none = pending
as_poll (some msg) = ready (some (ok msg))

abbrev pub finish : Out → Poll (Option (Result Message Error)) × MultiTopicConsumer
finish (result, removed, m) = (as_poll result, remove_consumers removed m)

-- Every topic of the queue has at most one turn.
unfoldable pub poll_all :
    ℕ → MultiTopicConsumer → Poll (Option (Result Message Error)) × MultiTopicConsumer
unfolding poll_topics remove_consumers
poll_all now m = finish (poll_topics now (length m.topics) [] m)

-- `refreshes` are the answers of the future at the ticks of the refresh stream that are there, after
-- each of which the function calls itself; `found` is the answer in the last call.
unfoldable pub poll_next :
    ℕ
    → List Found
    → Found
    → MultiTopicConsumer
    → Poll (Option (Result Message Error)) × MultiTopicConsumer
unfolding on_new_consumers update_topics poll_all
poll_next now [] found m = poll_all now (on_new_consumers m.new_consumers found m)
poll_next now (refresh ∷ refreshes) found m =
    poll_next now refreshes found (update_topics (on_new_consumers m.new_consumers refresh m))

-- The end of `ConsumerBuilder::build` when the named topics have not exactly one consumer: the consumers
-- of these topics, and with a regex those of the topics that match. The queue is in the order of the
-- table.
unfoldable pub collect : List (ℕ × Str × List Answer) → List (Str × TopicConsumer)
collect [] = []
collect ((id, topic, messages) ∷ joined) =
    Assoc.insert topic (Topic.new id topic messages) (collect joined)

abbrev pub with_matched : List (ℕ × Str × List Answer) → MultiTopicConsumer → MultiTopicConsumer
with_matched matched m = on_new_consumers m.new_consumers (ready (ok matched)) m

unfoldable pub build :
    Bool → List (ℕ × Str × List Answer) → List (ℕ × Str × List Answer) → MultiTopicConsumer
unfolding collect on_new_consumers update_topics
build topic_regex joined matched = with_matched matched (
    update_topics (record {
      topic_regex = topic_regex;
      consumers = collect joined;
      topics = keys (collect joined);
      new_consumers = none;
      disc_messages_received = 0;
      disc_last_message_received = none;
    }))

-- `InnerConsumer`.
pub data InnerConsumer : Type 0 where
  single : TopicConsumer → InnerConsumer
  multi : MultiTopicConsumer → InnerConsumer

-- The end of `ConsumerBuilder::build`. One consumer stays alone, and then the regex is not looked at.
unfoldable pub build_inner :
    Bool → List (ℕ × Str × List Answer) → List (ℕ × Str × List Answer) → InnerConsumer
unfolding build
build_inner topic_regex ((id, topic, messages) ∷ []) matched = single (Topic.new id topic messages)
build_inner topic_regex [] matched = multi (build topic_regex [] matched)
build_inner topic_regex (a ∷ b ∷ joined) matched =
    multi (build topic_regex (a ∷ b ∷ joined) matched)
