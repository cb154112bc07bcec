-- ===== src/Consumer/Topics/Metrics/Returned.antt =====
-- `MultiTopicConsumer` counts the messages that it returns.
use pulsar_rs.Shared.{
  ℕ, zero, suc, ◌+◌, ◌%◌, ◌^◌, ◌≡◌, refl, Bool, Option, none, some, List, [], ◌∷◌, ◌++◌, length,
  list_eq, nat_eq, without, arith,
}
use pulsar_rs.Shared.Assoc
use pulsar_rs.Shared.Assoc.Weights.{IsMap, IsMap-insert, weigh, weigh-insert}
use pulsar_rs.Proto.{Str}
use pulsar_rs.Errors.{Error, Result, ok, err}
use pulsar_rs.Consumer.Topic.{Poll, pending, ready, Message, Answer, TopicConsumer}
use pulsar_rs.Consumer.Topic
use pulsar_rs.Consumer.Topics.{
  MultiTopicConsumer, messages_received, remove_consumers, update_topics, keys,
}
use pulsar_rs.Consumer.Topics.Polls.{
  Found, on_new_consumers, Out, on_item, visit, turn, go_on, poll_topics, finish, poll_all,
  poll_next, collect, with_matched, build,
}
use pulsar_rs.Consumer.Topics.Metrics.{
  received, count, IsCounting, Counts, Counts-stay, Counts-trans, poll_next-count, insert-Counts,
  remove_each-Counts, on_new_consumers-Counts, update_topics-Counts,
}

abbrev counted : Option Message → ℕ
counted none = 0
counted (some msg) = 1

on_item-Counts :
    (topic : Str) (removed : List Str) (l m : MultiTopicConsumer)
    (item : Poll (Option (Result Message Error)))
    → Counts (count item) l m
    → Counts (counted (on_item topic removed m item).0) l (on_item topic removed m item).2
on_item-Counts topic removed l m pending h = h
on_item-Counts topic removed l m (ready none) h = h
on_item-Counts topic removed l m (ready (some (ok msg))) h = h
on_item-Counts topic removed l m (ready (some (err e))) h = h

visit-Counts :
    (now : ℕ) (topic : Str) (removed : List Str) (o : Option TopicConsumer) (m : MultiTopicConsumer)
    → Assoc.lookup topic m.consumers ≡ o
    → IsCounting m
    → Counts (counted (visit now topic removed o m).0) m (visit now topic removed o m).2
unfolding visit
visit-Counts now topic removed none m q h = Counts-stay m h
visit-Counts now topic removed (some c) m q h =
    on_item-Counts topic removed m
      (record m { consumers = Assoc.insert topic (Topic.poll_next now c).1 m.consumers })
      (Topic.poll_next now c).0
      (insert-Counts topic c (Topic.poll_next now c).1 (count (Topic.poll_next now c).0) m q
        (poll_next-count now c) h)

turn-Counts :
    (now : ℕ) (removed topics : List Str) (m : MultiTopicConsumer)
    → IsCounting m
    → Counts (counted (turn now removed topics m).0) m (turn now removed topics m).2
unfolding turn messages_received
turn-Counts now removed [] m h = Counts-stay m h
turn-Counts now removed (topic ∷ topics) m h =
    visit-Counts now topic removed (Assoc.lookup topic m.consumers)
      (record m { topics = topics ++ topic ∷ [] }) refl h

go_on-Counts :
    (rest : List Str → MultiTopicConsumer → Out) (m : MultiTopicConsumer) (p : Out)
    → Counts (counted p.0) m p.2
    → ((removed : List Str) (m : MultiTopicConsumer)
        → IsCounting m
        → Counts (counted (rest removed m).0) m (rest removed m).2)
    → Counts (counted (go_on rest p).0) m (go_on rest p).2
go_on-Counts rest m (some msg, removed, n) h f = h
go_on-Counts rest m (none, removed, n) h f =
    Counts-trans (counted (rest removed n).0) m n (rest removed n).2 h (f removed n)

poll_topics-Counts :
    (now n : ℕ) (removed : List Str) (m : MultiTopicConsumer)
    → IsCounting m
    → Counts (counted (poll_topics now n removed m).0) m (poll_topics now n removed m).2
unfolding poll_topics
poll_topics-Counts now zero removed m h = Counts-stay m h
poll_topics-Counts now (suc n) removed m h =
    go_on-Counts (poll_topics now n) m (turn now removed m.topics m)
      (turn-Counts now removed m.topics m h) (poll_topics-Counts now n)

remove_consumers-Counts :
    (removed : List Str) (k : ℕ) (l m : MultiTopicConsumer)
    → Counts k l m
    → Counts k l (remove_consumers removed m)
unfolding remove_consumers messages_received
remove_consumers-Counts removed k l m h =
    let r = remove_each-Counts removed (record m { topics = without removed m.topics }) h.0 in
    (r.0, omega (arith, h.1, r.1))

finish-Counts :
    (m : MultiTopicConsumer) (p : Out)
    → Counts (counted p.0) m p.2
    → Counts (count (finish p).0) m (finish p).1
finish-Counts m (none, removed, n) h = remove_consumers-Counts removed 0 m n h
finish-Counts m (some msg, removed, n) h = remove_consumers-Counts removed 1 m n h

poll_next-Counts :
    (now : ℕ) (refreshes : List Found) (found : Found) (m : MultiTopicConsumer)
    → IsCounting m
    → Counts (count (poll_next now refreshes found m).0) m (poll_next now refreshes found m).1
unfolding poll_next poll_all
poll_next-Counts now [] found m h =
    let n = on_new_consumers m.new_consumers found m in
    Counts-trans _ m n (poll_all now n).1 (on_new_consumers-Counts m.new_consumers found m refl h)
      (λ k.
        finish-Counts n (poll_topics now (length n.topics) [] n)
          (poll_topics-Counts now (length n.topics) [] n k))
poll_next-Counts now (refresh ∷ refreshes) found m h =
    let l = on_new_consumers m.new_consumers refresh m in
    Counts-trans _ m l _ (on_new_consumers-Counts m.new_consumers refresh m refl h) (λ k.
      Counts-trans _ l (update_topics l) _ (update_topics-Counts l k)
        (poll_next-Counts now refreshes found (update_topics l)))

-- The consumer that was built has counted nothing.
collect-received :
    (joined : List (ℕ × Str × List Answer))
    → IsMap (collect joined) × (weigh received (collect joined) ≡ 0)
unfolding collect Topic.new
collect-received [] = (tt, refl)
collect-received ((id, topic, messages) ∷ joined) =
    let (h, k) = collect-received joined in
    (
      IsMap-insert topic (Topic.new id topic messages) (collect joined) h,
      omega
          (arith, weigh-insert received topic (Topic.new id topic messages) (collect joined) h, k),
    )

with_matched-Counts :
    (matched : List (ℕ × Str × List Answer)) (m : MultiTopicConsumer)
    → IsCounting m
    → Counts 0 m (with_matched matched (update_topics m))
with_matched-Counts matched m h =
    Counts-trans 0 m (update_topics m) (with_matched matched (update_topics m))
      (update_topics-Counts m h)
      (on_new_consumers-Counts (update_topics m).new_consumers _ (update_topics m) refl)

build-Counts :
    (topic_regex : Bool) (joined matched : List (ℕ × Str × List Answer))
    → IsCounting (build topic_regex joined matched)
      × (messages_received (build topic_regex joined matched) ≡ 0)
unfolding build messages_received
build-Counts topic_regex joined matched =
    let (h, k) = collect-received joined in
    let r =
      with_matched-Counts matched
        (record {
          topic_regex = topic_regex;
          consumers = collect joined;
          topics = keys (collect joined);
          new_consumers = none;
          disc_messages_received = 0;
          disc_last_message_received = none;
        })
        (h, tt) in
    (r.0, omega (arith, r.1, k))

-- A series of polls, with the number of the messages that they returned.
abbrev pub polls : List (ℕ × List Found × Found) → MultiTopicConsumer → ℕ × MultiTopicConsumer
polls [] m = (0, m)
polls ((now, refreshes, found) ∷ ps) m =
    let (item, m) = poll_next now refreshes found m in
    let (n, m) = polls ps m in (count item + n, m)

polls-Counts :
    (ps : List (ℕ × List Found × Found)) (m : MultiTopicConsumer)
    → IsCounting m
    → Counts (polls ps m).0 m (polls ps m).1
unfolding messages_received
polls-Counts [] m h = Counts-stay m h
polls-Counts ((now, refreshes, found) ∷ ps) m h =
    let p = poll_next-Counts now refreshes found m h in
    let q = polls-Counts ps (poll_next now refreshes found m).1 p.0 in
    (q.0, omega (arith, p.1, q.1))

-- Of a consumer of several topics, over every series of polls in which topics come with the refreshes
-- and go when their streams fail or end, `messages_received` is the number of the messages that the
-- polls returned, on a u64.
pub polls-received :
    (topic_regex : Bool) (joined matched : List (ℕ × Str × List Answer))
    (ps : List (ℕ × List Found × Found))
    → messages_received (polls ps (build topic_regex joined matched)).1
      ≡ (polls ps (build topic_regex joined matched)).0 % 2 ^ 64
polls-received topic_regex joined matched ps =
    let b = build-Counts topic_regex joined matched in
    let p = polls-Counts ps (build topic_regex joined matched) b.0 in omega (arith, p.1, b.1)
