-- ===== src/Consumer/Topics/Queue.antt =====
-- The queue of `MultiTopicConsumer` and its table have the same topics.
pub mod Runs
use pulsar_rs.Shared.{
  ℕ, zero, suc, ◌≡◌, refl, sym, ap, ◌∙◌, subst, Bool, true, false, Option, none, some, is_some,
  List, [], ◌∷◌, ◌++◌, length, if◌then◌else◌, ◌==◌, list_eq, nat_eq, member, without, member-append,
  member-without, Option-cases, Bool-cases, inl, inr, arith,
}
use pulsar_rs.Shared.Assoc
use pulsar_rs.Shared.Assoc.{lookup-insert, lookup-remove, is_some-insert}
use pulsar_rs.Proto.{Str}
use pulsar_rs.Errors.{Error, Result, ok, err}
use pulsar_rs.Consumer.Topic.{Poll, pending, ready, Message, Answer, TopicConsumer}
use pulsar_rs.Consumer.Topic
use pulsar_rs.Consumer.Topics.{
  MultiTopicConsumer, add_consumers, remove_each, remove_consumers, discard, update_topics, created,
}
use pulsar_rs.Consumer.Topics.Polls.{
  Found, on_new_consumers, Out, on_item, visit, turn, go_on, poll_topics, finish, poll_all,
  poll_next,
}

-- A topic is in the queue exactly when it has a consumer.
abbrev pub SameTopics : List Str → List (Str × TopicConsumer) → Type 0
SameTopics topics consumers = (t : Str) → member t topics ≡ is_some (Assoc.lookup t consumers)

abbrev pub IsConsistent : MultiTopicConsumer → Type 0
IsConsistent m = SameTopics m.topics m.consumers

add_consumers-IsConsistent :
    (cs : List TopicConsumer) (m : MultiTopicConsumer)
    → IsConsistent m
    → IsConsistent (add_consumers cs m)
unfolding add_consumers
add_consumers-IsConsistent [] m h = h
add_consumers-IsConsistent (c ∷ cs) m h = add_consumers-IsConsistent cs _ (λ t.
    ground
      (arith, h t, member-append t m.topics (c.topic ∷ []), lookup-insert c.topic t c m.consumers))

discard-topics :
    (o : Option TopicConsumer) (m : MultiTopicConsumer) → (discard o m).topics ≡ m.topics
discard-topics none m = refl
discard-topics (some c) m = refl

discard-consumers :
    (o : Option TopicConsumer) (m : MultiTopicConsumer) → (discard o m).consumers ≡ m.consumers
discard-consumers none m = refl
discard-consumers (some c) m = refl

remove_each-topics :
    (removed : List Str) (m : MultiTopicConsumer) → (remove_each removed m).topics ≡ m.topics
unfolding remove_each
remove_each-topics [] m = refl
remove_each-topics (t ∷ removed) m =
    remove_each-topics removed _ ∙ discard-topics (Assoc.lookup t m.consumers) _

remove_each-lookup :
    (t : Str) (removed : List Str) (m : MultiTopicConsumer)
    → Assoc.lookup t (remove_each removed m).consumers
      ≡ (if member t removed then none else Assoc.lookup t m.consumers)
unfolding remove_each
remove_each-lookup t [] m = refl
remove_each-lookup t (r ∷ removed) m =
    remove_each-lookup t removed _
    ∙ ap (λ l. if member t removed then none else Assoc.lookup t l)
        (discard-consumers (Assoc.lookup r m.consumers) _)
    ∙ ground (arith, lookup-remove r t m.consumers)

remove_consumers-IsConsistent :
    (removed : List Str) (m : MultiTopicConsumer)
    → IsConsistent m
    → IsConsistent (remove_consumers removed m)
unfolding remove_consumers
remove_consumers-IsConsistent removed m h t =
    ap (member t) (remove_each-topics removed _)
    ∙ ground (
      arith,
      member-without t removed m.topics,
      h t,
      remove_each-lookup t removed (record m { topics = without removed m.topics }),
    )

pub on_new_consumers-IsConsistent :
    (o : Option (List Str)) (found : Found) (m : MultiTopicConsumer)
    → IsConsistent m
    → IsConsistent (on_new_consumers o found m)
unfolding on_new_consumers
on_new_consumers-IsConsistent none found m h = h
on_new_consumers-IsConsistent (some existing) pending m h = h
on_new_consumers-IsConsistent (some existing) (ready (err e)) m h = h
on_new_consumers-IsConsistent (some existing) (ready (ok matched)) m h =
    add_consumers-IsConsistent (created existing matched) _ h

pub update_topics-IsConsistent :
    (m : MultiTopicConsumer) → IsConsistent m → IsConsistent (update_topics m)
unfolding update_topics
update_topics-IsConsistent m h = elim (Bool-cases m.topic_regex) [ inl t ↦ rw t h | inr t ↦ rw t h ]

on_item-IsConsistent :
    (topic : Str) (removed : List Str) (m : MultiTopicConsumer)
    (item : Poll (Option (Result Message Error)))
    → IsConsistent m
    → IsConsistent (on_item topic removed m item).2
on_item-IsConsistent topic removed m pending h = h
on_item-IsConsistent topic removed m (ready none) h = h
on_item-IsConsistent topic removed m (ready (some (ok msg))) h = h
on_item-IsConsistent topic removed m (ready (some (err e))) h = h

visit-IsConsistent :
    (now : ℕ) (topic : Str) (removed : List Str) (o : Option TopicConsumer) (m : MultiTopicConsumer)
    → Assoc.lookup topic m.consumers ≡ o
    → IsConsistent m
    → IsConsistent (visit now topic removed o m).2
unfolding visit
visit-IsConsistent now topic removed none m q h = h
visit-IsConsistent now topic removed (some c) m q h =
    on_item-IsConsistent topic removed _ (Topic.poll_next now c).0
      (λ t. h t ∙ sym (is_some-insert topic t (Topic.poll_next now c).1 m.consumers q))

-- Rotating the queue keeps its topics.
rotate-member :
    (t topic : Str) (topics : List Str)
    → member t (topics ++ topic ∷ []) ≡ member t (topic ∷ topics)
rotate-member t topic topics = ground (arith, member-append t topics (topic ∷ []))

turn-IsConsistent :
    (now : ℕ) (removed topics : List Str) (m : MultiTopicConsumer)
    → SameTopics topics m.consumers
    → IsConsistent m
    → IsConsistent (turn now removed topics m).2
unfolding turn
turn-IsConsistent now removed [] m g h = h
turn-IsConsistent now removed (topic ∷ topics) m g h =
    visit-IsConsistent now topic removed (Assoc.lookup topic m.consumers) _ refl
      (λ t. rotate-member t topic topics ∙ g t)

go_on-IsConsistent :
    (rest : List Str → MultiTopicConsumer → Out) (p : Out)
    → IsConsistent p.2
    → ((removed : List Str) (m : MultiTopicConsumer)
        → IsConsistent m
        → IsConsistent (rest removed m).2)
    → IsConsistent (go_on rest p).2
go_on-IsConsistent rest (some msg, removed, m) h f = h
go_on-IsConsistent rest (none, removed, m) h f = f removed m h

poll_topics-IsConsistent :
    (now n : ℕ) (removed : List Str) (m : MultiTopicConsumer)
    → IsConsistent m
    → IsConsistent (poll_topics now n removed m).2
unfolding poll_topics
poll_topics-IsConsistent now zero removed m h = h
poll_topics-IsConsistent now (suc n) removed m h =
    go_on-IsConsistent _ (turn now removed m.topics m)
      (turn-IsConsistent now removed m.topics m h h) (poll_topics-IsConsistent now n)

finish-IsConsistent : (p : Out) → IsConsistent p.2 → IsConsistent (finish p).1
finish-IsConsistent (result, removed, m) h = remove_consumers-IsConsistent removed m h

poll_all-IsConsistent :
    (now : ℕ) (m : MultiTopicConsumer) → IsConsistent m → IsConsistent (poll_all now m).1
unfolding poll_all
poll_all-IsConsistent now m h =
    finish-IsConsistent (poll_topics now (length m.topics) [] m)
      (poll_topics-IsConsistent now (length m.topics) [] m h)

pub poll_next-IsConsistent :
    (now : ℕ) (refreshes : List Found) (found : Found) (m : MultiTopicConsumer)
    → IsConsistent m
    → IsConsistent (poll_next now refreshes found m).1
unfolding poll_next
poll_next-IsConsistent now [] found m h =
    poll_all-IsConsistent now (on_new_consumers m.new_consumers found m)
      (on_new_consumers-IsConsistent m.new_consumers found m h)
poll_next-IsConsistent now (refresh ∷ refreshes) found m h =
    poll_next-IsConsistent now refreshes found
      (update_topics (on_new_consumers m.new_consumers refresh m))
      (update_topics-IsConsistent (on_new_consumers m.new_consumers refresh m)
        (on_new_consumers-IsConsistent m.new_consumers refresh m h))
