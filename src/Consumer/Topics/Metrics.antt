-- ===== src/Consumer/Topics/Metrics.antt =====
-- What `MultiTopicConsumer` counts when consumers come and go.
pub mod Returned
use pulsar_rs.Shared.{
  ℕ, zero, suc, ◌+◌, ◌%◌, ◌^◌, ◌≡◌, refl, sym, ap, ◌∙◌, subst, Bool, true, false, Option, none,
  some, is_some, List, [], ◌∷◌, ◌++◌, length, if◌then◌else◌, ◌==◌, list_eq, list_beq_iff, nat_eq,
  member, without, All, All-map, Option-cases, Bool-cases, inl, inr, arith,
}
use pulsar_rs.Shared.Assoc
use pulsar_rs.Shared.Assoc.{lookup-insert, lookup-remove, is_some-insert}
use pulsar_rs.Shared.Assoc.Weights.{
  IsMap, IsMap-remove, IsMap-insert, weigh, weigh_option, weigh-remove, weigh-insert,
}
use pulsar_rs.Proto.{Str}
use pulsar_rs.Errors.{Error, Result, ok, err}
use pulsar_rs.Consumer.Topic.{
  Poll, pending, ready, Message, Answer, TopicConsumer, on_answer, first,
}
use pulsar_rs.Consumer.Topic
use pulsar_rs.Consumer.Topics.{
  MultiTopicConsumer, messages_received, add_consumers, remove_each, remove_consumers, discard,
  update_topics, created, keys,
}
use pulsar_rs.Consumer.Topics.Polls.{
  Found, on_new_consumers, Out, on_item, visit, turn, go_on, poll_topics, as_poll, finish, poll_all,
  poll_next,
}

abbrev pub received : TopicConsumer → ℕ
received c = c.messages_received

-- What an answer counts for.
abbrev pub count : Poll (Option (Result Message Error)) → ℕ
count pending = 0
count (ready none) = 0
count (ready (some (ok msg))) = 1
count (ready (some (err e))) = 0

-- The future of new consumers leaves out all topics of the table.
abbrev pub LeavesOut : Option (List Str) → List (Str × TopicConsumer) → Type 0
LeavesOut none consumers = Unit {0}
LeavesOut (some existing) consumers =
    (t : Str) → is_some (Assoc.lookup t consumers) ≡ true → member t existing ≡ true

abbrev pub IsCounting : MultiTopicConsumer → Type 0
IsCounting m = IsMap m.consumers × LeavesOut m.new_consumers m.consumers

-- From `m` to `m'` so many messages are counted.
abbrev pub Counts : ℕ → MultiTopicConsumer → MultiTopicConsumer → Type 0
Counts k m m' = IsCounting m' × (messages_received m' ≡ (messages_received m + k) % 2 ^ 64)

LeavesOut-fewer :
    (o : Option (List Str)) (cs ds : List (Str × TopicConsumer))
    → ((t : Str) → is_some (Assoc.lookup t ds) ≡ true → is_some (Assoc.lookup t cs) ≡ true)
    → LeavesOut o cs
    → LeavesOut o ds
LeavesOut-fewer none cs ds f h = tt
LeavesOut-fewer (some existing) cs ds f h = λ t k. h t (f t k)

pub Counts-stay : (m : MultiTopicConsumer) → IsCounting m → Counts 0 m m
unfolding messages_received
Counts-stay m h = (h, omega arith)

pub Counts-trans :
    (k : ℕ) (l m n : MultiTopicConsumer)
    → Counts 0 l m
    → (IsCounting m → Counts k m n)
    → Counts k l n
unfolding messages_received
Counts-trans k l m n a f = let b = f a.0 in (b.0, omega (arith, a.1, b.1))

-- A topic's consumer counts what it hands out.
on_answer-count :
    (now : ℕ) (c : TopicConsumer) (a : Answer)
    → (on_answer now c a).1.messages_received % 2 ^ 64
      ≡ (c.messages_received + count (on_answer now c a).0) % 2 ^ 64
unfolding on_answer
on_answer-count now c pending = omega arith
on_answer-count now c (ready none) = omega arith
on_answer-count now c (ready (some (err e))) = omega arith
on_answer-count now c (ready (some (ok (id, payload)))) = omega arith

pub poll_next-count :
    (now : ℕ) (c : TopicConsumer)
    → (Topic.poll_next now c).1.messages_received % 2 ^ 64
      ≡ (c.messages_received + count (Topic.poll_next now c).0) % 2 ^ 64
unfolding Topic.poll_next
poll_next-count now c =
    on_answer-count now (record c { messages = (first c.messages).1 }) (first c.messages).0

-- A consumer that is polled in its place.
pub insert-Counts :
    (topic : Str) (c d : TopicConsumer) (k : ℕ) (m : MultiTopicConsumer)
    → Assoc.lookup topic m.consumers ≡ some c
    → d.messages_received % 2 ^ 64 ≡ (c.messages_received + k) % 2 ^ 64
    → IsCounting m
    → Counts k m (record m { consumers = Assoc.insert topic d m.consumers })
unfolding messages_received
insert-Counts topic c d k m q n h =
    let old : weigh_option received (Assoc.lookup topic m.consumers) ≡ c.messages_received =
      ap (weigh_option received) q in
    (
      (
        IsMap-insert topic d m.consumers h.0,
        LeavesOut-fewer m.new_consumers _ _
            (λ t r. sym (is_some-insert topic t d m.consumers q) ∙ r) h.1,
      ),
      omega (arith, weigh-insert received topic d m.consumers h.0, old, n),
    )

-- A consumer that is discarded.
remove-fewer :
    (topic t : Str) (cs : List (Str × TopicConsumer))
    → is_some (Assoc.lookup t (Assoc.remove topic cs)) ≡ true
    → is_some (Assoc.lookup t cs) ≡ true
remove-fewer topic t cs h = ground (arith, h, lookup-remove topic t cs)

remove-Counts :
    (topic : Str) (o : Option TopicConsumer) (m : MultiTopicConsumer)
    → Assoc.lookup topic m.consumers ≡ o
    → IsCounting m
    → Counts 0 m (discard o (record m { consumers = Assoc.remove topic m.consumers }))
unfolding messages_received
remove-Counts topic none m q h =
    let old : weigh_option received (Assoc.lookup topic m.consumers) ≡ 0 =
      ap (weigh_option received) q in
    (
      (
        IsMap-remove topic m.consumers h.0,
        LeavesOut-fewer m.new_consumers _ _ (λ t. remove-fewer topic t m.consumers) h.1,
      ),
      omega (arith, weigh-remove received topic m.consumers h.0, old),
    )
remove-Counts topic (some c) m q h =
    let old : weigh_option received (Assoc.lookup topic m.consumers) ≡ c.messages_received =
      ap (weigh_option received) q in
    (
      (
        IsMap-remove topic m.consumers h.0,
        LeavesOut-fewer m.new_consumers _ _ (λ t. remove-fewer topic t m.consumers) h.1,
      ),
      omega (arith, weigh-remove received topic m.consumers h.0, old),
    )

pub remove_each-Counts :
    (removed : List Str) (m : MultiTopicConsumer)
    → IsCounting m
    → Counts 0 m (remove_each removed m)
unfolding remove_each
remove_each-Counts [] m h = Counts-stay m h
remove_each-Counts (topic ∷ removed) m h =
    let next =
      discard (Assoc.lookup topic m.consumers)
        (record m { consumers = Assoc.remove topic m.consumers }) in
    Counts-trans 0 m next (remove_each removed next) (remove-Counts topic _ m refl h)
      (remove_each-Counts removed next)

-- New consumers have counted nothing, and take no other consumer's place.
abbrev IsFresh : List (Str × TopicConsumer) → TopicConsumer → Type 0
IsFresh consumers c =
    (c.messages_received ≡ 0) × (weigh_option received (Assoc.lookup c.topic consumers) ≡ 0)

IsFresh-insert :
    (cs : List (Str × TopicConsumer)) (c d : TopicConsumer)
    → IsFresh cs c
    → IsFresh cs d
    → IsFresh (Assoc.insert c.topic c cs) d
IsFresh-insert cs c d h k = (k.0, ground (arith, h.0, k.1, lookup-insert c.topic d.topic c cs))

add-Counts :
    (cs : List TopicConsumer) (m : MultiTopicConsumer)
    → IsMap m.consumers
    → All (IsFresh m.consumers) cs
    → Counts 0 m (add_consumers cs (record m { new_consumers = none }))
unfolding add_consumers messages_received
add-Counts [] m h f = ((h, tt), omega arith)
add-Counts (c ∷ cs) m h f =
    let rest =
      add-Counts cs
        (record m {
          consumers = Assoc.insert c.topic c m.consumers;
          topics = m.topics ++ c.topic ∷ [];
        })
        (IsMap-insert c.topic c m.consumers h)
        (All-map _ _ cs (λ d. IsFresh-insert m.consumers c d f.0) f.1) in
    (rest.0, omega (arith, rest.1, weigh-insert received c.topic c m.consumers h, f.0.0, f.0.1))

created-IsFresh :
    (consumers : List (Str × TopicConsumer)) (existing : List Str)
    (matched : List (ℕ × Str × List Answer))
    → LeavesOut (some existing) consumers
    → All (IsFresh consumers) (created existing matched)
unfolding Topic.new
created-IsFresh consumers existing [] h = tt
created-IsFresh consumers existing ((id, topic, messages) ∷ matched) h =
    elim (Bool-cases (member topic existing)) [
      | inl t ↦ rw t (created-IsFresh consumers existing matched h)
      | inr t ↦
          rw t ((refl, ground (arith, t, h topic)), created-IsFresh consumers existing matched h)
    ]

pub on_new_consumers-Counts :
    (o : Option (List Str)) (found : Found) (m : MultiTopicConsumer)
    → m.new_consumers ≡ o
    → IsCounting m
    → Counts 0 m (on_new_consumers o found m)
unfolding on_new_consumers messages_received
on_new_consumers-Counts none found m q h = Counts-stay m h
on_new_consumers-Counts (some existing) pending m q h = Counts-stay m h
on_new_consumers-Counts (some existing) (ready (err e)) m q h = ((h.0, tt), omega arith)
on_new_consumers-Counts (some existing) (ready (ok matched)) m q h =
    add-Counts (created existing matched) m h.0
      (created-IsFresh m.consumers existing matched (subst (λ o. LeavesOut o m.consumers) q h.1))

-- The topics that a new future leaves out are all those of the table.
keys-member :
    (t : Str) (cs : List (Str × TopicConsumer))
    → is_some (Assoc.lookup t cs) ≡ true
    → member t (keys cs) ≡ true
unfolding Assoc.lookup
keys-member t [] h = ground (arith, h)
keys-member t ((j, c) ∷ cs) h = ground (arith, h, keys-member t cs)

pub update_topics-Counts : (m : MultiTopicConsumer) → IsCounting m → Counts 0 m (update_topics m)
unfolding update_topics messages_received
update_topics-Counts m h = elim (Bool-cases m.topic_regex) [
  | inl t ↦ rw t ((h.0, (λ t. keys-member t m.consumers)), omega arith)
  | inr t ↦ rw t (h, omega arith)
]
