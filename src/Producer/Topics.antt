-- ===== src/Producer/Topics.antt =====
-- `MultiTopicProducer` of src/producer.rs, and `Producer::send_all`, over any producer `P` of one topic
-- and messages `M`. A `SendFuture` is the number of its channel.
pub mod SendAll
use pulsar_rs.Shared.{
  ℕ, Bool, true, false, Option, none, some, List, [], ◌∷◌, if◌then◌else◌, ◌==◌, list_eq, nat_eq,
}
use pulsar_rs.Shared.Assoc
use pulsar_rs.Proto.{Str}
use pulsar_rs.Errors.{
  Error, ProducerError, producer_error, partial_send, Sends, done, sent, failed, Result, ok, err,
}
use pulsar_rs.Producer.Partitions.{ProducerInner, single, partitioned, next}

-- What the client and the producers do, over the state `W` of the world outside.
pub record Producers (W P M : Type 0) : Type 0 where
  -- `build` of the builder with the topic, the options and the name.
  pub build : W → Str → Result P Error × W
  pub send : W → P → M → Result ℕ Error × P × W
  -- The topics of a topic's partitions.
  pub lookup_partitioned_topic : W → Str → Result (List Str) Error × W

-- The results of all sends: the futures, or all results as an error.
abbrev pub all_ok : List (Result ℕ Error) → Bool
all_ok [] = true
all_ok (ok n ∷ sends) = all_ok sends
all_ok (err e ∷ sends) = false

abbrev pub unwrapped : List (Result ℕ Error) → List ℕ
unwrapped [] = []
unwrapped (ok n ∷ sends) = n ∷ unwrapped sends
unwrapped (err e ∷ sends) = unwrapped sends

abbrev pub as_sends : List (Result ℕ Error) → Sends
as_sends [] = done
as_sends (ok n ∷ sends) = sent n (as_sends sends)
as_sends (err e ∷ sends) = failed e (as_sends sends)

unfoldable pub collect : List (Result ℕ Error) → Result (List ℕ) Error
collect sends =
    if all_ok sends
    then ok (unwrapped sends)
    else err (producer_error (ProducerError.partial_send (as_sends sends)))

-- One result after the other.
abbrev pub send_each :
    {S M : Type 0} → (M → S → Result ℕ Error × S) → List M → S → List (Result ℕ Error) × S
send_each send [] s = ([], s)
send_each send (m ∷ messages) s =
    let (r, s) = send m s in let (sends, s) = send_each send messages s in (r ∷ sends, s)

module _ {W P M : Type 0} (out : Producers W P M) where
  -- The producers of the topics, and the world.
  abbrev pub MultiTopicProducer : Type 0
  MultiTopicProducer = List (Str × P) × W

  abbrev pub put_back :
      Str → List (Str × P) → Result ℕ Error × P × W → Result ℕ Error × MultiTopicProducer
  put_back topic producers (r, p, world) = (r, (Assoc.insert topic p producers, world))

  -- A producer that is there is used, else one is built, which may fail.
  abbrev pub on_built :
      Str → M → List (Str × P) → Result P Error × W → Result ℕ Error × MultiTopicProducer
  on_built topic message producers (err e, world) = (err e, (producers, world))
  on_built topic message producers (ok p, world) =
      put_back topic producers (out.send world p message)

  abbrev pub on_producer :
      Str → M → Option P → MultiTopicProducer → Result ℕ Error × MultiTopicProducer
  on_producer topic message none (producers, world) =
      on_built topic message producers (out.build world topic)
  on_producer topic message (some p) (producers, world) =
      put_back topic producers (out.send world p message)

  unfoldable pub send : Str → M → MultiTopicProducer → Result ℕ Error × MultiTopicProducer
  send topic message m = on_producer topic message (Assoc.lookup topic m.0) m

  unfoldable pub send_all :
      Str → List M → MultiTopicProducer → Result (List ℕ) Error × MultiTopicProducer
  unfolding send collect
  send_all topic messages m =
      let (sends, m) = send_each (send topic) messages m in (collect sends, m)

  abbrev pub remove_each : List Str → List (Str × P) → List (Str × P)
  remove_each [] producers = producers
  remove_each (topic ∷ topics) producers = remove_each topics (Assoc.remove topic producers)

  abbrev pub on_partitions :
      List (Str × P) → Result (List Str) Error × W → Result (Unit {0}) Error × MultiTopicProducer
  on_partitions producers (err e, world) = (err e, (producers, world))
  on_partitions producers (ok topics, world) = (ok tt, (remove_each topics producers, world))

  unfoldable pub close_producer :
      Str → MultiTopicProducer → Result (Unit {0}) Error × MultiTopicProducer
  close_producer topic (producers, world) =
      on_partitions producers (out.lookup_partitioned_topic world topic)

  -- `send_all` of the producer of one topic, on the producer that it chose.
  abbrev pub send_with : M → P × W → Result ℕ Error × (P × W)
  send_with message (p, world) = let (r, p, world) = out.send world p message in (r, (p, world))

  unfoldable pub send_all_with : List M → P × W → Result (List ℕ) Error × (P × W)
  unfolding collect
  send_all_with messages s = let (sends, s) = send_each send_with messages s in (collect sends, s)
