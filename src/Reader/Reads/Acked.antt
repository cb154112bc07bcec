-- ===== src/Reader/Reads/Acked.antt =====
-- What follows for the acks of a reader.
use pulsar_rs.Shared.{ℕ, ◌≡◌, refl, ap, ◌∙◌, false, Option, some, List, [], ◌∷◌, ◌++◌}
use pulsar_rs.Proto.{Str}
use pulsar_rs.Errors.{ConsumerError, Error, Result, ok, err}
use pulsar_rs.Consumer.Engine.{EngineMessage, ack}
use pulsar_rs.Consumer.Topic.{Poll, Message, Answer, TopicConsumer}
use pulsar_rs.Reader.{polling_consumer, Reader, new}
use pulsar_rs.Reader.Reads.{
  Reads, stops, waits, ends, fails, takes, acked, not_acked, run, run-Implements,
}

-- The acks of the messages that were returned.
abbrev pub acks_of : List (Result Message Error) → List EngineMessage
acks_of [] = []
acks_of (ok msg ∷ results) = ack msg.message_id false ∷ acks_of results
acks_of (err e ∷ results) = acks_of results

Reads-acks_of :
    (topic : Str) {held later : Option Message} {queue rest : List Answer}
    {results : List (Result Message Error)} {acks : List EngineMessage}
    → Reads topic held queue results acks later rest
    → acks ≡ acks_of results
Reads-acks_of topic (stops held rest) = refl
Reads-acks_of topic (waits t) = Reads-acks_of topic t
Reads-acks_of topic (ends t) = Reads-acks_of topic t
Reads-acks_of topic (fails e t) = Reads-acks_of topic t
Reads-acks_of topic (takes id payload t) = Reads-acks_of topic t
Reads-acks_of topic (acked msg t) = ap (◌∷◌ (ack msg.message_id false)) (Reads-acks_of topic t)
Reads-acks_of topic (not_acked msg e t) = Reads-acks_of topic t

-- A new reader, over every series of polls, does not panic, and the requests that it sent to its
-- consumer's engine are the acks of exactly the messages that it returned, in their order.
pub run-acks :
    (consumer : TopicConsumer) (ack_polls : List (Poll (Result (Unit {0}) ConsumerError)))
    (nows : List ℕ)
    → (results : List (Result Message Error)) × (r : Reader) × (run nows (new consumer ack_polls)
        ≡ some (results, r))
      × (r.consumer.requests ≡ consumer.requests ++ acks_of results)
unfolding new
run-acks consumer ack_polls nows =
    let (results, r, e, state, s, acks, t, q) =
      run-Implements nows (new consumer ack_polls) polling_consumer refl in
    (results, r, e, q ∙ ap (λ l. consumer.requests ++ l) (Reads-acks_of consumer.topic t))
