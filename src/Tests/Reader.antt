-- ===== src/Tests/Reader.antt =====
-- A reader of two messages and an error, one of whose acks takes two polls.
use pulsar_rs.Shared.{ℕ, ◌≡◌, refl, true, none, some, List, [], ◌∷◌, ◌++◌}
use pulsar_rs.Errors.{ConsumerError, Error, custom, Result, ok, err}
use pulsar_rs.Consumer.Topic.{Poll, pending, ready, Message, Answer, TopicConsumer}
use pulsar_rs.Reader.{polling_consumer, Reader, new}
use pulsar_rs.Reader.Reads.{Implements, run, run-Implements}
use pulsar_rs.Reader.Reads.Acked.{acks_of, run-acks}
use pulsar_rs.Tests.Engine.{entry, content_of}

abbrev answers : List Answer
answers =
    ready (some (ok (entry 5, content_of (5 ∷ []))))
    ∷ pending
    ∷ ready (some (err custom))
    ∷ ready (some (ok (entry 6, content_of (6 ∷ []))))
    ∷ []

abbrev consumer : TopicConsumer
consumer = record {
  consumer_id = 1;
  topic = 65 ∷ [];
  messages = answers;
  engine_is_open = true;
  requests = [];
  last_message_received = none;
  messages_received = 0;
}

abbrev ack_polls : List (Poll (Result (Unit {0}) ConsumerError))
ack_polls = pending ∷ ready (ok tt) ∷ ready (err ConsumerError.closed) ∷ []

abbrev nows : List ℕ
nows = 1 ∷ 2 ∷ 3 ∷ 4 ∷ 5 ∷ []

run-Implements_example : Implements (65 ∷ []) none answers [] (run nows (new consumer ack_polls))
unfolding new
run-Implements_example = run-Implements nows (new consumer ack_polls) polling_consumer refl

run-acks_example :
    (results : List (Result Message Error)) × (r : Reader) × (run nows (new consumer ack_polls)
      ≡ some (results, r))
    × (r.consumer.requests ≡ [] ++ acks_of results)
run-acks_example = run-acks consumer ack_polls nows
