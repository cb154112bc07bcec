-- ===== src/Tests/Topics.antt =====
-- Two topics, of which one fails, and a third that a refresh finds.
use pulsar_rs.Shared.{ℕ, ◌%◌, ◌^◌, ◌≡◌, refl, true, none, some, List, [], ◌∷◌, list_eq, nat_eq}
use pulsar_rs.Shared.Assoc
use pulsar_rs.Proto.{Str}
use pulsar_rs.Errors.{custom, ok, err}
use pulsar_rs.Consumer.Topic.{Poll, pending, ready, Message, Answer}
use pulsar_rs.Consumer.Topic
use pulsar_rs.Consumer.Topics.{messages_received}
use pulsar_rs.Consumer.Topics.Polls.{Found, build}
use pulsar_rs.Consumer.Topics.Acks.{ack, cumulative_ack, nack, Routes, acks-Routes}
use pulsar_rs.Consumer.Topics.Queue.{IsConsistent}
use pulsar_rs.Consumer.Topics.Queue.Runs.{Use, polls, acks, run, run-IsConsistent}
use pulsar_rs.Consumer.Topics.Metrics.Returned
use pulsar_rs.Consumer.Topics.Metrics.Returned.{polls-received}
use pulsar_rs.Tests.Engine.{entry, content_of}

abbrev item : ℕ → Answer
item n = ready (some (ok (entry n, content_of (n ∷ []))))

abbrev joined : List (ℕ × Str × List Answer)
joined =
    (1, 65 ∷ [], item 5 ∷ pending ∷ ready (some (err custom)) ∷ [])
    ∷ (2, 66 ∷ [], pending ∷ item 6 ∷ ready none ∷ [])
    ∷ []

abbrev matched : List (ℕ × Str × List Answer)
matched = (3, 65 ∷ [], []) ∷ (4, 67 ∷ [], item 7 ∷ []) ∷ []

abbrev message_of : ℕ → ℕ → Message
message_of topic n = record {
  topic = topic ∷ [];
  payload = content_of (n ∷ []);
  message_id = record { id = entry n; batch_size = none };
}

abbrev uses : List Use
uses =
    polls 1 [] pending
    ∷ acks (message_of 65 5)
    ∷ polls 2 (pending ∷ []) (ready (ok matched))
    ∷ polls 3 [] pending
    ∷ polls 4 [] pending
    ∷ []

run-IsConsistent_example : IsConsistent (run uses (build true joined []))
run-IsConsistent_example = run-IsConsistent true joined [] uses

abbrev polled : List (ℕ × List Found × Found)
polled = (1, [], pending) ∷ (2, pending ∷ [], ready (ok matched)) ∷ (3, [], pending) ∷ []

polls-received_example :
    messages_received (Returned.polls polled (build true joined [])).1
    ≡ (Returned.polls polled (build true joined [])).0 % 2 ^ 64
polls-received_example = polls-received true joined [] polled

acks-Routes_example :
    Routes
      (Topic.ack_message (message_of 65 5))
      (65 ∷ [])
      (build true joined [])
      (ack (message_of 65 5) (build true joined []))
    × Routes
        (Topic.cumulative_ack (message_of 65 5))
        (65 ∷ [])
        (build true joined [])
        (cumulative_ack (message_of 65 5) (build true joined []))
    × Routes
        (Topic.nack_message (message_of 65 5))
        (65 ∷ [])
        (build true joined [])
        (nack (message_of 65 5) (build true joined []))
acks-Routes_example = acks-Routes (message_of 65 5) (build true joined [])

-- Three polls return the three messages.
three_messages : (Returned.polls polled (build true joined [])).0 ≡ 3
unfolding build pulsar_rs.Consumer.Topics.Polls.poll_next Assoc.remove Assoc.insert Assoc.lookup
    Topic.new
three_messages = refl
