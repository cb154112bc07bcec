-- ===== src/Reader/Reads.antt =====
-- The reader as a machine over the answers of its consumer's channel.
pub mod Acked
use pulsar_rs.Shared.{
  ℕ, ◌≡◌, refl, sym, ap, ◌∙◌, subst, Bool, true, false, Option, none, some, List, [], ◌∷◌, ◌++◌,
  append_assoc, append-nil, arith,
}
use pulsar_rs.Proto.{Str, MessageIdData}
use pulsar_rs.Errors.{ConsumerError, Error, consumer_error, Result, ok, err}
use pulsar_rs.Message.Key.{Payload}
use pulsar_rs.Consumer.Engine.{EngineMessage, ack}
use pulsar_rs.Consumer.Topic.{
  Poll, pending, ready, Message, Answer, TopicConsumer, on_answer, first, create_message,
}
use pulsar_rs.Consumer.Topic
use pulsar_rs.Reader.{
  State, polling_consumer, polling_ack, Reader, new, Outcome, panics, polled, first_ack, sent,
  on_ack, poll_ack, on_item, poll_consumer, on_state, poll_next,
}

-- The message of an item of the channel.
abbrev pub message_of : Str → MessageIdData → Payload → Message
message_of topic id payload = record {
  topic = topic;
  payload = payload;
  message_id = record { id = id; batch_size = payload.metadata.num_messages_in_batch };
}

-- From a message that is held and the answers that come: the results that are returned and the acks
-- that are sent, in order, and the message that is held and the answers that are left at the end.
pub data Reads (topic : Str)
    : Option Message
      → List Answer
      → List (Result Message Error)
      → List EngineMessage
      → Option Message
      → List Answer
      → Type 0 where
  stops : (held : Option Message) (rest : List Answer) → Reads topic held rest [] [] held rest
  waits :
      {queue rest : List Answer} {results : List (Result Message Error)} {acks : List EngineMessage}
      {held : Option Message}
      → Reads topic none queue results acks held rest
      → Reads topic none (pending ∷ queue) results acks held rest
  ends :
      {queue rest : List Answer} {results : List (Result Message Error)} {acks : List EngineMessage}
      {held : Option Message}
      → Reads topic none queue results acks held rest
      → Reads topic none (ready none ∷ queue) results acks held rest
  fails :
      {queue rest : List Answer} {results : List (Result Message Error)} {acks : List EngineMessage}
      {held : Option Message} (e : Error)
      → Reads topic none queue results acks held rest
      → Reads topic none (ready (some (err e)) ∷ queue) (err e ∷ results) acks held rest
  takes :
      {queue rest : List Answer} {results : List (Result Message Error)} {acks : List EngineMessage}
      {held : Option Message} (id : MessageIdData) (payload : Payload)
      → Reads topic (some (message_of topic id payload)) queue results acks held rest
      → Reads topic none (ready (some (ok (id, payload))) ∷ queue) results acks held rest
  acked :
      {queue rest : List Answer} {results : List (Result Message Error)} {acks : List EngineMessage}
      {held : Option Message} (msg : Message)
      → Reads topic none queue results acks held rest
      → Reads topic (some msg) queue (ok msg ∷ results) (ack msg.message_id false ∷ acks) held rest
  not_acked :
      {queue rest : List Answer} {results : List (Result Message Error)} {acks : List EngineMessage}
      {held : Option Message} (msg : Message) (e : ConsumerError)
      → Reads topic none queue results acks held rest
      → Reads topic (some msg) queue (err (consumer_error e) ∷ results) acks held rest

-- A series of polls, with the results that they returned; `none` is a panic.
abbrev pub with_result :
    Poll (Option (Result Message Error))
    → Option (List (Result Message Error) × Reader)
    → Option (List (Result Message Error) × Reader)
with_result item none = none
with_result pending (some (results, r)) = some (results, r)
with_result (ready none) (some (results, r)) = some (results, r)
with_result (ready (some result)) (some (results, r)) = some (result ∷ results, r)

abbrev pub then_run :
    (Reader → Option (List (Result Message Error) × Reader))
    → Outcome × Reader
    → Option (List (Result Message Error) × Reader)
then_run rest (panics, r) = none
then_run rest (polled item, r) = with_result item (rest r)

abbrev pub run : List ℕ → Reader → Option (List (Result Message Error) × Reader)
run [] r = some ([], r)
run (now ∷ nows) r = then_run (run nows) (poll_next now r)

abbrev pub held_of : State → Option Message
held_of polling_consumer = none
held_of (polling_ack msg) = some msg

-- The polls return these results without a panic, by steps of the machine, and the acks are the requests
-- that the consumer's engine has more than before.
abbrev pub Implements :
    Str
    → Option Message
    → List Answer
    → List EngineMessage
    → Option (List (Result Message Error) × Reader)
    → Type 0
Implements topic held queue requests o =
    (results : List (Result Message Error)) × (r : Reader) × (o ≡ some (results, r))
    × (state : State) × (r.state ≡ some state)
    × (acks : List EngineMessage) × Reads topic held queue results acks (held_of state)
        r.consumer.messages
    × (r.consumer.requests ≡ requests ++ acks)

-- The results of a poll.
abbrev results_of : Poll (Option (Result Message Error)) → List (Result Message Error)
results_of pending = []
results_of (ready none) = []
results_of (ready (some result)) = result ∷ []

with_result-some :
    (item : Poll (Option (Result Message Error))) (results : List (Result Message Error))
    (r : Reader)
    → with_result item (some (results, r)) ≡ some (results_of item ++ results, r)
with_result-some pending results r = refl
with_result-some (ready none) results r = refl
with_result-some (ready (some result)) results r = refl

-- The steps of one poll before those of the polls that follow.
abbrev Prefix :
    Str
    → Option Message
    → List Answer
    → List (Result Message Error)
    → List EngineMessage
    → Option Message
    → List Answer
    → Type 0
Prefix topic before long returned more after short =
    (results : List (Result Message Error)) (acks : List EngineMessage) (held : Option Message)
    (rest : List Answer)
    → Reads topic after short results acks held rest
    → Reads topic before long (returned ++ results) (more ++ acks) held rest

prepend-Implements :
    (topic : Str) (item : Poll (Option (Result Message Error))) {before after : Option Message}
    {long short : List Answer} (requests more : List EngineMessage) {later : List EngineMessage}
    {o : Option (List (Result Message Error) × Reader)}
    → Prefix topic before long (results_of item) more after short
    → later ≡ requests ++ more
    → Implements topic after short later o
    → Implements topic before long requests (with_result item o)
prepend-Implements topic item requests more f l (results, r, e, state, s, acks, t, q) = (
  results_of item ++ results,
  r,
  ap (with_result item) e ∙ with_result-some item results r,
  state,
  s,
  more ++ acks,
  f results acks (held_of state) r.consumer.messages t,
  q ∙ ap (λ l. l ++ acks) l ∙ append_assoc requests more acks,
)

take-Implements :
    (topic : Str) (id : MessageIdData) (payload : Payload) {queue : List Answer}
    (requests : List EngineMessage) {o : Option (List (Result Message Error) × Reader)}
    → Implements topic (some (message_of topic id payload)) queue requests o
    → Implements topic none (ready (some (ok (id, payload))) ∷ queue) requests o
take-Implements topic id payload requests (results, r, e, state, s, acks, t, q) =
    (results, r, e, state, s, acks, takes id payload t, q)

module _ (rest : Reader → Option (List (Result Message Error) × Reader))
    (next : (r : Reader) (state : State)
      → r.state ≡ some state
      → Implements r.consumer.topic
          (held_of state)
          r.consumer.messages
          r.consumer.requests
          (rest r)) where
  on_ack-Implements :
      (msg : Message) (r : Reader) (answer : Poll (Result (Unit {0}) ConsumerError))
      → Implements r.consumer.topic
          (some msg)
          r.consumer.messages
          r.consumer.requests
          (then_run rest (on_ack msg r answer))
  unfolding on_ack sent
  on_ack-Implements msg r pending =
      prepend-Implements r.consumer.topic pending r.consumer.requests []
        (λ results acks held rest t. t) (sym (append-nil _))
        (next (record r { state = some (polling_ack msg) }) (polling_ack msg) refl)
  on_ack-Implements msg r (ready (ok u)) =
      prepend-Implements r.consumer.topic (ready (some (ok msg))) r.consumer.requests
        (ack msg.message_id false ∷ []) (λ results acks held rest t. acked msg t) refl
        (next (sent msg (record r { state = some polling_consumer })) polling_consumer refl)
  on_ack-Implements msg r (ready (err e)) =
      prepend-Implements r.consumer.topic (ready (some (err (consumer_error e))))
        r.consumer.requests [] (λ results acks held rest t. not_acked msg e t) (sym (append-nil _))
        (next (record r { state = some polling_consumer }) polling_consumer refl)

  poll_ack-Implements :
      (msg : Message) (r : Reader)
      → Implements r.consumer.topic
          (some msg)
          r.consumer.messages
          r.consumer.requests
          (then_run rest (poll_ack msg r))
  unfolding poll_ack
  poll_ack-Implements msg r =
      on_ack-Implements msg (record r { ack_polls = (first_ack r.ack_polls).1 })
        (first_ack r.ack_polls).0

  -- The next answer of the consumer's channel.
  poll_consumer-Implements :
      (now : ℕ) (r : Reader) (queue : List Answer)
      → Implements r.consumer.topic none queue r.consumer.requests (
          then_run rest
            (poll_consumer now (record r { consumer = record r.consumer { messages = queue } })))
  unfolding poll_consumer on_item Topic.poll_next on_answer create_message
  poll_consumer-Implements now r [] =
      prepend-Implements r.consumer.topic pending r.consumer.requests []
        (λ results acks held rest t. t) (sym (append-nil _))
        (next
          (record r {
            consumer = record r.consumer { messages = [] };
            state = some polling_consumer;
          })
          polling_consumer refl)
  poll_consumer-Implements now r (pending ∷ queue) =
      prepend-Implements r.consumer.topic pending r.consumer.requests []
        (λ results acks held rest t. waits t) (sym (append-nil _))
        (next
          (record r {
            consumer = record r.consumer { messages = queue };
            state = some polling_consumer;
          })
          polling_consumer refl)
  poll_consumer-Implements now r (ready none ∷ queue) =
      prepend-Implements r.consumer.topic (ready none) r.consumer.requests []
        (λ results acks held rest t. ends t) (sym (append-nil _))
        (next
          (record r {
            consumer = record r.consumer { messages = queue };
            state = some polling_consumer;
          })
          polling_consumer refl)
  poll_consumer-Implements now r (ready (some (err e)) ∷ queue) =
      prepend-Implements r.consumer.topic (ready (some (err e))) r.consumer.requests []
        (λ results acks held rest t. fails e t) (sym (append-nil _))
        (next
          (record r {
            consumer = record r.consumer { messages = queue };
            state = some polling_consumer;
          })
          polling_consumer refl)
  poll_consumer-Implements now r (ready (some (ok (id, payload))) ∷ queue) =
      take-Implements r.consumer.topic id payload r.consumer.requests (
        poll_ack-Implements (message_of r.consumer.topic id payload) (record r {
          consumer =
              (on_answer now (record r.consumer { messages = queue })
                (ready (some (ok (id, payload))))).1;
          state = some (polling_ack (message_of r.consumer.topic id payload));
        }))

  abbrev Goal : ℕ → Reader → Option State → State → Type 0
  Goal now r o state =
      Implements r.consumer.topic (held_of state) r.consumer.messages r.consumer.requests
        (then_run rest (on_state now o r))

  poll_next-Implements :
      (now : ℕ) (r : Reader) (o : Option State) (state : State)
      → o ≡ some state
      → Goal now r o state
  unfolding on_state
  poll_next-Implements now r none state q = absurd cc
  poll_next-Implements now r (some polling_consumer) state q =
      let same : polling_consumer ≡ state = cc in
      subst (λ state. Goal now r (some polling_consumer) state) same
        (poll_consumer-Implements now r r.consumer.messages)
  poll_next-Implements now r (some (polling_ack msg)) state q =
      let same : polling_ack msg ≡ state = cc in
      subst (λ state. Goal now r (some (polling_ack msg)) state) same (poll_ack-Implements msg r)

-- A reader with a state, which is how it is made, never panics over a series of polls: what it returns
-- and the acks that it sends are those of the machine over the answers of its consumer's channel. Each
-- item of the channel is taken in order; a message is returned only after its ack was sent, or an error
-- in its place if the ack could not be sent; an error of the channel is returned as it is; and at most
-- one message is held, whose ack is under way.
pub run-Implements :
    (nows : List ℕ) (r : Reader) (state : State)
    → r.state ≡ some state
    → Implements r.consumer.topic
        (held_of state)
        r.consumer.messages
        r.consumer.requests
        (run nows r)
unfolding poll_next
run-Implements [] r state q =
    ([], r, refl, state, q, [], stops (held_of state) r.consumer.messages, sym (append-nil _))
run-Implements (now ∷ nows) r state q =
    poll_next-Implements (run nows) (run-Implements nows) now (record r { state = none }) r.state
      state q
