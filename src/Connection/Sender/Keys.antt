-- ===== src/Connection/Sender/Keys.antt =====
-- Each request is registered under the key of the message that it sends.
use pulsar_rs.Shared.{ℕ, ◌≡◌, refl, inl, inr, Bool, true, Option, List, [], ◌∷◌, ◌++◌, arith}
use pulsar_rs.Proto.{BaseCommand, Str, MessageIdData}
use pulsar_rs.Options.{ProducerOptions, ProducerMessage, ConsumerOptions, SubType}
use pulsar_rs.Message.Key.{Message, RequestKey, producer_send, request_id, request_key}
use pulsar_rs.Connection.Messages
use pulsar_rs.Connection.Receiver.{Register, request, consumer_channel}
use pulsar_rs.Connection.Receiver.Origin.{Answers}
use pulsar_rs.Connection.Sender.{Sender, Env}
use pulsar_rs.Connection.Sender as Methods

-- The methods that send a message and wait for its answer.
pub data Call : Type 0 where
  send : ℕ → ℕ → Str → ℕ → ProducerMessage → Call
  lookup_topic : Str → Bool → Call
  lookup_partitioned_topic : Str → Call
  get_consumer_stats get_last_message_id close_producer close_consumer unsubscribe : ℕ → Call
  create_producer : Str → ℕ → Option Str → ProducerOptions → Call
  get_topics_of_namespace : Str → ℕ → Call
  subscribe : ℕ → Str → Str → SubType → ℕ → Option Str → ConsumerOptions → Call
  seek : ℕ → Option MessageIdData → Option ℕ → Call

-- The sender after the call.
abbrev pub after : Call → Sender → Env → Sender
after (send now p name q m) s env = (Methods.send s env now p name q m).1
after (lookup_topic t a) s env = (Methods.lookup_topic s env t a).1
after (lookup_partitioned_topic t) s env = (Methods.lookup_partitioned_topic s env t).1
after (get_consumer_stats i) s env = (Methods.get_consumer_stats s env i).1
after (get_last_message_id i) s env = (Methods.get_last_message_id s env i).1
after (close_producer i) s env = (Methods.close_producer s env i).1
after (close_consumer i) s env = (Methods.close_consumer s env i).1
after (unsubscribe i) s env = (Methods.unsubscribe s env i).1
after (create_producer t i name o) s env = (Methods.create_producer s env t i name o).1
after (get_topics_of_namespace n m) s env = (Methods.get_topics_of_namespace s env n m).1
after (subscribe c t u ty i name o) s env = (Methods.subscribe s env c t u ty i name o).1
after (seek i m t) s env = (Methods.seek s env i m t).1

-- One message was sent, and the next oneshot channel was registered last, under a key that the
-- receiver takes from a message like it.
abbrev pub SendsKeyed : Sender → Sender → Type 0
SendsKeyed s s' =
    (m : Message) × (k : RequestKey) × (front : List Register) × (s'.tx ≡ s.tx ++ m ∷ [])
    × (s'.registrations ≡ front ++ request k s.next_channel ∷ [])
    × Answers m k

send_message-SendsKeyed :
    {R : Type 0} (s s' : Sender) (env : Env) (m : Message) (k : RequestKey)
    (extract : BaseCommand → Option R)
    → env.registrations_open ≡ true
    → env.tx_open ≡ true
    → s'.tx ≡ s.tx
    → s'.next_channel ≡ s.next_channel
    → Answers m k
    → SendsKeyed s (Methods.send_message s' env m k extract).1
unfolding Methods.send_message
send_message-SendsKeyed s s' env m k extract a b t n ans =
    (m, k, s'.registrations, ground arith, ground arith, ans)

numbered-SendsKeyed :
    {R : Type 0} (s : Sender) (env : Env) (m : ℕ → Message) (extract : BaseCommand → Option R)
    → env.registrations_open ≡ true
    → env.tx_open ≡ true
    → Answers (m s.request_id) (request_id s.request_id)
    → SendsKeyed s (Methods.numbered s env m extract).1
unfolding Methods.numbered
numbered-SendsKeyed s env m extract a b ans =
    send_message-SendsKeyed s (Methods.get s).1 env (m s.request_id) (request_id s.request_id)
      extract a b refl refl ans

-- While the receiver's channels are open, every call sends one message and registers the next oneshot
-- channel under the key of that message; a consumer is closed under its request id.
pub after-SendsKeyed :
    (c : Call) (s : Sender) (env : Env)
    → env.registrations_open ≡ true
    → env.tx_open ≡ true
    → SendsKeyed s (after c s env)
unfolding Methods.send Methods.lookup_topic Methods.lookup_partitioned_topic
    Methods.get_consumer_stats Methods.get_last_message_id Methods.close_producer
    Methods.close_consumer Methods.unsubscribe Methods.create_producer
    Methods.get_topics_of_namespace Methods.subscribe Methods.seek Messages.send
    Messages.lookup_topic Messages.lookup_partitioned_topic Messages.consumer_stats
    Messages.get_last_message_id Messages.close_producer Messages.close_consumer
    Messages.unsubscribe Messages.create_producer Messages.get_topics_of_namespace
    Messages.subscribe Messages.seek request_key
after-SendsKeyed (send now p name q m) s env a b =
    send_message-SendsKeyed s s env (Messages.send now p name q m) (producer_send p q)
      (λ c. c.send_receipt) a b refl refl (inl refl)
after-SendsKeyed (lookup_topic t x) s env a b =
    numbered-SendsKeyed s env (Messages.lookup_topic t x) (λ c. c.lookup_topic_response) a b
      (inl refl)
after-SendsKeyed (lookup_partitioned_topic t) s env a b =
    numbered-SendsKeyed s env (Messages.lookup_partitioned_topic t)
      (λ c. c.partition_metadata_response) a b (inl refl)
after-SendsKeyed (get_consumer_stats i) s env a b =
    numbered-SendsKeyed s env (λ id. Messages.consumer_stats id i) (λ c. c.consumer_stats_response)
      a b (inl refl)
after-SendsKeyed (get_last_message_id i) s env a b =
    numbered-SendsKeyed s env (Messages.get_last_message_id i) (λ c. c.get_last_message_id_response)
      a b (inl refl)
after-SendsKeyed (close_producer i) s env a b =
    numbered-SendsKeyed s env (Messages.close_producer i) (λ c. c.success) a b (inl refl)
after-SendsKeyed (close_consumer i) s env a b =
    numbered-SendsKeyed s env (Messages.close_consumer i) (λ c. c.success) a b
      (inr (i, s.request_id, refl, refl))
after-SendsKeyed (unsubscribe i) s env a b =
    numbered-SendsKeyed s env (Messages.unsubscribe i) (λ c. c.success) a b (inl refl)
after-SendsKeyed (create_producer t i name o) s env a b =
    numbered-SendsKeyed s env (λ id. Messages.create_producer t name i id o)
      (λ c. c.producer_success) a b (inl refl)
after-SendsKeyed (get_topics_of_namespace n m) s env a b =
    numbered-SendsKeyed s env (λ id. Messages.get_topics_of_namespace id n m)
      (λ c. c.get_topics_of_namespace_response) a b (inl refl)
after-SendsKeyed (subscribe c t u ty i name o) s env a b = (
  Messages.subscribe t u ty i s.request_id name o,
  request_id s.request_id,
  s.registrations ++ consumer_channel i c ∷ [],
  ground arith,
  ground arith,
  inl refl,
)
after-SendsKeyed (seek i m t) s env a b =
    numbered-SendsKeyed s env (λ id. Messages.seek i id m t) (λ c. c.success) a b (inl refl)
