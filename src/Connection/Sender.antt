-- ===== src/Connection/Sender.antt =====
-- `SerialId`, `ConnectionSender` and `extract_message` of src/connection.rs.
pub mod Ids
pub mod Keys
pub mod Outcome
use pulsar_rs.Shared.{
  ℕ, ◌+◌, ◌%◌, ◌^◌, Bool, ◌&&◌, Option, none, some, List, [], ◌∷◌, ◌++◌, if◌then◌else◌,
}
use pulsar_rs.Proto.{
  Str, MessageIdData, BaseCommand, CommandSendReceipt, CommandLookupTopicResponse,
  CommandPartitionedTopicMetadataResponse, CommandConsumerStatsResponse,
  CommandGetLastMessageIdResponse, CommandProducerSuccess, CommandGetTopicsOfNamespaceResponse,
  CommandSuccess,
}
use pulsar_rs.Options.{ProducerOptions, ProducerMessage, ConsumerOptions, SubType}
use pulsar_rs.Message.Key.{Message, RequestKey, request_id, producer_send}
use pulsar_rs.Errors.{ConnectionError, Result, ok, err}
use pulsar_rs.Errors
use pulsar_rs.Errors.Server.{server_error}
use pulsar_rs.Errors.SharedError.{SharedError}
use pulsar_rs.Errors.SharedError
use pulsar_rs.Connection.Receiver.{Register, request, consumer_channel, ping_request}
use pulsar_rs.Connection.Messages

-- `registrations` and `tx` list what was sent to these channels, in order. `next_channel` numbers the
-- oneshot channels that the sender makes.
pub record Sender : Type 0 where
  pub request_id : ℕ
  pub next_channel : ℕ
  pub error : SharedError
  pub registrations : List Register
  pub tx : List Message

-- How the wait for the answer ended: `select` of the answer and the delay.
pub data Response : Type 0 where
  answered : Message → Response
  canceled : Response
  timeout : Response

-- `ConnectionSender::new` on a new `SerialId`.
abbrev pub new : SharedError → Sender
new error = record { request_id = 0; next_channel = 0; error = error; registrations = []; tx = [] }

-- Whether the receiving halves are there, and the response.
pub record Env : Type 0 where
  pub registrations_open : Bool
  pub tx_open : Bool
  pub response : Response

-- `SerialId::get`: an atomic `fetch_add` on a usize of 64 bits.
unfoldable pub get : Sender → ℕ × Sender
get s = (s.request_id, record s { request_id = (s.request_id + 1) % 2 ^ 64 })

unfoldable pub extract_message {ℓ} :
    {R : Type ℓ} → Message → (BaseCommand → Option R) → Result R ConnectionError
extract_message message extract = elim message.command.error [
  | some e ↦ err (ConnectionError.pulsar_error (server_error e.error) (some e.message))
  | none ↦ elim (extract message.command) [
    | some r ↦ ok r
    | none ↦ err ConnectionError.unexpected_response
  ]
]

-- `unbounded_send` on the two channels; the oneshot channel of a registration is the next one.
unfoldable pub register : Sender → Env → (ℕ → Register) → Sender
register s env reg = record s {
  registrations =
      if env.registrations_open
      then s.registrations ++ reg s.next_channel ∷ []
      else s.registrations;
  next_channel = s.next_channel + 1;
}

unfoldable pub transmit : Sender → Env → Message → Sender
transmit s env msg = record s { tx = if env.tx_open then s.tx ++ msg ∷ [] else s.tx }

abbrev pub set_error : Sender → ConnectionError → Sender
set_error s e = record s { error = SharedError.set s.error e }

-- The future of `send_message`, once both sends succeeded.
unfoldable pub await_response {ℓ} :
    {R : Type ℓ} → Sender → Response → (BaseCommand → Option R) → Result R ConnectionError × Sender
unfolding extract_message
await_response s (answered m) extract = (extract_message m extract, s)
await_response s canceled extract =
    (err ConnectionError.disconnected, set_error s ConnectionError.disconnected)
await_response s timeout extract = (err (ConnectionError.io Errors.timed_out), s)

unfoldable pub send_message {ℓ} :
    {R : Type ℓ}
    → Sender
    → Env
    → Message
    → RequestKey
    → (BaseCommand → Option R)
    → Result R ConnectionError × Sender
unfolding register transmit await_response
send_message s env msg key extract =
    let s' = transmit (register s env (request key)) env msg in
    if env.registrations_open && env.tx_open
    then await_response s' env.response extract
    else (err ConnectionError.disconnected, s')

-- The requests that take a fresh request id.
unfoldable pub numbered {ℓ} :
    {R : Type ℓ}
    → Sender
    → Env
    → (ℕ → Message)
    → (BaseCommand → Option R)
    → Result R ConnectionError × Sender
unfolding get send_message
numbered s env msg extract =
    let (id, s') = get s in send_message s' env (msg id) (request_id id) extract

unfoldable pub send :
    Sender
    → Env
    → ℕ
    → ℕ
    → Str
    → ℕ
    → ProducerMessage
    → Result CommandSendReceipt ConnectionError × Sender
unfolding send_message
send s env now producer_id producer_name sequence_id message =
    send_message s env (Messages.send now producer_id producer_name sequence_id message)
      (producer_send producer_id sequence_id) (λ c. c.send_receipt)

-- The answer to a ping carries no message: `answered` stands for a pong.
unfoldable pub await_pong : Sender → Response → Result (Unit {0}) ConnectionError × Sender
await_pong s (answered m) = (ok tt, s)
await_pong s canceled = (err ConnectionError.disconnected, set_error s ConnectionError.disconnected)
await_pong s timeout =
    (err (ConnectionError.io Errors.timed_out), set_error s (ConnectionError.io Errors.timed_out))

unfoldable pub send_ping : Sender → Env → Result (Unit {0}) ConnectionError × Sender
unfolding register transmit await_pong
send_ping s env =
    let s' = transmit (register s env ping_request) env Messages.ping in
    if env.registrations_open && env.tx_open
    then await_pong s' env.response
    else (err ConnectionError.disconnected, s')

unfoldable pub lookup_topic :
    Sender → Env → Str → Bool → Result CommandLookupTopicResponse ConnectionError × Sender
unfolding numbered
lookup_topic s env topic authoritative =
    numbered s env (Messages.lookup_topic topic authoritative) (λ c. c.lookup_topic_response)

unfoldable pub lookup_partitioned_topic :
    Sender → Env → Str → Result CommandPartitionedTopicMetadataResponse ConnectionError × Sender
unfolding numbered
lookup_partitioned_topic s env topic =
    numbered s env (Messages.lookup_partitioned_topic topic) (λ c. c.partition_metadata_response)

unfoldable pub get_consumer_stats :
    Sender → Env → ℕ → Result CommandConsumerStatsResponse ConnectionError × Sender
unfolding numbered
get_consumer_stats s env consumer_id =
    numbered s env (λ id. Messages.consumer_stats id consumer_id) (λ c. c.consumer_stats_response)

unfoldable pub get_last_message_id :
    Sender → Env → ℕ → Result CommandGetLastMessageIdResponse ConnectionError × Sender
unfolding numbered
get_last_message_id s env consumer_id =
    numbered s env (Messages.get_last_message_id consumer_id) (λ c. c.get_last_message_id_response)

unfoldable pub create_producer :
    Sender
    → Env
    → Str
    → ℕ
    → Option Str
    → ProducerOptions
    → Result CommandProducerSuccess ConnectionError × Sender
unfolding numbered
create_producer s env topic producer_id producer_name options =
    numbered s env (λ id. Messages.create_producer topic producer_name producer_id id options)
      (λ c. c.producer_success)

unfoldable pub get_topics_of_namespace :
    Sender → Env → Str → ℕ → Result CommandGetTopicsOfNamespaceResponse ConnectionError × Sender
unfolding numbered
get_topics_of_namespace s env namespace mode =
    numbered s env (λ id. Messages.get_topics_of_namespace id namespace mode)
      (λ c. c.get_topics_of_namespace_response)

unfoldable pub close_producer : Sender → Env → ℕ → Result CommandSuccess ConnectionError × Sender
unfolding numbered
close_producer s env producer_id =
    numbered s env (Messages.close_producer producer_id) (λ c. c.success)

-- The request id is taken before the consumer's channel is registered.
unfoldable pub subscribe :
    Sender
    → Env
    → ℕ
    → Str
    → Str
    → SubType
    → ℕ
    → Option Str
    → ConsumerOptions
    → Result CommandSuccess ConnectionError × Sender
unfolding get send_message
subscribe s env resolver topic subscription sub_type consumer_id consumer_name options =
    let (id, s') = get s in
    let msg = Messages.subscribe topic subscription sub_type consumer_id id consumer_name options in
    if env.registrations_open
    then send_message
        (record s' {
          registrations = s'.registrations ++ consumer_channel consumer_id resolver ∷ [];
        })
        env msg (request_id id) (λ c. c.success)
    else (err ConnectionError.disconnected, set_error s' ConnectionError.disconnected)

-- The commands without an answer.
unfoldable pub post : Sender → Env → Message → Result (Unit {0}) ConnectionError × Sender
unfolding transmit
post s env msg =
    (if env.tx_open then ok tt else err ConnectionError.disconnected, transmit s env msg)

unfoldable pub send_flow : Sender → Env → ℕ → ℕ → Result (Unit {0}) ConnectionError × Sender
unfolding post
send_flow s env consumer_id message_permits = post s env (Messages.flow consumer_id message_permits)

unfoldable pub send_ack :
    Sender → Env → ℕ → List MessageIdData → Bool → Result (Unit {0}) ConnectionError × Sender
unfolding post
send_ack s env consumer_id message_ids cumulative =
    post s env (Messages.ack consumer_id message_ids cumulative)

unfoldable pub send_redeliver_unacknowleged_messages :
    Sender → Env → ℕ → List MessageIdData → Result (Unit {0}) ConnectionError × Sender
unfolding post
send_redeliver_unacknowleged_messages s env consumer_id message_ids =
    post s env (Messages.redeliver_unacknowleged_messages consumer_id message_ids)

unfoldable pub close_consumer : Sender → Env → ℕ → Result CommandSuccess ConnectionError × Sender
unfolding numbered
close_consumer s env consumer_id =
    numbered s env (Messages.close_consumer consumer_id) (λ c. c.success)

unfoldable pub seek :
    Sender
    → Env
    → ℕ
    → Option MessageIdData
    → Option ℕ
    → Result CommandSuccess ConnectionError × Sender
unfolding numbered
seek s env consumer_id message_id timestamp =
    numbered s env (λ id. Messages.seek consumer_id id message_id timestamp) (λ c. c.success)

unfoldable pub unsubscribe : Sender → Env → ℕ → Result CommandSuccess ConnectionError × Sender
unfolding numbered
unsubscribe s env consumer_id = numbered s env (Messages.unsubscribe consumer_id) (λ c. c.success)

-- The wait for exclusive access registers a key and sends nothing; it has no time limit.
unfoldable pub wait_for_exclusive_access :
    Sender → Env → ℕ → Result CommandProducerSuccess ConnectionError × Sender
unfolding register await_response
wait_for_exclusive_access s env id =
    let s' = register s env (request (request_id id)) in
    if env.registrations_open
    then await_response s' env.response (λ c. c.producer_success)
    else (err ConnectionError.disconnected, s')
