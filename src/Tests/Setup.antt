-- ===== src/Tests/Setup.antt =====
-- A broker that is not ready once, and a producer of several topics one of whose messages fails.
use pulsar_rs.Shared.{
  ℕ, zero, suc, ◌+◌, ◌≡◌, refl, arith, map_option, true, none, some, List, [], ◌∷◌, Returns,
  list_eq, nat_eq,
}
use pulsar_rs.Shared.Assoc
use pulsar_rs.Proto.{CommandProducerSuccess}
use pulsar_rs.Errors.{ConnectionError, Error, custom, producer_error, partial_send, Result, ok, err}
use pulsar_rs.Errors
use pulsar_rs.Errors.Server.{service_not_ready}
use pulsar_rs.Options.{ProducerOptions, shared}
use pulsar_rs.Producer.Topics.{Producers, send_all, send_all_with, send, send_with}
use pulsar_rs.Producer.Topics.SendAll.{Answers, send_all-Tells}
use pulsar_rs.Setup.{Client, ConsumerConfig, from_connection, new}
use pulsar_rs.Setup.Starts.{LookupsEnd, IsStarted, new-IsStarted}
use pulsar_rs.Tests.Engine.{options}

abbrev reply {ℓ} : {A : Type ℓ} → A → ℕ → Result A ConnectionError
reply a zero = err (ConnectionError.pulsar_error (some service_not_ready) none)
reply a (suc n) = ok a

abbrev success : CommandProducerSuccess
success = record { request_id = 1; producer_name = 110 ∷ []; producer_ready = some true }

-- The world counts the requests.
abbrev client : Client ℕ
client = record {
  create_producer = λ world topic id name options. (reply success world, world + 1);
  wait_for_exclusive_access = λ world id. world;
  get_connection = λ world. (ok tt, world);
  find_again = λ world topic. some (ok tt, world);
  subscribe = λ world topic subscription sub_type id name options. (reply tt world, world + 1);
  send_flow = λ world id permits. (ok tt, world);
  spawn = λ world. (true, world);
}

client_ends : LookupsEnd client
client_ends world topic = refl

abbrev producer_options : ProducerOptions
producer_options = record {
  encrypted = none;
  metadata = [];
  schema = none;
  batch_size = some 3;
  compression = none;
  access_mode = none;
}

abbrev config : ConsumerConfig
config = record {
  subscription = 83 ∷ [];
  sub_type = shared;
  batch_size = none;
  consumer_name = none;
  consumer_id = some 5;
  unacked_message_redelivery_delay = some 9;
  options = options;
  dead_letter_policy = none;
}

new-IsStarted_example :
    Returns
      (IsStarted client client_ends 2 (omega arith) config 5 (84 ∷ []))
      (new client 3 (some 2) config 6 (84 ∷ []) [] 0)
new-IsStarted_example = new-IsStarted client client_ends 2 (omega arith) config 6 (84 ∷ []) [] 0

-- A producer is a number, and so is a message; the message 0 cannot be sent.
abbrev sent_with : ℕ → Result ℕ Error
sent_with zero = err custom
sent_with (suc n) = ok n

abbrev producers : Producers ℕ ℕ ℕ
producers = record {
  build = λ world topic. (ok world, world + 1);
  send = λ world p message. (sent_with message, p, world + 1);
  lookup_partitioned_topic = λ world topic. (ok (topic ∷ []), world);
}

abbrev messages : List ℕ
messages = 4 ∷ 0 ∷ 6 ∷ []

send_all-Tells_example :
    Answers
      (send producers (84 ∷ []))
      messages
      ([], 0)
      (send_all producers (84 ∷ []) messages ([], 0))
    × Answers (send_with producers) messages (8, 0) (send_all_with producers messages (8, 0))
send_all-Tells_example = send_all-Tells producers (84 ∷ []) messages ([], 0) 8 0

-- The second message fails, and the error tells it.
partial :
    (send_all producers (84 ∷ []) messages ([], 0)).0
    ≡ err (
        producer_error
          (partial_send (Errors.sent 3 (Errors.failed custom (Errors.sent 5 Errors.done)))))
unfolding send_all Assoc.lookup Assoc.insert Assoc.remove
partial = refl

-- One retry, and the producer has the broker's name.
created :
    map_option
      (λ r. elim r.0 [ ok p ↦ p.name | err e ↦ [] ])
      (from_connection client 3 (some 2) 7 (84 ∷ []) none producer_options 0)
    ≡ some (110 ∷ [])
unfolding from_connection
created = refl
