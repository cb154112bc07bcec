-- ===== src/Setup.antt =====
-- How a producer and a consumer of one topic are made: `TopicProducer::from_connection` of
-- src/producer.rs and `TopicConsumer::new` of src/consumer.rs.
pub mod Starts
use pulsar_rs.Shared.{
  ℕ, zero, suc, ◌+◌, ◌%◌, ◌^◌, Bool, true, false, ◌&&◌, Option, none, some, List, ltb,
  if◌then◌else◌, is_some, unwrap_or, map_option,
}
use pulsar_rs.Proto.{Str, CommandProducerSuccess}
use pulsar_rs.Errors.{
  ConnectionError, ConsumerError, Error, connection_error, consumer_error, executor, Result, ok,
  err,
}
use pulsar_rs.Errors.Server.{service_not_ready}
use pulsar_rs.Options.{ProducerOptions, ConsumerOptions, SubType, DeadLetterPolicy}
use pulsar_rs.Producer.Batch
use pulsar_rs.Producer.Topic.{TopicProducer}
use pulsar_rs.Consumer.Topic.{TopicConsumer, Answer}
use pulsar_rs.Consumer.Topic
use pulsar_rs.Consumer.Engine.{ConsumerEngine}
use pulsar_rs.Consumer.Engine

abbrev pub is_service_not_ready : ConnectionError → Bool
is_service_not_ready (ConnectionError.pulsar_error (some service_not_ready) text) = true
is_service_not_ready e = false

abbrev pub may_retry : Option ℕ → ℕ → Bool
may_retry none current_retries = true
may_retry (some max_retries) current_retries = ltb current_retries max_retries

-- The loop that both have: a request, and after ServiceNotReady the next one on the connection that is
-- found after a delay. `none` is a loop that has not ended after `fuel` requests, or one whose search
-- for a connection, which looks the topic up, does not end.
module _ {W A : Type 0} (request : W → Result A ConnectionError × W)
    (find_again : W → Option (Result (Unit {0}) Error × W)) (max_retries : Option ℕ) where
  abbrev pub on_found :
      (W → Option (Result A Error × W))
      → Option (Result (Unit {0}) Error × W)
      → Option (Result A Error × W)
  on_found rest none = none
  on_found rest (some (ok u, world)) = rest world
  on_found rest (some (err e, world)) = some (err e, world)

  abbrev pub on_reply :
      (W → Option (Result A Error × W))
      → ℕ
      → Result A ConnectionError × W
      → Option (Result A Error × W)
  on_reply rest current_retries (ok a, world) = some (ok a, world)
  on_reply rest current_retries (err e, world) =
      if is_service_not_ready e && may_retry max_retries current_retries
      then on_found rest (find_again world)
      else some (err (connection_error e), world)

  unfoldable pub attempts : ℕ → ℕ → W → Option (Result A Error × W)
  attempts zero current_retries world = none
  attempts (suc fuel) current_retries world =
      on_reply (attempts fuel ((current_retries + 1) % 2 ^ 32)) current_retries (request world)

-- The client and its connections, over the state `W` of the world outside.
pub record Client (W : Type 0) : Type 0 where
  pub create_producer :
      W → Str → ℕ → Option Str → ProducerOptions → Result CommandProducerSuccess ConnectionError × W
  -- Its result is not used.
  pub wait_for_exclusive_access : W → ℕ → W
  -- The connection to the address that is given.
  pub get_connection : W → Result (Unit {0}) ConnectionError × W
  -- A delay, `lookup_topic` and `get_connection`; `none` is a lookup that does not end.
  pub find_again : W → Str → Option (Result (Unit {0}) Error × W)
  pub subscribe :
      W
      → Str
      → Str
      → SubType
      → ℕ
      → Option Str
      → ConsumerOptions
      → Result (Unit {0}) ConnectionError × W
  pub send_flow : W → ℕ → ℕ → Result (Unit {0}) ConnectionError × W
  -- Whether the executor takes a task.
  pub spawn : W → Bool × W

pub record ConsumerConfig : Type 0 where
  pub subscription : Str
  pub sub_type : SubType
  pub batch_size : Option ℕ
  pub consumer_name : Option Str
  pub consumer_id : Option ℕ
  pub unacked_message_redelivery_delay : Option ℕ
  pub options : ConsumerOptions
  pub dead_letter_policy : Option DeadLetterPolicy

module _ {W : Type 0} (client : Client W) (fuel : ℕ) (max_retries : Option ℕ) where
  -- A producer that is not ready yet waits for the topic.
  abbrev pub wait_if : Option Bool → ℕ → W → W
  wait_if none id world = world
  wait_if (some true) id world = world
  wait_if (some false) id world = client.wait_for_exclusive_access world id

  abbrev pub made :
      ℕ
      → Str
      → ProducerOptions
      → Result CommandProducerSuccess Error × W
      → Result TopicProducer Error × W
  made id topic options (err e, world) = (err e, world)
  made id topic options (ok success, world) = (
    ok (record {
      id = id;
      name = success.producer_name;
      topic = topic;
      message_id = 0;
      batch = map_option Batch.new options.batch_size;
      compression = options.compression;
      options = options;
    }),
    wait_if success.producer_ready success.request_id world,
  )

  -- `producer_id` is random.
  unfoldable pub from_connection :
      ℕ → Str → Option Str → ProducerOptions → W → Option (Result TopicProducer Error × W)
  unfolding attempts Batch.new
  from_connection producer_id topic name options world =
      map_option (made producer_id topic options) (
        attempts (λ world. client.create_producer world topic producer_id name options)
          (λ world. client.find_again world topic) max_retries fuel 0 world)

  -- The consumer with its engine, whose channel of messages is `messages`.
  abbrev pub Started : Type 0
  Started = TopicConsumer × ConsumerEngine W

  abbrev pub on_spawned : Started → Bool × W → Result Started Error × W
  on_spawned started (true, world) = (ok started, world)
  on_spawned started (false, world) = (err executor, world)

  -- The ticks of the redelivery need a task of their own.
  abbrev pub on_ticker : Started → Bool → Bool × W → Result Started Error × W
  on_ticker started false (b, world) = on_spawned started (client.spawn world)
  on_ticker started true (false, world) = (err executor, world)
  on_ticker started true (true, world) = on_spawned started (client.spawn world)

  abbrev pub ticker : Bool → W → Bool × W
  ticker true world = client.spawn world
  ticker false world = (true, world)

  abbrev pub on_flow :
      ConsumerConfig
      → ℕ
      → Str
      → List Answer
      → Result (Unit {0}) ConnectionError × W
      → Result Started Error × W
  on_flow config id topic messages (err e, world) =
      (err (consumer_error (ConsumerError.connection e)), world)
  on_flow config id topic messages (ok u, world) =
      let delayed = is_some config.unacked_message_redelivery_delay in
      on_ticker
        (
          Topic.new id topic messages,
          Engine.new topic config.subscription config.sub_type id config.consumer_name
              (unwrap_or config.batch_size 1000) config.unacked_message_redelivery_delay
              config.dead_letter_policy config.options world,
        )
        delayed (ticker delayed (client.spawn world).1)

  abbrev pub on_subscribed :
      ConsumerConfig
      → ℕ
      → Str
      → List Answer
      → Result (Unit {0}) Error × W
      → Result Started Error × W
  on_subscribed config id topic messages (err e, world) = (err e, world)
  on_subscribed config id topic messages (ok u, world) =
      on_flow config id topic messages
        (client.send_flow world id (unwrap_or config.batch_size 1000))

  abbrev pub on_connected :
      ConsumerConfig
      → ℕ
      → Str
      → List Answer
      → Result (Unit {0}) ConnectionError × W
      → Option (Result Started Error × W)
  on_connected config id topic messages (err e, world) = some (err (connection_error e), world)
  on_connected config id topic messages (ok u, world) =
      map_option (on_subscribed config id topic messages) (
        attempts
          (λ world.
            client.subscribe world topic config.subscription config.sub_type id config.consumer_name
              config.options)
          (λ world. client.find_again world topic) max_retries fuel 0 world)

  -- `random` is the id of a consumer that is given none.
  unfoldable pub new :
      ConsumerConfig → ℕ → Str → List Answer → W → Option (Result Started Error × W)
  unfolding attempts Topic.new Engine.new
  new config random topic messages world =
      on_connected config (unwrap_or config.consumer_id random) topic messages
        (client.get_connection world)
