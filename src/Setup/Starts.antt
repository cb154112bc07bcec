-- ===== src/Setup/Starts.antt =====
-- Both loops end, and what they start is ready for use.
use pulsar_rs.Shared.{
  ℕ, zero, suc, ◌+◌, ◌%◌, ◌^◌, ◌≡◌, ◌<◌, ◌≤◌, refl, ap, Bool, true, false, ◌&&◌, Option, none, some,
  List, [], ltb, unwrap_or, map_option, Returns, Bool-cases, inl, inr, arith, is_some,
}
use pulsar_rs.Proto.{Str, CommandProducerSuccess}
use pulsar_rs.Errors.{ConnectionError, Error, Result, ok, err}
use pulsar_rs.Options.{ProducerOptions}
use pulsar_rs.Producer.Batch
use pulsar_rs.Producer.Topic.{TopicProducer}
use pulsar_rs.Producer.Send.Receipts.{IsOpen, waiting}
use pulsar_rs.Consumer.Topic.{TopicConsumer, Answer}
use pulsar_rs.Consumer.Topic
use pulsar_rs.Consumer.Permits
use pulsar_rs.Consumer.Engine.{ConsumerEngine}
use pulsar_rs.Consumer.Engine
use pulsar_rs.Setup.{
  is_service_not_ready, on_found, on_reply, attempts, Client, ConsumerConfig, Started, on_spawned,
  on_ticker, on_flow, on_subscribed, on_connected, new,
}

-- The searches for a connection end. `lookup_topic-Told` of Discovery/Topic/Ends says when they do.
abbrev pub LookupsEnd : {W : Type 0} → Client W → Type 0
LookupsEnd {W} client = (world : W) (topic : Str) → is_some (client.find_again world topic) ≡ true

module _ {W A : Type 0} (request : W → Result A ConnectionError × W)
    (find_again : W → Option (Result (Unit {0}) Error × W))
    (ends : (world : W) → is_some (find_again world) ≡ true) (max : ℕ) (bound : max < 2 ^ 32) where
  -- A value comes from an answer to the request.
  abbrev pub Replied : Result A Error × W → Type 0
  Replied (ok a, world) = (asked : W) × (request asked ≡ (ok a, world))
  Replied (err e, world) = Unit {0}

  on_found-Returns :
      (rest : W → Option (Result A Error × W)) (r : Option (Result (Unit {0}) Error × W))
      → is_some r ≡ true
      → ((world : W) → Returns Replied (rest world))
      → Returns Replied (on_found request find_again (some max) rest r)
  on_found-Returns rest none t h = absurd (ground (arith, t))
  on_found-Returns rest (some (ok u, world)) t h = h world
  on_found-Returns rest (some (err e, world)) t h = (_, refl, tt)

  on_reply-Returns :
      (rest : W → Option (Result A Error × W)) (n : ℕ) (asked : W) (r : Result A ConnectionError)
      (world : W)
      → request asked ≡ (r, world)
      → (n < max → (world : W) → Returns Replied (rest world))
      → Returns Replied (on_reply request find_again (some max) rest n (r, world))
  on_reply-Returns rest n asked (ok a) world q h = (_, refl, (asked, q))
  on_reply-Returns rest n asked (err e) world q h =
      elim (Bool-cases (is_service_not_ready e && ltb n max)) [
        | inr t ↦ rw t (_, refl, tt)
        | inl t ↦
            rw t (on_found-Returns rest (find_again world) (ends world) (h (ground (arith, t))))
      ]

  pub attempts-Returns :
      (fuel n : ℕ) (world : W)
      → n ≤ max
      → max < n + fuel
      → Returns Replied (attempts request find_again (some max) fuel n world)
  unfolding attempts
  attempts-Returns zero n world h k = absurd (omega arith)
  attempts-Returns (suc fuel) n world h k =
      on_reply-Returns _ n world (request world).0 (request world).1 refl
        (λ l world. attempts-Returns fuel ((n + 1) % 2 ^ 32) world (omega arith) (omega arith))

module _ {W : Type 0} (client : Client W) (ends : LookupsEnd client) (max : ℕ)
    (bound : max < 2 ^ 32) where
  -- The broker created the producer and named it, the producer waited for the topic if the broker said
  -- that it has to, nothing waits in its batch, and there is room for a message.
  abbrev pub IsReady :
      ℕ → Str → Option Str → ProducerOptions → Result TopicProducer Error × W → Type 0
  IsReady id topic name options (err e, world) = Unit {0}
  IsReady id topic name options (ok p, world) =
      IsOpen p
      × (waiting p.batch ≡ [])
      × (asked : W) × (answered : W) × (success : CommandProducerSuccess) × (client.create_producer
            asked topic id name options
          ≡ (ok success, answered))
      × (p.name ≡ success.producer_name)
      × (success.producer_ready ≡ some false
          → world ≡ client.wait_for_exclusive_access answered success.request_id)

module _ {W : Type 0} (client : Client W) (ends : LookupsEnd client) (max : ℕ)
    (bound : max < 2 ^ 32) (config : ConsumerConfig) (id : ℕ) (topic : Str) where
  -- The broker took the subscription, the connection took the request for permits, which the engine knows, and the consumer and its
  -- engine have the same id.
  abbrev pub Subscribed : Started client (max + 1) (some max) → Type 0
  Subscribed (c, e) =
      (c.consumer_id ≡ id)
      × (e.id ≡ id)
      × (e.permits ≡ Permits.new (unwrap_or config.batch_size 1000))
      × (asked : W) × (flowed : W) × (client.subscribe asked topic config.subscription
            config.sub_type id config.consumer_name config.options
          ≡ (ok tt, flowed))
      × ((client.send_flow flowed id (unwrap_or config.batch_size 1000)).0 ≡ ok tt)

  abbrev pub IsStarted : Result (Started client (max + 1) (some max)) Error × W → Type 0
  IsStarted (ok started, world) = Subscribed started
  IsStarted (err e, world) = Unit {0}

  on_spawned-IsStarted :
      (s : Started client (max + 1) (some max)) (p : Bool × W)
      → Subscribed s
      → IsStarted (on_spawned client (max + 1) (some max) s p)
  on_spawned-IsStarted s (true, world) h = h
  on_spawned-IsStarted s (false, world) h = tt

  on_ticker-IsStarted :
      (s : Started client (max + 1) (some max)) (b : Bool) (p : Bool × W)
      → Subscribed s
      → IsStarted (on_ticker client (max + 1) (some max) s b p)
  on_ticker-IsStarted s false (b, world) h = on_spawned-IsStarted s (client.spawn world) h
  on_ticker-IsStarted s true (false, world) h = tt
  on_ticker-IsStarted s true (true, world) h = on_spawned-IsStarted s (client.spawn world) h

  on_flow-IsStarted :
      (messages : List Answer) (asked flowed : W) (r : Result (Unit {0}) ConnectionError)
      (world : W)
      → client.subscribe asked topic config.subscription config.sub_type id config.consumer_name
          config.options
        ≡ (ok tt, flowed)
      → (client.send_flow flowed id (unwrap_or config.batch_size 1000)).0 ≡ r
      → IsStarted (on_flow client (max + 1) (some max) config id topic messages (r, world))
  unfolding Topic.new Engine.new
  on_flow-IsStarted messages asked flowed (err e) world q p = tt
  on_flow-IsStarted messages asked flowed (ok u) world q p =
      on_ticker-IsStarted _ (is_some config.unacked_message_redelivery_delay) _
        (refl, refl, refl, asked, flowed, q, p)

  on_subscribed-IsStarted :
      (messages : List Answer) (r : Result (Unit {0}) Error × W)
      → Replied
          (λ world.
            client.subscribe world topic config.subscription config.sub_type id config.consumer_name
              config.options)
          (λ world. client.find_again world topic)
          (λ world. ends world topic)
          max
          bound
          r
      → IsStarted (on_subscribed client (max + 1) (some max) config id topic messages r)
  on_subscribed-IsStarted messages (err e, world) h = tt
  on_subscribed-IsStarted messages (ok u, world) (asked, q) =
      on_flow-IsStarted messages asked world _ _ q refl

  on_connected-IsStarted :
      (messages : List Answer) (c : Result (Unit {0}) ConnectionError × W)
      → Returns IsStarted (on_connected client (max + 1) (some max) config id topic messages c)
  on_connected-IsStarted messages (err e, world) = (_, refl, tt)
  on_connected-IsStarted messages (ok u, world) =
      let (r, q, k) =
        attempts-Returns
          (λ world.
            client.subscribe world topic config.subscription config.sub_type id config.consumer_name
              config.options)
          (λ world. client.find_again world topic) (λ world. ends world topic) max bound (max + 1) 0
          world (omega arith) (omega arith) in
      (
        on_subscribed client (max + 1) (some max) config id topic messages r,
        ap (map_option (on_subscribed client (max + 1) (some max) config id topic messages)) q,
        on_subscribed-IsStarted messages r k,
      )

-- With at most `max` retries, a number that fits a u32, and when every lookup of another connection
-- ends, which the redirects of brokers can prevent, `TopicConsumer::new` ends within one subscription
-- request more than the retries, whatever the answers are. If it returns a consumer, the broker took the
-- subscription under the consumer's id, which is the one of the configuration if that has one, and then
-- the connection took for sending as many permits as the engine starts with: the batch size, or else
-- 1000.
pub new-IsStarted :
    {W : Type 0} (client : Client W) (ends : LookupsEnd client) (max : ℕ) (bound : max < 2 ^ 32)
    (config : ConsumerConfig) (random : ℕ) (topic : Str) (messages : List Answer) (world : W)
    → Returns
        (IsStarted client ends max bound config (unwrap_or config.consumer_id random) topic)
        (new client (max + 1) (some max) config random topic messages world)
unfolding new
new-IsStarted client ends max bound config random topic messages world =
    on_connected-IsStarted client ends max bound config (unwrap_or config.consumer_id random) topic
      messages (client.get_connection world)
