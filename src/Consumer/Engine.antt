-- ===== src/Consumer/Engine.antt =====
-- `ConsumerEngine` of src/consumer.rs: its state and the calls that it makes. Its connection, its
-- client and the channel to its consumer are the interface `Outside`, over a state `W`.
pub mod Process
pub mod Rounds
pub mod Ledger
pub mod Refines
pub mod Redelivery
pub mod DeadLetter
pub mod Delivery
use pulsar_rs.Shared.{
  ℕ, ◌+◌, ◌-◌, Bool, true, false, ◌&&◌, Option, none, some, List, [], ◌∷◌, if◌then◌else◌, Eq, ◌==◌,
  list_eq, option_eq, nat_eq, ltb, nat_beq_iff, option_beq_iff, list_beq_iff, ◌≡◌, ◌↔◌, arith,
}
use pulsar_rs.Shared.Assoc
use pulsar_rs.Proto.{Bytes, Str, MessageIdData}
use pulsar_rs.Options.{ConsumerOptions, SubType, DeadLetterPolicy}
use pulsar_rs.Errors.{
  ConnectionError, ConsumerError, Error, connection_error, consumer_error, custom, Result, ok, err,
  is_ok,
}
use pulsar_rs.Message.Key.{Payload}
use pulsar_rs.Consumer.Permits.{Permits}
use pulsar_rs.Consumer.Permits

-- The derived `PartialEq` of a message's id, which is a key of the table.
unfoldable pub id_beq : MessageIdData → MessageIdData → Bool
id_beq a b =
    (a.ledger_id == b.ledger_id)
    && (a.entry_id == b.entry_id)
    && (a.partition == b.partition)
    && (a.batch_index == b.batch_index)
    && (a.ack_set == b.ack_set)
    && (a.batch_size == b.batch_size)

pub id_beq_iff : (a b : MessageIdData) → (id_beq a b ≡ true) ↔ (a ≡ b)
unfolding id_beq
id_beq_iff a b = ground (
  arith,
  nat_beq_iff a.ledger_id b.ledger_id,
  nat_beq_iff a.entry_id b.entry_id,
  option_beq_iff a.partition b.partition,
  option_beq_iff a.batch_index b.batch_index,
  list_beq_iff a.ack_set b.ack_set,
  option_beq_iff a.batch_size b.batch_size,
)

instance abbrev pub id_eq : Eq MessageIdData
id_eq = record { beq = id_beq; beq_iff = id_beq_iff }

-- What the engine calls, with whether the call succeeded.
pub data Call : Type 0 where
  to_consumer : Result (MessageIdData × Payload) Error → Bool → Call
  acked : MessageIdData → Bool → Bool → Call
  nacked : MessageIdData → Bool → Call
  redelivered : List MessageIdData → Bool → Call
  dead_lettered : Str → Bytes → Bool → Call
  flow : ℕ → Bool → Call
  subscribed : Bool → Call

pub record Outside (W : Type 0) : Type 0 where
  -- Whether the connection is valid, and `error`, which takes the error out of it, if there is one.
  pub is_valid : W → Bool
  pub take_error : W → Bool × W
  -- `lookup_topic` and `get_connection`, which give the engine another connection, where the lookup ends;
  -- a round whose lookup does not end is not among the rounds.
  pub find_connection : W → Str → Result (Unit {0}) Error × W
  pub subscribe :
      W
      → Str
      → Str
      → SubType
      → ℕ
      → Option Str
      → ConsumerOptions
      → Result (Unit {0}) ConnectionError × W
  pub send_flow : W → ℕ → ℕ → Result (Unit {0}) ConnectionError × W
  pub send_ack : W → ℕ → List MessageIdData → Bool → Result (Unit {0}) ConnectionError × W
  pub send_redeliver_unacknowleged_messages :
      W → ℕ → List MessageIdData → Result (Unit {0}) ConnectionError × W
  -- `tx.send`: whether the channel to the consumer is open.
  pub tx_send : W → Result (MessageIdData × Payload) Error → Bool × W
  -- `client.send`, and then the receipt that it waits for.
  pub send : W → Str → Bytes → Result (Result (Unit {0}) Error) Error × W
  -- `Instant::now`.
  pub now : W → ℕ

-- `world` and `log`, the calls with the latest first, are what is outside of the struct.
pub record ConsumerEngine (W : Type 0) : Type 0 where
  pub topic : Str
  pub subscription : Str
  pub sub_type : SubType
  pub id : ℕ
  pub name : Option Str
  pub permits : Permits
  pub unacked_message_redelivery_delay : Option ℕ
  pub unacked_messages : List (MessageIdData × ℕ)
  pub dead_letter_policy : Option DeadLetterPolicy
  pub options : ConsumerOptions
  pub world : W
  pub log : List Call

-- A new engine, whose consumer gave the broker `batch_size` permits.
unfoldable pub new :
    {W : Type 0}
    → Str
    → Str
    → SubType
    → ℕ
    → Option Str
    → ℕ
    → Option ℕ
    → Option DeadLetterPolicy
    → ConsumerOptions
    → W
    → ConsumerEngine W
unfolding Permits.new
new topic subscription sub_type id name batch_size delay policy options world = record {
  topic = topic;
  subscription = subscription;
  sub_type = sub_type;
  id = id;
  name = name;
  permits = Permits.new batch_size;
  unacked_message_redelivery_delay = delay;
  unacked_messages = [];
  dead_letter_policy = policy;
  options = options;
  world = world;
  log = [];
}

-- `MessageData`, and what the consumer asks of the engine. The channel of `GetConnection` is a number.
pub record MessageData : Type 0 where
  pub id : MessageIdData
  pub batch_size : Option ℕ

pub data EngineMessage : Type 0 where
  ack : MessageData → Bool → EngineMessage
  nack : MessageData → EngineMessage
  unacked_redelivery : EngineMessage
  get_connection : ℕ → EngineMessage

-- The ids whose deadline has passed.
unfoldable pub overdue : ℕ → List (MessageIdData × ℕ) → List MessageIdData
overdue now [] = []
overdue now ((id, t) ∷ m) = if ltb t now then id ∷ overdue now m else overdue now m

unfoldable pub remove_all : List MessageIdData → List (MessageIdData × ℕ) → List (MessageIdData × ℕ)
remove_all [] m = m
remove_all (id ∷ ids) m = remove_all ids (Assoc.remove id m)

-- A message that the consumer got has a deadline, if there is a delay for redelivery.
abbrev pub remembered :
    Option ℕ → MessageIdData → ℕ → List (MessageIdData × ℕ) → List (MessageIdData × ℕ)
remembered none message_id now m = m
remembered (some duration) message_id now m = Assoc.insert message_id (now + duration) m

module _ {W : Type 0} (out : Outside W) where
  abbrev pub on_sent :
      MessageIdData
      → Payload
      → ℕ
      → ConsumerEngine W
      → Bool × W
      → Result (Unit {0}) Error × ConsumerEngine W
  on_sent message_id payload now s (false, world) = (
    err custom,
    record s { world = world; log = to_consumer (ok (message_id, payload)) false ∷ s.log },
  )
  on_sent message_id payload now s (true, world) = (
    ok tt,
    record s {
      unacked_messages =
          remembered s.unacked_message_redelivery_delay message_id now s.unacked_messages;
      world = world;
      log = to_consumer (ok (message_id, payload)) true ∷ s.log;
    },
  )

  unfoldable pub send_to_consumer :
      MessageIdData → Payload → ConsumerEngine W → Result (Unit {0}) Error × ConsumerEngine W
  send_to_consumer message_id payload s =
      on_sent message_id payload (out.now s.world) s
        (out.tx_send s.world (ok (message_id, payload)))

  -- The function `ack`, which logs an error of the connection and goes on.
  unfoldable pub acknowledge : MessageData → Bool → ConsumerEngine W → ConsumerEngine W
  acknowledge message_id cumulative s =
      let (r, world) = out.send_ack s.world s.id (message_id.id ∷ []) cumulative in
      record s {
        unacked_messages = Assoc.remove message_id.id s.unacked_messages;
        world = world;
        log = acked message_id.id cumulative (is_ok r) ∷ s.log;
      }

  unfoldable pub negative : MessageData → ConsumerEngine W → ConsumerEngine W
  negative message_id s =
      let (r, world) =
        out.send_redeliver_unacknowleged_messages s.world s.id (message_id.id ∷ []) in
      record s { world = world; log = nacked message_id.id (is_ok r) ∷ s.log }

  -- All overdue ids are asked for at once, and forgotten if the connection takes them.
  unfoldable pub redeliver : List MessageIdData → ConsumerEngine W → ConsumerEngine W
  unfolding remove_all
  redeliver [] s = s
  redeliver (id ∷ ids) s =
      let (r, world) = out.send_redeliver_unacknowleged_messages s.world s.id (id ∷ ids) in
      record s {
        unacked_messages =
            if is_ok r then remove_all (id ∷ ids) s.unacked_messages else s.unacked_messages;
        world = world;
        log = redelivered (id ∷ ids) (is_ok r) ∷ s.log;
      }

  -- `send_flow` of the connection, as the engine calls it.
  unfoldable pub give : ℕ → ConsumerEngine W → Result (Unit {0}) ConnectionError × ConsumerEngine W
  give permits s =
      let (r, world) = out.send_flow s.world s.id permits in
      (r, record s { world = world; log = flow permits (is_ok r) ∷ s.log })

  -- `reconnect`, from its last step to its first. The channel of messages is not in the state: the loop
  -- is given the messages that it takes, from the new channel or from one on which it still waits.
  abbrev pub on_flow :
      Result (Unit {0}) ConnectionError × ConsumerEngine W
      → Result (Unit {0}) Error × ConsumerEngine W
  on_flow (ok u, s) = (ok tt, s)
  on_flow (err e, s) = (err (consumer_error (ConsumerError.connection e)), s)

  abbrev pub on_subscribe :
      Result (Unit {0}) ConnectionError × ConsumerEngine W
      → Result (Unit {0}) Error × ConsumerEngine W
  on_subscribe (err e, s) = (err (connection_error e), s)
  on_subscribe (ok u, s) = on_flow (give s.permits.batch_size s)

  unfoldable pub subscribe : ConsumerEngine W → Result (Unit {0}) ConnectionError × ConsumerEngine W
  subscribe s =
      let (r, world) =
        out.subscribe s.world s.topic s.subscription s.sub_type s.id s.name s.options in
      (r, record s { world = world; log = subscribed (is_ok r) ∷ s.log })

  abbrev pub on_found :
      ConsumerEngine W → Result (Unit {0}) Error × W → Result (Unit {0}) Error × ConsumerEngine W
  on_found s (err e, world) = (err e, record s { world = world })
  on_found s (ok u, world) = on_subscribe (subscribe (record s { world = world }))

  unfoldable pub reconnect : ConsumerEngine W → Result (Unit {0}) Error × ConsumerEngine W
  unfolding give subscribe
  reconnect s = on_found s (out.find_connection s.world s.topic)
