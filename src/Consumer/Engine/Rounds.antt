-- ===== src/Consumer/Engine/Rounds.antt =====
-- The loop of `ConsumerEngine::engine` in src/consumer.rs.
use pulsar_rs.Shared.{ℕ, Bool, true, false, Option, none, some, List, [], ◌∷◌, if◌then◌else◌}
use pulsar_rs.Proto.{Bytes, SingleMessageMetadata}
use pulsar_rs.Options.{CompressionType}
use pulsar_rs.Errors.{
  ConnectionError, ConsumerError, Error, connection_error, consumer_error, IoErrorKind, Result, ok,
  err,
}
use pulsar_rs.Message.Key.{Message}
use pulsar_rs.Message.Wire.{Wire, Prost}
use pulsar_rs.Message.Batch.{Nom}
use pulsar_rs.Consumer.Permits.{Permits, send_flow, receive}
use pulsar_rs.Consumer.Engine.{
  to_consumer, Outside, ConsumerEngine, EngineMessage, ack, nack, unacked_redelivery,
  get_connection, acknowledge, negative, redeliver, overdue, give, reconnect,
}
use pulsar_rs.Consumer.Engine.Process.{process_message}

-- What a round waits for: a second passes, the channel of messages or of the consumer has an item, or
-- it is closed.
pub data Event : Type 0 where
  delay : Event
  message : Option Message → Event
  request : Option EngineMessage → Event

-- How a round ends: with the next one, with the engine's result, or with the `panic!`.
pub data Outcome : Type 0 where
  goes_on : Outcome
  returns : Result (Unit {0}) Error → Outcome
  panics : Outcome

module _ {W : Type 0} (out : Outside W) where
  -- A connection that is not valid and has an error is replaced. The error is taken, so that a
  -- connection is valid again when it is not replaced after all.
  abbrev pub on_error : ConsumerEngine W → Bool × W → Result (Unit {0}) Error × ConsumerEngine W
  on_error s (true, world) = reconnect out (record s { world = world })
  on_error s (false, world) = (ok tt, record s { world = world })

  unfoldable pub check_connection : ConsumerEngine W → Result (Unit {0}) Error × ConsumerEngine W
  unfolding reconnect
  check_connection s =
      if out.is_valid s.world then (ok tt, s) else on_error s (out.take_error s.world)

  -- The permits are given, on a new connection when this one is lost.
  abbrev pub as_error :
      Result (Unit {0}) ConnectionError × ConsumerEngine W
      → Result (Unit {0}) Error × ConsumerEngine W
  as_error (ok u, s) = (ok tt, s)
  as_error (err e, s) = (err (connection_error e), s)

  abbrev pub give_again :
      ℕ → Result (Unit {0}) Error × ConsumerEngine W → Result (Unit {0}) Error × ConsumerEngine W
  give_again permits (err e, s) = (err e, s)
  give_again permits (ok u, s) = as_error (give out permits s)

  unfoldable pub on_given :
      ℕ
      → Result (Unit {0}) ConnectionError × ConsumerEngine W
      → Result (Unit {0}) Error × ConsumerEngine W
  unfolding reconnect give
  on_given permits (err ConnectionError.disconnected, s) = give_again permits (reconnect out s)
  on_given permits (r, s) = as_error (r, s)

  abbrev pub with_permits :
      Permits
      → Result (Unit {0}) Error × ConsumerEngine W
      → Result (Unit {0}) Error × ConsumerEngine W
  with_permits p (err e, s) = (err e, s)
  with_permits p (ok u, s) = (ok tt, record s { permits = p })

  abbrev pub give_permits :
      Option ℕ × Permits → ConsumerEngine W → Result (Unit {0}) Error × ConsumerEngine W
  give_permits (none, p) s = (ok tt, s)
  give_permits (some permits, p) s = with_permits p (on_given permits (give out permits s))

  unfoldable pub check_permits : ConsumerEngine W → Result (Unit {0}) Error × ConsumerEngine W
  unfolding send_flow on_given give
  check_permits s = give_permits (send_flow s.permits) s

  -- The consumer is told an error; a consumer that is gone stops the engine.
  unfoldable pub report : Error → ConsumerEngine W → Outcome × ConsumerEngine W
  report e s =
      let (is_open, world) = out.tx_send s.world (err e) in
      (
        if is_open then goes_on else returns (err (consumer_error ConsumerError.closed)),
        record s { world = world; log = to_consumer (err e) is_open ∷ s.log },
      )

  abbrev pub on_processed : Result Bool Error × ConsumerEngine W → Outcome × ConsumerEngine W
  on_processed (ok true, s) = (goes_on, s)
  on_processed (ok false, s) = (returns (ok tt), s)
  on_processed (err e, s) = report e s

  -- A request of the consumer. The channel of `get_connection` is handed the connection.
  unfoldable pub on_request : EngineMessage → ConsumerEngine W → ConsumerEngine W
  unfolding acknowledge negative redeliver overdue
  on_request (ack id cumulative) s = acknowledge out id cumulative s
  on_request (nack id) s = negative out id s
  on_request unacked_redelivery s = redeliver out (overdue (out.now s.world) s.unacked_messages) s
  on_request (get_connection sender) s = s

module _ {W : Type 0} (out : Outside W)
    (decompress : CompressionType → Bytes → Option ℕ → Result Bytes IoErrorKind) (w : Wire)
    (ps : Prost SingleMessageMetadata) (nom : Nom) where
  unfoldable pub on_event : Event → ConsumerEngine W → Outcome × ConsumerEngine W
  unfolding report process_message on_request receive
  on_event delay s = (goes_on, s)
  on_event (message none) s = (panics, s)
  on_event (message (some m)) s =
      on_processed out
        (process_message out decompress w ps nom m (record s { permits = receive s.permits m }))
  on_event (request none) s = (returns (ok tt), s)
  on_event (request (some m)) s = (goes_on, on_request out m s)

  -- The steps of a round, of which an error ends the engine.
  abbrev pub then_continue :
      (ConsumerEngine W → Outcome × ConsumerEngine W)
      → Result (Unit {0}) Error × ConsumerEngine W
      → Outcome × ConsumerEngine W
  then_continue next (err e, s) = (returns (err e), s)
  then_continue next (ok u, s) = next s

  unfoldable pub round : Event → ConsumerEngine W → Outcome × ConsumerEngine W
  unfolding check_connection check_permits on_event
  round event s =
      then_continue (λ s. then_continue (on_event event) (check_permits out s))
        (check_connection out s)

  -- The rounds of a series of events, until the engine ends; `goes_on` when it has not.
  abbrev pub then_run :
      (ConsumerEngine W → Outcome × ConsumerEngine W)
      → Outcome × ConsumerEngine W
      → Outcome × ConsumerEngine W
  then_run rest (goes_on, s) = rest s
  then_run rest (returns r, s) = (returns r, s)
  then_run rest (panics, s) = (panics, s)

  unfoldable pub engine : List Event → ConsumerEngine W → Outcome × ConsumerEngine W
  unfolding round
  engine [] s = (goes_on, s)
  engine (event ∷ events) s = then_run (engine events) (round event s)
