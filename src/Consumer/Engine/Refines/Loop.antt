-- ===== src/Consumer/Engine/Refines/Loop.antt =====
-- The whole loop of the engine implements the abstract machine.
use pulsar_rs.Shared.{
  ℕ, Bool, true, false, Option, none, some, List, [], ◌∷◌, Bool-cases, inl, inr, refl,
}
use pulsar_rs.Proto.{Bytes, SingleMessageMetadata}
use pulsar_rs.Options.{CompressionType}
use pulsar_rs.Errors.{ConnectionError, Error, IoErrorKind, Result, ok, err}
use pulsar_rs.Message.Wire.{Wire, Prost}
use pulsar_rs.Message.Batch.{Nom}
use pulsar_rs.Consumer.Permits.{Permits, send_flow, receive}
use pulsar_rs.Consumer.Engine.{
  Outside, ConsumerEngine, EngineMessage, ack, nack, unacked_redelivery, get_connection, give,
}
use pulsar_rs.Consumer.Engine.Rounds.{
  Event, delay, message, request, Outcome, goes_on, returns, panics, on_error, check_connection,
  as_error, give_again, on_given, with_permits, give_permits, check_permits, report, on_processed,
  on_request, on_event, then_continue, round, then_run, engine,
}
use pulsar_rs.Consumer.Engine.Ledger.{Ledger, reported, call, Steps, stay, Steps-trans, one, ledger}
use pulsar_rs.Consumer.Engine.Refines.{
  acknowledge-Steps, negative-Steps, redeliver-Steps, give-Steps, reconnect-Steps,
  process_message-Steps,
}

module _ {W : Type 0} (out : Outside W) where
  on_error-Steps :
      (s : ConsumerEngine W) (e : Bool × W) → Steps (ledger s) (ledger (on_error out s e).1)
  on_error-Steps s (true, world) = reconnect-Steps out (record s { world = world })
  on_error-Steps s (false, world) = stay _

  check_connection-Steps :
      (s : ConsumerEngine W) → Steps (ledger s) (ledger (check_connection out s).1)
  unfolding check_connection
  check_connection-Steps s = elim (Bool-cases (out.is_valid s.world)) [
    | inl t ↦ rw t (stay _)
    | inr t ↦ rw t (on_error-Steps s (out.take_error s.world))
  ]

  as_error-Steps :
      (l : Ledger) (p : Result (Unit {0}) ConnectionError × ConsumerEngine W)
      → Steps l (ledger p.1)
      → Steps l (ledger (as_error out p).1)
  as_error-Steps l (ok u, s) t = t
  as_error-Steps l (err e, s) t = t

  give_again-Steps :
      (l : Ledger) (n : ℕ) (p : Result (Unit {0}) Error × ConsumerEngine W)
      → Steps l (ledger p.1)
      → Steps l (ledger (give_again out n p).1)
  give_again-Steps l n (err e, s) t = t
  give_again-Steps l n (ok u, s) t = as_error-Steps l _ (Steps-trans t (give-Steps out n s))

  on_given-Steps :
      (l : Ledger) (n : ℕ) (r : Result (Unit {0}) ConnectionError) (s : ConsumerEngine W)
      → Steps l (ledger s)
      → Steps l (ledger (on_given out n (r, s)).1)
  unfolding on_given
  on_given-Steps l n (ok u) s t = t
  on_given-Steps l n (err ConnectionError.disconnected) s t =
      give_again-Steps l n _ (Steps-trans t (reconnect-Steps out s))
  on_given-Steps l n (err _) s t = t

  with_permits-Steps :
      (l : Ledger) (p : Permits) (q : Result (Unit {0}) Error × ConsumerEngine W)
      → Steps l (ledger q.1)
      → Steps l (ledger (with_permits out p q).1)
  with_permits-Steps l p (ok u, s) t = t
  with_permits-Steps l p (err e, s) t = t

  give_permits-Steps :
      (p : Option ℕ × Permits) (s : ConsumerEngine W)
      → Steps (ledger s) (ledger (give_permits out p s).1)
  give_permits-Steps (none, p) s = stay _
  give_permits-Steps (some n, p) s =
      with_permits-Steps _ p _ (on_given-Steps _ n _ (give out n s).1 (give-Steps out n s))

  check_permits-Steps : (s : ConsumerEngine W) → Steps (ledger s) (ledger (check_permits out s).1)
  unfolding check_permits
  check_permits-Steps s = give_permits-Steps (send_flow s.permits) s

  on_processed-Steps :
      (l : Ledger) (p : Result Bool Error × ConsumerEngine W)
      → Steps l (ledger p.1)
      → Steps l (ledger (on_processed out p).1)
  unfolding report
  on_processed-Steps l (ok true, s) t = t
  on_processed-Steps l (ok false, s) t = t
  on_processed-Steps l (err e, s) t = Steps-trans t (one (call _ _ (reported e _)))

  on_request-Steps :
      (m : EngineMessage) (s : ConsumerEngine W) → Steps (ledger s) (ledger (on_request out m s))
  unfolding on_request
  on_request-Steps (ack id cumulative) s = acknowledge-Steps out id cumulative s
  on_request-Steps (nack id) s = negative-Steps out id s
  on_request-Steps unacked_redelivery s = redeliver-Steps out (out.now s.world) _ s refl
  on_request-Steps (get_connection sender) s = stay _

module _ {W : Type 0} (out : Outside W)
    (decompress : CompressionType → Bytes → Option ℕ → Result Bytes IoErrorKind) (w : Wire)
    (ps : Prost SingleMessageMetadata) (nom : Nom) where
  on_event-Steps :
      (event : Event) (s : ConsumerEngine W)
      → Steps (ledger s) (ledger (on_event out decompress w ps nom event s).1)
  unfolding on_event
  on_event-Steps delay s = stay _
  on_event-Steps (message none) s = stay _
  on_event-Steps (message (some m)) s =
      on_processed-Steps out _ _ (
        process_message-Steps out decompress w ps nom m
          (record s { permits = receive s.permits m }))
  on_event-Steps (request none) s = stay _
  on_event-Steps (request (some m)) s = on_request-Steps out m s

  then_continue-Steps :
      (l : Ledger) (next : ConsumerEngine W → Outcome × ConsumerEngine W)
      (p : Result (Unit {0}) Error × ConsumerEngine W)
      → Steps l (ledger p.1)
      → ((s : ConsumerEngine W) → Steps (ledger s) (ledger (next s).1))
      → Steps l (ledger (then_continue out decompress w ps nom next p).1)
  then_continue-Steps l next (ok u, s) t h = Steps-trans t (h s)
  then_continue-Steps l next (err e, s) t h = t

  round-Steps :
      (event : Event) (s : ConsumerEngine W)
      → Steps (ledger s) (ledger (round out decompress w ps nom event s).1)
  unfolding round
  round-Steps event s =
      then_continue-Steps _
        (λ s.
          then_continue out decompress w ps nom (on_event out decompress w ps nom event)
            (check_permits out s))
        (check_connection out s) (check_connection-Steps out s)
        (λ s.
          then_continue-Steps _ (on_event out decompress w ps nom event) (check_permits out s)
            (check_permits-Steps out s) (on_event-Steps event))

  then_run-Steps :
      (l : Ledger) (rest : ConsumerEngine W → Outcome × ConsumerEngine W)
      (p : Outcome × ConsumerEngine W)
      → Steps l (ledger p.1)
      → ((s : ConsumerEngine W) → Steps (ledger s) (ledger (rest s).1))
      → Steps l (ledger (then_run out decompress w ps nom rest p).1)
  then_run-Steps l rest (goes_on, s) t h = Steps-trans t (h s)
  then_run-Steps l rest (returns r, s) t h = t
  then_run-Steps l rest (panics, s) t h = t

  -- Over every series of events, with whatever the connection, the client and the consumer's channel
  -- answer, the engine takes only steps of the abstract machine: a message gets a deadline only when the
  -- consumer takes it and there is a delay, loses it when it is acked, or when the connection takes the
  -- request to redeliver all overdue messages; every other call leaves the deadlines as they are.
  pub engine-Steps :
      (events : List Event) (s : ConsumerEngine W)
      → Steps (ledger s) (ledger (engine out decompress w ps nom events s).1)
  unfolding engine
  engine-Steps [] s = stay _
  engine-Steps (event ∷ events) s =
      then_run-Steps _ (engine out decompress w ps nom events)
        (round out decompress w ps nom event s) (round-Steps event s) (engine-Steps events)
