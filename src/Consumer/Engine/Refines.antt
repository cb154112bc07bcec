-- ===== src/Consumer/Engine/Refines.antt =====
-- A message makes the engine take only steps of the abstract machine.
pub mod Loop
use pulsar_rs.Shared.{
  ℕ, ◌≡◌, refl, ap, subst, sym, Bool, true, false, Option, none, some, List, [], ◌∷◌, Bool-cases,
  inl, inr, leb, Option-cases, ◌==◌, nat_eq,
}
use pulsar_rs.Proto.{
  Bytes, Str, MessageIdData, SingleMessageMetadata, CommandMessage, CommandReachedEndOfTopic,
  CommandActiveConsumerChange, CommandCloseConsumer,
}
use pulsar_rs.Options.{CompressionType, DeadLetterPolicy}
use pulsar_rs.Errors.{ConnectionError, Error, IoErrorKind, Result, ok, err, is_ok, Result-cases}
use pulsar_rs.Errors
use pulsar_rs.Message.Key.{Message, Payload}
use pulsar_rs.Message.Wire.{Wire, Prost}
use pulsar_rs.Message.Batch.{Nom}
use pulsar_rs.Consumer.Permits.{Permits, send_flow}
use pulsar_rs.Consumer.Batches.{BatchedMessageIterator, new}
use pulsar_rs.Consumer.Engine
use pulsar_rs.Consumer.Engine.{
  Outside, ConsumerEngine, EngineMessage, MessageData, ack, nack, unacked_redelivery,
  get_connection, send_to_consumer, on_sent, on_found, negative, overdue, give, reconnect,
}
use pulsar_rs.Consumer.Engine.Process.{
  succeed, then_deliver, deliver_all, after_dead_letter, is_taken, send_to_dead_letter,
  process_single, deliver_batch, by_count, on_decompressed, process_batch, process_decompressed,
  decompressed, process_payload, by_command, process_message,
}
use pulsar_rs.Consumer.Engine.Rounds.{
  Event, delay, message, request, Outcome, goes_on, returns, panics, check_connection, as_error,
  give_again, on_given, with_permits, give_permits, check_permits, report, on_processed, on_request,
  on_event, then_continue, round, then_run, engine,
}
use pulsar_rs.Consumer.Engine.Ledger.{
  Ledger, refused, reported, nacks, dead_letters, flows, subscribes, Step, deliver, acknowledge,
  redeliver, call, Steps, stay, step, Steps-trans, one, ledger,
}

module _ {W : Type 0} (out : Outside W) where
  on_sent-Steps :
      (id : MessageIdData) (payload : Payload) (now : ℕ) (s : ConsumerEngine W) (p : Bool × W)
      → Steps (ledger s) (ledger (on_sent out id payload now s p).1)
  on_sent-Steps id payload now s (true, world) = one (deliver _ id payload now)
  on_sent-Steps id payload now s (false, world) = one (call _ _ (refused id payload))

  send_to_consumer-Steps :
      (id : MessageIdData) (payload : Payload) (s : ConsumerEngine W)
      → Steps (ledger s) (ledger (send_to_consumer out id payload s).1)
  unfolding send_to_consumer
  send_to_consumer-Steps id payload s = on_sent-Steps id payload _ s _

  pub acknowledge-Steps :
      (id : MessageData) (cumulative : Bool) (s : ConsumerEngine W)
      → Steps (ledger s) (ledger (Engine.acknowledge out id cumulative s))
  unfolding Engine.acknowledge
  acknowledge-Steps id cumulative s = one (acknowledge _ id.id cumulative _)

  pub negative-Steps :
      (id : MessageData) (s : ConsumerEngine W) → Steps (ledger s) (ledger (negative out id s))
  unfolding negative
  negative-Steps id s = one (call _ _ (nacks id.id _))

  pub redeliver-Steps :
      (now : ℕ) (ids : List MessageIdData) (s : ConsumerEngine W)
      → overdue now s.unacked_messages ≡ ids
      → Steps (ledger s) (ledger (Engine.redeliver out ids s))
  unfolding Engine.redeliver
  redeliver-Steps now [] s q = stay _
  redeliver-Steps now (id ∷ ids) s q = one (redeliver _ now (id ∷ ids) _ q)

  pub give-Steps : (n : ℕ) (s : ConsumerEngine W) → Steps (ledger s) (ledger (give out n s).1)
  unfolding give
  give-Steps n s = one (call _ _ (flows n _))

  subscribe-Steps : (s : ConsumerEngine W) → Steps (ledger s) (ledger (Engine.subscribe out s).1)
  unfolding Engine.subscribe
  subscribe-Steps s = one (call _ _ (subscribes _))

  on_flow-Steps :
      (l : Ledger) (p : Result (Unit {0}) ConnectionError × ConsumerEngine W)
      → Steps l (ledger p.1)
      → Steps l (ledger (Engine.on_flow out p).1)
  on_flow-Steps l (ok u, s) t = t
  on_flow-Steps l (err e, s) t = t

  on_subscribe-Steps :
      (l : Ledger) (p : Result (Unit {0}) ConnectionError × ConsumerEngine W)
      → Steps l (ledger p.1)
      → Steps l (ledger (Engine.on_subscribe out p).1)
  on_subscribe-Steps l (err e, s) t = t
  on_subscribe-Steps l (ok u, s) t =
      on_flow-Steps l _ (Steps-trans t (give-Steps s.permits.batch_size s))

  on_found-Steps :
      (s : ConsumerEngine W) (p : Result (Unit {0}) Error × W)
      → Steps (ledger s) (ledger (on_found out s p).1)
  on_found-Steps s (err e, world) = stay _
  on_found-Steps s (ok u, world) =
      on_subscribe-Steps _ _ (subscribe-Steps (record s { world = world }))

  pub reconnect-Steps : (s : ConsumerEngine W) → Steps (ledger s) (ledger (reconnect out s).1)
  unfolding reconnect
  reconnect-Steps s = on_found-Steps s _

  -- What a message does.
  then_deliver-Steps :
      (l : Ledger) (rest : ConsumerEngine W → Result (Unit {0}) Error × ConsumerEngine W)
      (p : Result (Unit {0}) Error × ConsumerEngine W)
      → Steps l (ledger p.1)
      → ((s : ConsumerEngine W) → Steps (ledger s) (ledger (rest s).1))
      → Steps l (ledger (then_deliver out rest p).1)
  then_deliver-Steps l rest (ok u, s) t h = Steps-trans t (h s)
  then_deliver-Steps l rest (err e, s) t h = t

  deliver_all-Steps :
      (items : List (MessageIdData × Payload)) (s : ConsumerEngine W)
      → Steps (ledger s) (ledger (deliver_all out items s).1)
  unfolding deliver_all
  deliver_all-Steps [] s = stay _
  deliver_all-Steps ((id, payload) ∷ items) s =
      then_deliver-Steps _ _ _ (send_to_consumer-Steps id payload s) (deliver_all-Steps items)

  after_dead_letter-Steps :
      (id : MessageIdData) (r : Result (Result (Unit {0}) Error) Error) (s : ConsumerEngine W)
      → Steps (ledger s) (ledger (after_dead_letter out id r s).1)
  after_dead_letter-Steps id (err e) s = stay _
  after_dead_letter-Steps id (ok (err e)) s = stay _
  after_dead_letter-Steps id (ok (ok u)) s = acknowledge-Steps _ false s

  send_to_dead_letter-Steps :
      (policy : DeadLetterPolicy) (id : MessageIdData) (payload : Payload) (s : ConsumerEngine W)
      → Steps (ledger s) (ledger (send_to_dead_letter out policy id payload s).1)
  unfolding send_to_dead_letter
  send_to_dead_letter-Steps policy id payload s =
      step (call _ _ (dead_letters _ _ _)) (after_dead_letter-Steps id _ _)

  process_single-Steps :
      (count : Option ℕ) (policy : Option DeadLetterPolicy) (id : MessageIdData) (payload : Payload)
      (s : ConsumerEngine W)
      → Steps (ledger s) (ledger (process_single out count policy id payload s).1)
  unfolding process_single
  process_single-Steps none policy id payload s = send_to_consumer-Steps id payload s
  process_single-Steps (some c) none id payload s = send_to_consumer-Steps id payload s
  process_single-Steps (some c) (some p) id payload s =
      elim (Bool-cases (leb p.max_redeliver_count c)) [
        | inl t ↦ rw t (send_to_dead_letter-Steps p id payload s)
        | inr t ↦ rw t (send_to_consumer-Steps id payload s)
      ]

module _ {W : Type 0} (out : Outside W)
    (decompress : CompressionType → Bytes → Option ℕ → Result Bytes IoErrorKind) (w : Wire)
    (ps : Prost SingleMessageMetadata) (nom : Nom) where
  deliver_batch-Steps :
      (r : Result BatchedMessageIterator ConnectionError) (s : ConsumerEngine W)
      → Steps (ledger s) (ledger (deliver_batch out decompress w ps nom r s).1)
  deliver_batch-Steps (ok it) s = deliver_all-Steps out _ s
  deliver_batch-Steps (err e) s = stay _

  process_batch-Steps :
      (count : ℕ) (id : MessageIdData) (payload : Payload) (s : ConsumerEngine W)
      → Steps (ledger s) (ledger (process_batch out decompress w ps nom count id payload s).1)
  unfolding process_batch
  process_batch-Steps count id payload s = deliver_batch-Steps (new w ps nom count id payload) s

  by_count-Steps :
      (count : Option ℕ) (m : CommandMessage) (payload : Payload) (s : ConsumerEngine W)
      → Steps (ledger s) (ledger (by_count out decompress w ps nom count m payload s).1)
  by_count-Steps none m payload s =
      process_single-Steps out m.redelivery_count s.dead_letter_policy m.message_id payload s
  by_count-Steps (some count) m payload s = process_batch-Steps count m.message_id payload s

  on_decompressed-Steps :
      (m : CommandMessage) (r : Result Payload Error) (s : ConsumerEngine W)
      → Steps (ledger s) (ledger (on_decompressed out decompress w ps nom m r s).1)
  unfolding process_decompressed
  on_decompressed-Steps m (ok payload) s =
      by_count-Steps payload.metadata.num_messages_in_batch m payload s
  on_decompressed-Steps m (err e) s = stay _

  process_payload-Steps :
      (m : CommandMessage) (payload : Payload) (s : ConsumerEngine W)
      → Steps (ledger s) (ledger (process_payload out decompress w ps nom m payload s).1)
  unfolding process_payload
  process_payload-Steps m payload s = on_decompressed-Steps m _ s

  succeed-Steps :
      (l : Ledger) (p : Result (Unit {0}) Error × ConsumerEngine W)
      → Steps l (ledger p.1)
      → Steps l (ledger (succeed true p).1)
  succeed-Steps l (ok u, s) t = t
  succeed-Steps l (err e, s) t = t

  by_command-Steps :
      (r : Option CommandReachedEndOfTopic) (a : Option CommandActiveConsumerChange)
      (m : Option CommandMessage) (p : Option Payload) (c : Option CommandCloseConsumer)
      (s : ConsumerEngine W)
      → Steps (ledger s) (ledger (by_command out decompress w ps nom r a m p c s).1)
  unfolding by_command
  by_command-Steps (some r) a m p c s = stay _
  by_command-Steps none (some a) m p c s = stay _
  by_command-Steps none none (some m) (some p) c s = succeed-Steps _ _ (process_payload-Steps m p s)
  by_command-Steps none none (some m) none c s = stay _
  by_command-Steps none none none p (some c) s = succeed-Steps _ _ (reconnect-Steps out s)
  by_command-Steps none none none p none s = stay _

  pub process_message-Steps :
      (m : Message) (s : ConsumerEngine W)
      → Steps (ledger s) (ledger (process_message out decompress w ps nom m s).1)
  unfolding process_message
  process_message-Steps m s =
      by_command-Steps m.command.reached_end_of_topic m.command.active_consumer_change
        m.command.message m.payload m.command.close_consumer s
