-- ===== src/Consumer/Engine/Ledger.antt =====
-- What `ConsumerEngine` of src/consumer.rs keeps of the messages that it handed to its consumer: an
-- abstract machine, whose steps are the calls of the engine.
use pulsar_rs.Shared.{ℕ, Bool, true, false, Option, List, ◌∷◌, if◌then◌else◌, ◌≡◌}
use pulsar_rs.Shared.Assoc
use pulsar_rs.Proto.{Bytes, Str, MessageIdData}
use pulsar_rs.Errors.{Error, ok, err}
use pulsar_rs.Message.Key.{Payload}
use pulsar_rs.Consumer.Engine.{
  Call, to_consumer, acked, nacked, redelivered, dead_lettered, flow, subscribed, overdue,
  remembered, remove_all, ConsumerEngine, id_eq,
}

-- The delay before a redelivery, the deadlines of the messages that are not acked, and the calls.
pub record Ledger : Type 0 where
  pub delay : Option ℕ
  pub deadlines : List (MessageIdData × ℕ)
  pub log : List Call

-- Calls that change no deadline.
pub data IsOther : Call → Type 0 where
  refused :
      (id : MessageIdData) (payload : Payload) → IsOther (to_consumer (ok (id, payload)) false)
  reported : (e : Error) (b : Bool) → IsOther (to_consumer (err e) b)
  nacks : (id : MessageIdData) (b : Bool) → IsOther (nacked id b)
  dead_letters :
      (topic : Str) (content : Bytes) (b : Bool) → IsOther (dead_lettered topic content b)
  flows : (n : ℕ) (b : Bool) → IsOther (flow n b)
  subscribes : (b : Bool) → IsOther (subscribed b)

pub data Step : Ledger → Ledger → Type 0 where
  deliver :
      (l : Ledger) (id : MessageIdData) (payload : Payload) (now : ℕ)
      → Step l (record l {
        deadlines = remembered l.delay id now l.deadlines;
        log = to_consumer (ok (id, payload)) true ∷ l.log;
      })
  acknowledge :
      (l : Ledger) (id : MessageIdData) (cumulative b : Bool)
      → Step l (record l {
        deadlines = Assoc.remove id l.deadlines;
        log = acked id cumulative b ∷ l.log;
      })
  redeliver :
      (l : Ledger) (now : ℕ) (ids : List MessageIdData) (b : Bool)
      → overdue now l.deadlines ≡ ids
      → Step l (record l {
        deadlines = if b then remove_all ids l.deadlines else l.deadlines;
        log = redelivered ids b ∷ l.log;
      })
  call : (l : Ledger) (c : Call) → IsOther c → Step l (record l { log = c ∷ l.log })

-- A series of steps.
pub data Steps : Ledger → Ledger → Type 0 where
  stay : (l : Ledger) → Steps l l
  step : {l m n : Ledger} → Step l m → Steps m n → Steps l n

pub Steps-trans : {l m n : Ledger} → Steps l m → Steps m n → Steps l n
Steps-trans (stay l) t = t
Steps-trans (step s t) u = step s (Steps-trans t u)

pub one : {l m : Ledger} → Step l m → Steps l m
one s = step s (stay _)

abbrev pub ledger : {W : Type 0} → ConsumerEngine W → Ledger
ledger s = record {
  delay = s.unacked_message_redelivery_delay;
  deadlines = s.unacked_messages;
  log = s.log;
}
