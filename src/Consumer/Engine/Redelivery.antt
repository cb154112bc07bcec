-- ===== src/Consumer/Engine/Redelivery.antt =====
-- Which overdue messages the engine asks the broker to send again. What a nack asks for is apart: it
-- is asked for at once, whatever is known of the message, and changes no deadline.
use pulsar_rs.Shared.{
  member, ℕ, ◌+◌, ◌≡◌, refl, subst, Bool, true, false, Option, none, some, is_some, List, [], ◌∷◌,
  All, All-map, if◌then◌else◌, ltb, ◌==◌, Bool-cases, inl, inr, arith,
}
use pulsar_rs.Shared.Assoc
use pulsar_rs.Shared.Assoc.{lookup-insert, lookup-remove}
use pulsar_rs.Proto.{Bytes, Str, MessageIdData, SingleMessageMetadata}
use pulsar_rs.Errors.{Result, ok, IoErrorKind}
use pulsar_rs.Message.Key.{Payload}
use pulsar_rs.Options.{CompressionType, SubType, DeadLetterPolicy, ConsumerOptions}
use pulsar_rs.Message.Wire.{Wire, Prost}
use pulsar_rs.Message.Batch.{Nom}
use pulsar_rs.Consumer.Engine.{
  Call, to_consumer, acked, redelivered, overdue, remove_all, remembered, id_eq, id_beq_iff,
  Outside, new,
}
use pulsar_rs.Consumer.Engine.Rounds.{Event, engine}
use pulsar_rs.Consumer.Engine.Ledger.{
  Ledger, refused, reported, nacks, dead_letters, flows, subscribes, Step, deliver, acknowledge,
  redeliver, call, Steps, stay, step, ledger,
}
use pulsar_rs.Consumer.Engine.Refines.Loop.{engine-Steps}

-- What the log tells of a message: that the consumer got it, and that since then no ack named it and no
-- request for overdue messages that the connection took. A nack of the message and a cumulative ack
-- that names a later one leave it outstanding, as they leave its deadline.
abbrev pub outstanding : MessageIdData → List Call → Bool
outstanding id [] = false
outstanding id (to_consumer (ok (j, payload)) true ∷ log) =
    if j == id then true else outstanding id log
outstanding id (acked j cumulative b ∷ log) = if j == id then false else outstanding id log
outstanding id (redelivered ids true ∷ log) = if member id ids then false else outstanding id log
outstanding id (_ ∷ log) = outstanding id log

-- The deadlines are exactly those of the outstanding messages, or there is no delay and no deadline.
abbrev pub Tracks : Option ℕ → List (MessageIdData × ℕ) → List Call → Type 0
Tracks delay deadlines log =
    (id : MessageIdData)
    → is_some (Assoc.lookup id deadlines) ≡ (if is_some delay then outstanding id log else false)

abbrev pub IsTracked : Ledger → Type 0
IsTracked l = Tracks l.delay l.deadlines l.log

-- Every request for overdue messages names messages that were outstanding when it was made.
abbrev pub IsJustified : List Call → Type 0
IsJustified [] = Unit {0}
IsJustified (redelivered ids b ∷ log) = All (λ id. outstanding id log ≡ true) ids × IsJustified log
IsJustified (_ ∷ log) = IsJustified log

lookup-remove_all :
    (id : MessageIdData) (ids : List MessageIdData) (m : List (MessageIdData × ℕ))
    → Assoc.lookup id (remove_all ids m) ≡ (if member id ids then none else Assoc.lookup id m)
unfolding remove_all
lookup-remove_all id [] m = refl
lookup-remove_all id (j ∷ ids) m =
    ground (arith, lookup-remove_all id ids (Assoc.remove j m), lookup-remove j id m)

-- An overdue message has a deadline.
overdue-lookup :
    (now : ℕ) (m : List (MessageIdData × ℕ))
    → All (λ id. is_some (Assoc.lookup id m) ≡ true) (overdue now m)
unfolding overdue Assoc.lookup
overdue-lookup now [] = tt
overdue-lookup now ((id, t) ∷ m) =
    let others : All (λ i. is_some (Assoc.lookup i ((id, t) ∷ m)) ≡ true) (overdue now m) =
      All-map _ _ (overdue now m) (λ i h. ground (arith, h)) (overdue-lookup now m) in
    elim (Bool-cases (ltb t now)) [
      | inr q ↦ rw q others
      | inl q ↦ rw q (ground (arith, id_beq_iff id id), others)
    ]

deliver-Tracks :
    (delay : Option ℕ) (m : List (MessageIdData × ℕ)) (log : List Call) (i : MessageIdData)
    (payload : Payload) (now : ℕ)
    → Tracks delay m log
    → Tracks delay (remembered delay i now m) (to_consumer (ok (i, payload)) true ∷ log)
deliver-Tracks none m log i payload now h id = h id
deliver-Tracks (some d) m log i payload now h id =
    ground (arith, h id, lookup-insert i id (now + d) m)

acknowledge-Tracks :
    (delay : Option ℕ) (m : List (MessageIdData × ℕ)) (log : List Call) (i : MessageIdData)
    (cumulative b : Bool)
    → Tracks delay m log
    → Tracks delay (Assoc.remove i m) (acked i cumulative b ∷ log)
acknowledge-Tracks delay m log i cumulative b h id = ground (arith, h id, lookup-remove i id m)

redeliver-Tracks :
    (delay : Option ℕ) (m : List (MessageIdData × ℕ)) (log : List Call) (ids : List MessageIdData)
    (b : Bool)
    → Tracks delay m log
    → Tracks delay (if b then remove_all ids m else m) (redelivered ids b ∷ log)
redeliver-Tracks delay m log ids true h id = ground (arith, h id, lookup-remove_all id ids m)
redeliver-Tracks delay m log ids false h id = h id

Step-IsTracked : {l m : Ledger} → Step l m → IsTracked l → IsTracked m
Step-IsTracked (deliver l i payload now) h = deliver-Tracks l.delay _ l.log i payload now h
Step-IsTracked (acknowledge l i cumulative b) h =
    acknowledge-Tracks l.delay l.deadlines l.log i cumulative b h
Step-IsTracked (redeliver l now ids b q) h = redeliver-Tracks l.delay l.deadlines l.log ids b h
Step-IsTracked (call l c (refused i payload)) h = h
Step-IsTracked (call l c (reported e b)) h = h
Step-IsTracked (call l c (nacks i b)) h = h
Step-IsTracked (call l c (dead_letters topic content b)) h = h
Step-IsTracked (call l c (flows n b)) h = h
Step-IsTracked (call l c (subscribes b)) h = h

abbrev Justified : Ledger → Type 0
Justified l = IsTracked l × IsJustified l.log

tracked-outstanding :
    (delay : Option ℕ) (m : List (MessageIdData × ℕ)) (log : List Call)
    → Tracks delay m log
    → (id : MessageIdData) → is_some (Assoc.lookup id m) ≡ true
    → outstanding id log ≡ true
tracked-outstanding delay m log h id k = ground (arith, h id, k)

Step-Justified : {l m : Ledger} → Step l m → Justified l → Justified m
Step-Justified s h = (Step-IsTracked s h.0, justify s h)
  where
    justify : {l m : Ledger} → Step l m → Justified l → IsJustified m.log
    justify (deliver l i payload now) h = h.1
    justify (acknowledge l i cumulative b) h = h.1
    justify (redeliver l now ids b q) h = (
      subst (All (λ id. outstanding id l.log ≡ true)) q (
          All-map _ _ _ (tracked-outstanding l.delay l.deadlines l.log h.0)
            (overdue-lookup now l.deadlines)),
      h.1,
    )
    justify (call l c (refused i payload)) h = h.1
    justify (call l c (reported e b)) h = h.1
    justify (call l c (nacks i b)) h = h.1
    justify (call l c (dead_letters topic content b)) h = h.1
    justify (call l c (flows n b)) h = h.1
    justify (call l c (subscribes b)) h = h.1

Steps-Justified : {l m : Ledger} → Steps l m → Justified l → Justified m
Steps-Justified (stay l) h = h
Steps-Justified (step s t) h = Steps-Justified t (Step-Justified s h)

new-IsTracked : (delay : Option ℕ) → Tracks delay [] []
unfolding Assoc.lookup
new-IsTracked none id = refl
new-IsTracked (some d) id = refl

module _ {W : Type 0} (out : Outside W)
    (decompress : CompressionType → Bytes → Option ℕ → Result Bytes IoErrorKind) (w : Wire)
    (ps : Prost SingleMessageMetadata) (nom : Nom) where
  -- Over every series of events of a new engine, whatever its calls return: with a delay the messages
  -- that have a deadline are exactly the outstanding ones, which the consumer got and which since then no
  -- ack named and no request for overdue messages that the connection took; without a delay none has. And
  -- every request for overdue messages names only messages that were outstanding at that time. A nacked
  -- message stays outstanding, and so does a message that a cumulative ack covers without naming it: both
  -- are asked for again when they are overdue. The requests of nacks are not spoken of.
  pub engine-Justified :
      (topic subscription : Str) (sub_type : SubType) (id : ℕ) (name : Option Str) (batch_size : ℕ)
      (delay : Option ℕ) (policy : Option DeadLetterPolicy) (options : ConsumerOptions) (world : W)
      (events : List Event)
      → let s =
          (engine out decompress w ps nom events
            (new topic subscription sub_type id name batch_size delay policy options world)).1 in
        IsTracked (ledger s) × IsJustified s.log
  unfolding new Assoc.lookup
  engine-Justified topic subscription sub_type id name batch_size delay policy options world
        events =
      Steps-Justified
        (engine-Steps out decompress w ps nom events
          (new topic subscription sub_type id name batch_size delay policy options world))
        (new-IsTracked delay, tt)
