-- ===== src/Producer/Send/Receipts.antt =====
-- Every channel that a producer hands out is resolved or waits in the batch, in the order in which
-- the channels were handed out.
use pulsar_rs.Shared.{
  ℕ, ◌+◌, ◌-◌, ◌%◌, ◌≡◌, ◌<◌, ◌≤◌, ◌^◌, refl, sym, ap, ◌∙◌, true, Option, none, some, is_some, List,
  [], ◌∷◌, ◌++◌, length, length-append, map, append_assoc, append-nil, OnSome, OnSome-map_option,
  is_some-map_option, Returns, OnSome-Returns, Bool-cases, inl, inr, arith, subst, Option-cases,
  leb, nat_beq,
}
use pulsar_rs.Proto.{Bytes, SingleMessageMetadata, CommandSendReceipt}
use pulsar_rs.Errors.{Error, IoErrorKind, Result, ok, err}
use pulsar_rs.Options.{ProducerMessage, CompressionType}
use pulsar_rs.Message.Wire.{Wire, Prost}
use pulsar_rs.Message.Batch.{BatchedMessage}
use pulsar_rs.Producer.Batch.{Batch, push_back, is_full, get_messages, batched}
use pulsar_rs.Producer.Topic.{Network, Channels, TopicProducer}
use pulsar_rs.Producer.Topic.Drained.{IsDrained, IsBounded, IsIdle, send_compress-IsIdle}
use pulsar_rs.Producer.Topic.Returns.{LookupsEnd, send_compress-is_some}
use pulsar_rs.Producer.Send.{
  channels_of, resolve, send_drained, send_raw, answer_single, send_batched, send_batch,
  is_positive,
}

-- The channels of the messages that wait in the batch.
abbrev pub waiting : Option Batch → List ℕ
waiting none = []
waiting (some b) = channels_of b.storage

abbrev keys : List (ℕ × Result CommandSendReceipt Error) → List ℕ
keys = map (λ r. r.0)

-- All channels so far: the resolved ones, in the order in which they were, and the waiting ones.
abbrev pub handed_out : {W : Type 0} → TopicProducer → Channels W → List ℕ
handed_out p c = keys c.resolved ++ waiting p.batch

-- A batch of fewer than 2^31 messages that has room for one more.
abbrev pub HasRoom : Option Batch → Type 0
HasRoom none = Unit {0}
HasRoom (some b) = (b.length < 2 ^ 31) × (length b.storage ≤ b.length - 1)

abbrev pub IsOpen : TopicProducer → Type 0
IsOpen p = IsBounded p.options.batch_size × HasRoom p.batch

IsDrained-waiting : (o : Option Batch) → IsDrained o → waiting o ≡ []
IsDrained-waiting none h = refl
IsDrained-waiting (some b) h = ap channels_of h.1

IsDrained-HasRoom : (o : Option Batch) → IsDrained o → HasRoom o
IsDrained-HasRoom none h = tt
IsDrained-HasRoom (some b) h = (h.0, omega (arith, ap (λ l. length l) h.1))

keys-map :
    (a : Result CommandSendReceipt Error) (txs : List ℕ) → keys (map (λ tx. (tx, a)) txs) ≡ txs
keys-map a [] = refl
keys-map a (tx ∷ txs) = ap (◌∷◌ tx) (keys-map a txs)

map_append {ℓ κ} :
    {A : Type ℓ} {B : Type κ} (f : A → B) (xs ys : List A) → map f (xs ++ ys) ≡ map f xs ++ map f ys
map_append f [] ys = refl
map_append f (x ∷ xs) ys = ap (◌∷◌ (f x)) (map_append f xs ys)

-- Draining resolves the waiting channels in their order.
resolve-keys :
    {W : Type 0} (c : Channels W) (r : Result CommandSendReceipt Error) (txs : List ℕ) (world : W)
    → keys (resolve c r txs world).resolved ≡ keys c.resolved ++ txs
unfolding resolve
resolve-keys c r txs world =
    map_append (λ r. r.0) c.resolved _ ∙ ap (λ l. keys c.resolved ++ l) (keys-map _ txs)

module _ {W : Type 0} (net : Network W)
    (compress : CompressionType → Bytes → Result Bytes IoErrorKind) (w : Wire)
    (ps : Prost SingleMessageMetadata) (fuel : ℕ) (max_retries : Option ℕ) where
  -- What draining leaves: an open producer, nothing that waits and exactly these channels.
  abbrev Leaves : List ℕ → TopicProducer → Channels W → Type 0
  Leaves txs p c = IsOpen p × (waiting p.batch ≡ []) × (handed_out p c ≡ txs)

  send_drained-Leaves :
      (p : TopicProducer) (b : Batch) (count : ℕ) (c : Channels W)
      → IsBounded p.options.batch_size
      → b.length < 2 ^ 31
      → OnSome
          (λ r. Leaves (keys c.resolved ++ channels_of b.storage) r.0 r.1)
          (send_drained net compress w ps fuel max_retries p b count c)
  unfolding send_drained get_messages
  send_drained-Leaves p b count c bounded short =
      OnSome-map_option (λ r. IsIdle r.1) _ _ _
        (λ r idle. (
          (idle.0, IsDrained-HasRoom r.1.batch idle.1),
          IsDrained-waiting r.1.batch idle.1,
          (ap (λ l. keys (resolve c r.0 (channels_of b.storage) r.2).resolved ++ l)
                (IsDrained-waiting r.1.batch idle.1)
              ∙ append-nil _
              ∙ resolve-keys c r.0 (channels_of b.storage) r.2),
        ))
        (send_compress-IsIdle net fuel max_retries compress _ _ c.world (bounded, (short, refl)))

  -- A call hands out the next channel, after those before, or fails and hands out none.
  abbrev pub Handed : List ℕ → ℕ → Result ℕ Error → List ℕ → Type 0
  Handed before tx (ok rx) after = (rx ≡ tx) × (after ≡ before ++ tx ∷ [])
  Handed before tx (err e) after = after ≡ before

  abbrev pub HandsOut :
      TopicProducer → Channels W → Result ℕ Error × TopicProducer × Channels W → Type 0
  HandsOut p c (r, p', c') = IsOpen p' × Handed (handed_out p c) c.next_channel r (handed_out p' c')

  -- Without a batch the receipt is on the channel already.
  single-HandsOut :
      (p : TopicProducer) (c : Channels W)
      → p.batch ≡ none
      → (r : Result CommandSendReceipt Error × TopicProducer × W) → IsIdle r.1
      → HandsOut p c (answer_single net compress w ps fuel max_retries c r)
  unfolding answer_single
  single-HandsOut p c q (ok receipt, p', world) idle = (
    (idle.0, IsDrained-HasRoom p'.batch idle.1),
    (
      refl,
      ap (λ l. keys (c.resolved ++ (c.next_channel, ok receipt) ∷ []) ++ l)
            (IsDrained-waiting p'.batch idle.1)
          ∙ append-nil _
          ∙ map_append (λ r. r.0) c.resolved _
          ∙ ap (λ l. l ++ c.next_channel ∷ [])
              (sym (append-nil (keys c.resolved)) ∙ ap (λ o. keys c.resolved ++ waiting o) (sym q)),
    ),
  )
  single-HandsOut p c q (err e, p', world) idle = (
    (idle.0, IsDrained-HasRoom p'.batch idle.1),
    ap (λ l. keys c.resolved ++ l) (IsDrained-waiting p'.batch idle.1)
        ∙ ap (λ o. keys c.resolved ++ waiting o) (sym q),
  )

  batched-HandsOut :
      (p : TopicProducer) (b : Batch) (message : ProducerMessage) (c : Channels W)
      → p.batch ≡ some b
      → IsOpen p
      → OnSome (HandsOut p c) (send_batched net compress w ps fuel max_retries p b message c)
  unfolding send_batched push_back is_full get_messages
  batched-HandsOut p b message c q h = elim (Bool-cases (leb b.length (length stored))) [
    | inr t ↦ rw (t, OnSome) ((h.0, (room.0, ground (arith, t))), (refl, appended))
    | inl t ↦
        rw (t, positive, OnSome)
          (OnSome-map_option _ (HandsOut p c) _ _ (λ r l. (l.0, (refl, l.2 ∙ appended)))
            (send_drained-Leaves p (push_back b c.next_channel message) (length stored % 2 ^ 32)
              (record c { next_channel = c.next_channel + 1 }) h.0 room.0))
  ]
    where
      stored : List (ℕ × BatchedMessage)
      stored = b.storage ++ (c.next_channel, batched message) ∷ []

      room : HasRoom (some b)
      room = subst HasRoom q h.1

      more : length stored ≡ length b.storage + 1
      more = length-append b.storage _

      positive : is_positive net compress w ps fuel max_retries (length stored % 2 ^ 32) ≡ true
      positive = ground (arith, more, room.0, room.1)

      appended : keys c.resolved ++ channels_of stored ≡ handed_out p c ++ c.next_channel ∷ []
      appended =
          ap (λ l. keys c.resolved ++ l) (map_append (λ m. m.0) b.storage _)
          ∙ sym (append_assoc (keys c.resolved) (channels_of b.storage) (c.next_channel ∷ []))
          ∙ ap (λ o. (keys c.resolved ++ waiting o) ++ c.next_channel ∷ []) (sym q)

  send_raw-HandsOut :
      (p : TopicProducer) (message : ProducerMessage) (c : Channels W)
      → IsOpen p
      → OnSome (HandsOut p c) (send_raw net compress w ps fuel max_retries p message c)
  unfolding send_raw
  send_raw-HandsOut p message c h = elim (Option-cases p.batch) [
    | inl q ↦
        rw (q, OnSome)
          (OnSome-map_option _ (HandsOut p c) _ _ (single-HandsOut p c q) (
            send_compress-IsIdle net fuel max_retries compress p message c.world
              (h.0, subst IsDrained (sym q) tt)))
    | inr (b, q) ↦ rw (q, OnSome) (batched-HandsOut p b message c q h)
  ]

  -- Nothing waits after a batch was sent, and the channels stay as they were handed out.
  abbrev pub Flushed :
      TopicProducer → Channels W → Result (Unit {0}) Error × TopicProducer × Channels W → Type 0
  Flushed p c (r, p', c') =
      IsOpen p' × (waiting p'.batch ≡ []) × (handed_out p' c' ≡ handed_out p c)

  nothing_waits : (l : List (ℕ × BatchedMessage)) → nat_beq (length l) 0 ≡ true → channels_of l ≡ []
  nothing_waits [] h = refl
  nothing_waits (m ∷ l) h = absurd (ground arith)

  send_batch-Flushed :
      (p : TopicProducer) (batch : Batch) (c : Channels W)
      → p.batch ≡ some batch
      → IsOpen p
      → OnSome (Flushed p c) (send_batch net compress w ps fuel max_retries p c)
  unfolding send_batch
  send_batch-Flushed p batch c q h = elim (Bool-cases (nat_beq (length batch.storage) 0)) [
    | inl t ↦ rw (q, t, OnSome) (h, ap waiting q ∙ nothing_waits batch.storage t, refl)
    | inr t ↦
        rw (q, t, OnSome)
          (OnSome-map_option _ (Flushed p c) _ _
            (λ r l. (l.0, l.1, l.2 ∙ ap (λ o. keys c.resolved ++ waiting o) (sym q)))
            (send_drained-Leaves p batch (length batch.storage % 2 ^ 32) c h.0
              (subst HasRoom q h.1).0))
  ]

module _ {W : Type 0} (net : Network W)
    (compress : CompressionType → Bytes → Result Bytes IoErrorKind) (w : Wire)
    (ps : Prost SingleMessageMetadata) (ends : LookupsEnd net) (max : ℕ) (b : max < 2 ^ 32)
    (fuel : ℕ) (enough : max < fuel) where
  send_drained-is_some :
      (p : TopicProducer) (b : Batch) (count : ℕ) (c : Channels W)
      → is_some (send_drained net compress w ps fuel (some max) p b count c) ≡ true
  unfolding send_drained
  send_drained-is_some p batch count c =
      is_some-map_option _ _ ∙ send_compress-is_some net max ends fuel b enough compress _ _ c.world

  send_batched-is_some :
      (p : TopicProducer) (batch : Batch) (message : ProducerMessage) (c : Channels W)
      → is_some (send_batched net compress w ps fuel (some max) p batch message c) ≡ true
  unfolding send_batched
  send_batched-is_some p batch message c =
      elim (Bool-cases (is_full (push_back batch c.next_channel message))) [
        | inr t ↦ rw (t, is_some) refl
        | inl t ↦
            elim (Bool-cases (
              is_positive net compress w ps fuel (some max)
                (length (push_back batch c.next_channel message).storage % 2 ^ 32))) [
                  | inr u ↦ rw (t, u, is_some) refl
                  | inl u ↦
                      rw (t, u)
                        (is_some-map_option _ _
                          ∙ send_drained-is_some p (push_back batch c.next_channel message)
                              (length (push_back batch c.next_channel message).storage % 2 ^ 32)
                              (record c { next_channel = c.next_channel + 1 }))
                ]
      ]

  send_raw-is_some :
      (p : TopicProducer) (message : ProducerMessage) (c : Channels W)
      → is_some (send_raw net compress w ps fuel (some max) p message c) ≡ true
  unfolding send_raw
  send_raw-is_some p message c = elim (Option-cases p.batch) [
    | inl q ↦
        rw (q, is_some)
          (is_some-map_option _ _ ∙ send_compress-is_some net max ends fuel b enough compress _ _ _)
    | inr (batch, q) ↦
        rw (q, is_some) (send_batched-is_some (record p { batch = some batch }) batch message c)
  ]

  -- With at most `max` retries of a new connection, for which one more request is enough fuel, and when
  -- every lookup of another connection ends, which the redirects of brokers can prevent, a producer
  -- whose batch has room for a message returns from `send_raw`, whatever the answers are.
  -- If it succeeds it hands out the next channel, and if it fails it hands out none; all the channels
  -- that were ever handed out are resolved or wait in the batch, each once and in order. The batch has
  -- room again.
  pub send_raw-receipts :
      (p : TopicProducer) (message : ProducerMessage) (c : Channels W)
      → IsOpen p
      → Returns
          (HandsOut net compress w ps fuel (some max) p c)
          (send_raw net compress w ps fuel (some max) p message c)
  send_raw-receipts p message c h =
      OnSome-Returns _ _ (send_raw-is_some p message c)
        (send_raw-HandsOut net compress w ps fuel (some max) p message c h)

  send_batch-is_some :
      (p : TopicProducer) (batch : Batch) (c : Channels W)
      → p.batch ≡ some batch
      → is_some (send_batch net compress w ps fuel (some max) p c) ≡ true
  unfolding send_batch
  send_batch-is_some p batch c q = elim (Bool-cases (nat_beq (length batch.storage) 0)) [
    | inl t ↦ rw (q, t, is_some) refl
    | inr t ↦
        rw (q, t)
          (is_some-map_option _ _
            ∙ send_drained-is_some (record p { batch = some batch }) batch
                (length batch.storage % 2 ^ 32) c)
  ]

  -- Under the same conditions `send_batch` returns: for a producer that batches, nothing waits any
  -- more, the batch has room, and the channels are those that were handed out before, each once and
  -- in order.
  pub send_batch-flushes :
      (p : TopicProducer) (batch : Batch) (c : Channels W)
      → p.batch ≡ some batch
      → IsOpen p
      → Returns
          (Flushed net compress w ps fuel (some max) p c)
          (send_batch net compress w ps fuel (some max) p c)
  send_batch-flushes p batch c q h =
      OnSome-Returns _ _ (send_batch-is_some p batch c q)
        (send_batch-Flushed net compress w ps fuel (some max) p batch c q h)
