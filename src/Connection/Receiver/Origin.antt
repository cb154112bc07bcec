-- ===== src/Connection/Receiver/Origin.antt =====
-- Where each effect of the receiver comes from: nobody is handed a message that answers another.
use mathlib.Core.Option.{some-injective}
use pulsar_rs.Shared.{
  subst, ℕ, ◌≡◌, refl, ◌⊎◌, inl, inr, Bool, true, false, Option, none, some, All, nat_eq,
}
use pulsar_rs.Shared.Assoc
use pulsar_rs.Shared.Assoc.{Entries, Entries-remove, Entries-insert, Entries-lookup}
use pulsar_rs.Message.Key.{
  Message, RequestKey, request_id, producer_send, consumer, close_consumer, request_key, key_eq,
}
use pulsar_rs.Connection.Messages
use pulsar_rs.Connection.Receiver.{
  Receiver, Register, request, consumer_channel, ping_request, Effect, resolve, forward,
  resolve_ping, outbound, give_or_wait, on_register, give_or_keep, to_consumer, give_or_forward,
  on_pong, by_key, dispatch, on_message,
}

-- The message answers a request under the key.
abbrev pub Answers : Message → RequestKey → Type 0
Answers m k =
    (request_key m ≡ some k)
    ⊎ ((i : ℕ) × (id : ℕ) × (request_key m ≡ some (close_consumer i id)) × (k ≡ request_id id))

-- The message is addressed to the consumer.
abbrev pub IsFor : Message → ℕ → Type 0
IsFor m i =
    (request_key m ≡ some (consumer i)) ⊎ ((id : ℕ) × (request_key m ≡ some (close_consumer i id)))

-- `G` holds of the registrations that were made and `H` of the messages that arrived.
module _ (G : Register → Type 0) (H : Message → Type 0) where
  abbrev pub Origin : Effect → Type 0
  Origin (resolve c m) = (k : RequestKey) × G (request k c) × H m × Answers m k
  Origin (forward c m) = (i : ℕ) × G (consumer_channel i c) × H m × IsFor m i
  Origin (resolve_ping c) = G (ping_request c)
  Origin (outbound m) = m ≡ Messages.pong

  pub record IsKnown (r : Receiver) : Type 0 where
    pub waiting : Entries (λ k c. G (request k c)) r.pending_requests
    pub subscribed : Entries (λ i c. G (consumer_channel i c)) r.consumers
    pub at_hand : Entries (λ k m. H m × (request_key m ≡ some k)) r.received_messages
    pub pinging : (c : ℕ) → r.ping ≡ some c → G (ping_request c)

  give_or_wait-Origin :
      (r : Receiver) (k : RequestKey) (c : ℕ) (o : Option Message)
      → Assoc.lookup k r.received_messages ≡ o
      → G (request k c)
      → IsKnown r
      → IsKnown (give_or_wait r k c o).0 × All Origin (give_or_wait r k c o).1
  unfolding give_or_wait
  give_or_wait-Origin r k c none e g h = (
    record {
      waiting = Entries-insert _ k c r.pending_requests g h.waiting;
      subscribed = h.subscribed;
      at_hand = h.at_hand;
      pinging = h.pinging;
    },
    tt,
  )
  give_or_wait-Origin r k c (some m) e g h =
      let (arrived, same) = Entries-lookup _ k r.received_messages h.at_hand e in
      (
        record {
          waiting = h.waiting;
          subscribed = h.subscribed;
          at_hand = Entries-remove _ k r.received_messages h.at_hand;
          pinging = h.pinging;
        },
        ((k, g, arrived, inl same), tt),
      )

  pub on_register-Origin :
      (r : Receiver) (reg : Register)
      → G reg
      → IsKnown r
      → IsKnown (on_register r reg).0 × All Origin (on_register r reg).1
  unfolding on_register
  on_register-Origin r (request k c) g h = give_or_wait-Origin r k c _ refl g h
  on_register-Origin r (consumer_channel i c) g h = (
    record {
      waiting = h.waiting;
      subscribed = Entries-insert _ i c r.consumers g h.subscribed;
      at_hand = h.at_hand;
      pinging = h.pinging;
    },
    tt,
  )
  on_register-Origin r (ping_request c) g h = (
    record {
      waiting = h.waiting;
      subscribed = h.subscribed;
      at_hand = h.at_hand;
      pinging = λ c' e. subst (λ x. G (ping_request x)) (some-injective _ _ e) g;
    },
    tt,
  )

  give_or_keep-Origin :
      (r : Receiver) (k : RequestKey) (m : Message) (o : Option ℕ)
      → Assoc.lookup k r.pending_requests ≡ o
      → H m
      → request_key m ≡ some k
      → IsKnown r
      → IsKnown (give_or_keep r k m o).0 × All Origin (give_or_keep r k m o).1
  unfolding give_or_keep
  give_or_keep-Origin r k m none e a q h = (
    record {
      waiting = h.waiting;
      subscribed = h.subscribed;
      at_hand = Entries-insert _ k m r.received_messages (a, q) h.at_hand;
      pinging = h.pinging;
    },
    tt,
  )
  give_or_keep-Origin r k m (some c) e a q h = (
    record {
      waiting = Entries-remove _ k r.pending_requests h.waiting;
      subscribed = h.subscribed;
      at_hand = h.at_hand;
      pinging = h.pinging;
    },
    ((k, Entries-lookup _ k r.pending_requests h.waiting e, a, inl q), tt),
  )

  to_consumer-Origin :
      (r : Receiver) (i : ℕ) (m : Message) (o : Option ℕ)
      → Assoc.lookup i r.consumers ≡ o
      → H m
      → IsFor m i
      → IsKnown r
      → All Origin (to_consumer m o)
  unfolding to_consumer
  to_consumer-Origin r i m none e a q h = tt
  to_consumer-Origin r i m (some c) e a q h =
      ((i, Entries-lookup _ i r.consumers h.subscribed e, a, q), tt)

  give_or_forward-Origin :
      (r : Receiver) (i id : ℕ) (m : Message) (o : Option ℕ)
      → Assoc.lookup (request_id id) r.pending_requests ≡ o
      → H m
      → request_key m ≡ some (close_consumer i id)
      → IsKnown r
      → IsKnown (give_or_forward r i (request_id id) m o).0
        × All Origin (give_or_forward r i (request_id id) m o).1
  unfolding give_or_forward
  give_or_forward-Origin r i id m none e a q h =
      (h, to_consumer-Origin r i m _ refl a (inr (id, q)) h)
  give_or_forward-Origin r i id m (some c) e a q h = (
    record {
      waiting = Entries-remove _ (request_id id) r.pending_requests h.waiting;
      subscribed = h.subscribed;
      at_hand = h.at_hand;
      pinging = h.pinging;
    },
    (
      (request_id id, Entries-lookup _ _ r.pending_requests h.waiting e, a, inr (i, id, q, refl)),
      tt,
    ),
  )

  by_key-Origin :
      (r : Receiver) (m : Message) (o : Option RequestKey)
      → request_key m ≡ o
      → H m
      → IsKnown r
      → IsKnown (by_key r o m).0 × All Origin (by_key r o m).1
  unfolding by_key
  by_key-Origin r m (some (request_id id)) q a h = give_or_keep-Origin r _ m _ refl a q h
  by_key-Origin r m (some (producer_send p s)) q a h = give_or_keep-Origin r _ m _ refl a q h
  by_key-Origin r m (some (consumer i)) q a h = (h, to_consumer-Origin r i m _ refl a (inl q) h)
  by_key-Origin r m (some (close_consumer i id)) q a h =
      give_or_forward-Origin r i id m _ refl a q h
  by_key-Origin r m none q a h = (h, tt)

  on_pong-Origin :
      (r : Receiver) (o : Option ℕ)
      → r.ping ≡ o
      → IsKnown r
      → IsKnown (on_pong r o).0 × All Origin (on_pong r o).1
  unfolding on_pong
  on_pong-Origin r none e h = (h, tt)
  on_pong-Origin r (some c) e h = (
    record {
      waiting = h.waiting;
      subscribed = h.subscribed;
      at_hand = h.at_hand;
      pinging = λ c' q. cc;
    },
    (h.pinging c e, tt),
  )

  dispatch-Origin :
      (r : Receiver) (m : Message) (ping pong : Bool)
      → H m
      → IsKnown r
      → IsKnown (dispatch r m ping pong).0 × All Origin (dispatch r m ping pong).1
  unfolding dispatch
  dispatch-Origin r m true pong a h = (h, (refl, tt))
  dispatch-Origin r m false true a h = on_pong-Origin r _ refl h
  dispatch-Origin r m false false a h = by_key-Origin r m _ refl a h

  pub on_message-Origin :
      (r : Receiver) (m : Message)
      → H m
      → IsKnown r
      → IsKnown (on_message r m).0 × All Origin (on_message r m).1
  unfolding on_message
  on_message-Origin r m a h = dispatch-Origin r m _ _ a h
