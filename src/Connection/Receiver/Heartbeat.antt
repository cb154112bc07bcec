-- ===== src/Connection/Receiver/Heartbeat.antt =====
-- The pings of the broker are answered.

use pulsar_rs.Shared.{
  ap, zero, ℕ, suc, ◌+◌, ◌≡◌, refl, ◌∙◌, Bool, true, false, Option, none, some, List, [], ◌∷◌, ◌++◌,
  arith, is_some, if◌then◌else◌, nat_eq,
}
use pulsar_rs.Message.Key.{
  Message, RequestKey, request_id, producer_send, consumer, close_consumer, request_key, key_eq,
}
use pulsar_rs.Connection.Messages
use pulsar_rs.Connection.Receiver.{
  Receiver, Effect, resolve, forward, resolve_ping, outbound, Polled, item, closed, Inbound,
  message, failure, by_key, dispatch, on_message, inbound_loop,
}
use pulsar_rs.Connection.Receiver.History.{messages_of}

-- The pings among the messages, and what is sent to the broker.
abbrev pub pings : List Message → ℕ
pings [] = 0
pings (m ∷ ms) = (if is_some m.command.ping then 1 else 0) + pings ms

abbrev pub outbounds : List Effect → List Message
outbounds [] = []
outbounds (resolve c m ∷ es) = outbounds es
outbounds (forward c m ∷ es) = outbounds es
outbounds (resolve_ping c ∷ es) = outbounds es
outbounds (outbound m ∷ es) = m ∷ outbounds es

abbrev pub replicate {ℓ} : {A : Type ℓ} → ℕ → A → List A
replicate zero a = []
replicate (suc n) a = a ∷ replicate n a

outbounds-append : (xs ys : List Effect) → outbounds (xs ++ ys) ≡ outbounds xs ++ outbounds ys
outbounds-append [] ys = refl
outbounds-append (resolve c m ∷ xs) ys = outbounds-append xs ys
outbounds-append (forward c m ∷ xs) ys = outbounds-append xs ys
outbounds-append (resolve_ping c ∷ xs) ys = outbounds-append xs ys
outbounds-append (outbound m ∷ xs) ys = ap (◌∷◌ m) (outbounds-append xs ys)

by_key-outbounds :
    (r : Receiver) (o : Option RequestKey) (m : Message) → outbounds (by_key r o m).1 ≡ []
unfolding by_key
by_key-outbounds r (some (request_id id)) m = ground arith
by_key-outbounds r (some (producer_send p s)) m = ground arith
by_key-outbounds r (some (consumer i)) m = ground arith
by_key-outbounds r (some (close_consumer i id)) m = ground arith
by_key-outbounds r none m = refl

dispatch-outbounds :
    (r : Receiver) (m : Message) (ping pong : Bool)
    → outbounds (dispatch r m ping pong).1 ≡ replicate (if ping then 1 else 0) Messages.pong
unfolding dispatch
dispatch-outbounds r m true pong = refl
dispatch-outbounds r m false true = ground arith
dispatch-outbounds r m false false = by_key-outbounds r (request_key m) m

replicate-add {ℓ} :
    {A : Type ℓ} (a : A) (b : Bool) (n : ℕ)
    → replicate (if b then 1 else 0) a ++ replicate n a ≡ replicate ((if b then 1 else 0) + n) a
replicate-add a true n = let e : 1 + n ≡ suc n = omega arith in rw e
replicate-add a false n = let e : 0 + n ≡ n = omega arith in rw e

-- The receiver answers each ping that the inbound loop takes with one pong, and sends the broker
-- nothing else.
pub inbound_loop-pongs :
    (r : Receiver) (es : List (Polled Inbound))
    → outbounds (inbound_loop r es).2 ≡ replicate (pings (messages_of es)) Messages.pong
unfolding inbound_loop messages_of
inbound_loop-pongs r [] = refl
inbound_loop-pongs r (closed ∷ es) = refl
inbound_loop-pongs r (item (failure e) ∷ es) = refl
inbound_loop-pongs r (item (message m) ∷ es) =
    outbounds-append (on_message r m).1 (inbound_loop (on_message r m).0 es).2
    ∙ rw (inbound_loop-pongs (on_message r m).0 es, step)
        (replicate-add Messages.pong (is_some m.command.ping) (pings (messages_of es)))
  where
    step :
        outbounds (on_message r m).1
        ≡ replicate (if is_some m.command.ping then 1 else 0) Messages.pong
    step =
        unfold on_message in
        dispatch-outbounds r m (is_some m.command.ping) (is_some m.command.pong)
