-- ===== src/Connection/Receiver/Once.antt =====
-- A request's channel is used at most as often as it was registered.
use pulsar_rs.Shared.{
  ℕ, ◌+◌, ◌≤◌, ◌≡◌, refl, Bool, true, false, Option, none, some, List, [], ◌∷◌, ◌++◌, arith, nat_eq,
  if◌then◌else◌, nat_beq,
}
use pulsar_rs.Shared.Assoc
use pulsar_rs.Message.Key.{
  Message, RequestKey, request_id, producer_send, consumer, close_consumer, request_key, key_eq,
}
use pulsar_rs.Errors.SharedError.{SharedError}
use pulsar_rs.Connection.Receiver.{
  Receiver, new, Register, request, consumer_channel, ping_request, Effect, resolve, forward,
  resolve_ping, outbound, Polled, item, closed, Inbound, message, failure, on_register,
  give_or_keep, to_consumer, give_or_forward, on_pong, by_key, dispatch, on_message,
  registrations_loop, inbound_loop, after_registrations, poll,
}
use pulsar_rs.Connection.Receiver.Rule.{Input, run}
use pulsar_rs.Connection.Receiver.History.{registrations_of, registered}

-- One if the two channels are the same.
abbrev same : ℕ → ℕ → ℕ
same a b = if nat_beq a b then 1 else 0

-- How often the channel is resolved, waits for an answer, and was registered.
abbrev pub resolutions : ℕ → List Effect → ℕ
resolutions c [] = 0
resolutions c (resolve d m ∷ es) = same d c + resolutions c es
resolutions c (forward d m ∷ es) = resolutions c es
resolutions c (resolve_ping d ∷ es) = resolutions c es
resolutions c (outbound m ∷ es) = resolutions c es

abbrev pub waiting : ℕ → List (RequestKey × ℕ) → ℕ
waiting c [] = 0
waiting c ((k, d) ∷ m) = same d c + waiting c m

abbrev pub requests_by : ℕ → Register → ℕ
requests_by c (request k d) = same d c
requests_by c (consumer_channel i d) = 0
requests_by c (ping_request d) = 0

abbrev pub requests : ℕ → List Register → ℕ
requests c [] = 0
requests c (reg ∷ rs) = requests_by c reg + requests c rs

resolutions-append :
    (c : ℕ) (xs ys : List Effect) → resolutions c (xs ++ ys) ≡ resolutions c xs + resolutions c ys
resolutions-append c [] ys = omega arith
resolutions-append c (resolve d m ∷ xs) ys = omega (arith, resolutions-append c xs ys)
resolutions-append c (forward d m ∷ xs) ys = resolutions-append c xs ys
resolutions-append c (resolve_ping d ∷ xs) ys = resolutions-append c xs ys
resolutions-append c (outbound m ∷ xs) ys = resolutions-append c xs ys

requests-append :
    (c : ℕ) (xs ys : List Register) → requests c (xs ++ ys) ≡ requests c xs + requests c ys
requests-append c [] ys = omega arith
requests-append c (reg ∷ xs) ys = omega (arith, requests-append c xs ys)

waiting-remove-le :
    (c : ℕ) (k : RequestKey) (m : List (RequestKey × ℕ))
    → waiting c (Assoc.remove k m) ≤ waiting c m
unfolding Assoc.remove
waiting-remove-le c k [] = omega arith
waiting-remove-le c k ((j, d) ∷ m) = ground (arith, waiting-remove-le c k m)

-- Removing the entry of a key takes its channel off the count.
waiting-remove-lookup :
    (c : ℕ) (k : RequestKey) (m : List (RequestKey × ℕ)) (d : ℕ)
    → Assoc.lookup k m ≡ some d
    → same d c + waiting c (Assoc.remove k m) ≤ waiting c m
unfolding Assoc.remove Assoc.lookup
waiting-remove-lookup c k [] d e = cc
waiting-remove-lookup c k ((j, b) ∷ m) d e =
    ground (arith, waiting-remove-le c k m, waiting-remove-lookup c k m d)

-- What one event may use up: the channel waits or is registered now.
abbrev Spends : ℕ → Receiver → ℕ → Receiver × List Effect → Type 0
Spends c r n t =
    resolutions c t.1 + waiting c t.0.pending_requests ≤ waiting c r.pending_requests + n

on_register-Spends :
    (c : ℕ) (r : Receiver) (reg : Register) → Spends c r (requests_by c reg) (on_register r reg)
unfolding on_register Assoc.insert
on_register-Spends c r (request k d) = ground (arith, waiting-remove-le c k r.pending_requests)
on_register-Spends c r (consumer_channel i d) = omega arith
on_register-Spends c r (ping_request d) = omega arith

give_or_keep-Spends :
    (c : ℕ) (r : Receiver) (k : RequestKey) (m : Message) (o : Option ℕ)
    → Assoc.lookup k r.pending_requests ≡ o
    → Spends c r 0 (give_or_keep r k m o)
unfolding give_or_keep
give_or_keep-Spends c r k m none e = omega arith
give_or_keep-Spends c r k m (some d) e =
    omega (arith, waiting-remove-lookup c k r.pending_requests d e)

to_consumer-resolutions : (c : ℕ) (m : Message) (o : Option ℕ) → resolutions c (to_consumer m o) ≡ 0
unfolding to_consumer
to_consumer-resolutions c m none = refl
to_consumer-resolutions c m (some d) = refl

give_or_forward-Spends :
    (c : ℕ) (r : Receiver) (i : ℕ) (k : RequestKey) (m : Message) (o : Option ℕ)
    → Assoc.lookup k r.pending_requests ≡ o
    → Spends c r 0 (give_or_forward r i k m o)
unfolding give_or_forward
give_or_forward-Spends c r i k m none e =
    omega (arith, to_consumer-resolutions c m (Assoc.lookup i r.consumers))
give_or_forward-Spends c r i k m (some d) e =
    omega (arith, waiting-remove-lookup c k r.pending_requests d e)

by_key-Spends :
    (c : ℕ) (r : Receiver) (o : Option RequestKey) (m : Message) → Spends c r 0 (by_key r o m)
unfolding by_key
by_key-Spends c r (some (request_id id)) m = give_or_keep-Spends c r _ m _ refl
by_key-Spends c r (some (producer_send p s)) m = give_or_keep-Spends c r _ m _ refl
by_key-Spends c r (some (consumer i)) m =
    omega (arith, to_consumer-resolutions c m (Assoc.lookup i r.consumers))
by_key-Spends c r (some (close_consumer i id)) m = give_or_forward-Spends c r i _ m _ refl
by_key-Spends c r none m = omega arith

on_pong-Spends : (c : ℕ) (r : Receiver) (o : Option ℕ) → Spends c r 0 (on_pong r o)
unfolding on_pong
on_pong-Spends c r none = omega arith
on_pong-Spends c r (some d) = omega arith

dispatch-Spends :
    (c : ℕ) (r : Receiver) (m : Message) (ping pong : Bool) → Spends c r 0 (dispatch r m ping pong)
unfolding dispatch
dispatch-Spends c r m true pong = omega arith
dispatch-Spends c r m false true = on_pong-Spends c r r.ping
dispatch-Spends c r m false false = by_key-Spends c r (request_key m) m

on_message-Spends : (c : ℕ) (r : Receiver) (m : Message) → Spends c r 0 (on_message r m)
unfolding on_message
on_message-Spends c r m = dispatch-Spends c r m _ _

registrations_loop-Spends :
    (c : ℕ) (r : Receiver) (es : List (Polled Register))
    → Spends c r
        (requests c (registrations_of es))
        ((registrations_loop r es).1, (registrations_loop r es).2)
unfolding registrations_loop registrations_of
registrations_loop-Spends c r [] = omega arith
registrations_loop-Spends c r (closed ∷ es) = omega arith
registrations_loop-Spends c r (item reg ∷ es) = omega (
  arith,
  on_register-Spends c r reg,
  registrations_loop-Spends c (on_register r reg).0 es,
  resolutions-append c (on_register r reg).1 (registrations_loop (on_register r reg).0 es).2,
)

inbound_loop-Spends :
    (c : ℕ) (r : Receiver) (es : List (Polled Inbound))
    → Spends c r 0 ((inbound_loop r es).1, (inbound_loop r es).2)
unfolding inbound_loop
inbound_loop-Spends c r [] = omega arith
inbound_loop-Spends c r (closed ∷ es) = omega arith
inbound_loop-Spends c r (item (failure e) ∷ es) = omega arith
inbound_loop-Spends c r (item (message m) ∷ es) = omega (
  arith,
  on_message-Spends c r m,
  inbound_loop-Spends c (on_message r m).0 es,
  resolutions-append c (on_message r m).1 (inbound_loop (on_message r m).0 es).2,
)

after_registrations-Spends :
    (c : ℕ) (r : Receiver) (n : ℕ) (t : Bool × Receiver × List Effect) (es : List (Polled Inbound))
    → Spends c r n (t.1, t.2)
    → Spends c r n ((after_registrations t es).1, (after_registrations t es).2)
unfolding after_registrations
after_registrations-Spends c r n (true, r', out) es h =
    omega (arith, inbound_loop-Spends c r' es, resolutions-append c out (inbound_loop r' es).2)
after_registrations-Spends c r n (false, r', out) es h = h

poll-Spends :
    (c : ℕ) (r : Receiver) (down : Bool) (regs : List (Polled Register))
    (msgs : List (Polled Inbound))
    → Spends c r
        (requests c (registrations_of regs))
        ((poll r down regs msgs).1, (poll r down regs msgs).2)
unfolding poll
poll-Spends c r true regs msgs = omega arith
poll-Spends c r false regs msgs =
    after_registrations-Spends c r _ (registrations_loop r regs) msgs
      (registrations_loop-Spends c r regs)

run-Spends :
    (c : ℕ) (r : Receiver) (is : List Input) → Spends c r (requests c (registered is)) (run r is)
unfolding run registered
run-Spends c r [] = omega arith
run-Spends c r (i ∷ is) = omega (
  arith,
  poll-Spends c r i.down i.regs i.msgs,
  run-Spends c (poll r i.down i.regs i.msgs).1 is,
  resolutions-append c (poll r i.down i.regs i.msgs).2 (run (poll r i.down i.regs i.msgs).1 is).1,
  requests-append c (registrations_of i.regs) (registered is),
)

-- In every series of polls of a new receiver, a request's channel is handed a message at most as
-- often as it was registered, those that still wait included: a channel that is registered once is
-- used at most once, and not while it still waits.
pub run-once :
    (e : SharedError) (is : List Input) (c : ℕ)
    → resolutions c (run (new e) is).1 + waiting c (run (new e) is).0.pending_requests
      ≤ requests c (registered is)
run-once e is c = omega (arith, run-Spends c (new e) is)
