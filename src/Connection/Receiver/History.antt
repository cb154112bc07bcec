-- ===== src/Connection/Receiver/History.antt =====
-- What the streams delivered over a series of polls, and where the effects come from.
use mathlib.Core.List.{Mem, mem-append_left, mem-append_right, mem-cons_self, mem-cons_of_mem}
use pulsar_rs.Shared.{List, [], ◌∷◌, ◌++◌, All}
use pulsar_rs.Message.Key.{Message}
use pulsar_rs.Errors.SharedError.{SharedError}
use pulsar_rs.Connection.Receiver.{new, Register, Polled, item, closed, Inbound, message, failure}
use pulsar_rs.Connection.Receiver.Rule.{Input, run, run_rule, Registrations, Messages}
use pulsar_rs.Connection.Receiver.Origin.{IsKnown, Origin, on_register-Origin, on_message-Origin}

-- The registrations up to the end of the stream.
unfoldable pub registrations_of : List (Polled Register) → List Register
registrations_of [] = []
registrations_of (closed ∷ es) = []
registrations_of (item reg ∷ es) = reg ∷ registrations_of es

-- The messages up to the end of the stream or its first error.
unfoldable pub messages_of : List (Polled Inbound) → List Message
messages_of [] = []
messages_of (closed ∷ es) = []
messages_of (item (failure e) ∷ es) = []
messages_of (item (message m) ∷ es) = m ∷ messages_of es

unfoldable pub registered : List Input → List Register
registered [] = []
registered (i ∷ is) = registrations_of i.regs ++ registered is

unfoldable pub arrived : List Input → List Message
arrived [] = []
arrived (i ∷ is) = messages_of i.msgs ++ arrived is

Registrations-Mem :
    (all : List Register) (es : List (Polled Register))
    → ((reg : Register) → Mem reg (registrations_of es) → Mem reg all)
    → Registrations (λ reg. Mem reg all) es
unfolding registrations_of
Registrations-Mem all [] h = tt
Registrations-Mem all (closed ∷ es) h = tt
Registrations-Mem all (item reg ∷ es) h =
    (h reg mem-cons_self, Registrations-Mem all es (λ x i. h x (mem-cons_of_mem reg i)))

Messages-Mem :
    (all : List Message) (es : List (Polled Inbound))
    → ((m : Message) → Mem m (messages_of es) → Mem m all)
    → Messages (λ m. Mem m all) es
unfolding messages_of
Messages-Mem all [] h = tt
Messages-Mem all (closed ∷ es) h = tt
Messages-Mem all (item (failure e) ∷ es) h = tt
Messages-Mem all (item (message m) ∷ es) h =
    (h m mem-cons_self, Messages-Mem all es (λ x i. h x (mem-cons_of_mem m i)))

Inputs-Mem :
    (rs : List Register) (ms : List Message) (is : List Input)
    → ((reg : Register) → Mem reg (registered is) → Mem reg rs)
    → ((m : Message) → Mem m (arrived is) → Mem m ms)
    → All (λ i. Registrations (λ reg. Mem reg rs) i.regs × Messages (λ m. Mem m ms) i.msgs) is
unfolding registered arrived
Inputs-Mem rs ms [] g h = tt
Inputs-Mem rs ms (i ∷ is) g h = (
  (
    Registrations-Mem rs i.regs (λ x k. g x (mem-append_left _ k)),
    Messages-Mem ms i.msgs (λ x k. h x (mem-append_left _ k)),
  ),
  Inputs-Mem rs ms is (λ x k. g x (mem-append_right _ k)) (λ x k. h x (mem-append_right _ k)),
)

-- In every series of polls of a new receiver: a requester is handed only a message that arrived and
-- that answers the key it registered (or the closing of a consumer under its request id); a consumer's
-- channel gets only messages that arrived for the consumer it was registered for; a ping is resolved
-- only for who registered it; and nothing is sent to the broker but pongs.
pub run-Origin :
    (e : SharedError) (is : List Input)
    → All (Origin (λ reg. Mem reg (registered is)) (λ m. Mem m (arrived is))) (run (new e) is).1
run-Origin e is =
    (run_rule (IsKnown G H) (Origin G H) G H (on_register-Origin G H) (on_message-Origin G H)
      (λ r s h. record {
        waiting = h.waiting;
        subscribed = h.subscribed;
        at_hand = h.at_hand;
        pinging = h.pinging;
      })
      (new e) is (Inputs-Mem _ _ is (λ x k. k) (λ x k. k))
      (record { waiting = tt; subscribed = tt; at_hand = tt; pinging = λ c q. cc })).1
  where
    G : Register → Type 0
    G reg = Mem reg (registered is)

    H : Message → Type 0
    H m = Mem m (arrived is)
