-- ===== src/Connection/Receiver/Stop.antt =====
-- How a poll of the receiver ends.

use pulsar_rs.Shared.{
  subst, ◌≡◌, refl, Bool, true, false, Option, none, some, List, [], ◌∷◌, arith, nat_eq,
}
use pulsar_rs.Message.Key.{
  Message, RequestKey, request_id, producer_send, consumer, close_consumer, request_key, key_eq,
}
use pulsar_rs.Errors.SharedError.{SharedError}
use pulsar_rs.Connection.Receiver.{
  Receiver, Register, request, consumer_channel, ping_request, Effect, Polled, item, closed,
  Inbound, message, failure, Poll, pending, ready_err, on_register, by_key, on_message,
  registrations_loop, inbound_loop, after_registrations, poll,
}

-- A round leaves the shared error alone.
on_register-error : (r : Receiver) (reg : Register) → (on_register r reg).0.error ≡ r.error
unfolding on_register
on_register-error r (request k c) = ground arith
on_register-error r (consumer_channel i c) = refl
on_register-error r (ping_request c) = refl

by_key-error :
    (r : Receiver) (o : Option RequestKey) (m : Message) → (by_key r o m).0.error ≡ r.error
unfolding by_key
by_key-error r (some (request_id id)) m = ground arith
by_key-error r (some (producer_send p s)) m = ground arith
by_key-error r (some (consumer i)) m = refl
by_key-error r (some (close_consumer i id)) m = ground arith
by_key-error r none m = refl

on_message-error : (r : Receiver) (m : Message) → (on_message r m).0.error ≡ r.error
unfolding on_message
on_message-error r m = ground (arith, by_key-error r (request_key m) m)

-- A loop that goes on leaves the error alone; one that stops sets it.
abbrev Ends : SharedError → Bool → SharedError → Type 0
Ends before true after = after ≡ before
Ends before false after = after.error_set ≡ true

registrations_loop-Ends :
    (r : Receiver) (es : List (Polled Register))
    → Ends r.error (registrations_loop r es).0 (registrations_loop r es).1.error
unfolding registrations_loop
registrations_loop-Ends r [] = refl
registrations_loop-Ends r (closed ∷ es) = refl
registrations_loop-Ends r (item reg ∷ es) =
    subst
      (λ e.
        Ends e (registrations_loop (on_register r reg).0 es).0
          (registrations_loop (on_register r reg).0 es).1.error)
      (on_register-error r reg) (registrations_loop-Ends (on_register r reg).0 es)

-- What the result of a poll says of the error.
abbrev pub Reports : SharedError → Poll → SharedError → Type 0
Reports before pending after = after ≡ before
Reports before ready_err after = after.error_set ≡ true

inbound_loop-Reports :
    (r : Receiver) (es : List (Polled Inbound))
    → Reports r.error (inbound_loop r es).0 (inbound_loop r es).1.error
unfolding inbound_loop
inbound_loop-Reports r [] = refl
inbound_loop-Reports r (closed ∷ es) = refl
inbound_loop-Reports r (item (failure e) ∷ es) = refl
inbound_loop-Reports r (item (message m) ∷ es) =
    subst
      (λ e.
        Reports e (inbound_loop (on_message r m).0 es).0
          (inbound_loop (on_message r m).0 es).1.error)
      (on_message-error r m) (inbound_loop-Reports (on_message r m).0 es)

after_registrations-Reports :
    (before : SharedError) (t : Bool × Receiver × List Effect) (es : List (Polled Inbound))
    → Ends before t.0 t.1.error
    → Reports before (after_registrations t es).0 (after_registrations t es).1.error
unfolding after_registrations
after_registrations-Reports before (true, r, out) es h =
    subst (λ e. Reports e (inbound_loop r es).0 (inbound_loop r es).1.error) h
      (inbound_loop-Reports r es)
after_registrations-Reports before (false, r, out) es h = h

-- A poll that is not shut down either goes on waiting, with the shared error as it was, or ends the
-- receiver with the shared error set, so that the connection is no longer valid.
pub poll-Reports :
    (r : Receiver) (regs : List (Polled Register)) (msgs : List (Polled Inbound))
    → Reports r.error (poll r false regs msgs).0 (poll r false regs msgs).1.error
unfolding poll
poll-Reports r regs msgs =
    after_registrations-Reports r.error (registrations_loop r regs) msgs
      (registrations_loop-Ends r regs)
