-- ===== src/Connection/Receiver/Rule.antt =====
-- What every message and every registration keeps, a poll and a series of polls keep.
use pulsar_rs.Shared.{Bool, true, false, List, [], ◌∷◌, ◌++◌, All, All-append}
use pulsar_rs.Message.Key.{Message}
use pulsar_rs.Errors.SharedError.{SharedError}
use pulsar_rs.Connection.Receiver.{
  Receiver, Register, Effect, Polled, item, closed, Inbound, message, failure, on_register,
  on_message, registrations_loop, inbound_loop, after_registrations, poll,
}

abbrev pub Registrations : (Register → Type 0) → List (Polled Register) → Type 0
Registrations G [] = Unit {0}
Registrations G (closed ∷ es) = Unit {0}
Registrations G (item reg ∷ es) = G reg × Registrations G es

abbrev pub Messages : (Message → Type 0) → List (Polled Inbound) → Type 0
Messages H [] = Unit {0}
Messages H (closed ∷ es) = Unit {0}
Messages H (item (failure e) ∷ es) = Unit {0}
Messages H (item (message m) ∷ es) = H m × Messages H es

-- The answers of the streams to one poll.
pub record Input : Type 0 where
  pub down : Bool
  pub regs : List (Polled Register)
  pub msgs : List (Polled Inbound)

-- Where every registration and every message is admitted.
Registrations-all :
    (G : Register → Type 0) (es : List (Polled Register))
    → ((reg : Register) → G reg)
    → Registrations G es
Registrations-all G [] g = tt
Registrations-all G (closed ∷ es) g = tt
Registrations-all G (item reg ∷ es) g = (g reg, Registrations-all G es g)

Messages-all :
    (H : Message → Type 0) (es : List (Polled Inbound)) → ((m : Message) → H m) → Messages H es
Messages-all H [] h = tt
Messages-all H (closed ∷ es) h = tt
Messages-all H (item (failure e) ∷ es) h = tt
Messages-all H (item (message m) ∷ es) h = (h m, Messages-all H es h)

pub Inputs-All :
    (G : Register → Type 0) (H : Message → Type 0) (is : List Input)
    → ((reg : Register) → G reg)
    → ((m : Message) → H m)
    → All (λ i. Registrations G i.regs × Messages H i.msgs) is
Inputs-All G H [] g h = tt
Inputs-All G H (i ∷ is) g h =
    ((Registrations-all G i.regs g, Messages-all H i.msgs h), Inputs-All G H is g h)

-- The effects of a series of polls, and the receiver after it.
unfoldable pub run : Receiver → List Input → Receiver × List Effect
run r [] = (r, [])
run r (i ∷ is) =
    let (result, r', out) = poll r i.down i.regs i.msgs in
    let (r'', more) = run r' is in (r'', out ++ more)

module _ (P : Receiver → Type 0) (Q : Effect → Type 0) (G : Register → Type 0)
    (H : Message → Type 0)
    (keep_register : (r : Receiver) (reg : Register)
      → G reg
      → P r
      → P (on_register r reg).0 × All Q (on_register r reg).1)
    (keep_message : (r : Receiver) (m : Message)
      → H m
      → P r
      → P (on_message r m).0 × All Q (on_message r m).1)
    (keep_error : (r : Receiver) (e : SharedError) → P r → P (record r { error = e })) where
  Registrations-rule :
      (r : Receiver) (es : List (Polled Register))
      → Registrations G es
      → P r
      → P (registrations_loop r es).1 × All Q (registrations_loop r es).2
  unfolding registrations_loop
  Registrations-rule r [] g p = (p, tt)
  Registrations-rule r (closed ∷ es) g p = (keep_error r _ p, tt)
  Registrations-rule r (item reg ∷ es) (g, gs) p =
      let (p', q) = keep_register r reg g p in
      let (p'', qs) = Registrations-rule (on_register r reg).0 es gs p' in
      (p'', All-append Q _ _ q qs)

  inbound_rule :
      (r : Receiver) (es : List (Polled Inbound))
      → Messages H es
      → P r
      → P (inbound_loop r es).1 × All Q (inbound_loop r es).2
  unfolding inbound_loop
  inbound_rule r [] h p = (p, tt)
  inbound_rule r (closed ∷ es) h p = (keep_error r _ p, tt)
  inbound_rule r (item (failure e) ∷ es) h p = (keep_error r _ p, tt)
  inbound_rule r (item (message m) ∷ es) (h, hs) p =
      let (p', q) = keep_message r m h p in
      let (p'', qs) = inbound_rule (on_message r m).0 es hs p' in (p'', All-append Q _ _ q qs)

  after_registrations_rule :
      (t : Bool × Receiver × List Effect) (msgs : List (Polled Inbound))
      → Messages H msgs
      → P t.1 × All Q t.2
      → P (after_registrations t msgs).1 × All Q (after_registrations t msgs).2
  unfolding after_registrations
  after_registrations_rule (true, r, out) msgs h (p, q) =
      let (p', qs) = inbound_rule r msgs h p in (p', All-append Q out _ q qs)
  after_registrations_rule (false, r, out) msgs h pq = pq

  pub poll_rule :
      (r : Receiver) (down : Bool) (regs : List (Polled Register)) (msgs : List (Polled Inbound))
      → Registrations G regs
      → Messages H msgs
      → P r
      → P (poll r down regs msgs).1 × All Q (poll r down regs msgs).2
  unfolding poll
  poll_rule r true regs msgs g h p = (p, tt)
  poll_rule r false regs msgs g h p =
      after_registrations_rule (registrations_loop r regs) msgs h (Registrations-rule r regs g p)

  pub run_rule :
      (r : Receiver) (is : List Input)
      → All (λ i. Registrations G i.regs × Messages H i.msgs) is
      → P r
      → P (run r is).0 × All Q (run r is).1
  unfolding run
  run_rule r [] g p = (p, tt)
  run_rule r (i ∷ is) (g, gs) p =
      let (p', q) = poll_rule r i.down i.regs i.msgs g.0 g.1 p in
      let (p'', qs) = run_rule (poll r i.down i.regs i.msgs).1 is gs p' in
      (p'', All-append Q _ _ q qs)
