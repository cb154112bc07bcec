-- ===== src/Connection/Receiver/Disjoint.antt =====
-- No key is waited for while its answer is at hand.
use pulsar_rs.Shared.{◌≡◌, refl, ◌⊎◌, inl, Option, none, some, List, [], ◌∷◌, arith, All}
use pulsar_rs.Shared.Assoc
use pulsar_rs.Shared.Assoc.{lookup-insert, lookup-remove}
use pulsar_rs.Message.Key.{
  Message, RequestKey, request_id, producer_send, consumer, close_consumer, request_key, key_eq,
  key_beq_iff,
}
use pulsar_rs.Errors.SharedError.{SharedError}
use pulsar_rs.Connection.Receiver.{
  Receiver, new, Register, request, consumer_channel, ping_request, Effect, on_register, on_answer,
  by_key, on_message,
}
use pulsar_rs.Connection.Receiver.Rule.{Input, run, run_rule, Inputs-All}

abbrev pub IsDisjoint : Receiver → Type 0
IsDisjoint r =
    (k : RequestKey)
    → (Assoc.lookup k r.pending_requests ≡ none) ⊎ (Assoc.lookup k r.received_messages ≡ none)

pub on_register-IsDisjoint :
    (r : Receiver) (reg : Register) → IsDisjoint r → IsDisjoint (on_register r reg).0
unfolding on_register
on_register-IsDisjoint r (request key c) h k = ground (
  arith,
  h k,
  lookup-insert key k c r.pending_requests,
  lookup-remove key k r.received_messages,
  key_beq_iff key k,
)
on_register-IsDisjoint r (consumer_channel i c) h k = h k
on_register-IsDisjoint r (ping_request c) h k = h k

on_answer-IsDisjoint :
    (r : Receiver) (key : RequestKey) (m : Message)
    → IsDisjoint r
    → IsDisjoint (on_answer r key m).0
unfolding on_answer
on_answer-IsDisjoint r key m h k = ground (
  arith,
  h k,
  lookup-remove key k r.pending_requests,
  lookup-insert key k m r.received_messages,
  key_beq_iff key k,
)

by_key-IsDisjoint :
    (r : Receiver) (o : Option RequestKey) (m : Message)
    → IsDisjoint r
    → IsDisjoint (by_key r o m).0
unfolding by_key
by_key-IsDisjoint r (some (request_id id)) m h = on_answer-IsDisjoint r (request_id id) m h
by_key-IsDisjoint r (some (producer_send p s)) m h = on_answer-IsDisjoint r (producer_send p s) m h
by_key-IsDisjoint r (some (consumer i)) m h = h
by_key-IsDisjoint r (some (close_consumer i id)) m h =
    λ k. ground (arith, h k, lookup-remove (request_id id) k r.pending_requests)
by_key-IsDisjoint r none m h = h

pub on_message-IsDisjoint :
    (r : Receiver) (m : Message) → IsDisjoint r → IsDisjoint (on_message r m).0
unfolding on_message
on_message-IsDisjoint r m h k = ground (arith, h k, by_key-IsDisjoint r (request_key m) m h k)

All-any : (es : List Effect) → All (λ _. Unit {0}) es
All-any [] = tt
All-any (e ∷ es) = (tt, All-any es)

-- In every series of polls of a new receiver, no key is waited for while its answer is at hand.
pub run-IsDisjoint : (e : SharedError) (is : List Input) → IsDisjoint (run (new e) is).0
run-IsDisjoint e is =
    (run_rule IsDisjoint (λ _. Unit {0}) (λ _. Unit {0}) (λ _. Unit {0})
      (λ r reg _ h. (on_register-IsDisjoint r reg h, All-any _))
      (λ r m _ h. (on_message-IsDisjoint r m h, All-any _)) (λ r s h. h) (new e) is
      (Inputs-All _ _ is (λ _. tt) (λ _. tt)) (λ k. inl (unfold Assoc.lookup in refl))).0
