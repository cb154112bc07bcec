-- ===== src/Connection/Receiver/Pairing.antt =====
-- A request and its answer meet, whichever the receiver sees first.
use pulsar_rs.Shared.{ℕ, arith, ◌≡◌, none, some, [], ◌∷◌, arith}
use pulsar_rs.Shared.Assoc
use pulsar_rs.Shared.Assoc.{lookup-insert_self, remove-insert_self}
use pulsar_rs.Message.Key.{Message, RequestKey, request_id, producer_send, request_key, key_eq}
use pulsar_rs.Connection.Receiver.{Receiver, request, resolve, on_register, on_answer, on_message}

-- A message that `poll` hands to who waits for the key.
pub data IsAnswer (m : Message) : RequestKey → Type 0 where
  to_request :
      (id : ℕ)
      → m.command.ping ≡ none
      → m.command.pong ≡ none
      → request_key m ≡ some (request_id id)
      → IsAnswer m (request_id id)
  to_send :
      (p s : ℕ)
      → m.command.ping ≡ none
      → m.command.pong ≡ none
      → request_key m ≡ some (producer_send p s)
      → IsAnswer m (producer_send p s)

pub on_message-answer :
    (r : Receiver) (m : Message) {k : RequestKey} → IsAnswer m k → on_message r m ≡ on_answer r k m
unfolding on_message
on_message-answer r m (to_request id a b e) = ground arith
on_message-answer r m (to_send p s a b e) = ground arith

module _ (r : Receiver) (k : RequestKey) (c : ℕ) (m : Message) where
  request_then_answer :
      Assoc.lookup k r.pending_requests ≡ none
      → Assoc.lookup k r.received_messages ≡ none
      → on_answer (on_register r (request k c)).0 k m ≡ (r, resolve c m ∷ [])
  unfolding on_register on_answer
  request_then_answer p q = ground (
    arith,
    lookup-insert_self k c r.pending_requests,
    remove-insert_self k c r.pending_requests p,
  )

  answer_then_request :
      Assoc.lookup k r.pending_requests ≡ none
      → Assoc.lookup k r.received_messages ≡ none
      → on_register (on_answer r k m).0 (request k c) ≡ (r, resolve c m ∷ [])
  unfolding on_register on_answer
  answer_then_request p q = ground (
    arith,
    lookup-insert_self k m r.received_messages,
    remove-insert_self k m r.received_messages q,
  )

-- A key that is neither waited for nor answered yet: the request may be registered before the answer
-- arrives or after it. Either way the requester gets that answer and nothing else is sent, and the
-- receiver is left as it was before the two.
pub pairing_either_order :
    (r : Receiver) (k : RequestKey) (c : ℕ) (m : Message)
    → IsAnswer m k
    → Assoc.lookup k r.pending_requests ≡ none
    → Assoc.lookup k r.received_messages ≡ none
    → ((on_register r (request k c)).1 ≡ [])
      × (on_message (on_register r (request k c)).0 m ≡ (r, resolve c m ∷ []))
      × ((on_message r m).1 ≡ [])
      × (on_register (on_message r m).0 (request k c) ≡ (r, resolve c m ∷ []))
pairing_either_order r k c m a p q =
    rw (on_message-answer r m a, on_message-answer (on_register r (request k c)).0 m a)
      (
        silent_request,
        request_then_answer r k c m p q,
        silent_answer,
        answer_then_request r k c m p q,
      )
  where
    silent_request : (on_register r (request k c)).1 ≡ []
    silent_request = unfold on_register in ground arith

    silent_answer : (on_answer r k m).1 ≡ []
    silent_answer = unfold on_answer in ground arith
