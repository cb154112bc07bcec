-- ===== src/Connection/Receiver.antt =====
-- `Receiver` of src/connection.rs: the task that pairs the broker's messages with the requests that
-- wait for them.
pub mod Pairing
pub mod Rule
pub mod Disjoint
pub mod Origin
pub mod Stop
pub mod Heartbeat
pub mod Once
pub mod History
use pulsar_rs.Shared.{
  ℕ, Bool, true, false, Option, none, some, List, [], ◌∷◌, ◌++◌, nat_eq, is_some,
}
use pulsar_rs.Shared.Assoc
use pulsar_rs.Message.Key.{
  Message, RequestKey, request_id, producer_send, consumer, close_consumer, request_key, key_eq,
}
use pulsar_rs.Errors.{ConnectionError, disconnected}
use pulsar_rs.Errors.SharedError.{SharedError}
use pulsar_rs.Errors.SharedError
use pulsar_rs.Connection.Messages

-- A channel's sending half is a number, that of the channel.
pub data Register : Type 0 where
  request : RequestKey → ℕ → Register
  consumer_channel : ℕ → ℕ → Register
  ping_request : ℕ → Register

pub record Receiver : Type 0 where
  pub error : SharedError
  pub pending_requests : List (RequestKey × ℕ)
  pub consumers : List (ℕ × ℕ)
  pub received_messages : List (RequestKey × Message)
  pub ping : Option ℕ

-- `Receiver::new`.
abbrev pub new : SharedError → Receiver
new error = record {
  error = error;
  pending_requests = [];
  consumers = [];
  received_messages = [];
  ping = none;
}

-- What the receiver does to its channels, in order. A send to a channel whose other half is gone has
-- no effect, and the code goes on.
pub data Effect : Type 0 where
  resolve : ℕ → Message → Effect
  forward : ℕ → Message → Effect
  resolve_ping : ℕ → Effect
  outbound : Message → Effect

-- One round of the loop over the registrations. The helpers match on what the map had at the key.
unfoldable pub give_or_wait : Receiver → RequestKey → ℕ → Option Message → Receiver × List Effect
give_or_wait r key resolver none =
    (record r { pending_requests = Assoc.insert key resolver r.pending_requests }, [])
give_or_wait r key resolver (some msg) = (
  record r { received_messages = Assoc.remove key r.received_messages },
  resolve resolver msg ∷ [],
)

unfoldable pub on_register : Receiver → Register → Receiver × List Effect
unfolding give_or_wait
on_register r (request key resolver) =
    give_or_wait r key resolver (Assoc.lookup key r.received_messages)
on_register r (consumer_channel consumer_id resolver) =
    (record r { consumers = Assoc.insert consumer_id resolver r.consumers }, [])
on_register r (ping_request resolver) = (record r { ping = some resolver }, [])

-- The arms of the match on `msg.request_key()`.
unfoldable pub give_or_keep : Receiver → RequestKey → Message → Option ℕ → Receiver × List Effect
give_or_keep r key msg none =
    (record r { received_messages = Assoc.insert key msg r.received_messages }, [])
give_or_keep r key msg (some resolver) =
    (record r { pending_requests = Assoc.remove key r.pending_requests }, resolve resolver msg ∷ [])

unfoldable pub on_answer : Receiver → RequestKey → Message → Receiver × List Effect
unfolding give_or_keep
on_answer r key msg = give_or_keep r key msg (Assoc.lookup key r.pending_requests)

unfoldable pub to_consumer : Message → Option ℕ → List Effect
to_consumer msg none = []
to_consumer msg (some channel) = forward channel msg ∷ []

unfoldable pub give_or_forward :
    Receiver → ℕ → RequestKey → Message → Option ℕ → Receiver × List Effect
unfolding to_consumer
give_or_forward r consumer_id key msg none =
    (r, to_consumer msg (Assoc.lookup consumer_id r.consumers))
give_or_forward r consumer_id key msg (some resolver) =
    (record r { pending_requests = Assoc.remove key r.pending_requests }, resolve resolver msg ∷ [])

unfoldable pub on_close_consumer : Receiver → ℕ → ℕ → Message → Receiver × List Effect
unfolding give_or_forward
on_close_consumer r consumer_id id msg =
    give_or_forward r consumer_id (request_id id) msg
      (Assoc.lookup (request_id id) r.pending_requests)

unfoldable pub by_key : Receiver → Option RequestKey → Message → Receiver × List Effect
unfolding on_answer on_close_consumer to_consumer
by_key r (some (request_id id)) msg = on_answer r (request_id id) msg
by_key r (some (producer_send p s)) msg = on_answer r (producer_send p s) msg
by_key r (some (consumer consumer_id)) msg =
    (r, to_consumer msg (Assoc.lookup consumer_id r.consumers))
by_key r (some (close_consumer consumer_id id)) msg = on_close_consumer r consumer_id id msg
by_key r none msg = (r, [])

-- `self.ping.take()` and the send of the pong to who asked.
unfoldable pub on_pong : Receiver → Option ℕ → Receiver × List Effect
on_pong r none = (r, [])
on_pong r (some sender) = (record r { ping = none }, resolve_ping sender ∷ [])

-- One round of the loop over the inbound messages. `dispatch` is told whether the message is a ping
-- and whether it is a pong.
unfoldable pub dispatch : Receiver → Message → Bool → Bool → Receiver × List Effect
unfolding by_key on_pong
dispatch r msg true pong = (r, outbound Messages.pong ∷ [])
dispatch r msg false true = on_pong r r.ping
dispatch r msg false false = by_key r (request_key msg) msg

unfoldable pub on_message : Receiver → Message → Receiver × List Effect
unfolding dispatch
on_message r msg = dispatch r msg (is_some msg.command.ping) (is_some msg.command.pong)

-- What a poll of a stream returned before it returned `Pending`.
pub data Polled (A : Type 0) : Type 0 where
  item : A → Polled A
  closed : Polled A

pub data Poll : Type 0 where
  pending ready_err : Poll

-- The loop over the registrations: the end of the list is `Pending`; `true` says to go on.
unfoldable pub registrations_loop :
    Receiver → List (Polled Register) → Bool × Receiver × List Effect
unfolding on_register
registrations_loop r [] = (true, r, [])
registrations_loop r (closed ∷ es) =
    (false, record r { error = SharedError.set r.error disconnected }, [])
registrations_loop r (item reg ∷ es) =
    let (r', out) = on_register r reg in
    let (go, r'', more) = registrations_loop r' es in (go, r'', out ++ more)

-- An item of the inbound stream: a message or an error of the stream.
pub data Inbound : Type 0 where
  message : Message → Inbound
  failure : ConnectionError → Inbound

unfoldable pub inbound_loop : Receiver → List (Polled Inbound) → Poll × Receiver × List Effect
unfolding on_message
inbound_loop r [] = (pending, r, [])
inbound_loop r (closed ∷ es) =
    (ready_err, record r { error = SharedError.set r.error disconnected }, [])
inbound_loop r (item (failure e) ∷ es) =
    (ready_err, record r { error = SharedError.set r.error e }, [])
inbound_loop r (item (message msg) ∷ es) =
    let (r', out) = on_message r msg in
    let (result, r'', more) = inbound_loop r' es in (result, r'', out ++ more)

-- The loop over the inbound messages follows, unless the registrations were closed.
unfoldable pub after_registrations :
    Bool × Receiver × List Effect → List (Polled Inbound) → Poll × Receiver × List Effect
unfolding inbound_loop
after_registrations (true, r, out) msgs =
    let (result, r', more) = inbound_loop r msgs in (result, r', out ++ more)
after_registrations (false, r, out) msgs = (ready_err, r, out)

-- `Future::poll`. The first argument says that the shutdown channel has fired or was dropped.
unfoldable pub poll :
    Receiver → Bool → List (Polled Register) → List (Polled Inbound) → Poll × Receiver × List Effect
unfolding registrations_loop after_registrations
poll r true regs msgs = (ready_err, r, [])
poll r false regs msgs = after_registrations (registrations_loop r regs) msgs
