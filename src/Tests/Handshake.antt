-- ===== src/Tests/Handshake.antt =====
-- A connection with a broker that accepts it and a stream that takes two messages.
use pulsar_rs.Shared.{
  ◌≡◌, refl, sym, Bool, true, false, none, some, List, [], ◌∷◌, ◌++◌, append-nil, length, ltb,
}
use pulsar_rs.Errors.{ConnectionError, Result, ok, err}
use pulsar_rs.Errors.SharedError
use pulsar_rs.Message.Key.{Message}
use pulsar_rs.Proto.{command_of_type}
use pulsar_rs.Connection.Messages
use pulsar_rs.Connection.Handshake.{Framed, prepare_stream, write_all}
use pulsar_rs.Connection.Handshake.Written.{if_sent, Logs}
use pulsar_rs.Connection.Handshake.InOrder.{Begins, prepare_stream-Begins}

abbrev welcome : Message
welcome =
    Messages.plain
      (record (command_of_type 3) { connected = some (record { server_version = 50 ∷ [] }) })

-- What was written, and what was read.
abbrev Streams : Type 0
Streams = List Message × List Message

abbrev take_if : Bool → Streams → Message → Result (Unit {0}) ConnectionError × Streams
take_if true (written, read) m = (ok tt, (written ++ m ∷ [], read))
take_if false (written, read) m = (err ConnectionError.disconnected, (written, read))

abbrev framed : Framed Streams
framed = record {
  send = λ w m. take_if (ltb (length w.0) 2) w m;
  next = λ w. (some (ok welcome), (w.0, w.1 ++ welcome ∷ []));
  spawn = λ w. (true, w);
  auth_method_name = λ w. 116 ∷ [];
  auth_data = λ w. (ok (1 ∷ 2 ∷ []), w);
}

take_if-writes :
    (b : Bool) (w : Streams) (m : Message)
    → (take_if b w m).1.0 ≡ w.0 ++ if_sent m (take_if b w m).0
take_if-writes true w m = refl
take_if-writes false w m = sym (append-nil w.0)

take_if-reads : (b : Bool) (w : Streams) (m : Message) → (take_if b w m).1.1 ≡ w.1
take_if-reads true w m = refl
take_if-reads false w m = refl

logs : Logs framed (λ w. w.0) (λ w. w.1)
logs = record {
  send_written = λ w m. take_if-writes (ltb (length w.0) 2) w m;
  send_read = λ w m. take_if-reads (ltb (length w.0) 2) w m;
  next_written = λ w. refl;
  next_read = λ w. refl;
  spawn_written = λ w. refl;
  spawn_read = λ w. refl;
  auth_written = λ w. refl;
  auth_read = λ w. refl;
}

-- The second of two pings is refused.
refused :
    (write_all framed
      (Messages.ping ∷ Messages.ping ∷ [])
      SharedError.new
      (Messages.ping ∷ [], [])).0
    ≡ SharedError.set SharedError.new ConnectionError.disconnected
unfolding write_all
refused = refl

prepare_stream-Begins_example :
    Begins logs true none
      ([], [])
      (Messages.ping ∷ Messages.ping ∷ [])
      (prepare_stream framed true none ([], []))
prepare_stream-Begins_example =
    prepare_stream-Begins logs true none ([], []) (Messages.ping ∷ Messages.ping ∷ [])
