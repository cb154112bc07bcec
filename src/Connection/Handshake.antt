-- ===== src/Connection/Handshake.antt =====
-- `Connection::prepare_auth_data` and `Connection::connect` of src/connection.rs: the handshake, and
-- the task that writes the messages of the sender and of the receiver.
pub mod Written
pub mod InOrder
use pulsar_rs.Shared.{Bool, true, false, Option, none, some, List, [], ◌∷◌}
use pulsar_rs.Proto.{Bytes, Str, CommandConnected, CommandError}
use pulsar_rs.Errors.{ConnectionError, Result, ok, err}
use pulsar_rs.Errors.Server.{server_error}
use pulsar_rs.Errors.SharedError.{SharedError}
use pulsar_rs.Errors.SharedError
use pulsar_rs.Message.Key.{Message}
use pulsar_rs.Connection.Messages.{Authentication}
use pulsar_rs.Connection.Messages
use pulsar_rs.Connection.Receiver.{Receiver}
use pulsar_rs.Connection.Receiver
use pulsar_rs.Connection.Sender.{Sender}
use pulsar_rs.Connection.Sender

-- The framed stream, the authentication method and the executor, over the state `W` of the world
-- outside.
pub record Framed (W : Type 0) : Type 0 where
  pub send : W → Message → Result (Unit {0}) ConnectionError × W
  pub next : W → Option (Result Message ConnectionError) × W
  -- Whether the executor takes a task.
  pub spawn : W → Bool × W
  pub auth_method_name : W → Str
  pub auth_data : W → Result Bytes ConnectionError × W

module _ {W : Type 0} (framed : Framed W) where
  abbrev pub named :
      Str → Result Bytes ConnectionError × W → Result (Option Authentication) ConnectionError × W
  named name (err e, world) = (err e, world)
  named name (ok content, world) = (ok (some (record { name = name; content = content })), world)

  -- The argument says whether there is an authentication method.
  unfoldable pub prepare_auth_data : Bool → W → Result (Option Authentication) ConnectionError × W
  prepare_auth_data false world = (ok none, world)
  prepare_auth_data true world = named (framed.auth_method_name world) (framed.auth_data world)

  -- The sender, with the receiver that the executor runs.
  abbrev pub connected : Sender × Receiver
  connected = (Sender.new SharedError.new, Receiver.new SharedError.new)

  abbrev pub on_writer : Bool × W → Result (Sender × Receiver) ConnectionError × W
  on_writer (true, world) = (ok connected, world)
  on_writer (false, world) = (err ConnectionError.shutdown, world)

  abbrev pub on_receiver : Bool × W → Result (Sender × Receiver) ConnectionError × W
  on_receiver (true, world) = on_writer (framed.spawn world)
  on_receiver (false, world) = (err ConnectionError.shutdown, world)

  abbrev pub on_connected :
      Option CommandConnected → W → Result (Sender × Receiver) ConnectionError × W
  on_connected none world = (err ConnectionError.unexpected, world)
  on_connected (some c) world = on_receiver (framed.spawn world)

  abbrev pub on_command :
      Option CommandError
      → Option CommandConnected
      → W
      → Result (Sender × Receiver) ConnectionError × W
  on_command (some e) c world =
      (err (ConnectionError.pulsar_error (server_error e.error) (some e.message)), world)
  on_command none c world = on_connected c world

  abbrev pub on_next :
      Option (Result Message ConnectionError) × W → Result (Sender × Receiver) ConnectionError × W
  on_next (none, world) = (err ConnectionError.disconnected, world)
  on_next (some (err e), world) = (err e, world)
  on_next (some (ok msg), world) = on_command msg.command.error msg.command.connected world

  abbrev pub on_sent :
      Result (Unit {0}) ConnectionError × W → Result (Sender × Receiver) ConnectionError × W
  on_sent (err e, world) = (err e, world)
  on_sent (ok u, world) = on_next (framed.next world)

  unfoldable pub connect :
      Option Authentication → Option Str → W → Result (Sender × Receiver) ConnectionError × W
  connect auth_data proxy_to_broker_url world =
      on_sent (framed.send world (Messages.connect auth_data proxy_to_broker_url))

  -- The task that writes, on the messages of its channel up to the end of the channel. It leaves the
  -- shared error of the connection.
  abbrev pub on_written :
      (W → SharedError × W) → SharedError → Result (Unit {0}) ConnectionError × W → SharedError × W
  on_written rest error (ok u, world) = rest world
  on_written rest error (err e, world) = (SharedError.set error e, world)

  unfoldable pub write_all : List Message → SharedError → W → SharedError × W
  write_all [] error world = (error, world)
  write_all (msg ∷ rx) error world = on_written (write_all rx error) error (framed.send world msg)

  abbrev pub on_auth :
      Option Str
      → Result (Option Authentication) ConnectionError × W
      → Result (Sender × Receiver) ConnectionError × W
  on_auth proxy_to_broker_url (err e, world) = (err e, world)
  on_auth proxy_to_broker_url (ok auth, world) = connect auth proxy_to_broker_url world

  -- `prepare_stream` once the stream is there.
  unfoldable pub prepare_stream :
      Bool → Option Str → W → Result (Sender × Receiver) ConnectionError × W
  prepare_stream auth proxy_to_broker_url world =
      on_auth proxy_to_broker_url (prepare_auth_data auth world)
