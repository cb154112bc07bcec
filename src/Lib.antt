-- ===== src/Lib.antt =====
-- A model of pulsar-rs, the Rust client of Apache Pulsar, and what holds of it.
--
-- The program. A `Connection` (src/connection.rs) is a task, the `Receiver`, that reads the broker's
-- messages and hands each to who waits for it, and a `ConnectionSender`, whose methods register a
-- oneshot channel with the receiver, send a message and wait for the channel. Messages are framed by
-- a codec (src/message.rs), which also holds the keys by which answers find their requests and the
-- format of batches. A producer (src/producer.rs) stores messages in a batch, sends full batches
-- through its connection, and connects again when the connection is lost. A connection manager
-- (src/connection_manager.rs) shares one connection for each broker among the tasks. A lookup
-- (src/service_discovery.rs) asks which broker serves a topic. A consumer (src/consumer.rs) is an
-- engine, a task that unpacks messages, acknowledges them and asks for some again, and a stream that
-- the application polls; a `MultiTopicConsumer` polls several, and a reader (src/reader.rs) wraps one
-- and acknowledges what it returns.
--
-- The files.
--   Proto: the messages of PulsarApi.proto that the client builds or reads, as records. An i32 field
--     is its 32 bits; a string is the list of its bytes.
--   Errors: src/error.rs, with `SharedError` in Errors/SharedError and `server_error` in Errors/Server.
--   Options: the configuration records of src/producer.rs and src/consumer.rs.
--   Message: src/message.rs. Message/Key is `Message::request_key`, Message/TypeNumber the `TryFrom`,
--     Message/Frames and Message/Codec the frame parsers and `Codec`, Message/Batch the batches.
--   Connection: src/connection.rs. Connection/Messages is its module `messages`, Connection/Receiver
--     the struct `Receiver` and its `poll`, Connection/Sender `ConnectionSender` and `SerialId`.
--     Connection/Handshake is `prepare_auth_data`, `connect` and the task that writes.
--   Producer: src/producer.rs. Producer/Batch is `Batch`, Producer/Topic what `TopicProducer` does with
--     its connection, Producer/Send `send_raw` and `send_batch`, Producer/Partitions the choice of the
--     partition.
--     Producer/Topics is `MultiTopicProducer` and `send_all`.
--   Setup: `TopicProducer::from_connection` and `TopicConsumer::new`, which share a loop of retries.
--   Manager: src/connection_manager.rs. Manager/Table is the table of brokers with the tasks that wait
--     for a connection, one function for each holding of the lock; a series of events in any order
--     stands for the tasks that run at once. Manager/Retry is the loop that connects.
--   Consumer: src/consumer.rs. Consumer/Batches is `BatchedMessageIterator`, Consumer/Permits the
--     counting of permits in `ConsumerEngine::engine`. Consumer/Engine is the rest of
--     `ConsumerEngine`: its state and calls, Engine/Process `process_message` and `process_payload`,
--     Engine/Rounds the loop, over a series of events; Engine/Ledger is the abstract machine of
--     deadlines that it implements. Consumer/Topic is `TopicConsumer`, Consumer/Topics
--     `MultiTopicConsumer`, polled in Topics/Polls.
--   Reader: src/reader.rs. Reader/Reads is the machine that the reader implements.
--   Discovery: src/service_discovery.rs. Discovery/Partitions is
--     `lookup_partitioned_topic_number`, Discovery/Topic `lookup_topic`.
--   Shared: lists, options, tests and association lists, which stand for the maps.
--   Tests: runs on concrete inputs.
--
-- How state and steps correspond. State is passed: an operation takes the record of its component and
-- returns the new one. A oneshot channel is the number of its sending half. `Receiver::poll` takes the
-- answers that its streams give to one poll, as lists that end when a stream is pending or closed, and
-- returns what is left of the receiver and what it did to its channels, in order; `run` is a series
-- of polls. A method of the sender takes an environment: whether the receiver's channels are open, and
-- how the wait for the answer ends. The producer sees its connection and its client through the
-- interface `Network` of Producer/Topic.
--
-- The crates bytes, nom, prost and crc are the records Wire, Prost, Crc (Message/Wire) and Nom
-- (Message/Batch), with the laws of their documentation; the compression libraries are one function.
--
-- Bounds and fuel. A request id is a 64-bit counter that wraps. The loop in which a producer connects
-- again runs on fuel, one unit for each request that creates the producer; with a maximum of n
-- retries, n + 1 units are enough. Without a maximum the loop may go on forever, as the code's does.
-- This loop and those of Setup look a topic up on the way, and a lookup does not end when the brokers
-- redirect without end: it is an option, and the theorems on these loops name as a hypothesis that
-- the lookups end (`LookupsEnd`), which Discovery/Topic/Ends proves of bounded redirects.
-- The lookup of a topic's broker ends when the brokers redirect finitely often, with one unit more
-- than retries and redirects. The loops of Setup, of the manager and of the number of partitions are
-- taken with one unit of fuel more than the maximum of retries, which is enough.
--
-- Not modelled: sockets, TLS and the addresses of brokers; the heartbeat task that the manager
-- spawns; the tasks that close a consumer or a producer that was dropped; `seek`, `validate` and
-- `into_reader` of src/consumer.rs and its builder; the names of partitions in
-- src/service_discovery.rs; the other builders, the authentication methods and the executors, which
-- are input and output or calls of other crates; texts of errors and of the log.
pub mod Shared
pub mod Proto
pub mod Errors
pub mod Options
pub mod Message
pub mod Connection
pub mod Producer
pub mod Manager
pub mod Consumer
pub mod Discovery
pub mod Tests
pub mod Reader
pub mod Setup
