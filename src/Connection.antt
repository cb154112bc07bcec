-- ===== src/Connection.antt =====
-- src/connection.rs: the requests, the receiver and the sender of one broker connection, and how it
-- is made.
pub mod Messages
pub mod Receiver
pub mod Sender
pub mod Handshake
