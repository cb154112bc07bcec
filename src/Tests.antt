-- ===== src/Tests.antt =====
-- Runs of the models on concrete inputs, and stand-ins for the crates that src/message.rs calls.
pub mod Crates
mod Codec
mod Receiver
mod Sender
mod Producer
mod Manager
mod Consumer
mod Discovery
mod Engine
mod Topics
mod Reader
pub mod Lookup
mod Setup
mod Handshake
