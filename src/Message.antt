-- ===== src/Message.antt =====
-- src/message.rs: messages, their keys, the frame codec and batches.
pub mod TypeNumber
pub mod Key
pub mod Wire
pub mod Frames
pub mod Codec
pub mod Batch
