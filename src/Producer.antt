-- ===== src/Producer.antt =====
-- src/producer.rs: batches, the producer of one topic, and the partitions of a topic.
pub mod Batch
pub mod Topic
pub mod Send
pub mod Partitions
pub mod Topics
