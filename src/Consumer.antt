-- ===== src/Consumer.antt =====
-- src/consumer.rs: the messages of a batch, the permits that a consumer gives the broker, the engine of
-- a topic's consumer, the consumer of a topic and that of several.
pub mod Batches
pub mod Permits
pub mod Engine
pub mod Topic
pub mod Topics
