-- ===== src/Discovery.antt =====
-- src/service_discovery.rs: the number of partitions of a topic, and the lookup of its broker.
pub mod Partitions
pub mod Topic
