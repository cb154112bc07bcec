-- ===== src/Manager.antt =====
-- src/connection_manager.rs: the table of brokers, and the loop that connects.
pub mod Table
pub mod Retry
