-- ===== src/Errors.antt =====
-- src/error.rs: the error values that the model's results carry, the error of a connection that its
-- tasks share, and the broker's error numbers.
pub mod Server
mod Values
pub mod SharedError
pub use Values.*
