-- ===== src/Proto.antt =====
-- PulsarApi.proto as data. The prost encoding of these values is generated code, a parameter of the
-- codec (Message/Codec).
mod Values
mod Commands
mod Base
pub use Values.*
pub use Commands.*
pub use Base.*
