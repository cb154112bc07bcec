-- ===== src/Message/Frames.antt =====
-- The frame parsers of src/message.rs, over nom's parsers.
use pulsar_rs.Shared.{ℕ}
use pulsar_rs.Proto.{Bytes}
use pulsar_rs.Message.Wire.{Wire, Parsed, parsed, ◌>>=◌}

pub record CommandFrame : Type 0 where
  pub total_size : ℕ
  pub command_size : ℕ
  pub command : Bytes

pub record PayloadFrame : Type 0 where
  pub magic_number : ℕ
  pub checksum : ℕ
  pub metadata_size : ℕ
  pub metadata : Bytes

module _ (w : Wire) where
  unfoldable pub command_frame : Bytes → Parsed CommandFrame
  command_frame i = do
    (i, total_size) ← w.be_u32 i
    (i, command_size) ← w.be_u32 i
    (i, command) ← w.take command_size i
    parsed i (record { total_size = total_size; command_size = command_size; command = command })

  unfoldable pub payload_frame : Bytes → Parsed PayloadFrame
  payload_frame i = do
    (i, magic_number) ← w.be_u16 i
    (i, checksum) ← w.be_u32 i
    (i, metadata_size) ← w.be_u32 i
    (i, metadata) ← w.take metadata_size i
    parsed i (record {
      magic_number = magic_number;
      checksum = checksum;
      metadata_size = metadata_size;
      metadata = metadata;
    })
