-- ===== src/Message/Codec/Frame.antt =====
-- The layout of a frame, and what `encode` writes.
use pulsar_rs.Shared.{
  if◌then◌else◌, is_some, append-nil, ◌+◌, ◌%◌, ◌^◌, ◌≡◌, sym, ap, ◌∙◌, Option, none, some, [],
  ◌++◌, arith, length, length-append, take-append, drop-append, append_assoc,
}
use pulsar_rs.Proto.{Bytes, BaseCommand, MessageMetadata}
use pulsar_rs.Message.Key.{Message, Payload}
use pulsar_rs.Message.Wire.{Wire, Prost, Crc}
use pulsar_rs.Message.Codec.{
  total_size, metadata_size, payload_size, write_checksum, put_payload, encode,
}

module _ (w : Wire) (pc : Prost BaseCommand) (pm : Prost MessageMetadata) (crc : Crc) where
  -- Metadata size, metadata and payload, over which the checksum goes.
  abbrev pub checked : Payload → Bytes
  checked p = w.put_u32 (pm.encoded_len p.metadata % 2 ^ 32) ++ (pm.encode p.metadata ++ p.content)

  abbrev pub payload_part : Option Payload → Bytes
  payload_part none = []
  payload_part (some p) = w.put_u16 0x0e01 ++ (w.put_u32 (crc.checksum (checked p)) ++ checked p)

  abbrev pub frame : Message → Bytes
  frame m =
      w.put_u32 (total_size w pc pm crc m % 2 ^ 32)
      ++ (w.put_u32 (pc.encoded_len m.command % 2 ^ 32)
          ++ (pc.encode m.command ++ payload_part m.payload))

  write_checksum-append :
      (a z b : Bytes)
      → write_checksum w pc pm crc ((a ++ z) ++ b) (length a) (length (a ++ z))
        ≡ a ++ (w.put_u32 (crc.checksum b) ++ b)
  unfolding write_checksum
  write_checksum-append a z b =
      rw (drop-append (a ++ z) b, append_assoc a z b, take-append a (z ++ b))

  put_payload-append :
      (o : Option Payload) (buf : Bytes)
      → put_payload w pc pm crc (metadata_size w pc pm crc o) o buf ≡ buf ++ payload_part o
  unfolding put_payload metadata_size
  put_payload-append none buf = sym (append-nil buf)
  put_payload-append (some p) buf =
      ap (λ b. write_checksum w pc pm crc b (length magic) (length (magic ++ w.put_u32 0)))
        (append_assoc (placed ++ size) (pm.encode p.metadata) p.content
          ∙ append_assoc placed size (pm.encode p.metadata ++ p.content))
      ∙ write_checksum-append magic (w.put_u32 0) (checked p)
      ∙ append_assoc buf (w.put_u16 0x0e01) _
    where
      magic : Bytes
      magic = buf ++ w.put_u16 0x0e01

      placed : Bytes
      placed = magic ++ w.put_u32 0

      size : Bytes
      size = w.put_u32 (pm.encoded_len p.metadata % 2 ^ 32)

  -- `encode` appends the frame of the message to what the buffer holds.
  pub encode-frame : (m : Message) (dst : Bytes) → encode w pc pm crc m dst ≡ dst ++ frame m
  unfolding encode
  encode-frame m dst = ap (◌++◌ dst) (
      put_payload-append m.payload _
      ∙ append_assoc (t ++ c) (pc.encode m.command) (payload_part m.payload)
      ∙ append_assoc t c (pc.encode m.command ++ payload_part m.payload))
    where
      t : Bytes
      t = w.put_u32 (total_size w pc pm crc m % 2 ^ 32)

      c : Bytes
      c = w.put_u32 (pc.encoded_len m.command % 2 ^ 32)

  payload_part-length :
      (o : Option Payload)
      → length (payload_part o) + 8
        ≡ metadata_size w pc pm crc o + payload_size w pc pm crc o + (if is_some o then 18 else 8)
  unfolding metadata_size payload_size
  payload_part-length none = omega arith
  payload_part-length (some p) = omega (
    arith,
    length-append (w.put_u16 0x0e01) (w.put_u32 (crc.checksum (checked p)) ++ checked p),
    length-append (w.put_u32 (crc.checksum (checked p))) (checked p),
    length-append (w.put_u32 (pm.encoded_len p.metadata % 2 ^ 32))
        (pm.encode p.metadata ++ p.content),
    length-append (pm.encode p.metadata) p.content,
    w.length-put_u16 0x0e01,
    w.length-put_u32 (crc.checksum (checked p)),
    w.length-put_u32 (pm.encoded_len p.metadata % 2 ^ 32),
    pm.encoded_len-length p.metadata,
  )

  -- The size field counts the bytes of the frame that follow it.
  pub length-frame : (m : Message) → length (frame m) ≡ total_size w pc pm crc m + 4
  unfolding total_size
  length-frame m = omega (
    arith,
    length-append (w.put_u32 (total_size w pc pm crc m % 2 ^ 32)) (
        w.put_u32 (pc.encoded_len m.command % 2 ^ 32)
        ++ (pc.encode m.command ++ payload_part m.payload)),
    length-append (w.put_u32 (pc.encoded_len m.command % 2 ^ 32))
        (pc.encode m.command ++ payload_part m.payload),
    length-append (pc.encode m.command) (payload_part m.payload),
    w.length-put_u32 (total_size w pc pm crc m % 2 ^ 32),
    w.length-put_u32 (pc.encoded_len m.command % 2 ^ 32),
    pc.encoded_len-length m.command,
    payload_part-length m.payload,
  )
