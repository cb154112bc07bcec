-- ===== src/Message/Codec.antt =====
-- `Codec::encode` and `Codec::decode` of src/message.rs. The two runtimes' copies are one model.
pub mod Frame
pub mod RoundTrip
use pulsar_rs.Shared.{
  ℕ, ◌+◌, ◌-◌, ◌%◌, ◌^◌, Bool, true, false, Option, none, some, List, [], ◌∷◌, ◌++◌, length, take,
  drop, leb, if◌then◌else◌, is_some, unwrap_or, map_option, is_empty,
}
use pulsar_rs.Proto.{Bytes, BaseCommand, MessageMetadata}
use pulsar_rs.Errors.{ConnectionError, decoding, Result, ok, err, ok_or, ◌>>=◌}
use pulsar_rs.Message.Key.{Message, Payload}
use pulsar_rs.Message.Wire.{Wire, Prost, Crc, Parsed, parsed, failed}
use pulsar_rs.Message.Frames.{command_frame, payload_frame}

module _ (w : Wire) (pc : Prost BaseCommand) (pm : Prost MessageMetadata) (crc : Crc) where
  -- `as u32`.
  abbrev u32 : ℕ → ℕ
  u32 n = n % 2 ^ 32

  unfoldable pub metadata_size : Option Payload → ℕ
  metadata_size payload = unwrap_or (map_option (λ p. pm.encoded_len p.metadata) payload) 0

  unfoldable pub payload_size : Option Payload → ℕ
  payload_size payload = unwrap_or (map_option (λ p. length p.content) payload) 0

  unfoldable pub total_size : Message → ℕ
  unfolding metadata_size payload_size
  total_size item =
      pc.encoded_len item.command
      + metadata_size item.payload
      + payload_size item.payload
      + (if is_some item.payload then 18 else 8)
      - 4

  -- The checksum is written over the four zero bytes that hold its place.
  unfoldable pub write_checksum : Bytes → ℕ → ℕ → Bytes
  write_checksum buf crc_offset metadata_offset =
      take crc_offset buf
      ++ (w.put_u32 (crc.checksum (drop metadata_offset buf)) ++ drop metadata_offset buf)

  unfoldable pub put_payload : ℕ → Option Payload → Bytes → Bytes
  unfolding write_checksum
  put_payload metadata_size none buf = buf
  put_payload metadata_size (some payload) buf =
      let buf = buf ++ w.put_u16 0x0e01 in
      let crc_offset = length buf in
      let buf = buf ++ w.put_u32 0 in
      let metadata_offset = length buf in
      let buf = buf ++ w.put_u32 (u32 metadata_size) in
      let buf = buf ++ pm.encode payload.metadata in
      let buf = buf ++ payload.content in write_checksum buf crc_offset metadata_offset

  -- What `encode` leaves in `dst`.
  unfoldable pub encode : Message → Bytes → Bytes
  unfolding total_size put_payload
  encode item dst =
      let buf = w.put_u32 (u32 (total_size item)) in
      let buf = buf ++ w.put_u32 (u32 (pc.encoded_len item.command)) in
      let buf = buf ++ pc.encode item.command in
      dst ++ put_payload (metadata_size item.payload) item.payload buf

  -- `map_err(…)?` on a frame, and `?` on what prost reads.
  abbrev pub framed : {A : Type 0} → Parsed A → Result (Bytes × A) ConnectionError
  framed failed = err decoding
  framed (parsed rest a) = ok (rest, a)

  abbrev pub readable : {A : Type 0} → Option A → Result A ConnectionError
  readable o = ok_or o decoding

  -- The payload of a frame whose command was read.
  unfoldable pub decode_payload : Bytes → Result (Option Payload) ConnectionError
  decode_payload buf =
      let present = do
        (rest, frame) ← framed (payload_frame w buf)
        metadata ← readable (pm.decode frame.metadata)
        ok (some (record { metadata = metadata; content = rest }))
      in if is_empty buf then ok none else present

  unfoldable pub decode_frame : Bytes → Result Message ConnectionError
  unfolding decode_payload
  decode_frame src = do
    (buf, frame) ← framed (command_frame w src)
    command ← readable (pc.decode frame.command)
    payload ← decode_payload buf
    ok (record { command = command; payload = payload })

  -- A whole frame is read and taken off the buffer; on an error the buffer stays as it is.
  unfoldable pub take_message :
      Bytes → ℕ → Result Message ConnectionError → Result (Option Message) ConnectionError × Bytes
  take_message src message_size (ok msg) = (ok (some msg), drop message_size src)
  take_message src message_size (err e) = (err e, src)

  -- `decode`: the result and what is left in `src`.
  unfoldable pub decode : Bytes → Result (Option Message) ConnectionError × Bytes
  unfolding take_message decode_frame
  decode src =
      let message_size = w.get_u32 src + 4 in
      if leb 4 (length src)
      then (if leb message_size (length src)
          then take_message src message_size (decode_frame (take message_size src))
          else (ok none, src))
      else (ok none, src)
