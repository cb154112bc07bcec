-- ===== src/Message/Codec/RoundTrip.antt =====
-- `decode` reads back what `encode` wrote, and takes nothing before a frame is whole.
use pulsar_rs.Shared.{
  ℕ, ◌+◌, ◌%◌, ◌^◌, ◌≡◌, ◌<◌, ◌≤◌, ◌⊎◌, inl, inr, refl, sym, ap, ◌∙◌, false, Option, none, some, [],
  ◌∷◌, ◌++◌, arith, length, take, drop, leb, length-append, take-append, drop-append, append_assoc,
  is_empty-append, Bool-cases, le→leb, leb→le, leb→gt, append-nil,
}
use pulsar_rs.Proto.{Bytes, BaseCommand, MessageMetadata}
use pulsar_rs.Errors.{ConnectionError, ok, err, Result-cases}
use pulsar_rs.Message.Key.{Message, Payload}
use pulsar_rs.Message.Wire.{Wire, Prost, Crc, parsed}
use pulsar_rs.Message.Frames.{command_frame, payload_frame}
use pulsar_rs.Message.Codec.{
  total_size, metadata_size, encode, decode_payload, decode_frame, take_message, decode,
}
use pulsar_rs.Message.Codec.Frame.{checked, payload_part, frame, encode-frame, length-frame}

module _ (w : Wire) where
  command_frame-append :
      (n : ℕ) (c rest : Bytes)
      → n < 2 ^ 32
      → length c < 2 ^ 32
      → command_frame w (w.put_u32 n ++ (w.put_u32 (length c) ++ (c ++ rest)))
        ≡ parsed rest (record { total_size = n; command_size = length c; command = c })
  unfolding command_frame
  command_frame-append n c rest h k =
      rw (w.be_u32-put_u32 n _ h, w.be_u32-put_u32 (length c) _ k, w.take-append c rest)

  payload_frame-append :
      (n k : ℕ) (c rest : Bytes)
      → n < 2 ^ 16
      → k < 2 ^ 32
      → length c < 2 ^ 32
      → payload_frame w (w.put_u16 n ++ (w.put_u32 k ++ (w.put_u32 (length c) ++ (c ++ rest))))
        ≡ parsed rest
            (record { magic_number = n; checksum = k; metadata_size = length c; metadata = c })
  unfolding payload_frame
  payload_frame-append n k c rest h i j = rw (
    w.be_u16-put_u16 n _ h,
    w.be_u32-put_u32 k _ i,
    w.be_u32-put_u32 (length c) _ j,
    w.take-append c rest,
  )

module _ (w : Wire) (pc : Prost BaseCommand) (pm : Prost MessageMetadata) (crc : Crc) where
  -- prost reads the message's values back.
  abbrev pub PayloadReadsBack : Option Payload → Type 0
  PayloadReadsBack none = Unit {0}
  PayloadReadsBack (some p) = pm.decode (pm.encode p.metadata) ≡ some p.metadata

  abbrev pub ReadsBack : Message → Type 0
  ReadsBack m = (pc.decode (pc.encode m.command) ≡ some m.command) × PayloadReadsBack m.payload

  decode_payload-part :
      (o : Option Payload)
      → PayloadReadsBack o
      → metadata_size w pc pm crc o < 2 ^ 32
      → decode_payload w pc pm crc (payload_part w pc pm crc o) ≡ ok o
  unfolding decode_payload metadata_size
  decode_payload-part none r h = refl
  decode_payload-part (some p) r h = rw (
    is_empty-append (w.put_u16 0x0e01)
        (w.put_u32 (crc.checksum (checked w pc pm crc p)) ++ checked w pc pm crc p)
        (w.length-put_u16 0x0e01),
    size,
    pm.encoded_len-length p.metadata,
    payload_frame-append w 0x0e01
        (crc.checksum
          (w.put_u32 (length (pm.encode p.metadata)) ++ (pm.encode p.metadata ++ p.content)))
        (pm.encode p.metadata) p.content (omega arith)
        (crc.checksum_lt
          (w.put_u32 (length (pm.encode p.metadata)) ++ (pm.encode p.metadata ++ p.content)))
        small,
    r,
  )
    where
      small : length (pm.encode p.metadata) < 2 ^ 32
      small = omega (arith, pm.encoded_len-length p.metadata)

      size : pm.encoded_len p.metadata % 2 ^ 32 ≡ pm.encoded_len p.metadata
      size = omega arith

  sizes_lt :
      (m : Message)
      → total_size w pc pm crc m < 2 ^ 32
      → (pc.encoded_len m.command < 2 ^ 32) × (metadata_size w pc pm crc m.payload < 2 ^ 32)
  unfolding total_size
  sizes_lt m h = (ground arith, ground arith)

  decode_frame-frame :
      (m : Message)
      → ReadsBack m
      → total_size w pc pm crc m < 2 ^ 32
      → decode_frame w pc pm crc (frame w pc pm crc m) ≡ ok m
  unfolding decode_frame
  decode_frame-frame m (r, s) h = rw (
    total,
    command,
    pc.encoded_len-length m.command,
    command_frame-append w (total_size w pc pm crc m) (pc.encode m.command)
        (payload_part w pc pm crc m.payload) h small,
    r,
    decode_payload-part m.payload s (sizes_lt m h).1,
  )
    where
      total : total_size w pc pm crc m % 2 ^ 32 ≡ total_size w pc pm crc m
      total = omega arith

      command : pc.encoded_len m.command % 2 ^ 32 ≡ pc.encoded_len m.command
      command = omega (arith, (sizes_lt m h).0)

      small : length (pc.encode m.command) < 2 ^ 32
      small = omega (arith, (sizes_lt m h).0, pc.encoded_len-length m.command)

  get_u32-frame :
      (m : Message) (rest : Bytes)
      → total_size w pc pm crc m < 2 ^ 32
      → w.get_u32 (frame w pc pm crc m ++ rest) ≡ total_size w pc pm crc m
  get_u32-frame m rest h =
      ap w.get_u32 (append_assoc (w.put_u32 (total_size w pc pm crc m % 2 ^ 32)) _ rest)
      ∙ w.get_u32-put_u32 (total_size w pc pm crc m % 2 ^ 32) _ (omega arith)
      ∙ omega arith

  decode_whole :
      (m : Message) (rest : Bytes)
      → ReadsBack m
      → total_size w pc pm crc m < 2 ^ 32
      → decode w pc pm crc (frame w pc pm crc m ++ rest) ≡ (ok (some m), rest)
  unfolding decode take_message
  decode_whole m rest r h = rw (
    get_u32-frame m rest h,
    sym (length-frame w pc pm crc m),
    le→leb 4 (length (frame w pc pm crc m ++ rest)) four,
    le→leb (length (frame w pc pm crc m)) (length (frame w pc pm crc m ++ rest)) whole,
    take-append (frame w pc pm crc m) rest,
    decode_frame-frame m r h,
    drop-append (frame w pc pm crc m) rest,
  )
    where
      four : 4 ≤ length (frame w pc pm crc m ++ rest)
      four = omega (arith, length-append (frame w pc pm crc m) rest, length-frame w pc pm crc m)

      whole : length (frame w pc pm crc m) ≤ length (frame w pc pm crc m ++ rest)
      whole = omega (arith, length-append (frame w pc pm crc m) rest)

  -- When prost reads a message's values back and its total size fits a u32, what `encode` writes into
  -- an empty buffer, followed by any other bytes, is decoded as this message, and exactly the other
  -- bytes are left in the buffer.
  pub decode-encode :
      (m : Message) (rest : Bytes)
      → ReadsBack m
      → total_size w pc pm crc m < 2 ^ 32
      → decode w pc pm crc (encode w pc pm crc m [] ++ rest) ≡ (ok (some m), rest)
  decode-encode m rest r h = rw (encode-frame w pc pm crc m []) (decode_whole m rest r h)

  -- Of an encoded message whose total size fits a u32, a front that lacks one byte or more is left in
  -- the buffer as it is, and `decode` asks for more.
  pub decode-encode_front :
      (m : Message) (front : Bytes) (x : ℕ) (back : Bytes)
      → total_size w pc pm crc m < 2 ^ 32
      → encode w pc pm crc m [] ≡ front ++ (x ∷ back)
      → decode w pc pm crc front ≡ (ok none, front)
  unfolding decode
  decode-encode_front m front x back h q = elim (Bool-cases (leb 4 (length front))) [
    | inl t ↦ rw (t, short (leb→le 4 (length front) t)) refl
    | inr t ↦ rw t refl
  ]
    where
      same : frame w pc pm crc m ≡ front ++ (x ∷ back)
      same = sym (encode-frame w pc pm crc m []) ∙ q

      size : 4 ≤ length front → w.get_u32 front ≡ total_size w pc pm crc m
      size k =
          sym (w.get_u32-append front (x ∷ back) k)
          ∙ sym (ap w.get_u32 (append-nil (frame w pc pm crc m) ∙ same))
          ∙ get_u32-frame m [] h

      short : 4 ≤ length front → leb (w.get_u32 front + 4) (length front) ≡ false
      short k = ground (
        arith,
        size k,
        length-frame w pc pm crc m,
        ap length same,
        length-append front (x ∷ back),
      )

  -- The buffer does not hold a size field and as many bytes after it.
  abbrev pub IsIncomplete : Bytes → Type 0
  IsIncomplete src = (length src < 4) ⊎ (length src < w.get_u32 src + 4)

  -- Whatever the buffer holds: while it does not hold a whole frame, `decode` returns nothing and leaves
  -- it as it is. When it holds one, `decode` either returns an error and leaves the buffer as it is, or
  -- returns a message and takes off the buffer exactly the bytes that the size field counts and the four
  -- of the field.
  pub decode-takes :
      (src : Bytes)
      → (IsIncomplete src
          × ((decode w pc pm crc src).0 ≡ ok none)
          × ((decode w pc pm crc src).1 ≡ src))
        ⊎ ((4 ≤ length src)
            × (w.get_u32 src + 4 ≤ length src)
            × (((e : ConnectionError) × ((decode w pc pm crc src).0 ≡ err e)
                  × ((decode w pc pm crc src).1 ≡ src))
                ⊎ ((m : Message) × ((decode w pc pm crc src).0 ≡ ok (some m))
                    × ((decode w pc pm crc src).1 ≡ drop (w.get_u32 src + 4) src))))
  unfolding decode take_message
  decode-takes src = elim (Bool-cases (leb 4 (length src))) [
    | inr t ↦ rw t (inl (inl (omega (arith, leb→gt 4 (length src) t)), refl, refl))
    | inl t ↦ elim (Bool-cases (leb (w.get_u32 src + 4) (length src))) [
      | inr u ↦ rw (t, u) (inl (inr (leb→gt _ _ u), refl, refl))
      | inl u ↦ elim (Result-cases (decode_frame w pc pm crc (take (w.get_u32 src + 4) src))) [
        | inl (m, q) ↦ rw (t, u, q) (inr (leb→le _ _ t, leb→le _ _ u, inr (m, refl, refl)))
        | inr (e, q) ↦ rw (t, u, q) (inr (leb→le _ _ t, leb→le _ _ u, inl (e, refl, refl)))
      ]
    ]
  ]
