-- ===== src/Message/Batch/RoundTrip.antt =====
-- What is serialized as a batch is parsed back.
use pulsar_rs.Shared.{
  ◌%◌, ◌^◌, ◌≡◌, ◌<◌, refl, sym, ap, ◌∙◌, some, List, [], ◌∷◌, ◌++◌, arith, length, append_assoc,
  All, lt→ltb, append-nil,
}
use pulsar_rs.Proto.{Bytes, SingleMessageMetadata}
use pulsar_rs.Errors.{ok}
use pulsar_rs.Message.Wire.{Wire, Prost, parsed}
use pulsar_rs.Message.Batch.{
  Nom, BatchedMessage, batched_message, parse_batched_message, serialize, serialize_all,
  size_is_positive, all_parsed,
}

module _ (w : Wire) (ps : Prost SingleMessageMetadata) (nom : Nom) where
  -- The metadata is read back, fits its size field, and states the length of the payload.
  abbrev pub Fits : BatchedMessage → Type 0
  Fits m =
      (ps.decode (ps.encode m.metadata) ≡ some m.metadata)
      × (ps.encoded_len m.metadata < 2 ^ 32)
      × (m.metadata.payload_size ≡ length m.payload)
      × (length m.payload < 2 ^ 31)

  abbrev part : BatchedMessage → Bytes
  part m = w.put_u32 (length (ps.encode m.metadata)) ++ (ps.encode m.metadata ++ m.payload)

  abbrev parts : List BatchedMessage → Bytes
  parts [] = []
  parts (m ∷ ms) = part m ++ parts ms

  serialize-part :
      (m : BatchedMessage) (buf : Bytes) → Fits m → serialize w ps m buf ≡ buf ++ part m
  unfolding serialize
  serialize-part m buf h =
      rw (size, ps.encoded_len-length m.metadata)
        (append_assoc (buf ++ w.put_u32 (length (ps.encode m.metadata))) (ps.encode m.metadata)
            m.payload
          ∙ append_assoc buf (w.put_u32 (length (ps.encode m.metadata)))
              (ps.encode m.metadata ++ m.payload))
    where
      size : ps.encoded_len m.metadata % 2 ^ 32 ≡ ps.encoded_len m.metadata
      size = omega (arith, h.1)

  serialize_all-parts :
      (ms : List BatchedMessage) (buf : Bytes)
      → All Fits ms
      → serialize_all w ps ms buf ≡ buf ++ parts ms
  unfolding serialize_all
  serialize_all-parts [] buf h = sym (append-nil buf)
  serialize_all-parts (m ∷ ms) buf (h, hs) =
      serialize_all-parts ms (serialize w ps m buf) hs
      ∙ ap (λ b. b ++ parts ms) (serialize-part m buf h)
      ∙ append_assoc buf (part m) (parts ms)

  batched_message-part :
      (m : BatchedMessage) (rest : Bytes)
      → Fits m
      → batched_message w ps nom (part m ++ rest) ≡ parsed rest m
  unfolding batched_message
  batched_message-part m rest (reads, fits, states, short) =
      rw
        (
          append_assoc (w.put_u32 (length encoded)) (encoded ++ m.payload) rest,
          append_assoc encoded m.payload rest,
          w.be_u32-put_u32 (length encoded) (encoded ++ (m.payload ++ rest)) small,
          checked,
          states,
          w.take-append m.payload rest,
        )
        refl
    where
      encoded : Bytes
      encoded = ps.encode m.metadata

      small : length encoded < 2 ^ 32
      small = omega (arith, fits, ps.encoded_len-length m.metadata)

      checked :
          nom.verify
            (nom.map_res (w.take (length encoded)) ps.decode)
            (size_is_positive w ps nom)
            (encoded ++ (m.payload ++ rest))
          ≡ parsed (m.payload ++ rest) m.metadata
      checked =
          nom.verify-true (nom.map_res (w.take (length encoded)) ps.decode)
            (size_is_positive w ps nom) (encoded ++ (m.payload ++ rest)) (m.payload ++ rest)
            m.metadata
            (nom.map_res-some (w.take (length encoded)) ps.decode (encoded ++ (m.payload ++ rest))
              (m.payload ++ rest) encoded m.metadata (w.take-append encoded (m.payload ++ rest))
              reads)
            (lt→ltb m.metadata.payload_size (2 ^ 31) (omega (arith, states, short)))

  count-parts :
      (ms : List BatchedMessage)
      → All Fits ms
      → nom.count (batched_message w ps nom) (length ms) (parts ms) ≡ parsed [] ms
  count-parts [] h = nom.count-zero (batched_message w ps nom) []
  count-parts (m ∷ ms) (h, hs) =
      nom.count-parsed (batched_message w ps nom) (length ms) (part m ++ parts ms) (parts ms) [] m
        ms (batched_message-part m (parts ms) h) (count-parts ms hs)

  -- When every message's metadata is read back by prost, fits its size field and states the length of
  -- a payload below 2^31 bytes, what is serialized one message after the other is parsed, with the
  -- number of messages as the count, as the same messages in the same order.
  pub parse_batched_message-serialize_all :
      (ms : List BatchedMessage)
      → All Fits ms
      → parse_batched_message w ps nom (length ms) (serialize_all w ps ms []) ≡ ok ms
  unfolding parse_batched_message
  parse_batched_message-serialize_all ms h =
      ap (λ b. all_parsed w ps nom (nom.count (batched_message w ps nom) (length ms) b))
        (serialize_all-parts ms [] h)
      ∙ ap (all_parsed w ps nom) (count-parts ms h)
