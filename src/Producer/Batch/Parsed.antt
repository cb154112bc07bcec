-- ===== src/Producer/Batch/Parsed.antt =====
-- The messages of a batch, as the consumer's parser sees them.
use pulsar_rs.Shared.{
  ◌^◌, ◌≡◌, ◌<◌, List, [], ◌∷◌, map, length, some, arith, refl, sym, ap, ◌∙◌, All,
}
use pulsar_rs.Proto.{SingleMessageMetadata}
use pulsar_rs.Options.{ProducerMessage}
use pulsar_rs.Errors.{ok}
use pulsar_rs.Message.Wire.{Wire, Prost}
use pulsar_rs.Message.Batch.{Nom, parse_batched_message, serialize_all}
use pulsar_rs.Message.Batch.RoundTrip.{Fits, parse_batched_message-serialize_all}
use pulsar_rs.Producer.Batch.{batched}

module _ (w : Wire) (ps : Prost SingleMessageMetadata) (nom : Nom) where
  -- The payload's length fits an i32, and prost reads back metadata that fits a u32.
  abbrev pub IsSendable : ProducerMessage → Type 0
  IsSendable m =
      (ps.decode (ps.encode (batched m).metadata) ≡ some (batched m).metadata)
      × (ps.encoded_len (batched m).metadata < 2 ^ 32)
      × (length m.payload < 2 ^ 31)

  batched-Fits : (m : ProducerMessage) → IsSendable m → Fits w ps nom (batched m)
  unfolding batched
  batched-Fits m (r, f, s) = (r, f, omega arith, s)

  All-batched-Fits :
      (ms : List ProducerMessage) → All IsSendable ms → All (Fits w ps nom) (map batched ms)
  All-batched-Fits [] h = tt
  All-batched-Fits (m ∷ ms) (h, hs) = (batched-Fits m h, All-batched-Fits ms hs)

  length-map-batched : (ms : List ProducerMessage) → length (map batched ms) ≡ length ms
  length-map-batched [] = refl
  length-map-batched (m ∷ ms) = omega (arith, length-map-batched ms)

  -- Messages whose payloads are below 2^31 bytes and whose metadata prost reads back are, once they
  -- are batched and serialized, parsed with their number as the count as exactly these entries in the
  -- order in which they were given.
  pub parse_batched_message-batched :
      (ms : List ProducerMessage)
      → All IsSendable ms
      → parse_batched_message w ps nom (length ms) (serialize_all w ps (map batched ms) [])
        ≡ ok (map batched ms)
  parse_batched_message-batched ms h =
      ap (λ n. parse_batched_message w ps nom n (serialize_all w ps (map batched ms) []))
        (sym (length-map-batched ms))
      ∙ parse_batched_message-serialize_all w ps nom (map batched ms) (All-batched-Fits ms h)
