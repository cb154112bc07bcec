-- ===== src/Tests/Codec.antt =====
-- The codec and the tables of numbers on concrete messages.
use pulsar_rs.Shared.{
  ◌+◌, ◌^◌, ◌≡◌, ◌<◌, ◌≤◌, ◌↔◌, ◌⊎◌, refl, some, none, List, [], ◌∷◌, ◌++◌, arith, length, drop,
  map,
}
use pulsar_rs.Proto.{Bytes, default_metadata, default_single_metadata}
use pulsar_rs.Errors.{ConnectionError, ok, err}
use pulsar_rs.Errors.Server.{server_error, error_number, server_error_iff, service_not_ready}
use pulsar_rs.Options.{default_producer_message, ProducerMessage, key_values}
use pulsar_rs.Message.Key.{Message}
use pulsar_rs.Message.TypeNumber.{type_number}
use pulsar_rs.Message.Codec.{encode, decode, total_size, metadata_size, payload_size}
use pulsar_rs.Message.Codec.RoundTrip.{
  IsIncomplete, ReadsBack, decode-encode, decode-encode_front, decode-takes,
}
use pulsar_rs.Message.Batch.{BatchedMessage, parse_batched_message, serialize_all}
use pulsar_rs.Message.Batch.RoundTrip.{parse_batched_message-serialize_all}
use pulsar_rs.Producer.Batch.{batched}
use pulsar_rs.Producer.Batch.Parsed.{parse_batched_message-batched}
use pulsar_rs.Connection.Messages
use pulsar_rs.Tests.Crates.{wire, commands, metadata, single_metadata, crc, nom}

-- A ping with a payload of three bytes.
abbrev message : Message
message = record {
  command = Messages.ping.command;
  payload =
      some (record {
        metadata = record default_metadata { sequence_id = 7 };
        content = 1 ∷ 2 ∷ 3 ∷ [];
      });
}

message-size : total_size wire commands metadata crc message < 2 ^ 32
unfolding total_size metadata_size payload_size
message-size = omega arith

message-ReadsBack : ReadsBack wire commands metadata crc message
unfolding Messages.ping type_number
message-ReadsBack = (refl, refl)

decode-encode_example :
    decode wire commands metadata crc (encode wire commands metadata crc message [] ++ 9 ∷ [])
    ≡ (ok (some message), 9 ∷ [])
decode-encode_example =
    decode-encode wire commands metadata crc message (9 ∷ []) message-ReadsBack message-size

-- The first two bytes of the message without a payload.
abbrev ping_message : Message
ping_message = record { command = Messages.ping.command; payload = none }

decode-encode_front_example :
    decode wire commands metadata crc (0 ∷ 0 ∷ 0 ∷ 5 ∷ 0 ∷ 0 ∷ 0 ∷ 1 ∷ [])
    ≡ (ok none, 0 ∷ 0 ∷ 0 ∷ 5 ∷ 0 ∷ 0 ∷ 0 ∷ 1 ∷ [])
unfolding encode total_size metadata_size payload_size Messages.ping type_number
decode-encode_front_example =
    decode-encode_front wire commands metadata crc ping_message (0 ∷ 0 ∷ 0 ∷ 5 ∷ 0 ∷ 0 ∷ 0 ∷ 1 ∷ [])
      18 [] (omega arith) refl

abbrev noise : Bytes
noise = 0 ∷ 0 ∷ 0 ∷ 1 ∷ 5 ∷ 6 ∷ []

decode-takes_example :
    (IsIncomplete wire commands metadata crc noise
      × ((decode wire commands metadata crc noise).0 ≡ ok none)
      × ((decode wire commands metadata crc noise).1 ≡ noise))
    ⊎ ((4 ≤ length noise)
        × (wire.get_u32 noise + 4 ≤ length noise)
        × (((e : ConnectionError) × ((decode wire commands metadata crc noise).0 ≡ err e)
              × ((decode wire commands metadata crc noise).1 ≡ noise))
            ⊎ ((m : Message) × ((decode wire commands metadata crc noise).0 ≡ ok (some m))
                × ((decode wire commands metadata crc noise).1
                    ≡ drop (wire.get_u32 noise + 4) noise))))
decode-takes_example = decode-takes wire commands metadata crc noise

abbrev entry : Bytes → BatchedMessage
entry payload = record {
  metadata = record default_single_metadata { payload_size = length payload };
  payload = payload;
}

abbrev entries : List BatchedMessage
entries = entry (1 ∷ 2 ∷ []) ∷ entry [] ∷ entry (3 ∷ []) ∷ []

parse_batched_message-serialize_all_example :
    parse_batched_message wire single_metadata nom 3 (serialize_all wire single_metadata entries [])
    ≡ ok entries
parse_batched_message-serialize_all_example =
    parse_batched_message-serialize_all wire single_metadata nom entries (
      (refl, omega arith, refl, omega arith),
      ((refl, omega arith, refl, omega arith), ((refl, omega arith, refl, omega arith), tt)),
    )

abbrev given : Bytes → ProducerMessage
given payload = record default_producer_message { payload = payload }

parse_batched_message-batched_example :
    parse_batched_message wire single_metadata nom 2
      (serialize_all wire single_metadata (map batched (given (4 ∷ 5 ∷ []) ∷ given [] ∷ [])) [])
    ≡ ok (map batched (given (4 ∷ 5 ∷ []) ∷ given [] ∷ []))
unfolding batched key_values
parse_batched_message-batched_example =
    parse_batched_message-batched wire single_metadata nom (given (4 ∷ 5 ∷ []) ∷ given [] ∷ [])
      ((refl, omega arith, omega arith), ((refl, omega arith, omega arith), tt))

server_error_iff_example :
    (server_error 6 ≡ some service_not_ready) ↔ (error_number service_not_ready ≡ 6)
server_error_iff_example = server_error_iff 6 service_not_ready
