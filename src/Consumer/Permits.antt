-- ===== src/Consumer/Permits.antt =====
-- The permits of `ConsumerEngine` in src/consumer.rs, apart from a reconnection.
use pulsar_rs.Shared.{
  unwrap_or, and_then, ℕ, ◌+◌, ◌-◌, ◌/◌, ◌%◌, ◌^◌, Option, none, some, ltb, if◌then◌else◌,
}
use pulsar_rs.Message.Key.{Message}

pub record Permits : Type 0 where
  pub batch_size : ℕ
  pub remaining_messages : ℕ

-- The start of a consumer, which sends the broker `batch_size` permits.
unfoldable pub new : ℕ → Permits
new batch_size = record { batch_size = batch_size; remaining_messages = batch_size }

-- The start of a round of the engine: the permits that are sent, if any.
unfoldable pub send_flow : Permits → Option ℕ × Permits
send_flow p =
    if ltb p.remaining_messages (p.batch_size / 2)
    then (
      some (p.batch_size - p.remaining_messages),
      record p { remaining_messages = p.batch_size },
    )
    else (none, p)

-- What a message of the broker counts for: as many as its payload says, or one.
unfoldable pub message_count : Message → ℕ
message_count message =
    unwrap_or (and_then message.payload (λ payload. payload.metadata.num_messages_in_batch)) 1

-- A message of the broker is taken, on a u32.
unfoldable pub receive : Permits → Message → Permits
unfolding message_count
receive p message = record p {
  remaining_messages = (p.remaining_messages + 2 ^ 32 - message_count message) % 2 ^ 32;
}
