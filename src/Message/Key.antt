-- ===== src/Message/Key.antt =====
-- `RequestKey` (src/connection.rs), `Message`, `Payload` and `Message::request_key`
-- (src/message.rs).
use pulsar_rs.Shared.{
  ℕ, ◌≡◌, ◌↔◌, Bool, true, false, ◌&&◌, Option, none, or_else, map_option, List, [], ◌∷◌, arith, Eq,
  ◌==◌, nat_eq,
}
use pulsar_rs.Proto.{BaseCommand, MessageMetadata, Bytes}

pub data RequestKey : Type 0 where
  request_id : ℕ → RequestKey
  producer_send : ℕ → ℕ → RequestKey
  consumer : ℕ → RequestKey
  close_consumer : ℕ → ℕ → RequestKey

-- The derived `PartialEq`.
unfoldable pub key_beq : RequestKey → RequestKey → Bool
key_beq (request_id a) (request_id b) = a == b
key_beq (producer_send p s) (producer_send q t) = (p == q) && (s == t)
key_beq (consumer a) (consumer b) = a == b
key_beq (close_consumer c r) (close_consumer d s) = (c == d) && (r == s)
key_beq _ _ = false

pub key_beq_iff : (a b : RequestKey) → (key_beq a b ≡ true) ↔ (a ≡ b)
unfolding key_beq
key_beq_iff (request_id a) b = ground arith
key_beq_iff (producer_send p s) b = ground arith
key_beq_iff (consumer a) b = ground arith
key_beq_iff (close_consumer c r) b = ground arith

instance abbrev pub key_eq : Eq RequestKey
key_eq = record { beq = key_beq; beq_iff = key_beq_iff }

pub record Payload : Type 0 where
  pub metadata : MessageMetadata
  pub content : Bytes

pub record Message : Type 0 where
  pub command : BaseCommand
  pub payload : Option Payload

-- The arms of one match: the first command that is present gives the key.
unfoldable pub first_some {ℓ} : {A : Type ℓ} → List (Option A) → Option A
first_some [] = none
first_some (o ∷ os) = or_else o (first_some os)

-- The first match arm: the request id of a request or of its answer.
unfoldable pub request_id_arm : BaseCommand → List (Option RequestKey)
request_id_arm c =
    map_option (λ r. request_id r.request_id) c.subscribe
    ∷ map_option (λ r. request_id r.request_id) c.partition_metadata
    ∷ map_option (λ r. request_id r.request_id) c.partition_metadata_response
    ∷ map_option (λ r. request_id r.request_id) c.lookup_topic
    ∷ map_option (λ r. request_id r.request_id) c.lookup_topic_response
    ∷ map_option (λ r. request_id r.request_id) c.producer
    ∷ map_option (λ r. request_id r.request_id) c.producer_success
    ∷ map_option (λ r. request_id r.request_id) c.unsubscribe
    ∷ map_option (λ r. request_id r.request_id) c.seek
    ∷ map_option (λ r. request_id r.request_id) c.close_producer
    ∷ map_option (λ r. request_id r.request_id) c.success
    ∷ map_option (λ r. request_id r.request_id) c.error
    ∷ map_option (λ r. request_id r.request_id) c.consumer_stats
    ∷ map_option (λ r. request_id r.request_id) c.consumer_stats_response
    ∷ map_option (λ r. request_id r.request_id) c.get_last_message_id
    ∷ map_option (λ r. request_id r.request_id) c.get_last_message_id_response
    ∷ map_option (λ r. request_id r.request_id) c.get_topics_of_namespace
    ∷ map_option (λ r. request_id r.request_id) c.get_topics_of_namespace_response
    ∷ map_option (λ r. request_id r.request_id) c.get_schema
    ∷ map_option (λ r. request_id r.request_id) c.get_schema_response
    ∷ []

unfoldable pub producer_send_arm : BaseCommand → List (Option RequestKey)
producer_send_arm c =
    map_option (λ r. producer_send r.producer_id r.sequence_id) c.send
    ∷ map_option (λ r. producer_send r.producer_id r.sequence_id) c.send_error
    ∷ map_option (λ r. producer_send r.producer_id r.sequence_id) c.send_receipt
    ∷ []

unfoldable pub consumer_arm : BaseCommand → List (Option RequestKey)
consumer_arm c =
    map_option (λ r. consumer r.consumer_id) c.active_consumer_change
    ∷ map_option (λ r. consumer r.consumer_id) c.message
    ∷ map_option (λ r. consumer r.consumer_id) c.flow
    ∷ map_option (λ r. consumer r.consumer_id) c.redeliver_unacknowledged_messages
    ∷ map_option (λ r. consumer r.consumer_id) c.reached_end_of_topic
    ∷ map_option (λ r. consumer r.consumer_id) c.ack
    ∷ []

unfoldable pub close_consumer_arm : BaseCommand → Option RequestKey
close_consumer_arm c = map_option (λ r. close_consumer r.consumer_id r.request_id) c.close_consumer

-- A connect, connected, ping or pong, and what the match does not know, have no key. The warnings of
-- the last arm are left out.
unfoldable pub request_key : Message → Option RequestKey
unfolding first_some request_id_arm producer_send_arm consumer_arm close_consumer_arm
request_key m = or_else (first_some (request_id_arm m.command)) (
    or_else (first_some (producer_send_arm m.command))
      (or_else (first_some (consumer_arm m.command)) (close_consumer_arm m.command)))
