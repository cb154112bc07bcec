-- ===== src/Consumer/Engine/DeadLetter.antt =====
-- Which messages go to the dead letter topic.
use pulsar_rs.Shared.{
  ℕ, ◌≡◌, ◌≤◌, ◌<◌, refl, sym, subst, ap, ◌∙◌, Bool, true, false, Option, none, some, ◌∷◌, leb,
  leb→le, Bool-cases, ◌⊎◌, inl, inr, arith,
}
use pulsar_rs.Proto.{Bytes, MessageIdData, SingleMessageMetadata, CommandMessage}
use pulsar_rs.Options.{CompressionType, DeadLetterPolicy}
use pulsar_rs.Errors.{Error, IoErrorKind, Result, ok, err}
use pulsar_rs.Message.Key.{Payload}
use pulsar_rs.Message.Wire.{Wire, Prost}
use pulsar_rs.Message.Batch.{Nom}
use pulsar_rs.Consumer.Engine.{
  to_consumer, acked, dead_lettered, Outside, ConsumerEngine, send_to_consumer, on_sent,
  acknowledge,
}
use pulsar_rs.Consumer.Engine.Process.{
  on_decompressed, by_count, decompressed, after_dead_letter, is_taken, send_to_dead_letter,
  process_single, process_decompressed, process_payload,
}

module _ {W : Type 0} where
  -- The dead letter topic has the message, which then is acked; or it has not, and nothing else happened.
  abbrev pub IsDeadLettered :
      DeadLetterPolicy
      → MessageIdData
      → Payload
      → ConsumerEngine W
      → Result (Unit {0}) Error × ConsumerEngine W
      → Type 0
  IsDeadLettered policy id payload s (ok u, s') =
      (b : Bool) × (s'.log
        ≡ acked id false b ∷ dead_lettered policy.dead_letter_topic payload.content true ∷ s.log)
  IsDeadLettered policy id payload s (err e, s') =
      (s'.log ≡ dead_lettered policy.dead_letter_topic payload.content false ∷ s.log)
      × (s'.unacked_messages ≡ s.unacked_messages)

  -- The consumer has the message, or its channel is closed.
  abbrev pub IsDelivered :
      MessageIdData
      → Payload
      → ConsumerEngine W
      → Result (Unit {0}) Error × ConsumerEngine W
      → Type 0
  IsDelivered id payload s (ok u, s') = s'.log ≡ to_consumer (ok (id, payload)) true ∷ s.log
  IsDelivered id payload s (err e, s') =
      (s'.log ≡ to_consumer (ok (id, payload)) false ∷ s.log)
      × (s'.unacked_messages ≡ s.unacked_messages)

  module _ (out : Outside W) where
    on_sent-IsDelivered :
        (id : MessageIdData) (payload : Payload) (now : ℕ) (s : ConsumerEngine W) (p : Bool × W)
        → IsDelivered id payload s (on_sent out id payload now s p)
    on_sent-IsDelivered id payload now s (true, world) = refl
    on_sent-IsDelivered id payload now s (false, world) = (refl, refl)

    after-IsDeadLettered :
        (policy : DeadLetterPolicy) (id : MessageIdData) (payload : Payload) (s : ConsumerEngine W)
        (r : Result (Result (Unit {0}) Error) Error) (world : W)
        → IsDeadLettered policy id payload s (
            after_dead_letter out id r (record s {
              world = world;
              log = dead_lettered policy.dead_letter_topic payload.content (is_taken out r) ∷ s.log;
            }))
    unfolding acknowledge
    after-IsDeadLettered policy id payload s (ok (ok u)) world = (_, refl)
    after-IsDeadLettered policy id payload s (ok (err e)) world = (refl, refl)
    after-IsDeadLettered policy id payload s (err e) world = (refl, refl)

    single-rule :
        (policy : DeadLetterPolicy) (count : ℕ) (id : MessageIdData) (payload : Payload)
        (s : ConsumerEngine W)
        → ((policy.max_redeliver_count ≤ count)
            × IsDeadLettered policy id payload s
                (process_single out (some count) (some policy) id payload s))
          ⊎ ((count < policy.max_redeliver_count)
              × IsDelivered id payload s
                  (process_single out (some count) (some policy) id payload s))
    unfolding process_single send_to_dead_letter send_to_consumer
    single-rule policy count id payload s =
        elim (Bool-cases (leb policy.max_redeliver_count count)) [
          | inl t ↦ inl (leb→le _ _ t, rw t (after-IsDeadLettered policy id payload s _ _))
          | inr t ↦ inr (ground (arith, t), rw t (on_sent-IsDelivered id payload _ s _))
        ]

module _ {W : Type 0} (out : Outside W)
    (decompress : CompressionType → Bytes → Option ℕ → Result Bytes IoErrorKind) (w : Wire)
    (ps : Prost SingleMessageMetadata) (nom : Nom) where
  process_payload-single :
      (policy : DeadLetterPolicy) (count : ℕ) (message : CommandMessage)
      (payload decompressed_payload : Payload) (s : ConsumerEngine W)
      → s.dead_letter_policy ≡ some policy
      → message.redelivery_count ≡ some count
      → decompressed decompress payload.metadata.compression payload ≡ ok decompressed_payload
      → decompressed_payload.metadata.num_messages_in_batch ≡ none
      → process_payload out decompress w ps nom message payload s
        ≡ process_single out (some count) (some policy) message.message_id decompressed_payload s
  unfolding process_payload process_decompressed
  process_payload-single policy count message payload decompressed_payload s p c d n =
      ap (λ r. on_decompressed out decompress w ps nom message r s) d
      ∙ ap (λ o. by_count out decompress w ps nom o message decompressed_payload s) n
      ∙ ap
          (λ o. process_single out o s.dead_letter_policy message.message_id decompressed_payload s)
          c
      ∙ ap (λ o. process_single out (some count) o message.message_id decompressed_payload s) p

  -- With a dead letter policy, a message that is not a batch, whose payload can be decompressed and that
  -- has a redelivery count: if the count has reached the policy's maximum, the payload goes to the dead
  -- letter topic and never to the consumer, and the message is acked only after the topic took it; if
  -- the topic did not take it, the call fails and the message keeps its deadline. Below the maximum the
  -- message goes to the consumer and nowhere else, and the call fails only if its channel is closed.
  pub process_payload-dead_letter :
      (policy : DeadLetterPolicy) (count : ℕ) (message : CommandMessage)
      (payload decompressed_payload : Payload) (s : ConsumerEngine W)
      → s.dead_letter_policy ≡ some policy
      → message.redelivery_count ≡ some count
      → decompressed decompress payload.metadata.compression payload ≡ ok decompressed_payload
      → decompressed_payload.metadata.num_messages_in_batch ≡ none
      → ((policy.max_redeliver_count ≤ count)
          × IsDeadLettered policy message.message_id decompressed_payload s
              (process_payload out decompress w ps nom message payload s))
        ⊎ ((count < policy.max_redeliver_count)
            × IsDelivered message.message_id decompressed_payload s
                (process_payload out decompress w ps nom message payload s))
  process_payload-dead_letter policy count message payload decompressed_payload s p c d n =
      subst
        (λ r.
          ((policy.max_redeliver_count ≤ count)
            × IsDeadLettered policy message.message_id decompressed_payload s r)
          ⊎ ((count < policy.max_redeliver_count)
              × IsDelivered message.message_id decompressed_payload s r))
        (sym (process_payload-single policy count message payload decompressed_payload s p c d n))
        (single-rule out policy count message.message_id decompressed_payload s)
