-- ===== src/Producer/Topic/Drained.antt =====
-- Sending, with or without a new connection, leaves a drained batch drained.
use pulsar_rs.Shared.{
  ℕ, ◌≡◌, ◌<◌, ◌^◌, refl, Option, none, some, [], OnSome, OnSome-map_option, map_option, Bool-cases,
  inl, inr,
}
use pulsar_rs.Proto.{Bytes}
use pulsar_rs.Errors.{Error, IoErrorKind, Result, ok, err, Result-cases}
use pulsar_rs.Options.{ProducerMessage, CompressionType}
use pulsar_rs.Producer.Batch.{Batch}
use pulsar_rs.Producer.Batch
use pulsar_rs.Producer.Topic.{
  Network, TopicProducer, reconnect, send_once, send_again, send_inner, send_compress, is_lost,
  compressed, renew,
}

-- A batch of fewer than 2^31 messages, with nothing in it.
abbrev pub IsDrained : Option Batch → Type 0
IsDrained none = Unit {0}
IsDrained (some b) = (b.length < 2 ^ 31) × (b.storage ≡ [])

abbrev pub IsBounded : Option ℕ → Type 0
IsBounded none = Unit {0}
IsBounded (some n) = n < 2 ^ 31

-- The producer has nothing to send, and would start with a bounded batch.
abbrev pub IsIdle : TopicProducer → Type 0
IsIdle p = IsBounded p.options.batch_size × IsDrained p.batch

new-IsDrained : (o : Option ℕ) → IsBounded o → IsDrained (map_option Batch.new o)
unfolding Batch.new
new-IsDrained none h = tt
new-IsDrained (some n) h = (h, refl)

anything {ℓ} : {A : Type ℓ} (o : Option A) → OnSome (λ a. Unit {0}) o
anything none = tt
anything (some a) = tt

module _ {W : Type 0} (net : Network W) (fuel : ℕ) (max_retries : Option ℕ) where
  renew-IsIdle :
      (p : TopicProducer) (r : Result (Unit {0}) Error × W) → IsIdle p → IsIdle (renew net p r).1
  unfolding renew
  renew-IsIdle p (ok u, world) h = (h.0, new-IsDrained p.options.batch_size h.0)
  renew-IsIdle p (err e, world) h = h

  reconnect-IsIdle :
      (p : TopicProducer) (world : W)
      → IsIdle p
      → OnSome (λ r. IsIdle r.1) (reconnect net fuel max_retries p world)
  unfolding reconnect
  reconnect-IsIdle p world h =
      OnSome-map_option (λ r. Unit {0}) (λ r. IsIdle r.1) (renew net p) _
        (λ r u. renew-IsIdle p r h) (anything _)

  send_again-IsIdle :
      (message : ProducerMessage) (r : Result (Unit {0}) Error × TopicProducer × W)
      → IsIdle r.1
      → IsIdle (send_again net message r).1
  unfolding send_again send_once
  send_again-IsIdle message (err e, p, world) h = h
  send_again-IsIdle message (ok u, p, world) h = h

  send_inner-IsIdle :
      (p : TopicProducer) (message : ProducerMessage) (world : W)
      → IsIdle p
      → OnSome (λ r. IsIdle r.1) (send_inner net fuel max_retries p message world)
  unfolding send_inner send_once
  send_inner-IsIdle p message world h =
      elim (Result-cases (net.send world p.id p.name p.message_id message).0) [
        | inl (receipt, q) ↦ rw (q, OnSome) h
        | inr (e, q) ↦ elim (Bool-cases (is_lost net e)) [
          | inr t ↦ rw (q, t, OnSome) h
          | inl t ↦
              rw (q, t, OnSome)
                (OnSome-map_option (λ r. IsIdle r.1) (λ r. IsIdle r.1) (send_again net message) _
                  (send_again-IsIdle message)
                  (reconnect-IsIdle (send_once net p message world).1 _ h))
        ]
      ]

  module _ (compress : CompressionType → Bytes → Result Bytes IoErrorKind) where
    pub send_compress-IsIdle :
        (p : TopicProducer) (message : ProducerMessage) (world : W)
        → IsIdle p
        → OnSome (λ r. IsIdle r.1) (send_compress net compress fuel max_retries p message world)
    unfolding send_compress
    send_compress-IsIdle p message world h =
        elim (Result-cases (compressed net compress p.compression message)) [
          | inr (e, q) ↦ rw (q, OnSome) h
          | inl (m, q) ↦ rw (q, OnSome) (send_inner-IsIdle p m world h)
        ]
