-- ===== src/Producer/Topic/Returns.antt =====
-- With a maximum of retries, and when the lookups of another connection end, enough fuel is one request
-- more than the retries.
use pulsar_rs.Shared.{
  ℕ, zero, suc, ◌+◌, ◌%◌, ◌≡◌, ◌<◌, ◌≤◌, ◌^◌, refl, ◌∙◌, true, Option, none, some, is_some,
  is_some-map_option, Bool-cases, inl, inr, arith, ltb, ◌&&◌,
}
use pulsar_rs.Proto.{Bytes, Str, CommandProducerSuccess}
use pulsar_rs.Errors.{ConnectionError, Error, IoErrorKind, Result, ok, err, Result-cases}
use pulsar_rs.Options.{ProducerMessage, CompressionType}
use pulsar_rs.Producer.Topic.{
  Network, TopicProducer, on_found, create_loop, reconnect, send_once, send_again, send_inner,
  send_compress, is_lost, compressed, renew, is_service_not_ready,
}

-- The lookups of another connection end. `lookup_topic-Told` of Discovery/Topic/Ends says when they do.
abbrev pub LookupsEnd : {W : Type 0} → Network W → Type 0
LookupsEnd {W} net = (world : W) (topic : Str) → is_some (net.find_connection world topic) ≡ true

module _ {W : Type 0} (net : Network W) (max : ℕ) (ends : LookupsEnd net) where
  on_found-is_some :
      (next : W → Option (Result (Unit {0}) Error × W))
      (found : Option (Result (Unit {0}) Error × W))
      → is_some found ≡ true
      → ((world : W) → is_some (next world) ≡ true)
      → is_some (on_found net next found) ≡ true
  on_found-is_some next none h k = h
  on_found-is_some next (some (ok u, world)) h k = k world
  on_found-is_some next (some (err e, world)) h k = refl

  create_loop-is_some :
      (fuel : ℕ) (p : TopicProducer) (current_retries : ℕ) (world : W)
      → max < 2 ^ 32
      → current_retries ≤ max
      → max < current_retries + fuel
      → is_some (create_loop net fuel (some max) p current_retries world) ≡ true
  unfolding create_loop
  create_loop-is_some zero p n world b h k = absurd (omega arith)
  create_loop-is_some (suc fuel) p n world b h k = elim (Result-cases created.0) [
    | inl (s, q) ↦ rw (q, is_some) refl
    | inr (e, q) ↦ elim (Bool-cases (is_service_not_ready net e && ltb n max)) [
      | inr t ↦ rw (q, t, is_some) refl
      | inl t ↦
          rw (q, t, is_some)
            (on_found-is_some _ _ (ends (net.delay created.1) p.topic) (λ world.
              create_loop-is_some fuel p ((n + 1) % 2 ^ 32) world b (ground arith) (ground arith)))
    ]
  ]
    where
      created : Result CommandProducerSuccess ConnectionError × W
      created = net.create_producer world p.topic p.id (some p.name) p.options

  module _ (fuel : ℕ) (b : max < 2 ^ 32) (enough : max < fuel) where
    reconnect-is_some :
        (p : TopicProducer) (world : W) → is_some (reconnect net fuel (some max) p world) ≡ true
    unfolding reconnect
    reconnect-is_some p world =
        is_some-map_option (renew net p) _
        ∙ on_found-is_some _ _ (ends world p.topic)
            (λ world. create_loop-is_some fuel p 0 world b (omega arith) (omega (arith, enough)))

    send_inner-is_some :
        (p : TopicProducer) (message : ProducerMessage) (world : W)
        → is_some (send_inner net fuel (some max) p message world) ≡ true
    unfolding send_inner send_once
    send_inner-is_some p message world =
        elim (Result-cases (net.send world p.id p.name p.message_id message).0) [
          | inl (receipt, q) ↦ rw (q, is_some) refl
          | inr (e, q) ↦ elim (Bool-cases (is_lost net e)) [
            | inr t ↦ rw (q, t, is_some) refl
            | inl t ↦
                rw (q, t, is_some)
                  (is_some-map_option (send_again net message) _
                    ∙ reconnect-is_some (send_once net p message world).1 _)
          ]
        ]

    pub send_compress-is_some :
        (compress : CompressionType → Bytes → Result Bytes IoErrorKind) (p : TopicProducer)
        (message : ProducerMessage) (world : W)
        → is_some (send_compress net compress fuel (some max) p message world) ≡ true
    unfolding send_compress
    send_compress-is_some compress p message world =
        elim (Result-cases (compressed net compress p.compression message)) [
          | inr (e, q) ↦ rw (q, is_some) refl
          | inl (m, q) ↦ rw (q, is_some) (send_inner-is_some p m world)
        ]
