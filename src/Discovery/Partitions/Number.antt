-- ===== src/Discovery/Partitions/Number.antt =====
-- Where the number of partitions comes from, and that the lookup ends.
use pulsar_rs.Shared.{
  ℕ, zero, suc, ◌+◌, ◌%◌, ◌^◌, ◌≡◌, ◌<◌, ◌≤◌, refl, false, ◌&&◌, Option, some, ltb, subst, none,
  sym, ap, Returns, arith, Bool-cases, Option-cases, inl, inr,
}
use pulsar_rs.Proto.{Str, CommandPartitionedTopicMetadataResponse}
use pulsar_rs.Errors.{ConnectionError, ServiceDiscoveryError, Result, ok, err, Result-cases}
use pulsar_rs.Discovery.Partitions.{
  Connections, is_failed, error_of, is_service_not_ready, ask_again, answer, lookup_loop, number_of,
  lookup_partitioned_topic_number,
}

module _ {W : Type 0} (net : Connections W) (max : ℕ) (topic : Str) where
  -- Some connection answered the lookup of the topic so.
  abbrev pub Answered : CommandPartitionedTopicMetadataResponse → Type 0
  Answered response = (world : W) × ((net.lookup_partitioned_topic world topic).0 ≡ ok response)

  abbrev Known : Result CommandPartitionedTopicMetadataResponse ServiceDiscoveryError × W → Type 0
  Known (ok response, world) = Answered response
  Known (err e, world) = Unit {0}

  ask_again-Known :
      (c : Result (Unit {0}) ConnectionError × W) → Known (ask_again net (some max) topic c)
  unfolding ask_again
  ask_again-Known (err e, world) = tt
  ask_again-Known (ok u, world) = elim (Result-cases (net.lookup_partitioned_topic world topic).0) [
    | inl (response, q) ↦ rw q (world, q)
    | inr (e, q) ↦ rw q tt
  ]

  answer-Known :
      (r : Result CommandPartitionedTopicMetadataResponse ConnectionError × W)
      → ((response : CommandPartitionedTopicMetadataResponse)
          → r.0 ≡ ok response
          → Answered response)
      → Known (answer net (some max) topic r)
  unfolding answer
  answer-Known (ok response, world) h = h response refl
  answer-Known (err ConnectionError.disconnected, world) h =
      ask_again-Known (net.get_base_connection world)
  answer-Known (err (ConnectionError.io k), world) h = tt
  answer-Known (err (ConnectionError.pulsar_error s t), world) h = tt
  answer-Known (err ConnectionError.unexpected, world) h = tt
  answer-Known (err ConnectionError.decoding, world) h = tt
  answer-Known (err ConnectionError.encoding, world) h = tt
  answer-Known (err ConnectionError.socket_addr, world) h = tt
  answer-Known (err ConnectionError.tls, world) h = tt
  answer-Known (err ConnectionError.authentication, world) h = tt
  answer-Known (err ConnectionError.unexpected_response, world) h = tt
  answer-Known (err ConnectionError.not_found, world) h = tt
  answer-Known (err ConnectionError.canceled, world) h = tt
  answer-Known (err ConnectionError.shutdown, world) h = tt

  -- A response that is returned was given by the broker and is no failure.
  abbrev Sound : Result CommandPartitionedTopicMetadataResponse ServiceDiscoveryError × W → Type 0
  Sound (ok response, world) = Answered response × (is_failed response ≡ false)
  Sound (err e, world) = Unit {0}

  lookup_loop-Sound :
      (fuel n : ℕ) (world : W)
      → max < 2 ^ 32
      → n ≤ max
      → max < n + fuel
      → Returns Sound (lookup_loop net (some max) topic fuel n world)
  unfolding lookup_loop
  lookup_loop-Sound zero n world b h k = absurd (omega arith)
  lookup_loop-Sound (suc fuel) n world b h k = elim (Result-cases answered.0) [
    | inr (e, q) ↦ ((err e, answered.1), rw (q, lookup_loop) refl, tt)
    | inl (response, q) ↦ elim (Bool-cases (is_failed response)) [
      | inr t ↦ ((ok response, answered.1), rw (q, t, lookup_loop) refl, (known response q, t))
      | inl t ↦ elim (Bool-cases (is_service_not_ready (error_of response) && ltb n max)) [
        | inr u ↦ (
          (err (ServiceDiscoveryError.query (error_of response) response.message), answered.1),
          rw (q, t, u, lookup_loop) refl,
          tt,
        )
        | inl u ↦
            let (r, p, s) =
              lookup_loop-Sound fuel ((n + 1) % 2 ^ 32) (net.delay answered.1) b (ground arith)
                (ground arith) in
            (r, rw (q, t, u, lookup_loop) p, s)
      ]
    ]
  ]
    where
      answered : Result CommandPartitionedTopicMetadataResponse ServiceDiscoveryError × W
      answered = answer net (some max) topic (net.lookup_partitioned_topic world topic)

      known :
          (response : CommandPartitionedTopicMetadataResponse)
          → answered.0 ≡ ok response
          → Answered response
      known response q =
          subst (λ r. Known (r, answered.1)) q
            (answer-Known (net.lookup_partitioned_topic world topic) (λ response e. (world, e)))

  -- A number that is returned stands in an answer of the broker that is no failure.
  abbrev pub Told : Result ℕ ServiceDiscoveryError × W → Type 0
  Told (ok partitions, world) =
      (response : CommandPartitionedTopicMetadataResponse) × Answered response
      × (is_failed response ≡ false)
      × (response.partitions ≡ some partitions)
  Told (err e, world) = Unit {0}

  number_of-Told :
      (r : Result CommandPartitionedTopicMetadataResponse ServiceDiscoveryError × W)
      → Sound r
      → Told (number_of net (some max) topic r)
  unfolding number_of
  number_of-Told (err e, world) s = tt
  number_of-Told (ok response, world) (a, f) = elim (Option-cases response.partitions) [
    | inl q ↦ subst (λ r. Told (r, world)) (sym (ap (partitions_or response) q)) tt
    | inr (n, q) ↦
        subst (λ r. Told (r, world)) (sym (ap (partitions_or response) q)) (response, a, f, q)
  ]
    where
      partitions_or :
          CommandPartitionedTopicMetadataResponse → Option ℕ → Result ℕ ServiceDiscoveryError
      partitions_or response (some n) = ok n
      partitions_or response none =
          err (ServiceDiscoveryError.query (error_of response) response.message)

  -- With at most `max` retries, a number that fits a u32, the lookup of the number of partitions ends
  -- within one round of its loop more than the retries, whatever the broker answers. A round asks once, or
  -- a second time after the connection was lost. It returns a number only if the broker answered the
  -- lookup of this topic with it and without a failure.
  pub lookup_partitioned_topic_number-Told :
      (world : W)
      → max < 2 ^ 32
      → Returns Told (lookup_partitioned_topic_number net (some max) topic (max + 1) world)
  unfolding lookup_partitioned_topic_number
  lookup_partitioned_topic_number-Told world b =
      elim (Result-cases (net.get_base_connection world).0) [
        | inr (e, q) ↦ (
          (err (ServiceDiscoveryError.connection e), (net.get_base_connection world).1),
          rw (q, lookup_partitioned_topic_number) refl,
          tt,
        )
        | inl (u, q) ↦
            let (r, p, s) =
              lookup_loop-Sound (max + 1) 0 (net.get_base_connection world).1 b (omega arith)
                (omega arith) in
            (
              number_of net (some max) topic r,
              rw (q, p, lookup_partitioned_topic_number) refl,
              number_of-Told r s,
            )
      ]
