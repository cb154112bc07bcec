-- ===== src/Discovery/Partitions.antt =====
-- `lookup_partitioned_topic_number` of src/service_discovery.rs, over the connections of its manager.
pub mod Number
use pulsar_rs.Shared.{
  ℕ, zero, suc, ◌+◌, ◌%◌, ◌^◌, Bool, true, false, ◌&&◌, Option, none, some, ltb, nat_beq,
  if◌then◌else◌, and_then, map_option,
}
use pulsar_rs.Proto.{Str, CommandPartitionedTopicMetadataResponse}
use pulsar_rs.Errors.{ConnectionError, ServiceDiscoveryError, Result, ok, err, map_err}
use pulsar_rs.Errors.Server.{ServerError, server_error, service_not_ready}

-- The connection to the base URL, over the state `W` of the world outside.
pub record Connections (W : Type 0) : Type 0 where
  pub get_base_connection : W → Result (Unit {0}) ConnectionError × W
  pub lookup_partitioned_topic :
      W → Str → Result CommandPartitionedTopicMetadataResponse ConnectionError × W
  pub delay : W → W

-- `response` is missing or is `Failed`.
unfoldable pub is_failed : CommandPartitionedTopicMetadataResponse → Bool
is_failed response = elim response.response [ none ↦ true | some type_ ↦ nat_beq type_ 1 ]

abbrev pub error_of : CommandPartitionedTopicMetadataResponse → Option ServerError
error_of response = and_then response.error server_error

abbrev pub is_service_not_ready : Option ServerError → Bool
is_service_not_ready (some service_not_ready) = true
is_service_not_ready e = false

abbrev pub may_retry : Option ℕ → ℕ → Bool
may_retry none current_retries = true
may_retry (some max_retries) current_retries = ltb current_retries max_retries

module _ {W : Type 0} (net : Connections W) (max_retries : Option ℕ) (topic : Str) where
  -- The request after a new connection.
  unfoldable pub ask_again :
      Result (Unit {0}) ConnectionError × W
      → Result CommandPartitionedTopicMetadataResponse ServiceDiscoveryError × W
  ask_again (err e, world) = (err (ServiceDiscoveryError.connection e), world)
  ask_again (ok u, world) =
      let (response, world) = net.lookup_partitioned_topic world topic in
      (map_err (λ e. ServiceDiscoveryError.connection e) response, world)

  unfoldable pub answer :
      Result CommandPartitionedTopicMetadataResponse ConnectionError × W
      → Result CommandPartitionedTopicMetadataResponse ServiceDiscoveryError × W
  unfolding ask_again
  answer (ok response, world) = (ok response, world)
  answer (err ConnectionError.disconnected, world) = ask_again (net.get_base_connection world)
  answer (err e, world) = (err (ServiceDiscoveryError.connection e), world)

  -- `none` is a loop that has not ended after `fuel` rounds.
  unfoldable pub lookup_loop :
      ℕ → ℕ → W → Option (Result CommandPartitionedTopicMetadataResponse ServiceDiscoveryError × W)
  unfolding answer is_failed
  lookup_loop zero current_retries world = none
  lookup_loop (suc fuel) current_retries world =
      let (response, world) = answer (net.lookup_partitioned_topic world topic) in
      let rest = lookup_loop fuel ((current_retries + 1) % 2 ^ 32) (net.delay world) in
      elim response [
        | err e ↦ some (err e, world)
        | ok response ↦
            if is_failed response
            then (if is_service_not_ready (error_of response)
                  && may_retry max_retries current_retries
                then rest
                else some
                    (err (ServiceDiscoveryError.query (error_of response) response.message), world))
            else some (ok response, world)
      ]

  abbrev pub partitions_of :
      CommandPartitionedTopicMetadataResponse → Result ℕ ServiceDiscoveryError
  partitions_of response = elim response.partitions [
    | some partitions ↦ ok partitions
    | none ↦ err (ServiceDiscoveryError.query (error_of response) response.message)
  ]

  unfoldable pub number_of :
      Result CommandPartitionedTopicMetadataResponse ServiceDiscoveryError × W
      → Result ℕ ServiceDiscoveryError × W
  number_of (ok response, world) = (partitions_of response, world)
  number_of (err e, world) = (err e, world)

  unfoldable pub lookup_partitioned_topic_number :
      ℕ → W → Option (Result ℕ ServiceDiscoveryError × W)
  unfolding lookup_loop number_of
  lookup_partitioned_topic_number fuel world =
      let (connected, world) = net.get_base_connection world in
      elim connected [
        | err e ↦ some (err (ServiceDiscoveryError.connection e), world)
        | ok u ↦ map_option number_of (lookup_loop fuel 0 world)
      ]
