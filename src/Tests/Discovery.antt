-- ===== src/Tests/Discovery.antt =====
-- A lookup that is answered ServiceNotReady once and then with four partitions.
use pulsar_rs.Shared.{ℕ, zero, suc, ◌+◌, some, none, [], arith, Returns}
use pulsar_rs.Proto.{CommandPartitionedTopicMetadataResponse}
use pulsar_rs.Errors.{ok}
use pulsar_rs.Discovery.Partitions.{Connections, lookup_partitioned_topic_number}
use pulsar_rs.Discovery.Partitions.Number.{Told, lookup_partitioned_topic_number-Told}

abbrev response_of : ℕ → CommandPartitionedTopicMetadataResponse
response_of zero = record {
  partitions = none;
  request_id = 0;
  response = some 1;
  error = some 6;
  message = none;
}
response_of (suc n) = record {
  partitions = some 4;
  request_id = 1;
  response = some 0;
  error = none;
  message = none;
}

abbrev connections : Connections ℕ
connections = record {
  get_base_connection = λ world. (ok tt, world);
  lookup_partitioned_topic = λ world topic. (ok (response_of world), world);
  delay = λ world. world + 1;
}

lookup_partitioned_topic_number-Told_example :
    Returns (Told connections 3 []) (lookup_partitioned_topic_number connections (some 3) [] 4 0)
lookup_partitioned_topic_number-Told_example =
    lookup_partitioned_topic_number-Told connections 3 [] 0 (omega arith)
