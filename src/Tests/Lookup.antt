-- ===== src/Tests/Lookup.antt =====
-- A lookup over a connection that is lost once, by a broker that is not ready once and redirects once.
use pulsar_rs.Shared.{
  map_option, ℕ, zero, suc, ◌-◌, ◌≡◌, ◌<◌, refl, arith, true, false, Option, none, some, [], ◌∷◌,
  Returns,
}
use pulsar_rs.Proto.{Str, CommandLookupTopicResponse}
use pulsar_rs.Errors.{ConnectionError, Result, ok, err}
use pulsar_rs.Errors.Server.{server_error}
use pulsar_rs.Discovery.Topic.{BrokerAddress, Lookups, is_redirect, lookup_topic, returns}
use pulsar_rs.Discovery.Topic.Ends.{FewRedirects, EndsTold, lookup_topic-Told}

abbrev response_of : ℕ → Option ℕ → CommandLookupTopicResponse
response_of type_ error = record {
  broker_service_url = some (98 ∷ []);
  broker_service_url_tls = none;
  response = some type_;
  request_id = 0;
  authoritative = some true;
  error = error;
  message = none;
  proxy_through_service_url = none;
}

-- The world counts down: at four the connection is lost, at three the broker is not ready (error 6), at
-- two it redirects.
abbrev heard : ℕ → Result CommandLookupTopicResponse ConnectionError
heard zero = ok (response_of 1 none)
heard (suc zero) = ok (response_of 1 none)
heard (suc (suc zero)) = ok (response_of 0 none)
heard (suc (suc (suc zero))) = ok (response_of 2 (some 6))
heard (suc (suc (suc (suc n)))) = err ConnectionError.disconnected

abbrev base : BrokerAddress Str
base = record { url = 112 ∷ []; broker_url = 112 ∷ []; proxy = false }

abbrev pub brokers : Lookups ℕ Str
brokers = record {
  url = 112 ∷ [];
  get_base_address = base;
  get_base_connection = λ world. (ok tt, world);
  get_connection = λ world address. (ok tt, world);
  lookup_topic = λ world topic b. (heard world, world - 1);
  delay = λ world. world;
  parse = λ s. some s;
  authority = λ u port. some u;
}

-- The world itself bounds the redirects.
redirected :
    (world : ℕ) (response : CommandLookupTopicResponse)
    → heard world ≡ ok response
    → is_redirect response.response ≡ true
    → world - 1 < world
redirected zero response q t = absurd (ground (arith, q, t))
redirected (suc n) response q t = omega arith

pub few : FewRedirects brokers (λ world. world)
few = record {
  base = λ world. omega arith;
  connection = λ world a. omega arith;
  waits = λ world. omega arith;
  answers = λ world topic b. omega arith;
  redirects = λ world topic b response q t. redirected world response q t;
}

lookup_topic-Told_example :
    Returns
      (EndsTold brokers (λ world. world) few 2 (omega arith) (84 ∷ []))
      (lookup_topic brokers (some 2) (84 ∷ []) 7 4)
lookup_topic-Told_example =
    lookup_topic-Told brokers (λ world. world) few 2 (omega arith) (84 ∷ []) 4

-- After the loss, a retry and a redirect, the broker is found.
lookup_run :
    map_option (λ r. r.0) (lookup_topic brokers (some 2) (84 ∷ []) 7 4)
    ≡ some (returns (ok (record { url = 98 ∷ []; broker_url = 98 ∷ []; proxy = false })))
unfolding lookup_topic server_error
lookup_run = refl
