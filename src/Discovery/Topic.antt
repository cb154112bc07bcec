-- ===== src/Discovery/Topic.antt =====
-- `lookup_topic` and `convert_lookup_response` of src/service_discovery.rs.
pub mod Ends
use pulsar_rs.Shared.{
  ℕ, zero, suc, ◌+◌, ◌%◌, ◌^◌, Bool, true, false, ◌&&◌, ◌||◌, Option, none, some, ltb, nat_beq,
  if◌then◌else◌, and_then, unwrap_or,
}
use pulsar_rs.Proto.{Str, CommandLookupTopicResponse}
use pulsar_rs.Errors.{ConnectionError, ServiceDiscoveryError, Result, ok, err, map_err}
use pulsar_rs.Errors.Server.{ServerError, server_error, service_not_ready}

-- `BrokerAddress` of src/connection_manager.rs, over the URLs of the crate url.
pub record BrokerAddress (U : Type 0) : Type 0 where
  pub url : U
  pub broker_url : Str
  pub proxy : Bool

-- The manager, and the connection that the lookup has at a time, over the state `W` of the world
-- outside. `authority` is the host and the port of a URL, with a default port; it lacks a host if the
-- URL does.
pub record Lookups (W U : Type 0) : Type 0 where
  pub url : U
  pub get_base_address : BrokerAddress U
  pub get_base_connection : W → Result (Unit {0}) ConnectionError × W
  pub get_connection : W → BrokerAddress U → Result (Unit {0}) ConnectionError × W
  pub lookup_topic : W → Str → Bool → Result CommandLookupTopicResponse ConnectionError × W
  pub delay : W → W
  pub parse : Str → Option U
  pub authority : U → ℕ → Option Str

-- The variables of the loop.
pub record Query (U : Type 0) : Type 0 where
  pub proxied_query : Bool
  pub is_authoritative : Bool
  pub broker_address : BrokerAddress U
  pub current_retries : ℕ

pub record LookupResponse (U : Type 0) : Type 0 where
  pub broker_url : Option U
  pub broker_url_tls : Option U
  pub proxy : Bool
  pub redirect : Bool
  pub authoritative : Bool

-- How the function ends; `unwrap` of a missing host panics.
pub data Outcome (U : Type 0) : Type 0 where
  panics : Outcome U
  returns : Result (BrokerAddress U) ServiceDiscoveryError → Outcome U

-- How a round of the loop ends.
pub data Next (W U : Type 0) : Type 0 where
  stops : Outcome U → W → Next W U
  again : Query U → W → Next W U

unfoldable pub is_failed : CommandLookupTopicResponse → Bool
is_failed response = elim response.response [ none ↦ true | some type_ ↦ nat_beq type_ 2 ]

abbrev pub is_redirect : Option ℕ → Bool
is_redirect none = false
is_redirect (some type_) = nat_beq type_ 0

abbrev pub error_of : CommandLookupTopicResponse → Option ServerError
error_of response = and_then response.error server_error

abbrev pub is_service_not_ready : Option ServerError → Bool
is_service_not_ready (some service_not_ready) = true
is_service_not_ready e = false

abbrev pub may_retry : Option ℕ → ℕ → Bool
may_retry none current_retries = true
may_retry (some max_retries) current_retries = ltb current_retries max_retries

module _ {W U : Type 0} (net : Lookups W U) where
  -- A URL that is there is parsed.
  abbrev pub parsed : Option U → Result (Option U) ServiceDiscoveryError
  parsed none = err ServiceDiscoveryError.not_found
  parsed (some u) = ok (some u)

  abbrev pub parse_url : Option Str → Result (Option U) ServiceDiscoveryError
  parse_url none = ok none
  parse_url (some u) = parsed (net.parse u)

  abbrev pub with_urls :
      CommandLookupTopicResponse
      → Result (Option U) ServiceDiscoveryError
      → Result (Option U) ServiceDiscoveryError
      → Result (LookupResponse U) ServiceDiscoveryError
  with_urls response (err e) tls = err e
  with_urls response (ok url) (err e) = err e
  with_urls response (ok url) (ok tls) = ok (record {
    broker_url = url;
    broker_url_tls = tls;
    proxy = unwrap_or response.proxy_through_service_url false;
    redirect = is_redirect response.response;
    authoritative = unwrap_or response.authoritative false;
  })

  unfoldable pub convert_lookup_response :
      CommandLookupTopicResponse → Result (LookupResponse U) ServiceDiscoveryError
  convert_lookup_response response =
      with_urls response (parse_url response.broker_service_url)
        (parse_url response.broker_service_url_tls)

  -- The URL to connect to and its authority, if there is a URL: that of TLS first.
  abbrev pub target : Option U → Option U → Option (U × Option Str)
  target (some tls) url = some (tls, net.authority tls 6651)
  target none (some url) = some (url, net.authority url 6650)
  target none none = none

  -- A redirect goes on at the target, else the target is the answer.
  abbrev pub follow :
      Query U → BrokerAddress U → Bool → Result (Unit {0}) ConnectionError × W → Next W U
  follow q address redirect (err e, world) =
      stops (returns (err (ServiceDiscoveryError.connection e))) world
  follow q address true (ok u, world) =
      again (record q { proxied_query = address.proxy; broker_address = address }) world
  follow q address false (ok u, world) = stops (returns (ok address)) world

  abbrev pub on_target : Query U → LookupResponse U → W → Option (U × Option Str) → Next W U
  on_target q l world none = stops (returns (err ServiceDiscoveryError.not_found)) world
  on_target q l world (some (u, none)) = stops panics world
  on_target q l world (some (u, some authority)) =
      let address : BrokerAddress U = record {
        url = if q.proxied_query || l.proxy then net.url else u;
        broker_url = authority;
        proxy = q.proxied_query || l.proxy;
      } in
      follow q address l.redirect (net.get_connection world address)

  abbrev pub on_converted : Query U → W → Result (LookupResponse U) ServiceDiscoveryError → Next W U
  on_converted q world (err e) = stops (returns (err e)) world
  on_converted q world (ok l) =
      on_target (record q { is_authoritative = l.authoritative }) l world
        (target l.broker_url_tls l.broker_url)

  module _ (max_retries : Option ℕ) (topic : Str) where
    -- The request after a new connection.
    abbrev pub ask_again :
        Query U
        → Result (Unit {0}) ConnectionError × W
        → Result CommandLookupTopicResponse ServiceDiscoveryError × W
    ask_again q (err e, world) = (err (ServiceDiscoveryError.connection e), world)
    ask_again q (ok u, world) =
        let (response, world) = net.lookup_topic world topic q.is_authoritative in
        (map_err (λ e. ServiceDiscoveryError.connection e) response, world)

    abbrev pub answer :
        Query U
        → Result CommandLookupTopicResponse ConnectionError × W
        → Result CommandLookupTopicResponse ServiceDiscoveryError × W
    answer q (ok response, world) = (ok response, world)
    answer q (err ConnectionError.disconnected, world) =
        ask_again q (net.get_connection world q.broker_address)
    answer q (err e, world) = (err (ServiceDiscoveryError.connection e), world)

    -- A failed lookup is tried again while the broker is not ready.
    abbrev pub on_failed : Query U → CommandLookupTopicResponse → W → Next W U
    on_failed q response world =
        if is_service_not_ready (error_of response) && may_retry max_retries q.current_retries
        then again (record q { current_retries = (q.current_retries + 1) % 2 ^ 32 })
            (net.delay world)
        else stops
            (returns (err (ServiceDiscoveryError.query (error_of response) response.message))) world

    unfoldable pub on_answer :
        Query U → Result CommandLookupTopicResponse ServiceDiscoveryError × W → Next W U
    unfolding is_failed convert_lookup_response
    on_answer q (err e, world) = stops (returns (err e)) world
    on_answer q (ok response, world) =
        if is_failed response
        then on_failed q response world
        else on_converted q world (convert_lookup_response response)

    unfoldable pub round : Query U → W → Next W U
    unfolding on_answer
    round q world = on_answer q (answer q (net.lookup_topic world topic q.is_authoritative))

    -- `none` is a loop that has not ended after `fuel` rounds.
    abbrev pub then_loop :
        (Query U → W → Option (Outcome U × W)) → Next W U → Option (Outcome U × W)
    then_loop rest (stops outcome world) = some (outcome, world)
    then_loop rest (again q world) = rest q world

    unfoldable pub lookup_loop : ℕ → Query U → W → Option (Outcome U × W)
    unfolding round
    lookup_loop zero q world = none
    lookup_loop (suc fuel) q world = then_loop (lookup_loop fuel) (round q world)

    abbrev pub start : Query U
    start = record {
      proxied_query = false;
      is_authoritative = false;
      broker_address = net.get_base_address;
      current_retries = 0;
    }

    abbrev pub on_connected : ℕ → Result (Unit {0}) ConnectionError × W → Option (Outcome U × W)
    on_connected fuel (err e, world) =
        some (returns (err (ServiceDiscoveryError.connection e)), world)
    on_connected fuel (ok u, world) = lookup_loop fuel start world

    unfoldable pub lookup_topic : ℕ → W → Option (Outcome U × W)
    unfolding lookup_loop
    lookup_topic fuel world = on_connected fuel (net.get_base_connection world)
