-- ===== src/Discovery/Topic/Ends.antt =====
-- The lookup of a topic's broker ends, and what its answer comes from.
use pulsar_rs.Shared.{
  unwrap_or, ℕ, zero, suc, ◌+◌, ◌^◌, ◌≡◌, ◌<◌, ◌≤◌, ◌⊎◌, inl, inr, refl, sym, ap, ◌∙◌, Bool, true,
  false, ◌&&◌, ◌||◌, if◌then◌else◌, Option, none, some, ltb, Returns, arith, Bool-cases,
}
use pulsar_rs.Proto.{Str, CommandLookupTopicResponse}
use pulsar_rs.Errors.{ConnectionError, ServiceDiscoveryError, Result, ok, err, map_err}
use pulsar_rs.Discovery.Topic.{
  BrokerAddress, Lookups, Query, LookupResponse, Outcome, panics, returns, Next, stops, again,
  is_failed, is_redirect, error_of, is_service_not_ready, parsed, parse_url, with_urls,
  convert_lookup_response, target, follow, on_target, on_converted, ask_again, answer, on_failed,
  on_answer, round, then_loop, lookup_loop, start, on_connected, lookup_topic,
}

-- The brokers redirect at most `rank` times from a state of the world on.
pub record FewRedirects {W U : Type 0} (net : Lookups W U) (rank : W → ℕ) : Type 0 where
  pub base : (world : W) → rank (net.get_base_connection world).1 ≤ rank world
  pub connection :
      (world : W) (a : BrokerAddress U) → rank (net.get_connection world a).1 ≤ rank world
  pub waits : (world : W) → rank (net.delay world) ≤ rank world
  pub answers :
      (world : W) (topic : Str) (b : Bool) → rank (net.lookup_topic world topic b).1 ≤ rank world
  pub redirects :
      (world : W) (topic : Str) (b : Bool) (response : CommandLookupTopicResponse)
      → (net.lookup_topic world topic b).0 ≡ ok response
      → is_redirect response.response ≡ true
      → rank (net.lookup_topic world topic b).1 < rank world

module _ {W U : Type 0} (net : Lookups W U) (rank : W → ℕ) (few : FewRedirects net rank) (max : ℕ)
    (bound : max < 2 ^ 32) (topic : Str) where
  -- Some broker answered the lookup of the topic so.
  abbrev pub Answered : CommandLookupTopicResponse → Type 0
  Answered response = (world : W) × (b : Bool) × ((net.lookup_topic world topic b).0 ≡ ok response)

  -- The answer to a lookup: after a redirect fewer are left.
  abbrev Heard : ℕ → CommandLookupTopicResponse → W → Type 0
  Heard n response world =
      Answered response
      × (rank world ≤ n)
      × ((is_redirect response.response ≡ false) ⊎ (rank world < n))

  abbrev Known : {E : Type 0} → ℕ → Result CommandLookupTopicResponse E × W → Type 0
  Known n (ok response, world) = Heard n response world
  Known n (err e, world) = rank world ≤ n

  lookup-Known :
      (n : ℕ) (world : W) (b : Bool)
      → rank world ≤ n
      → (r : Result CommandLookupTopicResponse ConnectionError)
      → (net.lookup_topic world topic b).0 ≡ r
      → Known n (r, (net.lookup_topic world topic b).1)
  lookup-Known n world b h (err e) q = omega (arith, h, few.answers world topic b)
  lookup-Known n world b h (ok response) q = elim (Bool-cases (is_redirect response.response)) [
    | inl t ↦ (
      (world, b, q),
      omega (arith, h, few.answers world topic b),
      inr (omega (arith, h, few.redirects world topic b response q t)),
    )
    | inr t ↦ ((world, b, q), omega (arith, h, few.answers world topic b), inl t)
  ]

  map_err-Known :
      (n : ℕ) (r : Result CommandLookupTopicResponse ConnectionError) (world : W)
      → Known n (r, world)
      → Known n (map_err (λ e. ServiceDiscoveryError.connection e) r, world)
  map_err-Known n (ok response) world h = h
  map_err-Known n (err e) world h = h

  ask_again-Known :
      (n : ℕ) (q : Query U) (c : Result (Unit {0}) ConnectionError × W)
      → rank c.1 ≤ n
      → Known n (ask_again net (some max) topic q c)
  ask_again-Known n q (err e, world) h = h
  ask_again-Known n q (ok u, world) h =
      map_err-Known n _ _ (lookup-Known n world q.is_authoritative h _ refl)

  answer-Known :
      (n : ℕ) (q : Query U) (r : Result CommandLookupTopicResponse ConnectionError × W)
      → Known n r
      → Known n (answer net (some max) topic q r)
  answer-Known n q (ok response, world) h = h
  answer-Known n q (err ConnectionError.disconnected, world) h =
      ask_again-Known n q (net.get_connection world q.broker_address)
        (omega (arith, h, few.connection world q.broker_address))
  answer-Known n q (err _, world) h = h

  -- The answer names the URL, of TLS first, and the authority is that of the URL with the default port.
  abbrev pub NamesAt : CommandLookupTopicResponse → U → Str → Type 0
  NamesAt response u authority =
      (text : Str) × (port : ℕ) × (((response.broker_service_url_tls ≡ some text) × (port ≡ 6651))
        ⊎ ((response.broker_service_url_tls ≡ none)
            × (response.broker_service_url ≡ some text)
            × (port ≡ 6650)))
      × (net.parse text ≡ some u)
      × (net.authority u port ≡ some authority)

  -- The answer says that the broker is behind the service's own URL.
  abbrev is_proxied : CommandLookupTopicResponse → Bool
  is_proxied response = unwrap_or response.proxy_through_service_url false

  -- Some answer to the lookup of the topic said so.
  abbrev Proxied : Type 0
  Proxied =
      (response : CommandLookupTopicResponse) × Answered response × (is_proxied response ≡ true)

  -- An answer names the address. A proxy's URL is the service's, and a proxy is used when the answer, or
  -- an earlier one, said so.
  abbrev pub Names : CommandLookupTopicResponse → BrokerAddress U → Type 0
  Names response address =
      (u : U) × NamesAt response u address.broker_url
      × (address.url ≡ (if address.proxy then net.url else u))
      × (is_proxied response ≡ true → address.proxy ≡ true)

  parsed-Some :
      (r : Option U) (o : Option U) → parsed net r ≡ ok o → (u : U) × (r ≡ some u) × (o ≡ some u)
  parsed-Some none o h = absurd (ground (arith, h))
  parsed-Some (some u) o h = (u, refl, ground (arith, h))

  parse_url-none : (text : Option Str) → parse_url net text ≡ ok none → text ≡ none
  parse_url-none none h = refl
  parse_url-none (some text) h =
      let (u, q, p) = parsed-Some (net.parse text) none h in absurd (ground (arith, p))

  parse_url-some :
      (o : Option Str) (u : U)
      → parse_url net o ≡ ok (some u)
      → (text : Str) × (o ≡ some text) × (net.parse text ≡ some u)
  parse_url-some none u h = absurd (ground (arith, h))
  parse_url-some (some text) u h =
      let (v, q, p) = parsed-Some (net.parse text) (some u) h in (text, refl, q ∙ sym p)

  target-NamesAt :
      (response : CommandLookupTopicResponse) (tls url : Option U)
      → parse_url net response.broker_service_url ≡ ok url
      → parse_url net response.broker_service_url_tls ≡ ok tls
      → (u : U) (authority : Str) → target net tls url ≡ some (u, some authority)
      → NamesAt response u authority
  target-NamesAt response (some t) url p q u authority h =
      let (text, e, f) = parse_url-some response.broker_service_url_tls t q in
      (text, 6651, inl (e, refl), ground (arith, f, h), ground (arith, h))
  target-NamesAt response none (some t) p q u authority h =
      let (text, e, f) = parse_url-some response.broker_service_url t p in
      (
        text,
        6650,
        inr (parse_url-none response.broker_service_url_tls q, e, refl),
        ground (arith, f, h),
        ground (arith, h),
      )
  target-NamesAt response none none p q u authority h = absurd (ground (arith, h))

  -- A round ends with an address that a broker told, or it goes on: with one more retry, or with
  -- fewer redirects that are left.
  abbrev Told : CommandLookupTopicResponse → Type 0
  Told response =
      Answered response × (is_failed response ≡ false) × (is_redirect response.response ≡ false)

  abbrev pub IsTold : Outcome U → Type 0
  IsTold (returns (ok address)) =
      (response : CommandLookupTopicResponse) × Told response
      × Names response address
      × (address.proxy ≡ true → Proxied)
      × (world : W) × ((net.get_connection world address).0 ≡ ok tt)
  IsTold (returns (err e)) = Unit {0}
  IsTold panics = Unit {0}

  abbrev Progress : ℕ → ℕ → Next W U → Type 0
  Progress n retries (stops outcome world) = IsTold outcome
  Progress n retries (again q world) =
      (q.proxied_query ≡ true → Proxied)
      × (((q.current_retries ≡ retries + 1) × (retries < max) × (rank world ≤ n))
          ⊎ ((q.current_retries ≡ retries) × (rank world < n)))

  follow-Progress :
      (n : ℕ) (q : Query U) (address : BrokerAddress U) (redirect : Bool)
      (c : Result (Unit {0}) ConnectionError × W) (response : CommandLookupTopicResponse)
      (asked : W)
      → net.get_connection asked address ≡ c
      → Names response address
      → (address.proxy ≡ true → Proxied)
      → (redirect ≡ true → rank c.1 < n)
      → (redirect ≡ false → Told response)
      → Progress n q.current_retries (follow net q address redirect c)
  follow-Progress n q address redirect (err e, world) response asked c m p h k = tt
  follow-Progress n q address true (ok u, world) response asked c m p h k = (p, inr (refl, h refl))
  follow-Progress n q address false (ok u, world) response asked c m p h k =
      (response, k refl, m, p, asked, ap (λ r. r.0) c)

  on_target-Progress :
      (n : ℕ) (q : Query U) (l : LookupResponse U) (world : W) (o : Option (U × Option Str))
      (response : CommandLookupTopicResponse)
      → ((u : U) (authority : Str) → o ≡ some (u, some authority) → NamesAt response u authority)
      → l.proxy ≡ is_proxied response
      → Answered response
      → (q.proxied_query ≡ true → Proxied)
      → (l.redirect ≡ true → rank world < n)
      → (l.redirect ≡ false → Told response)
      → Progress n q.current_retries (on_target net q l world o)
  on_target-Progress n q l world none response m e t p h k = tt
  on_target-Progress n q l world (some (u, none)) response m e t p h k = tt
  on_target-Progress n q l world (some (u, some authority)) response m e t p h k =
      follow-Progress n q address l.redirect (net.get_connection world address) response world refl
        (u, m u authority refl, refl, λ b. either q.proxied_query l.proxy (inr (e ∙ b)))
        (λ b. proxied q.proxied_query l.proxy p (λ c. (response, t, sym e ∙ c)) b)
        (λ t. omega (arith, h t, few.connection world address)) k
    where
      address : BrokerAddress U
      address = record {
        url = if q.proxied_query || l.proxy then net.url else u;
        broker_url = authority;
        proxy = q.proxied_query || l.proxy;
      }

      either : (a b : Bool) → (a ≡ true) ⊎ (b ≡ true) → (a || b) ≡ true
      either a b h = ground (arith, h)

      proxied :
          (a b : Bool) → (a ≡ true → Proxied) → (b ≡ true → Proxied) → (a || b) ≡ true → Proxied
      proxied true b f g h = f refl
      proxied false b f g h = g h

  on_converted-Progress :
      (n : ℕ) (q : Query U) (world : W) (response : CommandLookupTopicResponse)
      (url tls : Result (Option U) ServiceDiscoveryError)
      → parse_url net response.broker_service_url ≡ url
      → parse_url net response.broker_service_url_tls ≡ tls
      → Answered response
      → (q.proxied_query ≡ true → Proxied)
      → (is_redirect response.response ≡ true → rank world < n)
      → (is_redirect response.response ≡ false → Told response)
      → Progress n q.current_retries (on_converted net q world (with_urls net response url tls))
  on_converted-Progress n q world response (err e) tls i j t p h k = tt
  on_converted-Progress n q world response (ok url) (err e) i j t p h k = tt
  on_converted-Progress n q world response (ok url) (ok tls) i j t p h k =
      let l : LookupResponse U = record {
        broker_url = url;
        broker_url_tls = tls;
        proxy = unwrap_or response.proxy_through_service_url false;
        redirect = is_redirect response.response;
        authoritative = unwrap_or response.authoritative false;
      } in
      on_target-Progress n (record q { is_authoritative = l.authoritative }) l world
        (target net tls url) response (target-NamesAt response tls url i j) refl t p h k

  on_failed-Progress :
      (n : ℕ) (q : Query U) (response : CommandLookupTopicResponse) (world : W)
      → (q.proxied_query ≡ true → Proxied)
      → rank world ≤ n
      → Progress n q.current_retries (on_failed net (some max) topic q response world)
  on_failed-Progress n q response world p h =
      elim (Bool-cases (is_service_not_ready (error_of response) && ltb q.current_retries max)) [
        | inr t ↦ rw t tt
        | inl t ↦ rw t (p, inl (ground arith, ground arith, omega (arith, h, few.waits world)))
      ]

  on_answer-Progress :
      (n : ℕ) (q : Query U) (r : Result CommandLookupTopicResponse ServiceDiscoveryError × W)
      → (q.proxied_query ≡ true → Proxied)
      → Known n r
      → Progress n q.current_retries (on_answer net (some max) topic q r)
  unfolding on_answer convert_lookup_response
  on_answer-Progress n q (err e, world) p h = tt
  on_answer-Progress n q (ok response, world) p (told, less, fewer) =
      elim (Bool-cases (is_failed response)) [
        | inl t ↦ rw t (on_failed-Progress n q response world p less)
        | inr t ↦ rw t (
            on_converted-Progress n q world response (parse_url net response.broker_service_url)
              (parse_url net response.broker_service_url_tls) refl refl told p (strictly fewer)
              (λ u. (told, t, u)))
      ]
    where
      strictly :
          (is_redirect response.response ≡ false) ⊎ (rank world < n)
          → is_redirect response.response ≡ true
          → rank world < n
      strictly (inl f) t = absurd (ground (arith, f, t))
      strictly (inr f) t = f

  round-Progress :
      (q : Query U) (world : W)
      → (q.proxied_query ≡ true → Proxied)
      → Progress (rank world) q.current_retries (round net (some max) topic q world)
  unfolding round
  round-Progress q world p = on_answer-Progress (rank world) q _ p (
      answer-Known (rank world) q _
        (lookup-Known (rank world) world q.is_authoritative (omega arith) _ refl))

  abbrev pub EndsTold : Outcome U × W → Type 0
  EndsTold (outcome, world) = IsTold outcome

  then_loop-Returns :
      (n retries fuel : ℕ) (rest : Query U → W → Option (Outcome U × W)) (r : Next W U)
      → Progress n retries r
      → retries ≤ max
      → n + max < retries + fuel + 1
      → ((q : Query U) (world : W)
          → (q.proxied_query ≡ true → Proxied)
          → q.current_retries ≤ max
          → rank world + max < q.current_retries + fuel
          → Returns EndsTold (rest q world))
      → Returns EndsTold (then_loop net (some max) topic rest r)
  then_loop-Returns n retries fuel rest (stops outcome world) p h k f = ((outcome, world), refl, p)
  then_loop-Returns n retries fuel rest (again q world) (p, inl (a, b, c)) h k f =
      f q world p (omega arith) (omega arith)
  then_loop-Returns n retries fuel rest (again q world) (p, inr (a, b)) h k f =
      f q world p (omega arith) (omega arith)

  lookup_loop-Returns :
      (fuel : ℕ) (q : Query U) (world : W)
      → (q.proxied_query ≡ true → Proxied)
      → q.current_retries ≤ max
      → rank world + max < q.current_retries + fuel
      → Returns EndsTold (lookup_loop net (some max) topic fuel q world)
  unfolding lookup_loop
  lookup_loop-Returns zero q world p h k = absurd (omega arith)
  lookup_loop-Returns (suc fuel) q world p h k =
      then_loop-Returns (rank world) q.current_retries fuel (lookup_loop net (some max) topic fuel)
        (round net (some max) topic q world) (round-Progress q world p) h (omega arith)
        (lookup_loop-Returns fuel)

  on_connected-Returns :
      (fuel : ℕ) (c : Result (Unit {0}) ConnectionError × W)
      → rank c.1 + max < fuel
      → Returns EndsTold (on_connected net (some max) topic fuel c)
  on_connected-Returns fuel (err e, world) h = (_, refl, tt)
  on_connected-Returns fuel (ok u, world) h =
      lookup_loop-Returns fuel (start net (some max) topic) world (λ t. absurd (ground (arith, t)))
        (omega arith) (omega arith)

  -- When the brokers redirect only a bounded number of times and the maximum of retries fits a u32, the
  -- lookup of a topic's broker ends within one round more than the retries and the redirects, whatever
  -- else the brokers answer. It returns an address only if some answer to the lookup of this topic was
  -- neither a failure nor a redirect and names the address: the authority is that of the URL in the
  -- answer, of TLS first, with the default port 6651, or else 6650. The URL is this one, or, behind a
  -- proxy, the service's own. A proxy is used when that answer says so, and only when some answer to the
  -- lookup did. And a connection to the address was there.
  pub lookup_topic-Told :
      (world : W)
      → Returns EndsTold (lookup_topic net (some max) topic (rank world + max + 1) world)
  unfolding lookup_topic
  lookup_topic-Told world =
      on_connected-Returns (rank world + max + 1) (net.get_base_connection world)
        (omega (arith, few.base world))
