-- ===== src/Errors/Values.antt =====
-- The error enums of src/error.rs. Texts for the log are left out; a broker's own message is kept.
use pulsar_rs.Shared.{ℕ, Bool, true, false, ◌≡◌, refl, ◌⊎◌, inl, inr, Option, none, some}
use pulsar_rs.Proto.{Str}
use pulsar_rs.Errors.Server.{ServerError}

-- `std::io::ErrorKind`, with the kinds that the client tells apart.
pub data IoErrorKind : Type 0 where
  connection_refused timed_out other : IoErrorKind

pub data ConnectionError : Type 0 where
  io : IoErrorKind → ConnectionError
  disconnected : ConnectionError
  pulsar_error : Option ServerError → Option Str → ConnectionError
  unexpected decoding encoding socket_addr tls : ConnectionError
  authentication unexpected_response not_found canceled shutdown : ConnectionError

pub data ServiceDiscoveryError : Type 0 where
  connection : ConnectionError → ServiceDiscoveryError
  query : Option ServerError → Option Str → ServiceDiscoveryError
  not_found dns_lookup_error canceled shutdown dummy : ServiceDiscoveryError

pub data ConsumerError : Type 0 where
  connection : ConnectionError → ConsumerError
  io : IoErrorKind → ConsumerError
  missing_payload channel_full closed build_error : ConsumerError

-- `Error` and `ProducerError` name one another. The futures of a partial send are numbers.
mutual
  pub data Error : Type 0 where
    connection_error : ConnectionError → Error
    consumer_error : ConsumerError → Error
    producer_error : ProducerError → Error
    service_discovery : ServiceDiscoveryError → Error
    authentication_error custom executor : Error

  pub data ProducerError : Type 0 where
    connection : ConnectionError → ProducerError
    custom_error fenced : ProducerError
    io : IoErrorKind → ProducerError
    batch : Error → ProducerError
    partial_send : Sends → ProducerError

  pub data Sends : Type 0 where
    done : Sends
    sent : ℕ → Sends → Sends
    failed : Error → Sends → Sends

-- Rust's `Result`.
pub data Result {ℓ κ} (A : Type ℓ) (E : Type κ) : Type (ℓ ⊔ κ) where
  ok : A → Result A E
  err : E → Result A E

-- `?` on a result.
infixl 5 ◌>>=◌
abbrev pub ◌>>=◌ {ℓ κ μ} :
    {A : Type ℓ} {B : Type κ} {E : Type μ} → Result A E → (A → Result B E) → Result B E
ok a >>= f = f a
err e >>= f = err e

abbrev pub map_err {ℓ κ μ} :
    {A : Type ℓ} {E : Type κ} {F : Type μ} → (E → F) → Result A E → Result A F
map_err f (ok a) = ok a
map_err f (err e) = err (f e)

abbrev pub ok_or {ℓ κ} : {A : Type ℓ} {E : Type κ} → Option A → E → Result A E
ok_or none e = err e
ok_or (some a) e = ok a

abbrev pub is_ok {ℓ κ} : {A : Type ℓ} {E : Type κ} → Result A E → Bool
is_ok (ok a) = true
is_ok (err e) = false

pub Result-cases {ℓ κ} :
    {A : Type ℓ} {E : Type κ} (r : Result A E) → ((a : A) × (r ≡ ok a)) ⊎ ((e : E) × (r ≡ err e))
Result-cases (ok a) = inl (a, refl)
Result-cases (err e) = inr (e, refl)
