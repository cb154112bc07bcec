-- ===== src/Manager/Retry.antt =====
-- The loop of `connect_inner` in src/connection_manager.rs. A `Duration` is a number of nanoseconds.
pub mod Bounds
use pulsar_rs.Shared.{
  ℕ, zero, suc, ◌+◌, ◌-◌, ◌*◌, ◌%◌, ◌^◌, min, Bool, true, false, Option, none, some, List, [], ◌∷◌,
  nat_beq, if◌then◌else◌, map_option, and_then, leb,
}
use pulsar_rs.Errors.{ConnectionError, IoErrorKind, Result, ok, err}
use pulsar_rs.Errors

pub record ConnectionRetryOptions : Type 0 where
  pub min_backoff : ℕ
  pub max_backoff : ℕ
  pub max_retries : ℕ

-- `2u32.saturating_pow(n)`.
unfoldable pub saturating_pow : ℕ → ℕ
saturating_pow n = min (2 ^ n) (2 ^ 32 - 1)

-- `Duration::MAX`: 2^64 - 1 seconds and 999999999 nanoseconds.
abbrev pub duration_max : ℕ
duration_max = 2 ^ 64 * 1000000000 - 1

-- A sum or a product of durations; `none` is the panic beyond the maximum.
unfoldable pub checked : ℕ → Option ℕ
checked d = if leb d duration_max then some d else none

-- The delay after a refused connection, with the jitter, a random number below 10.
unfoldable pub current_backoff : ConnectionRetryOptions → ℕ → ℕ → Option ℕ
unfolding saturating_pow checked
current_backoff o current_retries jitter =
    and_then (checked (o.min_backoff * saturating_pow current_retries)) (λ backoff.
      and_then (checked (o.min_backoff * jitter))
        (λ extra. checked (min backoff o.max_backoff + extra)))

-- The errors after which the loop tries again.
unfoldable pub is_transient : ConnectionError → Bool
is_transient (ConnectionError.io Errors.connection_refused) = true
is_transient (ConnectionError.io Errors.timed_out) = true
is_transient e = false

-- How the loop ends.
pub data Outcome (C : Type 0) : Type 0 where
  panics : Outcome C
  returns : Result C ConnectionError → Outcome C

module _ {C : Type 0} (o : ConnectionRetryOptions) where
  abbrev pub after_delay : ℕ → Outcome C × List ℕ → Outcome C × List ℕ
  after_delay d (r, ds) = (r, d ∷ ds)

  abbrev pub delayed : Option ℕ → Option (Outcome C × List ℕ) → Option (Outcome C × List ℕ)
  delayed none rest = some (panics, [])
  delayed (some d) rest = map_option (after_delay d) rest

  -- What the attempts to connect return and the jitters are given in order. The result is that of the
  -- loop and its delays; `none` is a loop that has not ended after `fuel` attempts.
  unfoldable pub connect_loop :
      ℕ → (ℕ → Result C ConnectionError) → (ℕ → ℕ) → ℕ → Option (Outcome C × List ℕ)
  unfolding is_transient current_backoff
  connect_loop zero attempt jitter current_retries = none
  connect_loop (suc fuel) attempt jitter current_retries =
      let rest = connect_loop fuel attempt jitter ((current_retries + 1) % 2 ^ 32) in
      elim (attempt current_retries) [
        | ok c ↦ some (returns (ok c), [])
        | err e ↦
            if is_transient e
            then (if nat_beq current_retries o.max_retries
                then some (returns (err e), [])
                else delayed (current_backoff o current_retries (jitter current_retries)) rest)
            else some (returns (err e), [])
      ]
