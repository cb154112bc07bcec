-- ===== src/Manager/Retry/Bounds.antt =====
-- The delays and the attempts of the loop that connects.
use pulsar_rs.Shared.{
  ℕ, zero, suc, ◌+◌, ◌*◌, ◌%◌, ◌^◌, ◌<◌, ◌≤◌, ◌≡◌, refl, true, List, [], nat_beq, subst, length,
  le→leb, min, some, ◌-◌, All, Returns, arith, Bool-cases, inl, inr,
}
use native.Mathlib.Nat.{mul-le-mul_left}
use pulsar_rs.Errors.{ConnectionError, Result, ok, err, Result-cases}
use pulsar_rs.Manager.Retry.{
  ConnectionRetryOptions, duration_max, checked, saturating_pow, current_backoff, is_transient,
  Outcome, returns, connect_loop, after_delay,
}

module _ (o : ConnectionRetryOptions) where
  -- No delay is longer than the maximum and nine times the minimum.
  abbrev pub IsBounded : ℕ → Type 0
  IsBounded d = d ≤ o.max_backoff + 9 * o.min_backoff

  -- The options for which no delay is beyond the longest duration.
  abbrev pub IsSafe : Type 0
  IsSafe =
      (o.min_backoff * (2 ^ 32 - 1) ≤ duration_max)
      × (o.max_backoff + 9 * o.min_backoff ≤ duration_max)

  checked-some : (d : ℕ) → d ≤ duration_max → checked d ≡ some d
  unfolding checked
  checked-some d h = rw (le→leb d duration_max h) refl

  saturating_pow-small : (n : ℕ) → saturating_pow n ≤ 2 ^ 32 - 1
  unfolding saturating_pow
  saturating_pow-small n = grind arith

  current_backoff-IsBounded :
      IsSafe → (n j : ℕ) → j < 10 → (d : ℕ) × (current_backoff o n j ≡ some d) × IsBounded d
  unfolding current_backoff
  current_backoff-IsBounded (a, b) n j h = (
    min (o.min_backoff * saturating_pow n) o.max_backoff + o.min_backoff * j,
    rw (checked-some _ first, checked-some _ second, checked-some _ third) refl,
    grind arith,
  )
    where
      first : o.min_backoff * saturating_pow n ≤ duration_max
      first = omega (arith, a, mul-le-mul_left o.min_backoff (saturating_pow-small n))

      second : o.min_backoff * j ≤ duration_max
      second = grind (arith, b, h)

      third :
          min (o.min_backoff * saturating_pow n) o.max_backoff + o.min_backoff * j ≤ duration_max
      third = grind (arith, b, h)

  module _ {C : Type 0} where
    -- Who gives up did so after the last retry.
    abbrev pub Exhausted : ℕ → Result C ConnectionError → Type 0
    Exhausted n (ok c) = Unit {0}
    Exhausted n (err e) = is_transient e ≡ true → n ≡ o.max_retries

    -- The loop ended without a panic: the result and its delays, from `n` retries on.
    abbrev pub Ends : ℕ → Outcome C × List ℕ → Type 0
    Ends n (outcome, ds) =
        (r : Result C ConnectionError) × (outcome ≡ returns r)
        × All IsBounded ds
        × (n + length ds ≤ o.max_retries)
        × Exhausted (n + length ds) r

    connect_loop-from :
        (attempt : ℕ → Result C ConnectionError) (jitter : ℕ → ℕ) (fuel n : ℕ)
        → IsSafe
        → ((i : ℕ) → jitter i < 10)
        → o.max_retries < 2 ^ 32
        → n ≤ o.max_retries
        → o.max_retries < n + fuel
        → Returns (Ends n) (connect_loop o fuel attempt jitter n)
    unfolding connect_loop
    connect_loop-from attempt jitter zero n safe j b h k = absurd (omega arith)
    connect_loop-from attempt jitter (suc fuel) n safe j b h k = elim (Result-cases (attempt n)) [
      | inl (c, q) ↦
          ((returns (ok c), []), rw (q, connect_loop) refl, (ok c, refl, tt, omega arith, tt))
      | inr (e, q) ↦ elim (Bool-cases (is_transient e)) [
        | inr t ↦ (
          (returns (err e), []),
          rw (q, t, connect_loop) refl,
          (err e, refl, tt, omega arith, λ u. ground arith),
        )
        | inl t ↦ elim (Bool-cases (nat_beq n o.max_retries)) [
          | inl u ↦ (
            (returns (err e), []),
            rw (q, t, u, connect_loop) refl,
            (err e, refl, tt, omega arith, λ _. ground arith),
          )
          | inr u ↦
              let next : (n + 1) % 2 ^ 32 ≡ n + 1 = ground arith in
              let (d, backoff, bounded) = current_backoff-IsBounded safe n (jitter n) (j n) in
              let (r, p, (result, same, ds, few, last)) =
                connect_loop-from attempt jitter fuel ((n + 1) % 2 ^ 32) safe j b (ground arith)
                  (ground arith) in
              let count : (n + 1) % 2 ^ 32 + length r.1 ≡ n + suc (length r.1) =
                omega (arith, next) in
              (
                after_delay o d r,
                rw (q, t, u, connect_loop, backoff, p) refl,
                (
                  result,
                  same,
                  (bounded, ds),
                  omega (arith, few, count),
                  subst (λ i. Exhausted i result) count last,
                ),
              )
        ]
      ]
    ]

    -- When every jitter is below ten, the retries fit a u32, and no delay can be beyond the longest
    -- duration, the loop ends without a panic within one attempt more than the maximum of retries,
    -- whatever the attempts return. It waits at most as often as it may retry, and never longer than
    -- `max_backoff` and nine times `min_backoff`: the jitter is added after the maximum was taken, so that
    -- a delay can be longer than `max_backoff`. And it returns a refused or timed-out connection only
    -- after the last retry.
    pub connect_loop-Ends :
        (attempt : ℕ → Result C ConnectionError) (jitter : ℕ → ℕ)
        → IsSafe
        → ((i : ℕ) → jitter i < 10)
        → o.max_retries < 2 ^ 32
        → Returns (Ends 0) (connect_loop o (o.max_retries + 1) attempt jitter 0)
    connect_loop-Ends attempt jitter safe j b =
        connect_loop-from attempt jitter (o.max_retries + 1) 0 safe j b (omega arith) (omega arith)
