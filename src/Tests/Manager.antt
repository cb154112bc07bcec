-- ===== src/Tests/Manager.antt =====
-- The table of brokers and the loop that connects, with numbers as brokers.
use pulsar_rs.Shared.{some, ℕ, ◌≡◌, refl, true, false, List, [], ◌∷◌, ◌++◌, nat_eq, arith, Returns}
use pulsar_rs.Errors.{ConnectionError, Result, ok, err}
use pulsar_rs.Errors
use pulsar_rs.Manager.Table.{Table, connecting}
use pulsar_rs.Manager.Table.Waiting.{
  Event, gets, connects, fails, succeeds, checks, run, waiting, run-waiting,
}
use pulsar_rs.Manager.Retry.{ConnectionRetryOptions, current_backoff, connect_loop}
use pulsar_rs.Manager.Retry.Bounds.{Ends, connect_loop-Ends}

-- Two brokers, a failure at one and a connection at the other.
abbrev events : List (Event ℕ)
events =
    gets (λ c. true) 1 10
    ∷ connects 1 10
    ∷ gets (λ c. true) 1 11
    ∷ connects 2 12
    ∷ gets (λ c. true) 1 13
    ∷ gets (λ c. true) 2 14
    ∷ checks (λ c. false)
    ∷ succeeds 1 7
    ∷ fails 2
    ∷ connects 2 15
    ∷ gets (λ c. true) 2 16
    ∷ []

run-waiting_example : (run 1 events []).0 ≡ (run 1 events []).1 ++ waiting 1 (run 1 events []).2
run-waiting_example = run-waiting 1 events

abbrev one_waits : Table ℕ
one_waits = (1, connecting (10 ∷ [])) ∷ []

-- `ConnectionRetryOptions::default()`, in nanoseconds.
abbrev default_options : ConnectionRetryOptions
default_options = record { min_backoff = 10000000; max_backoff = 30000000000; max_retries = 12 }

abbrev always_refused : ℕ → Result ℕ ConnectionError
always_refused n = err (ConnectionError.io Errors.connection_refused)

-- The last delay with the largest jitter is longer than the maximum of thirty seconds.
longest : current_backoff default_options 12 9 ≡ some 30090000000
unfolding current_backoff
longest = refl

connect_loop-Ends_example :
    Returns (Ends default_options 0) (connect_loop default_options 13 always_refused (λ i. 3) 0)
connect_loop-Ends_example =
    connect_loop-Ends default_options always_refused (λ i. 3) (omega arith, omega arith)
      (λ i. omega arith) (omega arith)
