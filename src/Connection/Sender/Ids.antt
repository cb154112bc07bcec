-- ===== src/Connection/Sender/Ids.antt =====
-- The numbers of `SerialId`.
use pulsar_rs.Shared.{ℕ, zero, suc, ◌+◌, ◌%◌, ◌^◌, ◌<◌, ◌≡◌, ◌≢◌, arith}
use pulsar_rs.Connection.Sender.{Sender, get}

-- The sender after `n` numbers were taken.
abbrev pub after : ℕ → Sender → Sender
after zero s = s
after (suc n) s = (get (after n s)).1

-- The number that the (n + 1)st call returns.
abbrev pub nth : ℕ → Sender → ℕ
nth n s = (get (after n s)).0

nth-closed : (n : ℕ) (s : Sender) → s.request_id < 2 ^ 64 → nth n s ≡ (s.request_id + n) % 2 ^ 64
unfolding get
nth-closed zero s h = omega arith
nth-closed (suc n) s h = omega (arith, nth-closed n s h)

-- Two calls of `get` on one sender that are fewer than 2^64 calls apart return different numbers.
pub nth-distinct :
    (s : Sender) (i j : ℕ) → s.request_id < 2 ^ 64 → i < j → j < i + 2 ^ 64 → nth i s ≢ nth j s
nth-distinct s i j h lo hi = omega (arith, nth-closed i s h, nth-closed j s h)
