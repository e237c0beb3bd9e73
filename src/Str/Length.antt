-- ===== src/Str/Length.antt =====
-- `strlen` (xv6-public/string.c) finds the first NUL.
use ele.Base.{ℕ, zero, suc, ◌+◌, ◌<◌, ◌≤◌, ◌≡◌, ◌≢◌, some, arith}
use ele.Str.{Bytes, strlen_loop, strlen}

strlen_loop_lem :
    (fuel : ℕ) (s : Bytes) (n k : ℕ)
    → n ≤ k
    → k < n + fuel
    → s k ≡ 0
    → ((j : ℕ) → n ≤ j → j < k → s j ≢ 0)
    → strlen_loop fuel s n ≡ some k
unfolding strlen_loop
strlen_loop_lem zero s n k le lt z before = absurd (omega arith)
strlen_loop_lem (suc fuel) s n k le lt z before = ground (
  arith,
  before n,
  λ (l : n + 1 ≤ k).
      strlen_loop_lem fuel s (n + 1) k l (omega arith) z (λ j a b. before j (omega arith) b),
)

-- For a string whose first NUL stands at offset `k`, `strlen` ends and returns `k`; it looks at
-- `k + 1` bytes at most.
pub strlen_lem :
    (fuel : ℕ) (s : Bytes) (k : ℕ)
    → k < fuel
    → s k ≡ 0
    → ((j : ℕ) → j < k → s j ≢ 0)
    → strlen fuel s ≡ some k
unfolding strlen
strlen_lem fuel s k lt z before =
    strlen_loop_lem fuel s 0 k (omega arith) (omega arith) z (λ j _ l. before j l)
