-- ===== src/Scheduler/Backoff.antt =====
-- About the waits in `run` of fetcher/scheduler.py.
use feedgate_fetcher.Prelude.{
  ℕ, suc, ◌*◌, ◌-◌, ◌^◌, ◌≤◌, ◌<◌, min, ◌≡◌, Bool, List, [], ◌∷◌, All, arith,
}
use feedgate_fetcher.Scheduler.{next_errors, wait_timeout, waits}
use native.Mathlib.Nat.{pow-suc, one-le-pow}

at_least : (interval n : ℕ) → interval ≤ interval * 2 ^ n
at_least interval n = grind (arith, one-le-pow n 2 (omega arith))

pub wait_timeout-bounds :
    (interval n : ℕ)
    → interval ≤ 300
    → (interval ≤ wait_timeout interval n) × (wait_timeout interval n ≤ 300)
unfolding wait_timeout
wait_timeout-bounds interval n h = ground (arith, at_least interval (min (n - 1) 5))

-- With an interval of up to 300 seconds, the scheduler's loop never waits less than the interval
-- and never more than 300 seconds, from any count of errors and however its ticks end.
pub waits-bounds :
    (interval n : ℕ) (ticks : List Bool)
    → interval ≤ 300
    → All (λ w. (interval ≤ w) × (w ≤ 300)) (waits interval n ticks)
unfolding waits
waits-bounds interval n [] h = tt
waits-bounds interval n (raised ∷ ticks) h = (
  wait_timeout-bounds interval (next_errors raised n) h,
  waits-bounds interval (next_errors raised n) ticks h,
)

wait_timeout-errors :
    (interval n : ℕ) → wait_timeout interval (suc n) ≡ min (interval * 2 ^ min n 5) 300
unfolding wait_timeout
wait_timeout-errors interval n = rw (before n, wait_timeout) (ground arith)
  where
    before : (n : ℕ) → suc n - 1 ≡ n
    before n = omega arith

-- Up to the sixth error in a row, one more error doubles the wait of the scheduler's loop, up to
-- 300 seconds.
pub wait_timeout-suc :
    (interval n : ℕ)
    → n < 5
    → wait_timeout interval (suc (suc n)) ≡ min (2 * wait_timeout interval (suc n)) 300
wait_timeout-suc interval n h =
    rw (wait_timeout-errors interval n, wait_timeout-errors interval (suc n))
      (doubled (interval * 2 ^ min n 5) (interval * 2 ^ min (suc n) 5)
        (rw (below n (omega arith), below (suc n) (omega arith), pow-suc 2 n) (grind arith)))
  where
    below : (k : ℕ) → k ≤ 5 → min k 5 ≡ k
    below k h = omega arith

    doubled : (a b : ℕ) → b ≡ 2 * a → min b 300 ≡ min (2 * min a 300) 300
    doubled a b h = omega arith
