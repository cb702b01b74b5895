-- ===== src/Scheduler/Permits.antt =====
-- fetcher/scheduler.py: how the jobs of a tick share the permits of `asyncio.Semaphore(...)` under
-- `asyncio.gather`. The jobs ask for a permit in the order they were claimed, and wait in that order. A
-- permit is the time at which it is free again, since the first job started; the permits are kept by
-- that time. How long a job holds its permit is data.
pub mod Makespan
use feedgate_fetcher.Prelude.{ℕ, zero, suc, ◌+◌, max, Option, none, some, List, [], ◌∷◌, Bool, leb}
use feedgate_fetcher.Prelude.Sort.{insert}

-- when the last permit is free
abbrev pub last_free : List ℕ → ℕ
last_free [] = 0
last_free (t ∷ ts) = max t (last_free ts)

-- The time at which all jobs have ended; `none` where they wait for ever.
unfoldable pub run_jobs : List ℕ → List ℕ → Option ℕ
unfolding insert
run_jobs permits [] = some (last_free permits)
run_jobs [] (d ∷ durations) = none
run_jobs (t ∷ permits) (d ∷ durations) = run_jobs (insert leb (t + d) permits) durations

unfoldable pub all_free : ℕ → List ℕ
all_free zero = []
all_free (suc n) = 0 ∷ all_free n

-- `sem = asyncio.Semaphore(fetch_concurrency)` and the `gather`
unfoldable pub gather_time : ℕ → List ℕ → Option ℕ
unfolding all_free run_jobs
gather_time fetch_concurrency durations = run_jobs (all_free fetch_concurrency) durations
