-- ===== src/Scheduler/Loop.antt =====
-- fetcher/scheduler.py: the loop of `run` over its ticks, with its stop event and its metrics. A turn
-- is what the loop meets: the time of its tick, the rows that other workers have locked, the outside
-- world, what the database does to its claim, and whether the stop event is set while it waits.
pub mod Sound
use feedgate_fetcher.Prelude.{ℕ, ◌+◌, Option, none, some, List, [], ◌∷◌, Bool, true, false}
use feedgate_fetcher.Exceptions.{Exc, Result, ok, raise}
use feedgate_fetcher.Http.{Upstream, FetchConfig}
use feedgate_fetcher.Scheduler.{ClaimConfig, World, SchedulerTickResult, tick_once, wait_timeout}

pub record Turn : Type 0 where
  pub now : ℕ
  pub ended_at : ℕ
  pub locked : ℕ → Bool
  pub up : ℕ → Upstream
  -- the exception of the database, at the claim
  pub trouble : Option Exc
  pub stop_is_set : Bool

-- feedgate_scheduler_tick_total by its result, ..._claimed_feeds_total, ..._last_tick_unixtime
pub record TickMetrics : Type 0 where
  pub ok_total : ℕ
  pub error_total : ℕ
  pub claimed_total : ℕ
  pub last_tick : Option ℕ

pub record LoopState : Type 0 where
  pub consecutive_errors : ℕ
  pub metrics : TickMetrics
  pub world : World

module _ (c : FetchConfig) (claim : ClaimConfig) where
  -- a claim that the database refuses is rolled back
  unfoldable pub tick : Turn → World → Result SchedulerTickResult × World
  unfolding tick_once
  tick t w = elim t.trouble [
    | some e ↦ (raise e, w)
    | none ↦ tick_once t.up c t.now claim t.locked w
  ]

  -- the `try` statement, with the durations left out
  unfoldable pub after_tick : ℕ → Result SchedulerTickResult × World → LoopState → LoopState
  after_tick ended_at (ok result, w) s = record {
    consecutive_errors = 0;
    metrics = record (s.metrics) {
      ok_total = (s.metrics).ok_total + 1;
      claimed_total = (s.metrics).claimed_total + result.claimed;
      last_tick = some ended_at;
    };
    world = w;
  }
  after_tick ended_at (raise e, w) s = record {
    consecutive_errors = s.consecutive_errors + 1;
    metrics = record (s.metrics) { error_total = (s.metrics).error_total + 1 };
    world = w;
  }

  -- The `while` statement: is the stop event set, the turns that would come, and the state. It gives
  -- the timeouts of its waits, and the state in the end.
  unfoldable pub run : ℕ → Bool → List Turn → LoopState → List ℕ × LoopState
  unfolding tick after_tick wait_timeout
  run interval true turns s = ([], s)
  run interval false [] s = ([], s)
  run interval false (t ∷ turns) s =
      let s' = after_tick t.ended_at (tick t s.world) s in
      let rest = run interval t.stop_is_set turns s' in
      (wait_timeout interval s'.consecutive_errors ∷ rest.0, rest.1)
