-- ===== src/Scheduler/Loop/Sound.antt =====
-- About the scheduler's loop of fetcher/scheduler.py: what it keeps, what it counts, how it waits.
use feedgate_fetcher.Prelude.{
  ℕ, ◌+◌, ◌≤◌, ◌<◌, ◌≡◌, ◌∙◌, refl, sym, ap, subst, List, [], ◌∷◌, map, Bool, true, false, All,
  length, Option-cases, inl, inr, arith,
}
use feedgate_fetcher.FeedState.Lifecycle.{IsConsistent}
use feedgate_fetcher.Exceptions.{Result, ok, raise}
use feedgate_fetcher.Http.{FetchConfig}
use feedgate_fetcher.Scheduler.{ClaimConfig, World, SchedulerTickResult}
use feedgate_fetcher.Scheduler.Backoff.{wait_timeout-bounds}
use feedgate_fetcher.Scheduler.Ticks.{IsSound, tick_once-IsSound}
use feedgate_fetcher.Scheduler.Loop.{Turn, TickMetrics, LoopState, tick, after_tick, run}

-- all ticks so far, by their counters
abbrev pub ticks : TickMetrics → ℕ
ticks m = m.ok_total + m.error_total

module _ (c : FetchConfig) (claim : ClaimConfig) (p : 0 < c.intervals.broken_threshold) where
  tick-IsSound :
      (t : Turn) (w : World)
      → All (IsConsistent c.intervals.broken_threshold) w.feeds
      → IsSound c.intervals.broken_threshold w (tick c claim t w).1
  unfolding tick
  tick-IsSound t w h = elim (Option-cases t.trouble) [
    | inl e ↦ rw (e, tick) (tick_once-IsSound t.up c t.now p claim t.locked w h)
    | inr (x, e) ↦ rw (e, tick) (record { consistent = h; ids = refl })
  ]

  after_tick-world :
      (at : ℕ) (r : Result SchedulerTickResult × World) (s : LoopState)
      → ((after_tick c claim at r s).world ≡ r.1)
        × (ticks (after_tick c claim at r s).metrics ≡ ticks s.metrics + 1)
  unfolding after_tick
  after_tick-world at (ok result, w) s = (refl, omega arith)
  after_tick-world at (raise e, w) s = (refl, omega arith)

  -- what a run of the loop has come to
  pub record Ran (interval : ℕ) (s : LoopState) (r : List ℕ × LoopState) : Type 0 where
    pub sound : IsSound c.intervals.broken_threshold s.world r.1.world
    -- each tick is counted once, and followed by one wait
    pub counted : ticks r.1.metrics ≡ ticks s.metrics + length r.0
    pub waits : All (λ w. (interval ≤ w) × (w ≤ 300)) r.0

  -- If the broken threshold is positive, the interval is at most 300 seconds and every feed is
  -- consistent, then any run of the scheduler's loop keeps every feed consistent and the ids of
  -- the feeds as they are, even if claims and fetches fail; it counts each tick once, as ok or as
  -- an error, and waits once after each, for at least the interval and at most 300 seconds.
  pub run-Ran :
      (interval : ℕ) (stopped : Bool) (turns : List Turn) (s : LoopState)
      → interval ≤ 300
      → All (IsConsistent c.intervals.broken_threshold) (s.world).feeds
      → Ran interval s (run c claim interval stopped turns s)
  unfolding run
  run-Ran interval true turns s i h = record {
    sound = record { consistent = h; ids = refl };
    counted = omega arith;
    waits = tt;
  }
  run-Ran interval false [] s i h = record {
    sound = record { consistent = h; ids = refl };
    counted = omega arith;
    waits = tt;
  }
  run-Ran interval false (t ∷ turns) s i h =
      let n = c.intervals.broken_threshold in
      let r = tick c claim t s.world in
      let s' = after_tick c claim t.ended_at r s in
      let first = tick-IsSound t s.world h in
      let (world, counted) = after_tick-world t.ended_at r s in
      let rest =
        run-Ran interval t.stop_is_set turns s' i
          (subst (λ w. All (IsConsistent n) w.feeds) (sym world) first.consistent) in
      record {
        sound = record {
          consistent = rest.sound.consistent;
          ids = rest.sound.ids ∙ ap (λ w. map (λ feed. feed.id) w.feeds) world ∙ first.ids;
        };
        counted = omega (arith, rest.counted, counted);
        waits = (wait_timeout-bounds interval s'.consecutive_errors i, rest.waits);
      }
