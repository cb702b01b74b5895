-- ===== src/App/Drains.antt =====
-- About the budget of a shutdown in main.py against the length of a tick of fetcher/scheduler.py.
use feedgate_fetcher.Prelude.{
  ℕ, ◌*◌, ◌≤◌, ◌<◌, ◌≡◌, refl, some, List, true, length, All, le→leb, arith,
}
use feedgate_fetcher.Scheduler.Permits.{gather_time}
use feedgate_fetcher.Scheduler.Permits.Makespan.{gather_time_le}
use feedgate_fetcher.App.{returned, clean, drain_background_task, Ending}
use mathlib.Core.Option.{Option}

-- If there is at least one permit, no job of a tick takes longer than some time, and so many
-- rounds of permits are enough for the jobs, then the tick ends within that many of these times;
-- and a drain whose budget is no less lets it end by itself, without a cancellation.
pub drain-gather_time :
    (fetch_concurrency r longest drain : ℕ) (durations : List ℕ) (on_cancel : Option Ending)
    → 0 < fetch_concurrency
    → All (λ d. d ≤ longest) durations
    → length durations ≤ r * fetch_concurrency
    → r * longest ≤ drain
    → (end : ℕ) × (gather_time fetch_concurrency durations ≡ some end)
      × (end ≤ r * longest)
      × (drain_background_task
            (some (record { finish = some (end, returned); on_cancel = on_cancel }))
            drain
          ≡ (true, clean end))
unfolding drain_background_task
drain-gather_time k r longest drain durations on_cancel p d n h =
    let (end, e, b) = gather_time_le k r longest durations p d n in
    (end, e, b, rw (le→leb end drain (omega (arith, b, h))) refl)
