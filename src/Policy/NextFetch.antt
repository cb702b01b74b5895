-- ===== src/Policy/NextFetch.antt =====
-- `compute_next_fetch_at` of fetcher/policy.py. Seconds become microseconds: the float quotient is
-- the exact quotient rounded to the nearest microsecond, half to even, as `timedelta` rounds.
-- The jitter ratio is in millionths. `random.uniform(-s, s)` is `draw s - s`, where `draw` is a
-- parameter that yields a number up to `2 * s`.
pub mod Bounds
pub mod Monotone
use feedgate_fetcher.Prelude.{
  ℕ, ◌+◌, ◌-◌, ◌*◌, ◌/◌, ◌%◌, ◌^◌, ◌≤◌, min, max, Option, none, some, ltb, leb, ◌==◌, if◌then◌else◌,
}
use feedgate_fetcher.Prelude.Time.{second, max_instant, add_delta}
use feedgate_fetcher.Models.{Feed, FeedStatus, broken, active, dead}
use feedgate_fetcher.FeedState.{or_default}
use feedgate_fetcher.Exceptions.{Result, ok, raise, fresh, zero_division_error, or_overflow}

-- The keyword arguments that come from the settings.
pub record Intervals : Type 0 where
  pub base_interval_seconds : ℕ
  pub broken_threshold : ℕ
  pub broken_max_backoff_seconds : ℕ
  pub backoff_jitter_millionths : ℕ
  pub entry_frequency_min_interval_seconds : ℕ
  pub entry_frequency_max_interval_seconds : ℕ
  pub entry_frequency_factor : ℕ

-- a / b to the nearest whole number, half to even
unfoldable pub div_round : ℕ → ℕ → ℕ
div_round a b =
    let q = a / b in
    let r = a % b in if ltb (2 * r) b then q else if ltb b (2 * r) then q + 1 else q + q % 2

abbrev pub week : ℕ
week = 7 * 24 * 3600 * second

-- `computed`, in microseconds
unfoldable pub polling_interval : Intervals → ℕ → Result ℕ
unfolding div_round
polling_interval c weekly_entry_count =
    if ltb 0 weekly_entry_count
    then (if weekly_entry_count * c.entry_frequency_factor == 0
        then raise (fresh zero_division_error)
        else ok (
            max (c.entry_frequency_min_interval_seconds * second) (
              min (div_round week (weekly_entry_count * c.entry_frequency_factor))
                (c.entry_frequency_max_interval_seconds * second))))
    else ok (c.base_interval_seconds * second)

-- `capped`, in seconds
unfoldable pub backoff_seconds : Intervals → ℕ → ℕ
backoff_seconds c consecutive_failures =
    min (c.base_interval_seconds * 2 ^ (consecutive_failures - c.broken_threshold))
      c.broken_max_backoff_seconds

-- `now + timedelta(seconds=capped + jitter)`, the jitter being `offset - span`
unfoldable pub shift : ℕ → ℕ → ℕ → Option ℕ
unfolding add_delta
shift now forward backward =
    if leb backward (now + forward) then add_delta (now + forward - backward) 0 else none

unfoldable pub active_next : Intervals → ℕ → Option ℕ → ℕ → Result ℕ
unfolding polling_interval add_delta
active_next c now server_hint_seconds weekly_entry_count =
    elim (polling_interval c weekly_entry_count) [
      | ok computed ↦
          or_overflow (add_delta now (max computed (or_default server_hint_seconds 0 * second)))
      | raise e ↦ raise e
    ]

unfoldable pub broken_next : Intervals → (ℕ → ℕ) → ℕ → ℕ → Result ℕ
unfolding backoff_seconds shift
broken_next c draw now consecutive_failures =
    let capped = backoff_seconds c consecutive_failures in
    let jitter_span = c.backoff_jitter_millionths * capped in
    or_overflow (shift now (capped * second + draw jitter_span) jitter_span)

abbrev pub by_status {ℓ} : {A : Type ℓ} → FeedStatus → A → A → A
by_status broken x y = x
by_status active x y = y
by_status dead x y = y

unfoldable pub compute_next_fetch_at : Feed → ℕ → Intervals → (ℕ → ℕ) → Option ℕ → ℕ → Result ℕ
unfolding active_next broken_next
compute_next_fetch_at feed now c draw server_hint_seconds weekly_entry_count =
    by_status feed.status (broken_next c draw now feed.consecutive_failures)
      (active_next c now server_hint_seconds weekly_entry_count)
