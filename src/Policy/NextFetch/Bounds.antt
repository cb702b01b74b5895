-- ===== src/Policy/NextFetch/Bounds.antt =====
-- About `compute_next_fetch_at` of fetcher/policy.py: existence and range of the next fetch
-- time.
use feedgate_fetcher.Prelude.{
  ℕ, suc, ◌+◌, ◌-◌, ◌*◌, ◌≤◌, ◌<◌, min, max, ◌≡◌, ◌≢◌, ap, Option, some, arith,
}
use feedgate_fetcher.Prelude.Time.{second, max_instant, add_delta}
use feedgate_fetcher.Models.{Feed, broken}
use feedgate_fetcher.FeedState.{or_default}
use feedgate_fetcher.Exceptions.{ok, or_overflow}
use feedgate_fetcher.Policy.NextFetch.{
  Intervals, div_round, week, polling_interval, backoff_seconds, shift, compute_next_fetch_at,
}
use native.Mathlib.Nat.{pow-suc, div-add-mod}

pub div_round_lower : (a b : ℕ) → 0 < b → 2 * a ≤ 2 * (div_round a b * b) + b
unfolding div_round
div_round_lower a b h = grind (arith, div-add-mod a b)

pub div_round_upper : (a b : ℕ) → 0 < b → 2 * (div_round a b * b) ≤ 2 * a + b
unfolding div_round
div_round_upper a b h = grind (arith, div-add-mod a b)

mul_mono_left : {a b : ℕ} (k : ℕ) → a ≤ b → a * k ≤ k * b
mul_mono_left k h = grind arith

shift-eq-some :
    (now forward backward : ℕ)
    → backward ≤ now + forward
    → now + forward - backward ≤ max_instant
    → shift now forward backward ≡ some (now + forward - backward)
unfolding shift
shift-eq-some now forward backward h k = ground arith

backoff_seconds-le : (c : Intervals) (n : ℕ) → backoff_seconds c n ≤ c.broken_max_backoff_seconds
unfolding backoff_seconds
backoff_seconds-le c n = omega arith

module _ (c : Intervals) where
  polling_interval_bounds :
      (weekly : ℕ) {t : ℕ}
      → c.entry_frequency_min_interval_seconds ≤ c.entry_frequency_max_interval_seconds
      → 0 < weekly
      → polling_interval c weekly ≡ ok t
      → (c.entry_frequency_min_interval_seconds * second ≤ t)
        × (t ≤ c.entry_frequency_max_interval_seconds * second)
  unfolding polling_interval
  polling_interval_bounds weekly r w h = ground arith

  -- From the threshold on, one more failure doubles the backoff, up to the cap.
  pub backoff_seconds-suc :
      (n : ℕ)
      → c.broken_threshold ≤ n
      → backoff_seconds c (n + 1) ≡ min (2 * backoff_seconds c n) c.broken_max_backoff_seconds
  unfolding backoff_seconds
  backoff_seconds-suc n h =
      let e : n + 1 - c.broken_threshold ≡ suc (n - c.broken_threshold) = omega arith in
      rw (e, pow-suc) (grind arith)

  -- The polling interval of a feed with entries exists unless the factor is 0.
  polling_interval_total :
      (weekly : ℕ)
      → 0 < weekly * c.entry_frequency_factor
      → (t : ℕ) × (polling_interval c weekly ≡ ok t)
  unfolding polling_interval
  polling_interval_total weekly h = (
    max (c.entry_frequency_min_interval_seconds * second) (
        min (div_round week (weekly * c.entry_frequency_factor))
          (c.entry_frequency_max_interval_seconds * second)),
    grind arith,
  )

  module _ (feed : Feed) (now : ℕ) (draw : ℕ → ℕ) (hint : Option ℕ) where
    -- For a feed that is not broken, with at least one entry in the week and a factor that is not
    -- 0, if the shortest interval is not above the longest and the latest time to expect is within
    -- the calendar, then the next fetch time exists, and lies between the shortest and the longest
    -- interval from now, or the server's hint where that is longer.
    pub compute_next_fetch_at_frequency :
        (weekly : ℕ)
        → feed.status ≢ broken
        → 0 < weekly
        → 0 < weekly * c.entry_frequency_factor
        → c.entry_frequency_min_interval_seconds ≤ c.entry_frequency_max_interval_seconds
        → now + max c.entry_frequency_max_interval_seconds (or_default hint 0) * second
          ≤ max_instant
        → (t : ℕ) × (compute_next_fetch_at feed now c draw hint weekly ≡ ok t)
          × (now + max c.entry_frequency_min_interval_seconds (or_default hint 0) * second ≤ t)
          × (t ≤ now + max c.entry_frequency_max_interval_seconds (or_default hint 0) * second)
    unfolding compute_next_fetch_at
    compute_next_fetch_at_frequency weekly s w f r room =
        let (i, e) = polling_interval_total weekly f in
        let b = polling_interval_bounds weekly r w e in
        (now + max i (or_default hint 0 * second), ground arith, omega arith, omega arith)

    pub compute_next_fetch_at_base :
        feed.status ≢ broken
        → compute_next_fetch_at feed now c draw hint 0
          ≡ or_overflow (add_delta now (max c.base_interval_seconds (or_default hint 0) * second))
    unfolding compute_next_fetch_at polling_interval
    compute_next_fetch_at_base s = ground arith

    -- For a broken feed, if the random draws are in their range, the jitter ratio is at most 1 and
    -- the calendar has room for twice the cap, then the next fetch time exists, and is the capped
    -- backoff from now, give or take the jitter's share of it.
    pub compute_next_fetch_at_backoff :
        (weekly : ℕ)
        → feed.status ≡ broken
        → ((s : ℕ) → draw s ≤ 2 * s)
        → c.backoff_jitter_millionths ≤ second
        → now + 2 * c.broken_max_backoff_seconds * second ≤ max_instant
        → let capped = backoff_seconds c feed.consecutive_failures in
          let jitter_span = c.backoff_jitter_millionths * capped in
          (t : ℕ) × (compute_next_fetch_at feed now c draw hint weekly ≡ ok t)
          × (now + capped * second ≤ t + jitter_span)
          × (t ≤ now + capped * second + jitter_span)
    unfolding compute_next_fetch_at
    compute_next_fetch_at_backoff weekly s d j room =
        let capped = backoff_seconds c feed.consecutive_failures in
        let jitter_span = c.backoff_jitter_millionths * capped in
        let cap = backoff_seconds-le c feed.consecutive_failures in
        let small = mul_mono_left capped j in
        (
          now + (capped * second + draw jitter_span) - jitter_span,
          rw s (
              ap or_overflow (
                shift-eq-some now (capped * second + draw jitter_span) jitter_span (omega arith)
                  (omega (arith, d jitter_span)))),
          omega arith,
          omega (arith, d jitter_span),
        )
