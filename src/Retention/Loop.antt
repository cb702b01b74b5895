-- ===== src/Retention/Loop.antt =====
-- About `tick_once` and `run` of fetcher/retention.py.
use feedgate_fetcher.Prelude.{
  ℕ, ◌+◌, ◌*◌, ◌≤◌, ◌≡◌, refl, ◌∙◌, Option, none, some, List, [], ◌∷◌, length, All, Option-cases,
  inl, inr, arith,
}
use feedgate_fetcher.Prelude.Time.{day, sub_delta}
use feedgate_fetcher.Exceptions.{Exc}
use feedgate_fetcher.Scheduler.{next_errors, wait_timeout}
use feedgate_fetcher.Retention.{RetentionConfig, Swept, tick_once, has_raised, run}
use feedgate_fetcher.Retention.Kept.{sweep-length}

-- rows that are there and rows that were counted as deleted
abbrev accounted : Swept → ℕ
accounted s = s.deleted_total + length s.rows

module _ (c : RetentionConfig) where
  tick_once-accounted :
      (now : ℕ) (trouble : Option Exc) (s : Swept)
      → accounted (tick_once c now trouble s).1 ≡ accounted s
  unfolding tick_once
  tick_once-accounted now trouble s = elim (Option-cases (sub_delta now (c.retention_days * day))) [
    | inl e ↦ rw (e, tick_once) refl
    | inr (cutoff, e) ↦ with_cutoff cutoff e trouble
  ]
    where
      with_cutoff :
          (cutoff : ℕ)
          → sub_delta now (c.retention_days * day) ≡ some cutoff
          → (trouble : Option Exc) → accounted (tick_once c now trouble s).1 ≡ accounted s
      with_cutoff cutoff e (some x) = rw (e, tick_once) refl
      with_cutoff cutoff e none =
          rw (e, tick_once)
            (omega
              (arith, sweep-length cutoff c.retention_min_per_feed c.retention_batch_size s.rows))

  -- Through any run of the sweeper's loop, with ticks that raise among them, the rows that are
  -- left and the rows that were counted as deleted add up to the same number.
  pub run_accounted :
      (interval consecutive_errors : ℕ) (ticks : List (ℕ × Option Exc)) (s : Swept)
      → (run c interval consecutive_errors ticks s).1.deleted_total
          + length (run c interval consecutive_errors ticks s).1.rows
        ≡ s.deleted_total + length s.rows
  unfolding run
  run_accounted interval consecutive_errors [] s = refl
  run_accounted interval consecutive_errors ((now, trouble) ∷ ticks) s =
      let t = tick_once c now trouble s in
      run_accounted interval (next_errors (has_raised t.0) consecutive_errors) ticks t.1
      ∙ tick_once-accounted now trouble s

  -- an interval of five minutes at least leaves nothing of the backoff
  wait_timeout_long : (interval n : ℕ) → 300 ≤ interval → wait_timeout interval n ≤ interval
  unfolding wait_timeout
  wait_timeout_long interval n h = ground arith

  pub run-waits_long :
      (interval consecutive_errors : ℕ) (ticks : List (ℕ × Option Exc)) (s : Swept)
      → 300 ≤ interval
      → All (λ wait. wait ≤ interval) (run c interval consecutive_errors ticks s).0
  unfolding run
  run-waits_long interval consecutive_errors [] s h = tt
  run-waits_long interval consecutive_errors ((now, trouble) ∷ ticks) s h =
      let t = tick_once c now trouble s in
      let n = next_errors (has_raised t.0) consecutive_errors in
      (wait_timeout_long interval n h, run-waits_long interval n ticks t.1 h)
