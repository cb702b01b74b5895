-- ===== src/Policy/NextFetch/Monotone.antt =====
-- About `compute_next_fetch_at` of fetcher/policy.py, for different counts of entries.
use feedgate_fetcher.Prelude.{
  ℕ, suc, ◌+◌, ◌*◌, ◌≤◌, ◌<◌, max, ◌≡◌, ◌≢◌, Option, refl, sym, ◌∙◌, inl, inr, arith,
}
use feedgate_fetcher.Prelude.Time.{second, add_delta}
use feedgate_fetcher.Models.{Feed, FeedStatus, active, broken, dead}
use feedgate_fetcher.Exceptions.{ok, or_overflow, Result-split}
use feedgate_fetcher.FeedState.{or_default}
use feedgate_fetcher.Policy.NextFetch.{
  Intervals, div_round, week, polling_interval, active_next, broken_next, by_status,
  compute_next_fetch_at,
}
use feedgate_fetcher.Policy.NextFetch.Bounds.{div_round_lower, div_round_upper}
use native.Mathlib.Decide.{dec_lt}

-- Two candidates q for a / b and q' for a / b' that are too far apart.
quotient_gap :
    (a b b' q q' : ℕ)
    → b < b'
    → 2 * a ≤ 2 * (q * b) + b
    → 2 * (q' * b') ≤ 2 * a + b'
    → q < q'
    → (suc q) * b' ≤ q' * b'
quotient_gap a b b' q q' l h k g = grind arith

quotient_step : (b b' q : ℕ) → b < b' → 2 * (q * b) + b < 2 * (q * b') + b'
quotient_step b b' q l = grind arith

div_round_antitone_lt : (a b b' : ℕ) → 0 < b → b < b' → div_round a b' ≤ div_round a b
div_round_antitone_lt a b b' p l = elim (dec_lt (div_round a b) (div_round a b')) [
  | no h ↦ omega arith
  | yes h ↦ absurd (
      omega (
        arith,
        quotient_gap a b b' (div_round a b) (div_round a b') l (div_round_lower a b p)
            (div_round_upper a b' (omega arith)) h,
        quotient_step b b' (div_round a b) l,
        div_round_lower a b p,
        div_round_upper a b' (omega arith),
      ))
]

div_round_antitone : (a b b' : ℕ) → 0 < b → b ≤ b' → div_round a b' ≤ div_round a b
div_round_antitone a b b' p l = elim (dec_lt b b') [
  | yes h ↦ div_round_antitone_lt a b b' p h
  | no h ↦ let e : b' ≡ b = omega arith in ground arith
]

times_mono : (f : ℕ) {w w' : ℕ} → w ≤ w' → w * f ≤ w' * f
times_mono f h = grind arith

module _ (c : Intervals) where
  polling_interval_antitone :
      (weekly weekly' : ℕ) {t t' : ℕ}
      → 0 < weekly
      → weekly ≤ weekly'
      → polling_interval c weekly ≡ ok t
      → polling_interval c weekly' ≡ ok t'
      → t' ≤ t
  unfolding polling_interval
  polling_interval_antitone weekly weekly' p l h k = ground (
    arith,
    times_mono c.entry_frequency_factor l,
    div_round_antitone week (weekly * c.entry_frequency_factor)
        (weekly' * c.entry_frequency_factor),
  )

  add_delta_mono :
      (now a b : ℕ) {t t' : ℕ}
      → b ≤ a
      → or_overflow (add_delta now a) ≡ ok t
      → or_overflow (add_delta now b) ≡ ok t'
      → t' ≤ t
  unfolding add_delta
  add_delta_mono now a b l h k = ground arith

  active_next_antitone :
      (now weekly weekly' : ℕ) (hint : Option ℕ) {t t' : ℕ}
      → 0 < weekly
      → weekly ≤ weekly'
      → active_next c now hint weekly ≡ ok t
      → active_next c now hint weekly' ≡ ok t'
      → t' ≤ t
  unfolding active_next
  active_next_antitone now weekly weekly' hint p l h k =
      elim (Result-split (polling_interval c weekly)) [
        | inr (e, f) ↦ cc
        | inl (i, f) ↦ elim (Result-split (polling_interval c weekly')) [
          | inr (e, g) ↦ cc
          | inl (i', g) ↦
              let m = polling_interval_antitone weekly weekly' p l f g in
              add_delta_mono now (max i (or_default hint 0 * second))
                (max i' (or_default hint 0 * second)) (omega arith)
                (sym (rw (f, active_next) refl) ∙ h) (sym (rw (g, active_next) refl) ∙ k)
        ]
      ]

  module _ (feed : Feed) (now : ℕ) (draw : ℕ → ℕ) (hint : Option ℕ) where
    compute_next_fetch_at-active :
        (weekly : ℕ)
        → feed.status ≢ broken
        → compute_next_fetch_at feed now c draw hint weekly ≡ active_next c now hint weekly
    unfolding compute_next_fetch_at
    compute_next_fetch_at-active weekly s = by_status-active feed.status s
      where
        by_status-active :
            (st : FeedStatus)
            → st ≢ broken
            → by_status st
                (broken_next c draw now feed.consecutive_failures)
                (active_next c now hint weekly)
              ≡ active_next c now hint weekly
        by_status-active active s = refl
        by_status-active broken s = absurd (s refl)
        by_status-active dead s = refl

    -- Of a feed that is not broken and has entries in the week, a larger count of them never puts
    -- the next fetch later: where both times can be computed, the one for the larger count is not
    -- after the other.
    pub compute_next_fetch_at_antitone :
        (weekly weekly' : ℕ) {t t' : ℕ}
        → feed.status ≢ broken
        → 0 < weekly
        → weekly ≤ weekly'
        → compute_next_fetch_at feed now c draw hint weekly ≡ ok t
        → compute_next_fetch_at feed now c draw hint weekly' ≡ ok t'
        → t' ≤ t
    compute_next_fetch_at_antitone weekly weekly' s p l h k =
        active_next_antitone now weekly weekly' hint p l
          (sym (compute_next_fetch_at-active weekly s) ∙ h)
          (sym (compute_next_fetch_at-active weekly' s) ∙ k)
