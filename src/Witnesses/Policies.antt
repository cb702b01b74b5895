-- ===== src/Witnesses/Policies.antt =====
-- The schedule and the headers at concrete inputs.
use feedgate_fetcher.Prelude.{
  ℕ, ◌*◌, ◌+◌, ◌≤◌, ◌≡◌, refl, if◌then◌else◌, none, some, [], ◌∷◌, length, false, All, ◌==◌, arith,
}
use feedgate_fetcher.Prelude.Time.{second, add_delta}
use feedgate_fetcher.Prelude.Texts.{codes, strip, join}
use feedgate_fetcher.Prelude.Ints.{decimal, nonneg_int, max_str_digits}
use text.Mathlib.Text.{◌==◌ as str_eq}
use feedgate_fetcher.Exceptions.{Exc, ok, chained, fresh, connect_error, ssl_error}
use feedgate_fetcher.Policy.NextFetch.{
  polling_interval, active_next, div_round, compute_next_fetch_at,
}
use feedgate_fetcher.Policy.NextFetch.Bounds.{compute_next_fetch_at_frequency}
use feedgate_fetcher.Policy.Headers.{DateRead, Headers, or_empty, max_age, parse_cache_hint}
use feedgate_fetcher.Policy.Headers.Delays.{parse_cache_hint-max_age, max_age_text}
use feedgate_fetcher.Witnesses.Data.{today, feed, intervals}

-- seven entries a week, and a hint of ten minutes
compute_next_fetch_at_frequency_example :
    (t : ℕ) × (compute_next_fetch_at feed today intervals (λ s. s) (some 600) 7 ≡ ok t)
    × (today + 600 * second ≤ t)
    × (t ≤ today + 86_400 * second)
compute_next_fetch_at_frequency_example =
    compute_next_fetch_at_frequency intervals feed today (λ s. s) (some 600) 7 (λ e. cc)
      (omega arith) (omega arith) (omega arith) (omega arith)

-- five failures, two above the threshold: 240 seconds, and up to a quarter more or less
-- one entry a week, and then fourteen
one_a_week :
    compute_next_fetch_at feed today intervals (λ s. s) none 1 ≡ ok (today + 86_400 * second)
unfolding compute_next_fetch_at active_next polling_interval div_round add_delta
one_a_week = refl

two_a_day :
    compute_next_fetch_at feed today intervals (λ s. s) none 14 ≡ ok (today + 21_600 * second)
unfolding compute_next_fetch_at active_next polling_interval div_round add_delta
two_a_day = refl

not_a_number : nonneg_int (strip (codes "later")) ≡ none
unfolding nonneg_int
not_a_number = refl

abbrev cached : Headers
cached name = if str_eq name "cache-control" then some "public,max-age=90" else none

cached_text :
    codes (or_empty (cached "cache-control")) ≡ join b',' (codes "public") (max_age_text 90 ∷ [])
unfolding join decimal
cached_text = refl

no_commas : All (λ s. All (λ c. (c == b',') ≡ false) s) (codes "public" ∷ max_age_text 90 ∷ [])
unfolding decimal
no_commas = (
  (refl, (refl, (refl, (refl, (refl, (refl, tt)))))),
  ((refl, (refl, (refl, (refl, (refl, (refl, (refl, (refl, (refl, (refl, tt)))))))))), tt),
)

no_age_before : All (λ p. max_age p ≡ none) (codes "public" ∷ [])
unfolding max_age
no_age_before = (refl, tt)

short : length (decimal 90) ≤ max_str_digits
unfolding decimal
short = omega arith

parse_cache_hint-max_age_example :
    parse_cache_hint (λ text. DateRead.unreadable) cached today ≡ ok (some 90)
parse_cache_hint-max_age_example =
    parse_cache_hint-max_age (λ text. DateRead.unreadable) today cached (codes "public" ∷ []) [] 90
      (codes "public") (max_age_text 90 ∷ []) refl cached_text no_commas no_age_before short

abbrev refused : Exc
refused = chained connect_error (fresh ssl_error)
