-- ===== src/Metrics/Gauges.antt =====
-- About the gauges of metrics.py.
use feedgate_fetcher.Prelude.{
  ℕ, ◌+◌, ◌-◌, ◌*◌, ◌≤◌, ◌≡◌, refl, ap, sym, ◌∙◌, Option, none, some, List, [], ◌∷◌, map, Bool,
  true, ◌&&◌, ltb, max, if◌then◌else◌, filter, length, count, arith, Bool-cases, inl, inr,
}
use feedgate_fetcher.Prelude.Time.{second, day, sub_delta-eq-some}
use feedgate_fetcher.Exceptions.{ok}
use feedgate_fetcher.Models.{Feed, Entry, active, broken, dead, status_eq}
use feedgate_fetcher.Scheduler.{is_due}
use feedgate_fetcher.Metrics.{
  StateGauges, Pool, count_status, is_due_now, active_reference, older, oldest, age_of, is_active,
  max_age, stale_count, set_counts, set_pool, collect_state,
}

-- the greatest of the ages
abbrev greatest_age : ℕ → List Feed → ℕ
greatest_age now [] = 0
greatest_age now (feed ∷ feeds) =
    let rest = greatest_age now feeds in
    if is_active feed then max (now - active_reference feed) rest else rest

age_of-older : (now t : ℕ) (o : Option ℕ) → age_of now (older t o) ≡ max (now - t) (age_of now o)
age_of-older now t none = ground arith
age_of-older now t (some u) = ground arith

-- The age of the oldest success of an active feed is the greatest of the ages of active feeds, counted
-- from the last success or else from the creation; it is 0 without active feeds, and a time in the
-- future counts as age 0.
max_age-greatest : (now : ℕ) (feeds : List Feed) → max_age now feeds ≡ greatest_age now feeds
unfolding max_age oldest filter
max_age-greatest now [] = refl
max_age-greatest now (feed ∷ feeds) = elim (Bool-cases (is_active feed)) [
  | inl e ↦ rw e (
      age_of-older now (active_reference feed)
        (oldest (map active_reference (filter is_active feeds)))
      ∙ ap (max (now - active_reference feed)) (max_age-greatest now feeds))
  | inr e ↦ rw e (max_age-greatest now feeds)
]

count-le {ℓ} :
    {A : Type ℓ} (p q : A → Bool) (xs : List A)
    → ((x : A) → p x ≡ true → q x ≡ true)
    → count p xs ≤ count q xs
count-le p q [] h = omega arith
count-le p q (x ∷ xs) h = elim (Bool-cases (p x)) [
  | inl e ↦ rw (e, h x e) (omega (arith, count-le p q xs h))
  | inr e ↦ rw e (ground (arith, count-le p q xs h))
]

-- The three statuses count every feed once.
statuses-total :
    (feeds : List Feed)
    → count_status active feeds + (count_status broken feeds + count_status dead feeds)
      ≡ length feeds
unfolding count_status
statuses-total [] = omega arith
statuses-total (feed ∷ feeds) = ground (arith, statuses-total feeds)

-- the due gauge and the dead feeds that are due for a probe, against the predicate of a claim
due-split :
    (now cutoff : ℕ) (feeds : List Feed)
    → count (is_due now cutoff) feeds
      ≡ count (is_due_now now) feeds
        + count (λ feed. status_eq feed.status dead && is_due now cutoff feed) feeds
unfolding is_due is_due_now
due-split now cutoff [] = omega arith
due-split now cutoff (feed ∷ feeds) = ground (arith, due-split now cutoff feeds)

abbrev is_stale : ℕ → ℕ → Feed → Bool
is_stale now age feed = is_active feed && ltb (active_reference feed) (now - age)

-- a feed is stale for a threshold exactly when the greatest age is above it
stale-age :
    (now age : ℕ) (feeds : List Feed)
    → age ≤ now
    → ltb 0 (count (is_stale now age) feeds) ≡ ltb age (greatest_age now feeds)
stale-age now age [] h = ground arith
stale-age now age (feed ∷ feeds) h = ground (arith, stale-age now age feeds h)

stale-le :
    (now age later : ℕ) (feeds : List Feed)
    → age ≤ later
    → count (is_stale now later) feeds ≤ count (is_stale now age) feeds
stale-le now age later feeds h =
    count-le (is_stale now later) (is_stale now age) feeds (λ feed e. ground (arith, e))

stale_count-eq :
    (now threshold : ℕ) (feeds : List Feed)
    → threshold * second ≤ now
    → stale_count now threshold feeds ≡ ok (count (is_stale now (threshold * second)) feeds)
unfolding stale_count
stale_count-eq now threshold feeds h = rw (sub_delta-eq-some now (threshold * second) h) refl

-- What the gauges say of the tables at an instant.
pub record IsCoherent (now cutoff : ℕ) (pool : Pool) (feeds : List Feed) (entries : List Entry)
    (g : StateGauges) : Type 0 where
  pub statuses : g.active_total + (g.broken_total + g.dead_total) ≡ length feeds
  pub entries_total : g.entries_total ≡ length entries
  -- the feeds that a claim would find due, but for the dead ones that are due for a probe
  pub due :
      g.due_feeds + count (λ feed. status_eq feed.status dead && is_due now cutoff feed) feeds
      ≡ count (is_due now cutoff) feeds
  pub age : g.active_feed_max_age ≡ greatest_age now feeds
  -- a threshold is exceeded by some feed exactly when it is by the greatest age
  pub exceeds_1800 : ltb 0 g.stale_1800 ≡ ltb (1800 * second) g.active_feed_max_age
  pub exceeds_3600 : ltb 0 g.stale_3600 ≡ ltb (3600 * second) g.active_feed_max_age
  pub exceeds_86400 : ltb 0 g.stale_86400 ≡ ltb (86400 * second) g.active_feed_max_age
  pub nested : (g.stale_86400 ≤ g.stale_3600) × (g.stale_3600 ≤ g.stale_1800)
  pub overflow : g.pool_checkedout ≤ pool.size + g.pool_overflow

module _ (now cutoff : ℕ) (pool : Pool) (feeds : List Feed) (entries : List Entry) (g : StateGauges)
    (late : day ≤ now) where
  abbrev stale : ℕ → ℕ
  stale threshold = count (is_stale now (threshold * second)) feeds

  collect_state-eq : collect_state now pool feeds entries g ≡ (
    ok tt,
    set_pool pool (record (set_counts now feeds entries g) {
      stale_1800 = stale 1800;
      stale_3600 = stale 3600;
      stale_86400 = stale 86400;
    }),
  )
  unfolding collect_state
  collect_state-eq =
      rw
        (
          collect_state,
          stale_count-eq now 1800 feeds (omega (arith, late)),
          stale_count-eq now 3600 feeds (omega (arith, late)),
          stale_count-eq now 86400 feeds (omega (arith, late)),
        )
        refl

  -- A collection at least a day after the first instant succeeds, and its gauges agree with the
  -- tables and with one another: the statuses add up to the number of feeds, the due feeds are
  -- those of a claim but for dead ones, the age is the greatest of an active feed, a threshold has
  -- stale feeds exactly when that age is above it, and longer thresholds have no more of them than
  -- shorter ones.
  pub collect_state-IsCoherent :
      ((collect_state now pool feeds entries g).0 ≡ ok tt)
      × IsCoherent now cutoff pool feeds entries (collect_state now pool feeds entries g).1
  unfolding set_counts set_pool
  collect_state-IsCoherent = rw collect_state-eq (
    refl,
    record {
      statuses = statuses-total feeds;
      entries_total = refl;
      due = sym (due-split now cutoff feeds);
      age = max_age-greatest now feeds;
      exceeds_1800 =
          rw (max_age-greatest now feeds)
            (stale-age now (1800 * second) feeds (omega (arith, late)));
      exceeds_3600 =
          rw (max_age-greatest now feeds)
            (stale-age now (3600 * second) feeds (omega (arith, late)));
      exceeds_86400 =
          rw (max_age-greatest now feeds)
            (stale-age now (86400 * second) feeds (omega (arith, late)));
      nested = (
        stale-le now (3600 * second) (86400 * second) feeds (omega arith),
        stale-le now (1800 * second) (3600 * second) feeds (omega arith),
      );
      overflow = omega arith;
    },
  )
