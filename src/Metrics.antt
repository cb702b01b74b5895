-- ===== src/Metrics.antt =====
-- metrics.py: the background collector and the gauges that it sets. Gauges of time are microseconds
-- here. The queries of `_collect_state` see one state of the tables; a query that fails is the answer of a
-- cycle that `run_collector` takes as its argument.
pub mod Gauges
use feedgate_fetcher.Prelude.{
  ℕ, ◌+◌, ◌-◌, ◌*◌, Option, none, some, List, [], ◌∷◌, map, Bool, ◌&&◌, not, leb, ltb, min,
  if◌then◌else◌, filter, length, count,
}
use feedgate_fetcher.Prelude.Time.{second, sub_delta}
use feedgate_fetcher.Exceptions.{Result, ok, raise, or_overflow, ◌>>=◌}
use feedgate_fetcher.Models.{Feed, Entry, FeedStatus, active, broken, dead, status_eq}
use feedgate_fetcher.FeedState.{or_default}

pub record StateGauges : Type 0 where
  -- `feedgate_feeds_total` by status
  pub active_total : ℕ
  pub broken_total : ℕ
  pub dead_total : ℕ
  pub entries_total : ℕ
  pub due_feeds : ℕ
  pub active_feed_max_age : ℕ
  -- `feedgate_active_feeds_stale_total` for 1800, 3600 and 86400 seconds
  pub stale_1800 : ℕ
  pub stale_3600 : ℕ
  pub stale_86400 : ℕ
  pub pool_checkedout : ℕ
  pub pool_overflow : ℕ
  pub collector_last_success : Option ℕ
  pub collector_errors : ℕ

-- what the connection pool says of itself
pub record Pool : Type 0 where
  pub checkedout : ℕ
  pub size : ℕ

-- select(func.count()).where(Feed.status == status)
unfoldable pub count_status : FeedStatus → List Feed → ℕ
count_status status feeds = count (λ feed. status_eq feed.status status) feeds

unfoldable pub is_due_now : ℕ → Feed → Bool
is_due_now now feed = not (status_eq feed.status dead) && leb feed.next_fetch_at now

-- `func.coalesce(Feed.last_successful_fetch_at, Feed.created_at)`
abbrev pub active_reference : Feed → ℕ
active_reference feed = or_default feed.last_successful_fetch_at feed.created_at

abbrev pub older : ℕ → Option ℕ → Option ℕ
older t none = some t
older t (some u) = some (min t u)

-- `func.min`: NULL of no rows
unfoldable pub oldest : List ℕ → Option ℕ
oldest [] = none
oldest (t ∷ ts) = older t (oldest ts)

-- what the gauge shows of the oldest reference; `max(0.0, ...)` of a difference is one that stops at 0
abbrev pub age_of : ℕ → Option ℕ → ℕ
age_of now none = 0
age_of now (some reference) = now - reference

abbrev pub is_active : Feed → Bool
is_active feed = status_eq feed.status active

unfoldable pub max_age : ℕ → List Feed → ℕ
unfolding oldest filter
max_age now feeds = age_of now (oldest (map active_reference (filter is_active feeds)))

-- the count for one threshold; the subtraction may leave the calendar
unfoldable pub stale_count : ℕ → ℕ → List Feed → Result ℕ
stale_count now threshold_seconds feeds = do
  limit ← or_overflow (sub_delta now (threshold_seconds * second))
  ok (count (λ feed. is_active feed && ltb (active_reference feed) limit) feeds)

-- the gauges that are set before the loop over the thresholds
unfoldable pub set_counts : ℕ → List Feed → List Entry → StateGauges → StateGauges
unfolding count_status is_due_now max_age
set_counts now feeds entries g = record g {
  active_total = count_status active feeds;
  broken_total = count_status broken feeds;
  dead_total = count_status dead feeds;
  entries_total = length entries;
  due_feeds = count (is_due_now now) feeds;
  active_feed_max_age = max_age now feeds;
}

unfoldable pub set_pool : Pool → StateGauges → StateGauges
set_pool pool g = record g {
  pool_checkedout = pool.checkedout;
  pool_overflow = pool.checkedout - pool.size;
}

-- `_collect_state`: what was set stays set where it raises
unfoldable pub collect_state :
    ℕ → Pool → List Feed → List Entry → StateGauges → Result (Unit {0}) × StateGauges
unfolding set_counts stale_count set_pool
collect_state now pool feeds entries g =
    let counted = set_counts now feeds entries g in
    elim (stale_count now 1800 feeds) [
      | raise e ↦ (raise e, counted)
      | ok first ↦ elim (stale_count now 3600 feeds) [
        | raise e ↦ (raise e, record counted { stale_1800 = first })
        | ok second_count ↦ elim (stale_count now 86400 feeds) [
          | raise e ↦ (raise e, record counted { stale_1800 = first; stale_3600 = second_count })
          | ok third ↦ (
            ok tt,
            set_pool pool (record counted {
              stale_1800 = first;
              stale_3600 = second_count;
              stale_86400 = third;
            }),
          )
        ]
      ]
    ]

-- one round of the loop of `run_collector`, at the time that it ends
unfoldable pub settle_cycle : ℕ → Result (Unit {0}) × StateGauges → StateGauges
settle_cycle time (ok _, g) = record g { collector_last_success = some time }
settle_cycle time (raise e, g) = record g { collector_errors = g.collector_errors + 1 }

-- the rounds of the loop until it is stopped: the time of each, and what its queries do
unfoldable pub run_collector :
    List (ℕ × (StateGauges → Result (Unit {0}) × StateGauges)) → StateGauges → StateGauges
unfolding settle_cycle
run_collector [] g = g
run_collector ((time, collect) ∷ cycles) g = run_collector cycles (settle_cycle time (collect g))
