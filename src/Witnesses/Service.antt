-- ===== src/Witnesses/Service.antt =====
-- The collector, the sweeper, a request and a shutdown at concrete inputs.
use feedgate_fetcher.Prelude.{
  String, ◌++◌, ℕ, ◌*◌, ◌+◌, ◌≤◌, ◌<◌, ◌≡◌, refl, none, some, Option, List, [], ◌∷◌, true, All,
  arith,
}
use feedgate_fetcher.Prelude.Time.{day, second}
use feedgate_fetcher.Exceptions.{Exc, ok, fresh, other}
use feedgate_fetcher.Models.{Feed, Entry}
use feedgate_fetcher.Metrics.{StateGauges, Pool, collect_state}
use feedgate_fetcher.Metrics.Gauges.{IsCoherent, collect_state-IsCoherent}
use feedgate_fetcher.Retention.{RetentionConfig, Swept, is_kept, sweep, sweeps}
use feedgate_fetcher.Retention.Settled.{again, sweeps_settle}
use feedgate_fetcher.Api.Http.{Reply}
use feedgate_fetcher.Api.Feeds.{Database, create_feed, new_feed, checked_url}
use feedgate_fetcher.Seeding.{Service, feed_create, Tally, seed, exit_code}
use feedgate_fetcher.Seeding.Twice.{IsAccepted, seed_twice}
use feedgate_fetcher.Config.{default_settings}
use feedgate_fetcher.Config.Wiring.{lifespan_config}
use feedgate_fetcher.App.{Task, returned, cancelled, shutdown}
use feedgate_fetcher.App.Shutdown.{IsCooperative, shutdown_ends}
use feedgate_fetcher.Witnesses.Data.{today, feed, broken_feed, row, second_row, third_row, network}
use feedgate_fetcher.Witnesses.Registry.{rules}
use feedgate_fetcher.Witnesses.Api.{db}

abbrev gauges : StateGauges
gauges = record {
  active_total = 0;
  broken_total = 0;
  dead_total = 0;
  entries_total = 0;
  due_feeds = 0;
  active_feed_max_age = 0;
  stale_1800 = 0;
  stale_3600 = 0;
  stale_86400 = 0;
  pool_checkedout = 0;
  pool_overflow = 0;
  collector_last_success = none;
  collector_errors = 0;
}

abbrev pool : Pool
pool = record { checkedout = 9; size = 8 }

abbrev feeds : List Feed
feeds = feed ∷ record broken_feed { id = 2 } ∷ []

collect_state-IsCoherent_example :
    ((collect_state today pool feeds (row ∷ []) gauges).0 ≡ ok tt)
    × IsCoherent today
        (93 * day)
        pool
        feeds
        (row ∷ [])
        (collect_state today pool feeds (row ∷ []) gauges).1
collect_state-IsCoherent_example =
    collect_state-IsCoherent today (93 * day) pool feeds (row ∷ []) gauges (omega arith)

abbrev rows : List Entry
rows = row ∷ second_row ∷ third_row ∷ []

abbrev batched : 0 < 1
batched = omega arith

sweeps_settle_example :
    All
      (λ r. is_kept day 1 (sweeps 1 (again day 1 1 batched 3) rows) r ≡ true)
      (sweeps 1 (again day 1 1 batched 3) rows)
    × (sweep day 1 1 (sweeps 1 (again day 1 1 batched 3) rows)
        ≡ (0, sweeps 1 (again day 1 1 batched 3) rows))
sweeps_settle_example = sweeps_settle day 1 1 batched 3 rows (omega arith)

abbrev retention : RetentionConfig
retention = record { retention_days = 90; retention_min_per_feed = 1; retention_batch_size = 1 }

abbrev ticks : List (ℕ × Option Exc)
ticks = (today, none) ∷ (today + 1, some (fresh other)) ∷ (today + 2, none) ∷ []

abbrev swept : Swept
swept = record { rows = rows; deleted_total = 4 }

abbrev post : Database → Reply (ℕ × Feed) × Database
post = create_feed rules network "http://blog/new" today today

-- a task that ends after a second, and one that has to be cancelled
abbrev quick : Task
quick = record { finish = some (second, returned); on_cancel = some cancelled }

abbrev slow : Task
slow = record { finish = none; on_cancel = some cancelled }

quick-IsCooperative : IsCooperative quick
quick-IsCooperative = record { ends = λ e. cc; uncancelled = λ e. cc }

slow-IsCooperative : IsCooperative slow
slow-IsCooperative = record { ends = λ e. cc; uncancelled = tt }

shutdown_ends_example :
    ((shutdown (lifespan_config (default_settings "1")) slow quick quick).1 ≡ true)
    × ((shutdown (lifespan_config (default_settings "1")) slow quick quick).0
        ≤ 2 * (90 * second) + 5 * second)
shutdown_ends_example =
    shutdown_ends (lifespan_config (default_settings "1")) slow quick quick slow-IsCooperative
      quick-IsCooperative quick-IsCooperative

-- a service without a key that everything reaches
abbrev service : Service
service = record {
  rules = rules;
  network = network;
  configured_key = [];
  http_url = λ text. some text;
  reaches = λ url. true;
}

abbrev urls : List String
urls = "http://blog/feed/" ∷ "http://blog/new" ∷ []

urls-IsAccepted : All (IsAccepted service) urls
unfolding feed_create checked_url
urls-IsAccepted = (
  record {
    reaches = refl;
    payload_url = "http://blog/feed/";
    reads = refl;
    registered_url = "http://blog/feed";
    checked = refl;
  },
  (
    record {
      reaches = refl;
      payload_url = "http://blog/new";
      reads = refl;
      registered_url = "http://blog/new";
      checked = refl;
    },
    tt,
  ),
)

abbrev after_seeding : Database
after_seeding = record db {
  feeds = db.feeds ++ new_feed 4 "http://blog/new" today today ∷ [];
  next_feed_id = 5;
}

abbrev first_counts : Tally
first_counts = record { created = 1; existing = 1; failed = 0 }

abbrev second_counts : Tally
second_counts = record { created = 0; existing = 2; failed = 0 }

seed_twice_example :
    (second_counts.created ≡ 0)
    × (second_counts.existing ≡ 2)
    × (exit_code second_counts.failed ≡ 0)
    × ((record after_seeding { next_feed_id = 7 }).feeds ≡ after_seeding.feeds)
unfolding seed
seed_twice_example =
    seed_twice service refl urls today today (today + 1) (today + 1) db after_seeding
      (record after_seeding { next_feed_id = 7 }) first_counts second_counts urls-IsAccepted refl
      refl
