-- ===== src/Witnesses/Deployment.antt =====
-- The schema, the log, the shutdown and the responses at concrete inputs.
use feedgate_fetcher.Prelude.{
  ℕ, ◌+◌, ◌*◌, min, ◌≡◌, refl, none, some, List, [], ◌∷◌, true, false, any, filter, take, map,
  arith,
}
use feedgate_fetcher.Prelude.Ints.{pos}
use feedgate_fetcher.Prelude.Texts.{codes}
use feedgate_fetcher.Prelude.Time.{second, add_delta, sub_delta}
use feedgate_fetcher.Models.{Feed}
use feedgate_fetcher.Exceptions.{ok}
use feedgate_fetcher.Prelude.Sort.{sort, insert}
use feedgate_fetcher.Config.{Settings, default_settings}
use feedgate_fetcher.Config.Wiring.{claim_config}
use feedgate_fetcher.Config.Sizing.{IsInTime, claim_due_feeds-IsInTime}
use feedgate_fetcher.Schema.{Catalog, varchar, primary_key, refers_to, ◌>>=◌}
use feedgate_fetcher.Schema.Metadata.{column, feeds_table, entries_table, create_all}
use feedgate_fetcher.Schema.Migrations.{upgrade_head, downgrade_base}
use feedgate_fetcher.Schema.Upgrades.{IsClear, upgrade_head-create_all, downgrade_base-upgrade_head}
use feedgate_fetcher.Schema.Values.{Conforms, feed_values, entry_values, has_nul}
use feedgate_fetcher.Schema.Rows.{rows-Conform}
use feedgate_fetcher.Logging.{Handler, LogFilter, Loggers}
use feedgate_fetcher.Logging.Words.{IsLevel, info, capital, small, nothing}
use feedgate_fetcher.Logging.Delivery.{Delivers, delivered_lem}
use feedgate_fetcher.Scheduler.{claim_due_feeds, select_due, lease, is_due}
use feedgate_fetcher.Api.Feeds.{list_feeds, get_feed}
use feedgate_fetcher.Api.Schemas.{feed_response, paginated, sent}
use feedgate_fetcher.Api.Schemas.Private.{list_feeds-private}
use feedgate_fetcher.Witnesses.Data.{today, feed, row}
use feedgate_fetcher.Witnesses.Api.{db, codec, two_feeds-UniqueFeeds}
use mathlib.Core.List.{Perm}

-- a database with the table that alembic keeps its revision in
abbrev fresh : Catalog
fresh = record {
  tables =
      record {
        name = "alembic_version";
        columns = column "version_num" (varchar 32) false ∷ [];
        constraints = primary_key ("version_num" ∷ []) ∷ [];
      }
      ∷ [];
  indices = [];
}

fresh-IsClear : IsClear fresh
unfolding any refers_to
fresh-IsClear = record {
  tables = (refl, (refl, tt));
  references = (refl, (refl, tt));
  indices = (refl, (refl, (refl, (refl, (refl, (refl, (refl, tt)))))));
  owners = (refl, (refl, tt));
}

upgrade_head-create_all_example :
    (m a : Catalog) × (upgrade_head fresh ≡ some m)
    × (create_all fresh ≡ some a)
    × (m.tables ≡ a.tables)
    × Perm m.indices a.indices
upgrade_head-create_all_example = upgrade_head-create_all fresh fresh-IsClear

downgrade_base-upgrade_head_example : (upgrade_head fresh >>= downgrade_base) ≡ some fresh
downgrade_base-upgrade_head_example = downgrade_base-upgrade_head fresh fresh-IsClear

rows-Conform_example :
    Conforms feeds_table.columns (feed_values feed)
    × Conforms entries_table.columns (entry_values row)
unfolding has_nul
rows-Conform_example =
    rows-Conform feed row
      (record {
        id = omega arith;
        consecutive_failures = omega arith;
        url = refl;
        effective_url = refl;
        title = refl;
        etag = refl;
        last_modified = refl;
      })
      (record {
        id = omega arith;
        feed_id = omega arith;
        guid = refl;
        url = refl;
        title = refl;
        content = refl;
        author = refl;
      })

-- uvicorn has set up its own handlers, and a filter of its access log
abbrev busy_loggers : Loggers
busy_loggers = record {
  root = record { level = 30; handlers = Handler.foreign 1 ∷ []; filters = []; propagate = true };
  named = λ name. record {
    level = 0;
    handlers = Handler.foreign 2 ∷ [];
    filters = LogFilter.foreign (λ msg. false) ∷ [];
    propagate = false;
  };
}

spelled : IsLevel (codes "Info") 20
spelled = info (
    capital 73 (omega arith) (omega arith) (
      small 78 (omega arith) (omega arith)
        (small 70 (omega arith) (omega arith) (small 79 (omega arith) (omega arith) nothing))))

delivered_lem_example : Delivers (codes "Info") true busy_loggers 20 20 (codes "GET /healthz")
delivered_lem_example =
    delivered_lem (codes "Info") true busy_loggers 20 20 (codes "GET /healthz") spelled

-- eight fetches of up to thirty seconds, four at a time
abbrev settings : Settings
settings = default_settings "1"

abbrev in_lease : Feed → Feed
in_lease f = record f { next_fetch_at = today + 90 * second; last_attempt_at = some today }

abbrev leased : List Feed
leased = map in_lease db.feeds

all_claimed :
    claim_due_feeds (claim_config settings) today (λ id. false) db.feeds ≡ ok (1 ∷ 2 ∷ [], leased)
unfolding claim_due_feeds select_due sort insert filter take any lease is_due add_delta sub_delta
all_claimed = refl

abbrev took : ℕ → ℕ
took id = min (id * (20 * second)) (30 * second)

claim_due_feeds-IsInTime_example :
    IsInTime settings today (1 ∷ 2 ∷ []) leased (map took (1 ∷ 2 ∷ [])) none
claim_due_feeds-IsInTime_example =
    claim_due_feeds-IsInTime settings 2 (30 * second) today (λ id. false) db.feeds leased
      (1 ∷ 2 ∷ []) took none
      (record {
        permits = omega arith;
        batch = omega arith;
        in_lease = omega arith;
        in_drain = omega arith;
      })
      two_feeds-UniqueFeeds (λ id. omega arith) all_claimed

abbrev rescheduled : Feed → Feed
rescheduled f = record f { next_fetch_at = 77; consecutive_failures = 9; etag = some "x" }

list_feeds-private_example :
    (sent
        (paginated feed_response)
        (list_feeds codec 50 (record db { feeds = map rescheduled db.feeds }) none (pos 1) none)
      ≡ sent (paginated feed_response) (list_feeds codec 50 db none (pos 1) none))
    × (sent feed_response (get_feed (pos 2) (record db { feeds = map rescheduled db.feeds }))
        ≡ sent feed_response (get_feed (pos 2) db))
list_feeds-private_example =
    list_feeds-private rescheduled (λ f. refl) codec 50 db none (pos 1) none (pos 2)
