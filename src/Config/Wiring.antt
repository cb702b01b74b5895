-- ===== src/Config/Wiring.antt =====
-- main.py: what `create_app` hands of the settings to the engine, the HTTP client and `app.state`, and
-- what each component takes of `app.state`.
use feedgate_fetcher.Prelude.{ℕ, String, Bool, true, false}
use feedgate_fetcher.Config.{Settings}
use feedgate_fetcher.Http.{FetchConfig}
use feedgate_fetcher.Scheduler.{ClaimConfig}
use feedgate_fetcher.Retention.{RetentionConfig}
use feedgate_fetcher.Api.Entries.{EntryLimits}
use feedgate_fetcher.App.{LifespanConfig}

-- the arguments of `create_async_engine`
pub record EngineConfig : Type 0 where
  pub database_url : String
  pub echo : Bool
  pub pool_pre_ping : Bool
  pub pool_size : ℕ
  pub max_overflow : ℕ
  pub pool_timeout : ℕ
  pub pool_recycle : ℕ

abbrev pub make_engine : String → ℕ → ℕ → ℕ → ℕ → EngineConfig
make_engine database_url pool_size max_overflow pool_timeout pool_recycle = record {
  database_url = database_url;
  echo = false;
  pool_pre_ping = true;
  pool_size = pool_size;
  max_overflow = max_overflow;
  pool_timeout = pool_timeout;
  pool_recycle = pool_recycle;
}

abbrev pub engine_config : Settings → EngineConfig
engine_config s =
    make_engine s.database_url s.db_pool_size s.db_max_overflow s.db_pool_timeout s.db_pool_recycle

-- `httpx.Timeout`, in microseconds
pub record Timeout : Type 0 where
  pub connect : ℕ
  pub read : ℕ
  pub write : ℕ
  pub pool : ℕ

abbrev pub http_timeout : Settings → Timeout
http_timeout s = record {
  connect = s.fetch_connect_timeout;
  read = s.fetch_read_timeout;
  write = s.fetch_write_timeout;
  pool = s.fetch_pool_timeout;
}

-- `app.state` as `fetch_one` is handed it
abbrev pub fetch_config : Settings → FetchConfig
fetch_config s = record {
  intervals = record {
    base_interval_seconds = s.fetch_interval_seconds;
    broken_threshold = s.broken_threshold;
    broken_max_backoff_seconds = s.broken_max_backoff_seconds;
    backoff_jitter_millionths = s.backoff_jitter_millionths;
    entry_frequency_min_interval_seconds = s.entry_frequency_min_interval_seconds;
    entry_frequency_max_interval_seconds = s.entry_frequency_max_interval_seconds;
    entry_frequency_factor = s.entry_frequency_factor;
  };
  max_bytes = s.fetch_max_bytes;
  max_entries_per_fetch = s.fetch_max_entries_per_fetch;
  max_entries_initial = s.fetch_max_entries_initial;
  dead_duration_days = s.dead_duration_days;
}

abbrev pub claim_config : Settings → ClaimConfig
claim_config s = record {
  claim_batch_size = s.fetch_claim_batch_size;
  claim_ttl_seconds = s.fetch_claim_ttl_seconds;
  dead_probe_interval_days = s.dead_probe_interval_days;
}

abbrev pub retention_config : Settings → RetentionConfig
retention_config s = record {
  retention_days = s.retention_days;
  retention_min_per_feed = s.retention_min_per_feed;
  retention_batch_size = s.retention_batch_size;
}

abbrev pub entry_limits : Settings → EntryLimits
entry_limits s = record {
  max_feed_ids = s.api_entries_max_feed_ids;
  default_limit = s.api_entries_default_limit;
  max_limit = s.api_entries_max_limit;
}

abbrev pub lifespan_config : Settings → LifespanConfig
lifespan_config s = record {
  scheduler_enabled = s.scheduler_enabled;
  retention_enabled = s.retention_enabled;
  shutdown_drain = s.shutdown_drain;
}
