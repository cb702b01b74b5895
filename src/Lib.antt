-- ===== src/Lib.antt =====
-- feedgate-fetcher
--
-- feedgate-fetcher polls RSS and Atom feeds and serves their entries. A scheduler claims the
-- feeds that are due and fetches each of them; a fetch checks the feed's URL, asks the server,
-- reads the answer's headers, parses the body, stores the entries, and moves the feed's
-- lifecycle and its next fetch time. A sweep deletes old entries, and an API lists those that
-- are there. The tables `feeds` and `entries` of a Postgres database are what the parts share.
--
-- Files, and the code that each models (paths from the repository's root):
-- - Models: src/feedgate_fetcher/models.py: `Feed`, `Entry`, `FeedStatus`, `ErrorCode`.
-- - Exceptions: exceptions as values with a class, a cause and a context, and results that may
--   raise.
-- - FeedState: src/feedgate_fetcher/feed_state.py: `mark_fetch_success`, `mark_fetch_failure`,
--   `transition_feed`. Lifecycle states the specification's table, its edges and the invariant.
-- - Policy: src/feedgate_fetcher/fetcher/policy.py: NextFetch has `compute_next_fetch_at`,
--   Headers has `parse_retry_after`, `parse_cache_hint` and the content types.
-- - Errors: src/feedgate_fetcher/fetcher/errors.py: `classify_error` and the walk along the
--   causes.
-- - Ssrf: src/feedgate_fetcher/ssrf.py: `validate_public_url` and `SSRFGuardTransport`.
-- - Upsert: src/feedgate_fetcher/fetcher/upsert.py: `upsert_entries`.
-- - Parser: src/feedgate_fetcher/fetcher/parser.py: `_parse_sync` and its helpers.
-- - Http: src/feedgate_fetcher/fetcher/http.py: `fetch_one`, in stages; fallback.py:
--   `fetch_via_impersonation`; `observe_fetch` of metrics.py. Body, Outcome, Reports and Guard
--   have the proofs.
-- - Scheduler: src/feedgate_fetcher/fetcher/scheduler.py: `_claim_due_feeds`, `_process_feed`,
--   `tick_once` and, in Loop, `run`. Permits has the semaphore. Claims, Ticks, Backoff,
--   Loop/Sound and Fairness have the proofs.
-- - Retention: src/feedgate_fetcher/fetcher/retention.py: `sweep`, `tick_once` and `run`. Kept,
--   Top, Settled and Loop have the proofs.
-- - Metrics: src/feedgate_fetcher/metrics.py: `_collect_state` and `run_collector`.
-- - App: src/feedgate_fetcher/main.py: `_drain_background_task`, and the end of the lifespan.
--   Shutdown and Drains have the proofs.
-- - Url: `urlsplit` and `urlunsplit` of Python's library, and `normalize_url` of
--   src/feedgate_fetcher/api/feeds.py.
-- - Api: src/feedgate_fetcher/api: Entries has `list_entries` of entries.py, Feeds the handlers
--   of feeds.py, Cursor the cursors of both, Keyset what their pages have in common, and Access
--   the key and the session of dependencies.py, the documents of errors.py and the counts of
--   middleware.py, Schemas the responses of schemas.py, and Router the routes of router.py.
-- - System: the parts that share the database as they interleave: the handlers, claims, jobs and
--   sweeps as events. A job is `_process_feed` of src/feedgate_fetcher/fetcher/scheduler.py in
--   two steps. Keys, Valid, Commits, Leases, Exclusive and Races have the proofs.
-- - Schema: alembic/versions and the tables of src/feedgate_fetcher/models.py: Metadata has the
--   mapped classes, Migrations the revisions, Values the values of a row; Upgrades and Rows have
--   the proofs.
-- - Logging: src/feedgate_fetcher/logging_config.py, and how Python hands a record on. Words and
--   Delivery have the proofs.
-- - Config: src/feedgate_fetcher/config.py: `Settings` and its defaults. Wiring has what
--   `create_app` of main.py hands on of them, Sizing the proof of when a tick fits.
-- - Seeding: scripts/seed_feeds.py, and `FeedCreate` of src/feedgate_fetcher/schemas.py.
-- - Prelude: shared names, lists, sorting, texts, Python's `int` and datetimes.
-- - Witnesses: the properties at concrete inputs.
--
-- The state of a fetch is a record of the feed's row, the table of entries, the set of fallback
-- hosts, the transitions and observations so far; it is passed through the stages and handed on
-- also where one raises, as attributes that were assigned stay assigned. Functions that may
-- raise return a `Result`. Handlers of the API return a `Reply`, a value or the status of an
-- HTTPException.
--
-- Parameters stand for code that is not the program's: httpx, curl_cffi, feedparser, the reading
-- of a URL in the address check, `ip_address`, the resolver, `parsedate_to_datetime`,
-- `datetime`, the random generator, the database's clock, Starlette's search for a route, the
-- pages that FastAPI adds by itself, and the reading of JSON and of ISO dates. What a property
-- needs of them is a hypothesis of it.
--
-- Instants are microseconds since the first instant of `datetime`, durations are microseconds or
-- seconds; arithmetic that leaves the calendar raises, as in Python. Seconds that Python holds
-- as floats are exact here and rounded to the microsecond, half to even. Settings are not
-- negative. Texts are walked as code points, and what Python does to characters outside ASCII in
-- `lower`, `strip` and `int` is left out. Statements to the database do not fail. In Scheduler
-- the fetches of a tick run one after the other; System takes each in two steps, with anything
-- in between. The time budget of a fetch is part of what the client answers, and is left out
-- where it runs out during the fallback of a 403.
--
-- Fuel: `walk` has the eight rounds of the code's own loop; `read_pages`, a client of the API,
-- has one round for each page, and one more than the number of entries is enough. All else
-- recurses on its data.
--
-- Not modelled: the start of the application with its engine and client, the renderers of the
-- log, the rate limit of the API and alembic's runner; ids that do not fit the integer columns,
-- which the driver refuses; a commit that fails where its statements did not; and the statements
-- of one transaction interleaved with those of another, for which the locks of the rows stand.
pub mod Prelude
pub mod Models
pub mod Exceptions
pub mod FeedState
pub mod Errors
pub mod Ssrf
pub mod Upsert
pub mod Url
pub mod Parser
pub mod Http
pub mod Api
pub mod Policy
pub mod Scheduler
pub mod Metrics
pub mod App
pub mod System
pub mod Schema
pub mod Logging
pub mod Config
pub mod Seeding
pub mod Witnesses
pub mod Retention
