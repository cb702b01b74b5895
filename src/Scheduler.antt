-- ===== src/Scheduler.antt =====
-- fetcher/scheduler.py: how a tick claims due feeds, and how long the loop waits between ticks.
-- A row that another transaction has locked is skipped (`SKIP LOCKED`); which rows those are is
-- the argument `locked`. One statement selects, updates and returns: `RETURNING` names the updated
-- rows, here in the table's order. Rows with equal `next_fetch_at` are taken in the table's order.
-- The fetches of a tick run concurrently in sessions of their own, each on its own feed; here they
-- run one after the other, in the order they were claimed.
pub mod Claims
pub mod Ticks
pub mod Backoff
pub mod Selection
pub mod Fairness
pub mod Permits
pub mod Loop
use feedgate_fetcher.Prelude.{
  ℕ, ◌+◌, ◌*◌, ◌-◌, ◌^◌, min, Option, none, some, List, [], ◌∷◌, map, Bool, ◌&&◌, ◌||◌, not, ltb,
  leb, ◌==◌, if◌then◌else◌, any, filter, take, length, count, true, false,
}
use feedgate_fetcher.Prelude.Sort.{sort}
use feedgate_fetcher.Prelude.Time.{second, day, add_delta, sub_delta}
use feedgate_fetcher.Models.{Feed, dead, status_eq}
use feedgate_fetcher.Exceptions.{Result, ok, raise, or_overflow, ◌>>=◌}
use feedgate_fetcher.Upsert.{Entries}
use feedgate_fetcher.FeedState.{Transition}
use feedgate_fetcher.Http.{Upstream, FetchConfig, FetchState, Observation, fetch_one}

-- what a tick reads of the settings
pub record ClaimConfig : Type 0 where
  pub claim_batch_size : ℕ
  pub claim_ttl_seconds : ℕ
  pub dead_probe_interval_days : ℕ

-- `claim_predicate`
unfoldable pub is_due : ℕ → ℕ → Feed → Bool
is_due now probe_cutoff feed =
    (not (status_eq feed.status dead) && leb feed.next_fetch_at now)
    || (status_eq feed.status dead
        && elim feed.last_attempt_at [ none ↦ true | some t ↦ ltb t probe_cutoff ])

abbrev pub earlier : Feed → Feed → Bool
earlier f g = leb f.next_fetch_at g.next_fetch_at

-- the `UPDATE` of one row
unfoldable pub lease : ℕ → ℕ → List ℕ → Feed → Feed
unfolding any
lease lease_until now ids feed =
    if any (λ id. id == feed.id) ids
    then record feed { next_fetch_at = lease_until; last_attempt_at = some now }
    else feed

module _ (c : ClaimConfig) (now : ℕ) (locked : ℕ → Bool) where
  -- the `SELECT ... FOR UPDATE SKIP LOCKED`
  unfoldable pub select_due : ℕ → List Feed → List Feed
  unfolding filter take
  select_due probe_cutoff feeds =
      take c.claim_batch_size
        (sort earlier (filter (λ feed. is_due now probe_cutoff feed && not (locked feed.id)) feeds))

  -- the ids that are returned, and the table after the update
  unfoldable pub claim_due_feeds : List Feed → Result (List ℕ × List Feed)
  unfolding select_due any filter
  claim_due_feeds feeds =
      or_overflow (sub_delta now (c.dead_probe_interval_days * day)) >>= λ probe_cutoff.
      or_overflow (add_delta now (c.claim_ttl_seconds * second)) >>= λ lease_until.
      let ids = map (λ feed. feed.id) (select_due probe_cutoff feeds) in
      ok (
        map (λ feed. feed.id) (filter (λ feed. any (λ id. id == feed.id) ids) feeds),
        map (lease lease_until now ids) feeds,
      )

-- What the sessions of a worker share: the tables, and the state of its process.
pub record World : Type 0 where
  pub feeds : List Feed
  pub table : Entries
  pub fallback_hosts : List (List ℕ)
  pub transitions : List Transition
  pub observed : List Observation

pub record SchedulerTickResult : Type 0 where
  pub claimed : ℕ
  pub processed : ℕ
  pub fatal_errors : ℕ

unfoldable pub find_feed : ℕ → List Feed → Option Feed
find_feed id [] = none
find_feed id (feed ∷ feeds) =
    let rest = find_feed id feeds in if feed.id == id then some feed else rest

-- the row's `UPDATE` when its session is flushed
unfoldable pub save_feed : ℕ → Feed → List Feed → List Feed
save_feed id row feeds = map (λ feed. if feed.id == id then row else feed) feeds

-- what a session sees that has loaded the feed
abbrev pub session : World → Feed → FetchState
session w feed = record {
  feed = feed;
  table = w.table;
  fallback_hosts = w.fallback_hosts;
  server_hint = none;
  transitions = w.transitions;
  observed = w.observed;
}

-- The commit or the rollback after `fetch_one`. A rollback takes back the rows, not the process's
-- state and not the sequence of entry ids.
unfoldable pub settle : ℕ → World → Result (Unit {0}) × FetchState → Bool × World
unfolding save_feed
settle feed_id w (ok _, s) = (
  true,
  record {
    feeds = save_feed feed_id s.feed w.feeds;
    table = s.table;
    fallback_hosts = s.fallback_hosts;
    transitions = s.transitions;
    observed = s.observed;
  },
)
settle feed_id w (raise e, s) = (
  false,
  record w {
    table = record (w.table) { next_id = s.table.next_id };
    fallback_hosts = s.fallback_hosts;
    transitions = s.transitions;
    observed = s.observed;
  },
)

-- `up` is the outside world as the fetch of each feed finds it.
module _ (up : ℕ → Upstream) (c : FetchConfig) (now : ℕ) where
  unfoldable pub process_feed : ℕ → World → Bool × World
  unfolding settle
  process_feed feed_id w = elim (find_feed feed_id w.feeds) [
    | none ↦ (true, w)
    | some feed ↦ settle feed_id w (fetch_one (up feed_id) c now (session w feed))
  ]

  unfoldable pub process_feeds : List ℕ → World → List Bool × World
  process_feeds [] w = ([], w)
  process_feeds (id ∷ ids) w =
      let r = process_feed id w in let rest = process_feeds ids r.1 in (r.0 ∷ rest.0, rest.1)

  unfoldable pub tick_once : ClaimConfig → (ℕ → Bool) → World → Result SchedulerTickResult × World
  tick_once claim locked w = elim (claim_due_feeds claim now locked w.feeds) [
    | raise e ↦ (raise e, w)
    | ok (feed_ids, feeds) ↦
        let r = process_feeds feed_ids (record w { feeds = feeds }) in
        (
          ok (record {
            claimed = length feed_ids;
            processed = count (λ done. done) r.0;
            fatal_errors = count not r.0;
          }),
          r.1,
        )
  ]

-- The loop of `run`, one step for each tick: the count of consecutive errors after it, and how long
-- the loop waits before the next one.
unfoldable pub next_errors : Bool → ℕ → ℕ
next_errors raised consecutive_errors = if raised then consecutive_errors + 1 else 0

unfoldable pub wait_timeout : ℕ → ℕ → ℕ
wait_timeout interval consecutive_errors =
    if ltb 0 consecutive_errors
    then min (interval * 2 ^ min (consecutive_errors - 1) 5) 300
    else interval

-- the waits of a run of the loop whose ticks end like these; `true` is a tick that raised
unfoldable pub waits : ℕ → ℕ → List Bool → List ℕ
unfolding next_errors wait_timeout
waits interval consecutive_errors [] = []
waits interval consecutive_errors (raised ∷ ticks) =
    let n = next_errors raised consecutive_errors in
    wait_timeout interval n ∷ waits interval n ticks
