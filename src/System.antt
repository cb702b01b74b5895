-- ===== src/System.antt =====
-- The parts of the service that share the database, as they interleave: handlers of api/feeds.py,
-- and of fetcher/scheduler.py the claims of any number of workers and their jobs, and the sweeps of
-- fetcher/retention.py. A job is one call of `_process_feed`: it waits for the semaphore, its session
-- loads the feed's row, the fetch goes on, and the session commits. Each event is one transaction,
-- or the read of a row; between any two of them anybody may write. The statements of a fetch and its
-- commit are one event, the exchange over the network stands before it.
pub mod Keys
pub mod Valid
pub mod Commits
pub mod Leases
pub mod Exclusive
pub mod Races
use feedgate_fetcher.Prelude.{
  ℕ, zero, suc, ◌+◌, min, String, Option, none, some, List, [], ◌∷◌, ◌++◌, map, Bool, true, false,
  ◌==◌, if◌then◌else◌,
}
use feedgate_fetcher.Prelude.Ints.{ℤ}
use feedgate_fetcher.Exceptions.{Exc, Result, ok, raise}
use feedgate_fetcher.Models.{Feed, ErrorCode, status_eq}
use feedgate_fetcher.Ssrf.{Network}
use feedgate_fetcher.Url.{UrlRules}
use feedgate_fetcher.Upsert.{same_text, same_time}
use feedgate_fetcher.Http.{Upstream, FetchConfig, FetchState, fetch_one}
use feedgate_fetcher.Scheduler.{ClaimConfig, claim_due_feeds, find_feed}
use feedgate_fetcher.Retention.{RetentionConfig, Swept}
use feedgate_fetcher.Retention
use feedgate_fetcher.Api.Feeds.{Database, create_feed, delete_feed, reactivate_feed}
use text.Mathlib.Text.{◌==◌ as str_eq}

-- `==` of two codes, by their place in the enumeration
abbrev pub code_place : ErrorCode → ℕ
code_place ErrorCode.dns = 0
code_place ErrorCode.tcp_refused = 1
code_place ErrorCode.tls_error = 2
code_place ErrorCode.timeout = 3
code_place ErrorCode.connection = 4
code_place ErrorCode.http_4xx = 5
code_place ErrorCode.http_410 = 6
code_place ErrorCode.http_5xx = 7
code_place ErrorCode.http_error = 8
code_place ErrorCode.rate_limited = 9
code_place ErrorCode.not_a_feed = 10
code_place ErrorCode.redirect_loop = 11
code_place ErrorCode.too_large = 12
code_place ErrorCode.blocked = 13
code_place ErrorCode.other = 14

abbrev pub same_code : Option ErrorCode → Option ErrorCode → Bool
same_code none none = true
same_code (some a) (some b) = code_place a == code_place b
same_code _ _ = false

-- a column in the row's UPDATE: it is there only if the session has changed its value
abbrev pub column {ℓ} : {A : Type ℓ} → (A → A → Bool) → A → A → A → A
column same loaded assigned stored = if same loaded assigned then stored else assigned

-- The UPDATE of a session that has loaded one row and made another of it, on the row as it is stored
-- by now. The id, the URL and the time of creation are assigned nowhere.
unfoldable pub write_changes : Feed → Feed → Feed → Feed
write_changes loaded assigned stored = record stored {
  effective_url = column str_eq loaded.effective_url assigned.effective_url stored.effective_url;
  title = column same_text loaded.title assigned.title stored.title;
  status = column status_eq loaded.status assigned.status stored.status;
  last_successful_fetch_at =
      column same_time loaded.last_successful_fetch_at assigned.last_successful_fetch_at
        stored.last_successful_fetch_at;
  last_attempt_at =
      column same_time loaded.last_attempt_at assigned.last_attempt_at stored.last_attempt_at;
  last_error_code =
      column same_code loaded.last_error_code assigned.last_error_code stored.last_error_code;
  next_fetch_at = column ◌==◌ loaded.next_fetch_at assigned.next_fetch_at stored.next_fetch_at;
  consecutive_failures =
      column ◌==◌ loaded.consecutive_failures assigned.consecutive_failures
        stored.consecutive_failures;
  etag = column same_text loaded.etag assigned.etag stored.etag;
  last_modified = column same_text loaded.last_modified assigned.last_modified stored.last_modified;
}

-- WHERE id = ...
unfoldable pub update_one : Feed → Feed → Feed → Feed
unfolding write_changes
update_one loaded assigned f = if f.id == loaded.id then write_changes loaded assigned f else f

unfoldable pub update_changed : Feed → Feed → List Feed → List Feed
unfolding update_one
update_changed loaded assigned feeds = map (update_one loaded assigned) feeds

-- the end of a session whose row is still there: a commit, or a rollback that takes back no ids
unfoldable pub settle : Feed → Result (Unit {0}) × FetchState → Database → Database
unfolding update_changed
settle loaded (ok _, s) db = record db {
  feeds = update_changed loaded s.feed db.feeds;
  table = s.table;
}
settle loaded (raise e, s) db = record db {
  table = record (db.table) { next_id = s.table.next_id };
}

-- Where the feed is gone, the first INSERT of an entry fails by the foreign key, or the UPDATE finds
-- no row: the session is rolled back, with at most one id used up.
unfoldable pub end_job : Feed → Result (Unit {0}) × FetchState → Database → Database
unfolding settle
end_job loaded r db = elim (find_feed loaded.id db.feeds) [
  | none ↦ record db {
    table = record (db.table) { next_id = min ((db.table).next_id + 1) r.1.table.next_id };
  }
  | some row ↦ settle loaded r db
]

-- what the session of a job sees when its fetch comes to its statements
abbrev pub session : List (List ℕ) → Feed → Database → FetchState
session fallback_hosts loaded db = record {
  feed = loaded;
  table = db.table;
  fallback_hosts = fallback_hosts;
  server_hint = none;
  transitions = [];
  observed = [];
}

-- A call of `_process_feed`, with the time of its tick: before its session has loaded the row, and
-- after.
pub data Job : Type 0 where
  waiting : ℕ → ℕ → Job
  fetching : Feed → ℕ → Job

pub record System : Type 0 where
  pub db : Database
  pub jobs : List Job

abbrev pub get_elem? {ℓ} : {A : Type ℓ} → List A → ℕ → Option A
get_elem? [] i = none
get_elem? (x ∷ xs) zero = some x
get_elem? (x ∷ xs) (suc i) = get_elem? xs i

abbrev pub remove_nth {ℓ} : {A : Type ℓ} → ℕ → List A → List A
remove_nth i [] = []
remove_nth zero (x ∷ xs) = xs
remove_nth (suc i) (x ∷ xs) = x ∷ remove_nth i xs

pub data Event : Type 0 where
  -- POST, DELETE and reactivate
  create : String → ℕ → ℕ → Event
  delete : ℤ → Event
  reactivate : ℤ → ℕ → Event
  -- a claim of some worker, at its time and with the rows that others have locked
  claim : ClaimConfig → ℕ → (ℕ → Bool) → Event
  -- a job goes on: the outside world, the settings and the process's fallback hosts are its worker's
  proceed : ℕ → Upstream → FetchConfig → List (List ℕ) → Event
  -- a worker is gone, and with it this job
  crash : ℕ → Event
  sweep : RetentionConfig → ℕ → Option Exc → Event

-- the feed's row is loaded, or is gone: then the job is done
unfoldable pub load : ℕ → ℕ → ℕ → System → System
load i feed_id now s = elim (find_feed feed_id (s.db).feeds) [
  | none ↦ record s { jobs = remove_nth i s.jobs }
  | some feed ↦ record s { jobs = fetching feed now ∷ remove_nth i s.jobs }
]

unfoldable pub proceed_job :
    ℕ → Upstream → FetchConfig → List (List ℕ) → Option Job → System → System
unfolding load end_job
proceed_job i up c hosts none s = s
proceed_job i up c hosts (some (waiting feed_id now)) s = load i feed_id now s
proceed_job i up c hosts (some (fetching feed now)) s = record {
  db = end_job feed (fetch_one up c now (session hosts feed s.db)) s.db;
  jobs = remove_nth i s.jobs;
}

-- the claimed feeds are jobs from then on
unfoldable pub claimed : ℕ → Result (List ℕ × List Feed) → System → System
claimed now (raise e) s = s
claimed now (ok (feed_ids, feeds)) s = record {
  db = record (s.db) { feeds = feeds };
  jobs = s.jobs ++ map (λ feed_id. waiting feed_id now) feed_ids;
}

-- a tick of retention on the table; its counter is a matter of its process
unfoldable pub swept : RetentionConfig → ℕ → Option Exc → Database → Database
swept c now trouble db =
    let after =
      (Retention.tick_once c now trouble
        (record { rows = (db.table).rows; deleted_total = 0 })).1 in
    record db { table = record (db.table) { rows = after.rows } }

module _ (rules : UrlRules) (net : Network) where
  unfoldable pub step : Event → System → System
  unfolding proceed_job claimed swept
  step (create payload_url now db_now) s = record s {
    db = (create_feed rules net payload_url now db_now s.db).1;
  }
  step (delete feed_id) s = record s { db = (delete_feed feed_id s.db).1 }
  step (reactivate feed_id now) s = record s { db = (reactivate_feed feed_id now s.db).1 }
  step (claim c now locked) s = claimed now (claim_due_feeds c now locked (s.db).feeds) s
  step (proceed i up c hosts) s = proceed_job i up c hosts (get_elem? s.jobs i) s
  step (crash i) s = record s { jobs = remove_nth i s.jobs }
  step (sweep c now trouble) s = record s { db = swept c now trouble s.db }

  unfoldable pub run : List Event → System → System
  unfolding step
  run [] s = s
  run (e ∷ events) s = run events (step e s)
