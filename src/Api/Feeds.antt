-- ===== src/Api/Feeds.antt =====
-- api/feeds.py: the registered feeds, listed, read, deleted and reactivated. A handler works on the
-- tables as its session finds them and returns its reply and the tables it leaves; nobody else writes
-- between its statements. A feed's id in a path is any integer.
pub mod Tables
pub mod Unique
pub mod Create
pub mod Changes
pub mod Reactivation
pub mod Liveness
pub mod Pages
pub mod Listing
use feedgate_fetcher.Prelude.{
  ℕ, ◌+◌, String, Option, none, some, List, [], ◌∷◌, ◌++◌, map, Bool, true, false, ◌&&◌, not, ltb,
  min, max, ◌==◌, if◌then◌else◌, filter,
}
use feedgate_fetcher.Prelude.Ints.{ℤ, pos, negsuc}
use feedgate_fetcher.Prelude.Find.{find}
use feedgate_fetcher.Prelude.Sort.{sort}
use feedgate_fetcher.Prelude.Texts.{codes, text_of}
use feedgate_fetcher.Exceptions.{Exc, Kind, blocked_url, Result, ok, raise}
use feedgate_fetcher.Models.{Feed, Entry, FeedStatus, active, status_eq}
use feedgate_fetcher.FeedState.{Transition, transition_feed, manual_reactivate}
use feedgate_fetcher.Ssrf.{Network, validate_public_url}
use feedgate_fetcher.Upsert.{Entries}
use feedgate_fetcher.Url.{UrlRules, normalize_url}
use feedgate_fetcher.Api.Http.{Reply, respond, http_error, ◌>>=◌}
use feedgate_fetcher.Api.Cursor.{Codec, encode_feed_cursor, decode_feed_cursor}
use feedgate_fetcher.Api.Entries.{is_id}
use feedgate_fetcher.Api.Keyset.{Page, page_of}
use text.Mathlib.Text.{◌==◌ as str_eq}

-- the table `feeds` with the sequence of its ids, and the table `entries`
pub record Database : Type 0 where
  pub feeds : List Feed
  pub next_feed_id : ℕ
  pub table : Entries

-- select(Feed).where(Feed.url == url)
unfoldable pub find_url : String → List Feed → Option Feed
unfolding find
find_url url = find (λ feed. str_eq feed.url url)

-- select(Feed).where(Feed.id == feed_id)
unfoldable pub find_id : ℤ → List Feed → Option Feed
unfolding find
find_id feed_id = find (λ feed. is_id feed.id feed_id)

-- the row of an INSERT, with the columns' defaults
abbrev pub new_feed : ℕ → String → ℕ → ℕ → Feed
new_feed id url now db_now = record {
  id = id;
  url = url;
  effective_url = url;
  title = none;
  status = active;
  last_successful_fetch_at = none;
  last_attempt_at = none;
  last_error_code = none;
  created_at = db_now;
  next_fetch_at = now;
  consecutive_failures = 0;
  etag = none;
  last_modified = none;
}

-- INSERT ... ON CONFLICT DO NOTHING RETURNING id: a conflict uses up a value of the sequence too
unfoldable pub insert_feed : String → ℕ → ℕ → Database → Option ℕ × Database
unfolding find_url
insert_feed url now db_now db = elim (find_url url db.feeds) [
  | some feed ↦ (none, record db { next_feed_id = db.next_feed_id + 1 })
  | none ↦ (
    some db.next_feed_id,
    record db {
      feeds = db.feeds ++ new_feed db.next_feed_id url now db_now ∷ [];
      next_feed_id = db.next_feed_id + 1;
    },
  )
]

abbrev pub is_blocked_url : Kind → Bool
is_blocked_url blocked_url = true
is_blocked_url _ = false

-- `except BlockedURLError`: 400; any other exception is the server's error
abbrev pub rejection : Exc → ℕ
rejection e = if is_blocked_url (e.heap e.id).kind then 400 else 500

-- the status of the answer, and the feed
abbrev pub status_of : Option ℕ → ℕ
status_of none = 200
status_of (some new_id) = 201

-- what the statements behind the insertion make of it
unfoldable pub answer : String → Option ℕ × Database → Reply (ℕ × Feed) × Database
unfolding find_url
answer url (new_id, db) = (
  elim (find_url url db.feeds) [
    | none ↦ http_error 500
    | some feed ↦ respond (status_of new_id, feed)
  ],
  db,
)

-- the statements behind the checks
unfoldable pub register : String → ℕ → ℕ → Database → Reply (ℕ × Feed) × Database
unfolding insert_feed answer
register url now db_now db = answer url (insert_feed url now db_now db)

unfoldable pub normalized : UrlRules → String → Reply String
unfolding normalize_url text_of
normalized rules raw = elim (normalize_url rules (codes raw)) [
  | none ↦ http_error 500
  | some url ↦ respond (text_of url)
]

-- the guard on the scheme and on literal addresses
unfoldable pub validated : Network → String → Reply String
unfolding validate_public_url
validated net url = elim (validate_public_url net url false) [
  | raise e ↦ http_error (rejection e)
  | ok _ ↦ respond url
]

module _ (rules : UrlRules) (net : Network) where
  unfoldable pub checked_url : String → Reply String
  unfolding normalized validated
  checked_url raw = normalized rules raw >>= λ url. validated net url

  -- `payload_url` is `str(payload.url)`
  unfoldable pub create_feed : String → ℕ → ℕ → Database → Reply (ℕ × Feed) × Database
  unfolding checked_url register
  create_feed payload_url now db_now db = elim (checked_url payload_url) [
    | http_error status ↦ (http_error status, db)
    | respond url ↦ register url now db_now db
  ]

-- `max(1, min(limit, max_limit))`
abbrev pub page_limit : ℤ → ℕ → ℕ
page_limit (pos n) max_limit = max 1 (min n max_limit)
page_limit (negsuc n) max_limit = 1

abbrev pub above_id : ℤ → ℕ → Bool
above_id (pos n) id = ltb n id
above_id (negsuc n) id = true

-- ORDER BY Feed.id
abbrev pub id_before : Feed → Feed → Bool
id_before a b = ltb a.id b.id

abbrev pub has_status : Option FeedStatus → Feed → Bool
has_status none feed = true
has_status (some status) feed = status_eq feed.status status

-- the WHERE of a cursor
unfoldable pub after_id : Option ℤ → List Feed → List Feed
unfolding filter
after_id none feeds = feeds
after_id (some cur_id) feeds = filter (λ feed. above_id cur_id feed.id) feeds

-- the query, without its LIMIT
unfoldable pub select_feeds : Option FeedStatus → Option ℤ → List Feed → List Feed
unfolding sort filter after_id
select_feeds status_filter cur feeds =
    sort id_before (filter (has_status status_filter) (after_id cur feeds))

module _ (codec : Codec) where
  unfoldable pub feed_cursor_of : Option (List ℕ) → Reply (Option ℤ)
  unfolding decode_feed_cursor
  feed_cursor_of none = respond none
  feed_cursor_of (some cursor) = decode_feed_cursor codec cursor >>= λ cur_id. respond (some cur_id)

  unfoldable pub list_feeds :
      ℕ → Database → Option (List ℕ) → ℤ → Option FeedStatus → Reply (Page Feed)
  unfolding feed_cursor_of page_of select_feeds encode_feed_cursor
  list_feeds max_limit db cursor limit status_filter = do
    cur ← feed_cursor_of cursor
    respond (
        page_of (λ feed. encode_feed_cursor feed.id) (page_limit limit max_limit)
          (select_feeds status_filter cur db.feeds))

unfoldable pub get_feed : ℤ → Database → Reply Feed
unfolding find_id
get_feed feed_id db = elim (find_id feed_id db.feeds) [
  | none ↦ http_error 404
  | some feed ↦ respond feed
]

-- a DELETE of one feed; the foreign key of `entries` cascades
unfoldable pub remove_feed : ℕ → Database → Database
unfolding filter
remove_feed id db = record db {
  feeds = filter (λ feed. not (feed.id == id)) db.feeds;
  table = record (db.table) { rows = filter (λ entry. not (entry.feed_id == id)) (db.table).rows };
}

-- the answer is 204 in any case
unfoldable pub delete_feed : ℤ → Database → ℕ × Database
unfolding find_id remove_feed
delete_feed feed_id db = elim (find_id feed_id db.feeds) [
  | none ↦ (204, db)
  | some feed ↦ (204, remove_feed feed.id db)
]

-- the assignments, and the transition that is counted and logged
unfoldable pub reactivated : ℕ → Feed → Feed × List Transition
unfolding transition_feed
reactivated now feed = (
  record feed {
    status = active;
    last_error_code = none;
    next_fetch_at = now;
    consecutive_failures = 0;
  },
  if not (status_eq feed.status active) then transition_feed feed active manual_reactivate else [],
)

-- the UPDATE of one row
unfoldable pub update_feed : Feed → List Feed → List Feed
update_feed row feeds = map (λ feed. if feed.id == row.id then row else feed) feeds

unfoldable pub reactivate_feed : ℤ → ℕ → Database → (Reply Feed × List Transition) × Database
unfolding find_id reactivated update_feed
reactivate_feed feed_id now db = elim (find_id feed_id db.feeds) [
  | none ↦ ((http_error 404, []), db)
  | some feed ↦
      let (row, transitions) = reactivated now feed in
      ((respond row, transitions), record db { feeds = update_feed row db.feeds })
]
