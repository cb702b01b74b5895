-- ===== src/Witnesses/Data.antt =====
-- Concrete feeds, entries, settings and a small outside world.
use feedgate_fetcher.Prelude.{ℕ, ◌*◌, ◌+◌, none, some, [], ◌∷◌, true, false, if◌then◌else◌, ltb}
use feedgate_fetcher.Prelude.Texts.{codes, codes_eq}
use feedgate_fetcher.Prelude.Time.{day}
use feedgate_fetcher.Models.{Feed, Entry, active, broken}
use feedgate_fetcher.Exceptions.{ok, raise, fresh, http_status_error, other}
use feedgate_fetcher.Policy.NextFetch.{Intervals}
use feedgate_fetcher.Policy.Headers.{DateRead}
use feedgate_fetcher.Ssrf.{IpAddress, Network, found}
use feedgate_fetcher.Upsert.{ParsedEntry, Entries}
use feedgate_fetcher.Parser.{RawEntry, no_items}
use feedgate_fetcher.Http.{bytes, HttpResponse, Upstream, FetchConfig, FetchState}
use feedgate_fetcher.Scheduler.{ClaimConfig, World}
use text.Mathlib.Text.{◌==◌ as str_eq}

-- 100 days after the first instant
abbrev pub today : ℕ
today = 100 * day

abbrev pub intervals : Intervals
intervals = record {
  base_interval_seconds = 60;
  broken_threshold = 3;
  broken_max_backoff_seconds = 3600;
  backoff_jitter_millionths = 250_000;
  entry_frequency_min_interval_seconds = 300;
  entry_frequency_max_interval_seconds = 86_400;
  entry_frequency_factor = 2;
}

abbrev pub feed : Feed
feed = record {
  id = 1;
  url = "http://blog/feed";
  effective_url = "http://blog/feed";
  title = none;
  status = active;
  last_successful_fetch_at = none;
  last_attempt_at = none;
  last_error_code = none;
  created_at = 0;
  next_fetch_at = 0;
  consecutive_failures = 2;
  etag = none;
  last_modified = none;
}

abbrev pub broken_feed : Feed
broken_feed = record feed { status = broken; consecutive_failures = 5 }

abbrev pub post : ParsedEntry
post = record {
  guid = "a";
  url = "http://blog/a";
  title = some "A";
  content = none;
  author = none;
  published_at = some 7;
}

abbrev pub other_post : ParsedEntry
other_post = record post { guid = "b"; published_at = none }

abbrev pub row : Entry
row = record {
  id = 1;
  feed_id = 1;
  guid = "a";
  url = "http://blog/old";
  title = none;
  content = none;
  author = none;
  published_at = some 5;
  fetched_at = 3;
  content_updated_at = 3;
}

abbrev pub second_row : Entry
second_row = record row { id = 2; guid = "b"; published_at = some 9 }

abbrev pub third_row : Entry
third_row = record row { id = 3; guid = "c"; published_at = some 6 }

abbrev pub table : Entries
table = record { rows = row ∷ []; next_id = 2 }

abbrev pub public_ip : IpAddress
public_ip = record {
  is_private = false;
  is_loopback = false;
  is_link_local = false;
  is_reserved = false;
  is_multicast = false;
  is_unspecified = false;
}

abbrev pub private_ip : IpAddress
private_ip = record public_ip { is_private = true }

-- every URL but one is of the host `blog`, which resolves to 1.1.1.1; the other resolves to 10.0.0.1
abbrev pub network : Network
network = record {
  urlsplit = λ url. some (record {
    scheme = codes "http";
    hostname = some (if str_eq url "http://inside/" then codes "inside" else codes "blog");
  });
  ip_address = λ text.
      if codes_eq text (codes "1.1.1.1")
      then some public_ip
      else if codes_eq text (codes "10.0.0.1")
      then some private_ip
      else none;
  getaddrinfo = λ host.
      if codes_eq host (codes "blog")
      then found (codes "1.1.1.1" ∷ [])
      else found (codes "10.0.0.1" ∷ []);
}

abbrev pub raw_post : RawEntry
raw_post = record {
  id = some "a";
  link = some "http://blog/a";
  title = some "A";
  author = none;
  content = no_items;
  summary = none;
  published_parsed = none;
  updated_parsed = none;
}

abbrev pub response : HttpResponse
response = record {
  status_code = 200;
  headers = λ name. if str_eq name "content-type" then some "application/rss+xml" else none;
  history = 301 ∷ [];
  url = "http://blog/new";
  chunks = bytes (1 ∷ 2 ∷ []) ∷ bytes (3 ∷ []) ∷ [];
}

abbrev pub upstream : Upstream
upstream = record {
  network = network;
  stream = λ url headers. ok response;
  raise_for_status =
      λ status. if ltb status 400 then ok tt else raise (fresh (http_status_error status));
  has_curl = false;
  curl_get = λ url headers redirects. raise (fresh other);
  feedparser = λ body. record { title = some "Blog"; ttl = some "60"; entries = raw_post ∷ [] };
  to_datetime = λ fields. none;
  parse_date = λ text. DateRead.unreadable;
  db_now = 100 * day + 1;
  draw = λ span. span;
}

abbrev pub config : FetchConfig
config = record {
  intervals = intervals;
  max_bytes = 10;
  max_entries_per_fetch = 5;
  max_entries_initial = 5;
  dead_duration_days = 7;
}

abbrev pub start : FetchState
start = record {
  feed = feed;
  table = table;
  fallback_hosts = [];
  server_hint = none;
  transitions = [];
  observed = [];
}

abbrev pub claim : ClaimConfig
claim = record { claim_batch_size = 2; claim_ttl_seconds = 90; dead_probe_interval_days = 7 }

abbrev pub world : World
world = record {
  feeds = feed ∷ record broken_feed { id = 2 } ∷ [];
  table = table;
  fallback_hosts = [];
  transitions = [];
  observed = [];
}
