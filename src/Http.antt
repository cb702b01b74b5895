-- ===== src/Http.antt =====
-- fetcher/http.py and fetcher/fallback.py: one fetch of one feed. What a fetch changes is a
-- `FetchState`: the feed's row, the table of entries, the set of hosts that need the fallback, the
-- local `_server_hint`, and what is counted. It is handed on also where an exception is raised.
-- The outside world is an `Upstream`: the network (Ssrf), httpx, curl_cffi, feedparser, the clock
-- of the database and the random generator. Statements to the database do not fail here.
pub mod Body
pub mod Guard
pub mod Outcome
pub mod Reports
pub mod Stored
use feedgate_fetcher.Prelude.{
  ℕ, ◌+◌, ◌-◌, ◌*◌, max, String, Option, none, some, List, [], ◌∷◌, ◌++◌, Bool, true, false, ◌&&◌,
  not, ltb, leb, ◌==◌, if◌then◌else◌, length, take, any, count,
}
use feedgate_fetcher.Prelude.Time.{second, day, add_delta, sub_delta}
use feedgate_fetcher.Prelude.Texts.{codes_eq}
use feedgate_fetcher.Models.{Feed, Entry, ErrorCode, active, broken, status_eq}
use feedgate_fetcher.Exceptions.{
  Kind, Exc, Result, ok, raise, fresh, chained, or_overflow, ◌>>=◌, ◌>>◌,
}
use feedgate_fetcher.FeedState.{
  Transition, Reason, or_default, transition_feed, mark_fetch_success, mark_fetch_failure,
}
use feedgate_fetcher.Policy.NextFetch.{Intervals, compute_next_fetch_at}
use feedgate_fetcher.Policy.Headers.{
  DateRead, Headers, is_not_a_feed_content_type, parse_retry_after, parse_cache_hint,
}
use feedgate_fetcher.Errors.{classify_error}
use feedgate_fetcher.Ssrf.{Network, validate_public_url}
use feedgate_fetcher.Upsert.{ParsedEntry, Entries, upsert_entries}
use feedgate_fetcher.Parser.{RawFeed, ParsedFeed, truthy, parse_sync}

-- one chunk of a streamed body, or the exception that ends the stream
pub data Chunk : Type 0 where
  bytes : List ℕ → Chunk
  broken_off : Exc → Chunk

pub record HttpResponse : Type 0 where
  pub status_code : ℕ
  pub headers : Headers
  -- the status codes of `response.history`
  pub history : List ℕ
  pub url : String
  pub chunks : List Chunk

pub record FallbackResponse : Type 0 where
  pub status_code : ℕ
  pub headers : Headers
  pub content : List ℕ
  pub url : String

pub data Condition : Type 0 where
  unconditional : Condition
  if_none_match : String → Condition
  if_modified_since : String → Condition

pub record Upstream : Type 0 where
  pub network : Network
  -- `http_client.stream("GET", url, ...)`, within the time budget
  pub stream : String → Condition → Result HttpResponse
  -- `response.raise_for_status()`, by the status code
  pub raise_for_status : ℕ → Result (Unit {0})
  -- Is curl_cffi there, and what does its `session.get` do, by the URL, the headers and the number of
  -- redirects that it may follow? It follows them by itself: what it gives is the end of the chain,
  -- and no URL on the way passes through the program.
  pub has_curl : Bool
  pub curl_get : String → Condition → ℕ → Result FallbackResponse
  pub feedparser : List ℕ → RawFeed
  pub to_datetime : List ℕ → Option ℕ
  pub parse_date : List ℕ → DateRead
  pub db_now : ℕ
  pub draw : ℕ → ℕ

pub record FetchConfig : Type 0 where
  pub intervals : Intervals
  pub max_bytes : ℕ
  pub max_entries_per_fetch : ℕ
  pub max_entries_initial : ℕ
  pub dead_duration_days : ℕ

-- a call of `metrics.observe_fetch`: the `result` label, and the error code
pub data Observation : Type 0 where
  success not_modified rate_limited : Observation
  error : ErrorCode → Observation

pub record FetchState : Type 0 where
  pub feed : Feed
  pub table : Entries
  pub fallback_hosts : List (List ℕ)
  pub server_hint : Option ℕ
  pub transitions : List Transition
  pub observed : List Observation

-- how the `try` block ends, if it raises nothing: by a `return` of fetch_one, or at its foot
pub data Exit : Type 0 where
  returned completed : Exit

abbrev pub M : Type 0 → Type 0
M A = FetchState → Result A × FetchState

abbrev pub set_feed : FetchState → Feed → FetchState
set_feed s f = record s { feed = f }

-- a new row of the feed, with the transitions that were logged on the way
abbrev pub set_marked : FetchState → Feed × List Transition → FetchState
set_marked s (f, logged) = record s { feed = f; transitions = s.transitions ++ logged }

unfoldable pub observe_fetch : Observation → FetchState → FetchState
observe_fetch o s = record s { observed = s.observed ++ o ∷ [] }

-- `observe_fetch("not_modified", ...); return`, unless the statement before it raised
unfoldable pub return_not_modified : Result (Unit {0}) × FetchState → Result Exit × FetchState
unfolding observe_fetch
return_not_modified (ok _, s) = (ok returned, observe_fetch not_modified s)
return_not_modified (raise e, s) = (raise e, s)

unfoldable pub conditional_headers : Feed → Condition
conditional_headers feed = elim (truthy feed.etag) [
  | some etag ↦ if_none_match etag
  | none ↦ elim (truthy feed.last_modified) [
    | some last_modified ↦ if_modified_since last_modified
    | none ↦ unconditional
  ]
]

-- the loop over `response.aiter_bytes()`; `parts` is `body_parts` joined, `size` the running size
unfoldable pub read_chunks : ℕ → List ℕ → ℕ → List Chunk → Result (List ℕ)
read_chunks max_bytes parts size [] = ok parts
read_chunks max_bytes parts size (broken_off e ∷ chunks) = raise e
read_chunks max_bytes parts size (bytes chunk ∷ chunks) =
    let rest = read_chunks max_bytes (parts ++ chunk) (size + length chunk) chunks in
    if ltb max_bytes (size + length chunk) then raise (fresh Kind.response_too_large) else rest

-- `urlsplit(url).hostname or ""`; the URL was split before
unfoldable pub host_of : Network → String → List ℕ
host_of net url = elim (net.urlsplit url) [
  | none ↦ []
  | some parts ↦ elim parts.hostname [ none ↦ [] | some host ↦ host ]
]

-- `max(hint or 0, ttl) or None`, where there is a positive ttl
abbrev pub with_ttl : Option ℕ → Option ℕ → Option ℕ
with_ttl hint none = hint
with_ttl hint (some ttl) = if ltb 0 ttl then some (max (or_default hint 0) ttl) else hint

abbrev pub or_kept : Option String → Option String → Option String
or_kept none old = old
or_kept (some new) old = some new

-- `except FallbackError`
abbrev pub is_fallback_error : Exc → Bool
is_fallback_error e = elim (e.heap e.id).kind [ Kind.fallback_error ↦ true | _ ↦ false ]

-- `max_redirects` of the fallback, which allows redirects
abbrev pub max_redirects : ℕ
max_redirects = 10

module _ (up : Upstream) (c : FetchConfig) (now : ℕ) where
  -- fallback.py
  unfoldable pub curl_fetch : String → Condition → Result FallbackResponse
  curl_fetch url headers =
      if not up.has_curl
      then raise (chained Kind.fallback_error (fresh Kind.other))
      else elim (up.curl_get url headers max_redirects) [
        | raise e ↦ raise (chained Kind.fallback_error e)
        | ok resp ↦
            if ltb c.max_bytes (length resp.content)
            then raise (fresh Kind.response_too_large)
            else ok resp
      ]

  unfoldable pub fetch_via_impersonation : String → Condition → Result FallbackResponse
  unfolding curl_fetch
  fetch_via_impersonation url headers = do
    validate_public_url up.network url true
    curl_fetch url headers

  unfoldable pub weekly_entry_count : ℕ → FetchState → ℕ
  weekly_entry_count cutoff s =
      count (λ row. (row.feed_id == s.feed.id) && leb cutoff row.fetched_at) s.table.rows

  -- `feed.next_fetch_at = compute_next_fetch_at(...)`
  unfoldable pub schedule : ℕ → M (Unit {0})
  schedule weekly s =
      elim (compute_next_fetch_at s.feed now c.intervals up.draw s.server_hint weekly) [
        | ok t ↦ (ok tt, set_feed s (record (s.feed) { next_fetch_at = t }))
        | raise e ↦ (raise e, s)
      ]

  -- the 304 branch, up to its reading of the headers
  unfoldable pub mark_not_modified : FetchState → FetchState
  unfolding transition_feed
  mark_not_modified s =
      let f = record (s.feed) { last_successful_fetch_at = some now } in
      if status_eq f.status broken
      then set_marked s (
        record f { status = active; consecutive_failures = 0; last_error_code = none },
        transition_feed f active Reason.http_304_recovery,
      )
      else set_feed s f

  unfoldable pub on_not_modified : ℕ → Headers → M Exit
  unfolding return_not_modified
  on_not_modified weekly headers s =
      let s' = mark_not_modified s in
      elim (parse_cache_hint up.parse_date headers now) [
        | raise e ↦ (raise e, s')
        | ok hint ↦ return_not_modified (schedule weekly (record s' { server_hint = hint }))
      ]

  -- the 429 branch, once its header is read
  unfoldable pub wait_for : Option ℕ → M Exit
  unfolding observe_fetch
  wait_for retry_after s =
      let wait_seconds = max (or_default retry_after 0) c.intervals.base_interval_seconds in
      let f = record (s.feed) { last_error_code = some ErrorCode.rate_limited } in
      elim (add_delta now (wait_seconds * second)) [
        | some t ↦
            (ok returned, observe_fetch rate_limited (set_feed s (record f { next_fetch_at = t })))
        | none ↦ (raise (fresh Kind.overflow_error), set_feed s f)
      ]

  -- the 429 branch
  unfoldable pub on_rate_limited : Headers → M Exit
  unfolding wait_for
  on_rate_limited headers s = elim (parse_retry_after up.parse_date (headers "retry-after") now) [
    | raise e ↦ (raise e, s)
    | ok retry_after ↦ wait_for retry_after s
  ]

  -- what follows the request: content type, parsing, storing, success
  unfoldable pub entries_to_upsert : FetchState → List ParsedEntry → List ParsedEntry
  unfolding take any
  entries_to_upsert s entries =
      let capped = take c.max_entries_per_fetch entries in
      if not (any (λ row. row.feed_id == s.feed.id) s.table.rows)
      then take c.max_entries_initial capped
      else capped

  unfoldable pub store_entries : List ParsedEntry → FetchState → FetchState
  unfolding entries_to_upsert
  store_entries entries s = record s {
    table = upsert_entries up.db_now s.feed.id now (entries_to_upsert s entries) s.table;
  }

  unfoldable pub mark_success : Headers → ParsedFeed → FetchState → FetchState
  mark_success headers parsed s =
      let s' = set_marked s (mark_fetch_success s.feed now parsed.title) in
      record s' {
        feed = record (s'.feed) {
          etag = or_kept (headers "etag") s'.feed.etag;
          last_modified = or_kept (headers "last-modified") s'.feed.last_modified;
        };
      }

  unfoldable pub on_body : Headers → List ℕ → M Exit
  on_body headers body s =
      if is_not_a_feed_content_type (headers "content-type")
      then (raise (fresh Kind.not_a_feed), s)
      else let parsed = parse_sync up.to_datetime (up.feedparser body) in
        let s' = mark_success headers parsed (store_entries parsed.entries s) in
        elim (parse_cache_hint up.parse_date headers now) [
          | raise e ↦ (raise e, s')
          | ok hint ↦ (
            ok completed,
            observe_fetch success (record s' { server_hint = with_ttl hint parsed.ttl_seconds }),
          )
        ]

  -- a response that the fallback did not replace: its status, its final URL and its body
  unfoldable pub on_direct : HttpResponse → M Exit
  unfolding any
  on_direct response s = elim (up.raise_for_status response.status_code) [
    | raise e ↦ (raise e, s)
    | ok _ ↦
        let s' =
          if any (λ h. h == 301) response.history
          then set_feed s (record (s.feed) { effective_url = response.url })
          else s in
        elim (read_chunks c.max_bytes [] 0 response.chunks) [
          | raise e ↦ (raise e, s')
          | ok body ↦ on_body response.headers body s'
        ]
  ]

  -- the 403 branch
  unfoldable pub on_forbidden : HttpResponse → Condition → M Exit
  on_forbidden response headers s = elim (fetch_via_impersonation s.feed.effective_url headers) [
    | ok resp ↦
        on_body resp.headers resp.content
          (record s { fallback_hosts = host_of up.network s.feed.effective_url ∷ s.fallback_hosts })
    | raise e ↦ if is_fallback_error e then on_direct response s else (raise e, s)
  ]

  unfoldable pub on_response : ℕ → Condition → HttpResponse → M Exit
  on_response weekly headers response s =
      if response.status_code == 304
      then on_not_modified weekly response.headers s
      else if response.status_code == 429
      then on_rate_limited response.headers s
      else if response.status_code == 403
      then on_forbidden response headers s
      else on_direct response s

  -- the `try` block
  unfoldable pub attempt : ℕ → M Exit
  unfolding any
  attempt weekly s = elim (validate_public_url up.network s.feed.effective_url true) [
    | raise e ↦ (raise e, s)
    | ok _ ↦
        let headers = conditional_headers s.feed in
        if any (codes_eq (host_of up.network s.feed.effective_url)) s.fallback_hosts
        then elim (fetch_via_impersonation s.feed.effective_url headers) [
          | raise e ↦ (raise e, s)
          | ok resp ↦ on_body resp.headers resp.content s
        ]
        else elim (up.stream s.feed.effective_url headers) [
          | raise e ↦ (raise e, s)
          | ok response ↦ on_response weekly headers response s
        ]
  ]

  -- the `except` block
  unfoldable pub on_failure : Exc → FetchState → FetchState
  unfolding observe_fetch
  on_failure exc s =
      let code = classify_error exc in
      observe_fetch (error code) (
        set_marked s
          (mark_fetch_failure s.feed now code c.intervals.broken_threshold c.dead_duration_days))

  -- the `try` statement and the scheduling after it
  unfoldable pub conclude : ℕ → Result Exit × FetchState → Result (Unit {0}) × FetchState
  conclude weekly (ok returned, s) = (ok tt, s)
  conclude weekly (ok completed, s) = schedule weekly s
  conclude weekly (raise e, s) = schedule weekly (on_failure e s)

  unfoldable pub fetch_one : M (Unit {0})
  fetch_one s =
      let s' = record s {
        feed = record (s.feed) { last_attempt_at = some now };
        server_hint = none;
      } in
      elim (sub_delta now (7 * day)) [
        | none ↦ (raise (fresh Kind.overflow_error), s')
        | some cutoff ↦
            let weekly = weekly_entry_count cutoff s' in conclude weekly (attempt weekly s')
      ]
