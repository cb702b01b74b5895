-- ===== src/Http/Outcome.antt =====
-- About `fetch_one` of fetcher/http.py and the feed's lifecycle, stage after stage.
pub mod Stages
use feedgate_fetcher.Prelude.{
  ℕ, ◌<◌, ◌*◌, String, ◌≡◌, refl, Option, none, some, List, Bool, true, false, Bool-cases,
  Option-cases, inl, inr, ◌==◌, any, [], ◌∷◌, if◌then◌else◌,
}
use feedgate_fetcher.Prelude.Time.{day, sub_delta}
use feedgate_fetcher.Prelude.Texts.{codes_eq}
use feedgate_fetcher.Exceptions.{Exc, Result, ok, raise, Result-split}
use feedgate_fetcher.Policy.Headers.{Headers, parse_cache_hint, is_not_a_feed_content_type}
use feedgate_fetcher.Ssrf.{validate_public_url}
use feedgate_fetcher.Parser.{parse_sync}
use feedgate_fetcher.Upsert.{ParsedEntry}
use feedgate_fetcher.Http.{
  Upstream, FetchConfig, FetchState, HttpResponse, FallbackResponse, Condition, Exit, returned,
  completed, with_ttl, set_feed, read_chunks, host_of, conditional_headers, is_fallback_error,
  fetch_via_impersonation, weekly_entry_count, schedule, mark_not_modified, on_not_modified,
  on_rate_limited, store_entries, mark_success, on_body, on_direct, on_forbidden, on_response,
  attempt, on_failure, conclude, fetch_one, return_not_modified, not_modified, success,
}
use Stages.{
  Advances, Advances-trans, Advances-keep, Advances-observe, Advances-hint, schedule-Advances,
  mark_not_modified-Advances, on_rate_limited-Advances, mark_success-Advances, on_failure-Advances,
}

return_not_modified-Advances :
    (n : ℕ) (s : FetchState) (r : Result (Unit {0}) × FetchState)
    → Advances n s r.1
    → Advances n s (return_not_modified r).1
unfolding return_not_modified
return_not_modified-Advances n s (ok u, s') a = Advances-observe n s s' not_modified a
return_not_modified-Advances n s (raise e, s') a = a

module _ (up : Upstream) (c : FetchConfig) (now : ℕ) (n : ℕ) (p : 0 < n) where
  on_not_modified-Advances :
      (weekly : ℕ) (headers : Headers) (s : FetchState)
      → Advances n s (on_not_modified up c now weekly headers s).1
  unfolding on_not_modified
  on_not_modified-Advances weekly headers s =
      let marked = mark_not_modified-Advances up c now n s p in
      elim (Result-split (parse_cache_hint up.parse_date headers now)) [
        | inr (x, e) ↦ rw (e, on_not_modified) marked
        | inl (hint, e) ↦
            let s' = record (mark_not_modified up c now s) { server_hint = hint } in
            rw (e, on_not_modified)
              (return_not_modified-Advances n s (schedule up c now weekly s') (
                Advances-trans n (Advances-hint n s (mark_not_modified up c now s) hint marked)
                  (schedule-Advances up c now n weekly s')))
      ]

  store_entries-Advances :
      (entries : List ParsedEntry) (s : FetchState)
      → Advances n s (store_entries up c now entries s)
  unfolding store_entries
  store_entries-Advances entries s = Advances-keep n s _ refl refl refl refl refl refl

  on_body-Advances :
      (headers : Headers) (body : List ℕ) (s : FetchState)
      → Advances n s (on_body up c now headers body s).1
  unfolding on_body
  on_body-Advances headers body s =
      elim (Bool-cases (is_not_a_feed_content_type (headers "content-type"))) [
        | inl e ↦ rw (e, on_body) (Advances-keep n s s refl refl refl refl refl refl)
        | inr e ↦
            let parsed = parse_sync up.to_datetime (up.feedparser body) in
            let stored = store_entries up c now parsed.entries s in
            let s' = mark_success up c now headers parsed stored in
            let marked =
              Advances-trans n (store_entries-Advances parsed.entries s)
                (mark_success-Advances up c now n headers parsed stored p) in
            elim (Result-split (parse_cache_hint up.parse_date headers now)) [
              | inr (x, f) ↦ rw (e, f, on_body) marked
              | inl (hint, f) ↦
                  let h = with_ttl hint parsed.ttl_seconds in
                  rw (e, f, on_body)
                    (Advances-observe n s (record s' { server_hint = h }) success
                      (Advances-hint n s s' h marked))
            ]
      ]

  -- the row may move to the URL of a permanent redirect
  moved : HttpResponse → FetchState → FetchState
  moved response s =
      if any (λ h. h == 301) response.history
      then set_feed s (record (s.feed) { effective_url = response.url })
      else s

  moved-Advances : (response : HttpResponse) (s : FetchState) → Advances n s (moved response s)
  unfolding moved
  moved-Advances response s = elim (Bool-cases (any (λ h. h == 301) response.history)) [
    | inl e ↦ rw (e, moved) (Advances-keep n s _ refl refl refl refl refl refl)
    | inr e ↦ rw (e, moved) (Advances-keep n s s refl refl refl refl refl refl)
  ]

  on_direct-Advances :
      (response : HttpResponse) (s : FetchState) → Advances n s (on_direct up c now response s).1
  unfolding on_direct moved
  on_direct-Advances response s = elim (Result-split (up.raise_for_status response.status_code)) [
    | inr (e, f) ↦ rw (f, on_direct) (Advances-keep n s s refl refl refl refl refl refl)
    | inl (_, f) ↦ elim (Result-split (read_chunks c.max_bytes [] 0 response.chunks)) [
      | inr (e, g) ↦ rw (f, on_direct) (rw g (moved-Advances response s))
      | inl (body, g) ↦
          rw (f, on_direct)
            (rw g (
              Advances-trans n (moved-Advances response s)
                (on_body-Advances response.headers body (moved response s))))
    ]
  ]

  on_forbidden-Advances :
      (response : HttpResponse) (headers : Condition) (s : FetchState)
      → Advances n s (on_forbidden up c now response headers s).1
  unfolding on_forbidden
  on_forbidden-Advances response headers s =
      elim (Result-split (fetch_via_impersonation up c now s.feed.effective_url headers)) [
        | inl (resp, f) ↦
            let s' = record s {
              fallback_hosts = host_of up.network s.feed.effective_url ∷ s.fallback_hosts;
            } in
            rw (f, on_forbidden)
              (Advances-trans n {b = s'} (Advances-keep n s s' refl refl refl refl refl refl)
                (on_body-Advances resp.headers resp.content s'))
        | inr (e, f) ↦ elim (Bool-cases (is_fallback_error e)) [
          | inl k ↦ rw (f, on_forbidden) (rw k (on_direct-Advances response s))
          | inr k ↦ rw (f, on_forbidden) (rw k (Advances-keep n s s refl refl refl refl refl refl))
        ]
      ]

  on_response-Advances :
      (weekly : ℕ) (headers : Condition) (response : HttpResponse) (s : FetchState)
      → Advances n s (on_response up c now weekly headers response s).1
  unfolding on_response
  on_response-Advances weekly headers response s = elim (Bool-cases (response.status_code == 304)) [
    | inl e ↦ rw e (on_not_modified-Advances weekly response.headers s)
    | inr e ↦ rw e (elim (Bool-cases (response.status_code == 429)) [
      | inl f ↦ rw f (on_rate_limited-Advances up c now n response.headers s)
      | inr f ↦ rw f (elim (Bool-cases (response.status_code == 403)) [
        | inl g ↦ rw g (on_forbidden-Advances response headers s)
        | inr g ↦ rw g (on_direct-Advances response s)
      ])
    ])
  ]

  attempt-Advances : (weekly : ℕ) (s : FetchState) → Advances n s (attempt up c now weekly s).1
  unfolding attempt
  attempt-Advances weekly s =
      let url = s.feed.effective_url in
      let headers = conditional_headers s.feed in
      elim (Result-split (validate_public_url up.network url true)) [
        | inr (e, f) ↦ rw (f, attempt) (Advances-keep n s s refl refl refl refl refl refl)
        | inl (_, f) ↦
            elim (Bool-cases (any (codes_eq (host_of up.network url)) s.fallback_hosts)) [
              | inl k ↦ elim (Result-split (fetch_via_impersonation up c now url headers)) [
                | inr (e, g) ↦
                    rw (f, attempt)
                      (rw k (rw g (Advances-keep n s s refl refl refl refl refl refl)))
                | inl (resp, g) ↦
                    rw (f, attempt) (rw k (rw g (on_body-Advances resp.headers resp.content s)))
              ]
              | inr k ↦ elim (Result-split (up.stream url headers)) [
                | inr (e, g) ↦
                    rw (f, attempt)
                      (rw k (rw g (Advances-keep n s s refl refl refl refl refl refl)))
                | inl (response, g) ↦
                    rw (f, attempt) (rw k (rw g (on_response-Advances weekly headers response s)))
              ]
            ]
      ]

module _ (up : Upstream) (c : FetchConfig) (now : ℕ) where
  conclude-Advances :
      (weekly : ℕ) (s : FetchState) (r : Result Exit × FetchState)
      → Advances c.intervals.broken_threshold s r.1
      → Advances c.intervals.broken_threshold s (conclude up c now weekly r).1
  unfolding conclude
  conclude-Advances weekly s (ok returned, s') a = a
  conclude-Advances weekly s (ok completed, s') a =
      Advances-trans c.intervals.broken_threshold a
        (schedule-Advances up c now c.intervals.broken_threshold weekly s')
  conclude-Advances weekly s (raise e, s') a = Advances-trans c.intervals.broken_threshold a (
      Advances-trans c.intervals.broken_threshold (on_failure-Advances up c now e s')
        (schedule-Advances up c now c.intervals.broken_threshold weekly (on_failure up c now e s')))

  -- With a positive broken threshold, a fetch, whatever the outside world answers, takes the
  -- feed's status along edges of the lifecycle only, each of them logged in order after what was
  -- logged before; it keeps the feed consistent if it was, and keeps its id, URL and creation
  -- time.
  pub fetch_one-Advances :
      (s : FetchState)
      → 0 < c.intervals.broken_threshold
      → Advances c.intervals.broken_threshold s (fetch_one up c now s).1
  unfolding fetch_one
  fetch_one-Advances s p =
      let n = c.intervals.broken_threshold in
      let s' = record s {
        feed = record (s.feed) { last_attempt_at = some now };
        server_hint = none;
      } in
      let start = Advances-keep n s s' refl refl refl refl refl refl in
      elim (Option-cases (sub_delta now (7 * day))) [
        | inl e ↦ rw (e, fetch_one) start
        | inr (cutoff, e) ↦
            let weekly = weekly_entry_count up c now cutoff s' in
            rw (e, fetch_one)
              (Advances-trans n {b = s'} start (
                conclude-Advances weekly s' (attempt up c now weekly s')
                  (attempt-Advances up c now n p weekly s')))
      ]
