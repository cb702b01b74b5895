-- ===== src/Http/Reports.antt =====
-- About the calls of `observe_fetch` in fetcher/http.py: what a label says of the feed and the
-- table.
use feedgate_fetcher.Prelude.{
  ℕ, String, Option, ◌⊎◌, ◌+◌, ◌-◌, ◌*◌, ◌≤◌, max, ◌≡◌, refl, ap, ◌∙◌, none, some, List, [], ◌∷◌,
  ◌++◌, true, Bool-cases, Option-cases, inl, inr, ◌==◌, any, arith,
}
use feedgate_fetcher.Prelude.Time.{day, second, add_delta, add_delta-late, sub_delta-eq-some}
use feedgate_fetcher.Prelude.Texts.{codes, codes_eq}
use feedgate_fetcher.Models.{ErrorCode, active, broken, status_eq}
use feedgate_fetcher.FeedState.{or_default}
use feedgate_fetcher.FeedState.Lifecycle.{mark_fetch_success_lem, mark_fetch_failure-code}
use feedgate_fetcher.Errors.{classify_error}
use feedgate_fetcher.Exceptions.{Kind, Exc, Result, ok, raise, fresh, Result-split}
use feedgate_fetcher.Policy.Headers.{
  Headers, overflowed, is_not_a_feed_content_type, parse_retry_after, parse_cache_hint,
}
use feedgate_fetcher.Policy.Headers.Delays.{Overflows, parse_cache_hint-raise}
use feedgate_fetcher.Upsert.{ParsedEntry, upsert_entries}
use feedgate_fetcher.Policy.NextFetch.{compute_next_fetch_at}
use feedgate_fetcher.Ssrf.{validate_public_url}
use feedgate_fetcher.Parser.{parse_sync}
use feedgate_fetcher.Http.{
  Upstream, FetchConfig, FetchState, HttpResponse, Condition, Observation, success, not_modified,
  rate_limited, error, Exit, returned, completed, set_feed, read_chunks, host_of,
  conditional_headers, is_fallback_error, fetch_via_impersonation, weekly_entry_count, schedule,
  mark_not_modified, return_not_modified, on_not_modified, wait_for, on_rate_limited, store_entries,
  entries_to_upsert, mark_success, on_body, on_direct, on_forbidden, on_response, attempt,
  on_failure, conclude, fetch_one, observe_fetch,
}

module _ (up : Upstream) (c : FetchConfig) (now : ℕ) where
  -- What happened where entries were stored and the fetch failed all the same: the date of an `Expires`
  -- overflowed, and nobody caught it.
  pub record Overflowed (code : ErrorCode) (s s' : FetchState) : Type 0 where
    pub other_code : code ≡ ErrorCode.other
    pub expires : String
    pub overflows : up.parse_date (codes expires) ≡ overflowed
    pub entries : List ParsedEntry
    pub stored : s'.table ≡ upsert_entries up.db_now s.feed.id now entries s.table

  -- What a label says of the state after the fetch, against the state before it.
  abbrev pub Report : FetchState → Observation → FetchState → Type 0
  Report s success s' =
      (s'.feed.status ≡ active)
      × (s'.feed.consecutive_failures ≡ 0)
      × (s'.feed.last_error_code ≡ none)
      × (s'.feed.last_successful_fetch_at ≡ some now)
  Report s not_modified s' = (s'.table ≡ s.table) × (s'.feed.last_successful_fetch_at ≡ some now)
  Report s rate_limited s' =
      (s'.table ≡ s.table)
      × (s'.feed.status ≡ s.feed.status)
      × (s'.feed.consecutive_failures ≡ s.feed.consecutive_failures)
      × (s'.feed.last_successful_fetch_at ≡ s.feed.last_successful_fetch_at)
      × (s'.feed.last_error_code ≡ some ErrorCode.rate_limited)
      × (now + c.intervals.base_interval_seconds * second ≤ s'.feed.next_fetch_at)
  Report s (error code) s' =
      (s'.feed.last_error_code ≡ some code) × ((s'.table ≡ s.table) ⊎ Overflowed code s s')

  pub record Reports (s s' : FetchState) : Type 0 where
    pub label : Observation
    pub counted : s'.observed ≡ s.observed ++ label ∷ []
    pub report : Report s label s'

  -- the same of the `try` block alone: nothing is counted before it raises
  abbrev TryReports : FetchState → Result Exit × FetchState → Type 0
  TryReports s (ok returned, s') = Reports s s'
  TryReports s (ok completed, s') = (s'.observed ≡ s.observed ++ success ∷ []) × Report s success s'
  TryReports s (raise e, s') =
      (s'.observed ≡ s.observed) × ((s'.table ≡ s.table) ⊎ Overflowed (classify_error e) s s')

  schedule-kept :
      (weekly : ℕ) (s : FetchState)
      → ((schedule up c now weekly s).1.observed ≡ s.observed)
        × ((schedule up c now weekly s).1.table ≡ s.table)
        × ((schedule up c now weekly s).1.feed.status ≡ s.feed.status)
        × ((schedule up c now weekly s).1.feed.consecutive_failures ≡ s.feed.consecutive_failures)
        × ((schedule up c now weekly s).1.feed.last_error_code ≡ s.feed.last_error_code)
        × ((schedule up c now weekly s).1.feed.last_successful_fetch_at
            ≡ s.feed.last_successful_fetch_at)
  unfolding schedule
  schedule-kept weekly s =
      elim (Result-split
        (compute_next_fetch_at s.feed now c.intervals up.draw s.server_hint weekly)) [
          | inl (t, e) ↦ rw (e, schedule) (refl, refl, refl, refl, refl, refl)
          | inr (e, f) ↦ rw (f, schedule) (refl, refl, refl, refl, refl, refl)
        ]

  mark_not_modified-kept :
      (s : FetchState)
      → ((mark_not_modified up c now s).observed ≡ s.observed)
        × ((mark_not_modified up c now s).table ≡ s.table)
        × ((mark_not_modified up c now s).feed.last_successful_fetch_at ≡ some now)
  unfolding mark_not_modified
  mark_not_modified-kept s = elim (Bool-cases (status_eq s.feed.status broken)) [
    | inl e ↦ rw (e, mark_not_modified) (refl, refl, refl)
    | inr e ↦ rw (e, mark_not_modified) (refl, refl, refl)
  ]

  return_not_modified-TryReports :
      (s : FetchState) (r : Result (Unit {0}) × FetchState)
      → r.1.observed ≡ s.observed
      → r.1.table ≡ s.table
      → r.1.feed.last_successful_fetch_at ≡ some now
      → TryReports s (return_not_modified r)
  unfolding return_not_modified
  return_not_modified-TryReports s (ok u, s') o t l = record {
    label = not_modified;
    counted = ap (λ x. x ++ not_modified ∷ []) o;
    report = (t, l);
  }
  return_not_modified-TryReports s (raise e, s') o t l = (o, inl t)

  on_not_modified-TryReports :
      (weekly : ℕ) (headers : Headers) (s : FetchState)
      → TryReports s (on_not_modified up c now weekly headers s)
  unfolding on_not_modified
  on_not_modified-TryReports weekly headers s =
      let (o, t, l) = mark_not_modified-kept s in
      elim (Result-split (parse_cache_hint up.parse_date headers now)) [
        | inr (x, e) ↦ rw (e, on_not_modified) (o, inl t)
        | inl (hint, e) ↦
            let hinted = record (mark_not_modified up c now s) { server_hint = hint } in
            let (o', t', _, _, _, l') = schedule-kept weekly hinted in
            rw (e, on_not_modified)
              (return_not_modified-TryReports s (schedule up c now weekly hinted) (o' ∙ o) (t' ∙ t)
                (l' ∙ l))
      ]

  wait_for-TryReports :
      (retry_after : Option ℕ) (s : FetchState) → TryReports s (wait_for up c now retry_after s)
  unfolding wait_for observe_fetch
  wait_for-TryReports retry_after s =
      let wait_seconds = max (or_default retry_after 0) c.intervals.base_interval_seconds in
      elim (Option-cases (add_delta now (wait_seconds * second))) [
        | inl e ↦ rw (e, wait_for) (refl, inl refl)
        | inr (t, e) ↦
            rw (e, wait_for)
              (record {
                label = rate_limited;
                counted = refl;
                report = (
                  refl,
                  refl,
                  refl,
                  refl,
                  refl,
                  omega (arith, add_delta-late now (wait_seconds * second) t e),
                );
              })
      ]

  on_rate_limited-TryReports :
      (headers : Headers) (s : FetchState) → TryReports s (on_rate_limited up c now headers s)
  unfolding on_rate_limited
  on_rate_limited-TryReports headers s =
      elim (Result-split (parse_retry_after up.parse_date (headers "retry-after") now)) [
        | inr (x, e) ↦ rw (e, on_rate_limited) (refl, inl refl)
        | inl (retry_after, e) ↦ rw (e, on_rate_limited) (wait_for-TryReports retry_after s)
      ]

  overflow-stored :
      (headers : Headers) (entries : List ParsedEntry) (s0 s s' : FetchState) (x : Exc)
      → s.table ≡ s0.table
      → s.feed.id ≡ s0.feed.id
      → Overflows up.parse_date (headers "expires") × (x ≡ fresh Kind.overflow_error)
      → s'.table ≡ (store_entries up c now entries s).table
      → Overflowed (classify_error x) s0 s'
  unfolding store_entries classify_error
  overflow-stored headers entries s0 s s' x t i ((expires, _, o), same) e = record {
    other_code = ap classify_error same;
    expires = expires;
    overflows = o;
    entries = entries_to_upsert up c now s entries;
    stored = e ∙ rw (i, t) refl;
  }

  -- `s` is where the `try` block has come to, with nothing counted or stored since `s0`
  on_body-TryReports :
      (headers : Headers) (body : List ℕ) (s0 s : FetchState)
      → s.observed ≡ s0.observed
      → s.table ≡ s0.table
      → s.feed.id ≡ s0.feed.id
      → TryReports s0 (on_body up c now headers body s)
  unfolding on_body observe_fetch store_entries mark_success
  on_body-TryReports headers body s0 s o t i =
      elim (Bool-cases (is_not_a_feed_content_type (headers "content-type"))) [
        | inl e ↦ rw (e, on_body) (o, inl t)
        | inr e ↦
            let parsed = parse_sync up.to_datetime (up.feedparser body) in
            elim (Result-split (parse_cache_hint up.parse_date headers now)) [
              | inl (hint, f) ↦
                  rw (e, f, on_body)
                    (ap (λ x. x ++ success ∷ []) o, mark_fetch_success_lem s.feed now parsed.title)
              | inr (x, f) ↦
                  rw (e, f, on_body)
                    (
                      o,
                      inr (
                          overflow-stored headers parsed.entries s0 s _ x t i
                            (parse_cache_hint-raise up.parse_date now headers x f) refl),
                    )
            ]
      ]

  on_direct-TryReports :
      (response : HttpResponse) (s : FetchState) → TryReports s (on_direct up c now response s)
  unfolding on_direct
  on_direct-TryReports response s = elim (Result-split (up.raise_for_status response.status_code)) [
    | inr (e, f) ↦ rw (f, on_direct) (refl, inl refl)
    | inl (_, f) ↦ elim (Bool-cases (any (λ h. h == 301) response.history)) [
      | inl k ↦ elim (Result-split (read_chunks c.max_bytes [] 0 response.chunks)) [
        | inr (e, g) ↦ rw (f, on_direct) (rw (g, k) (refl, inl refl))
        | inl (body, g) ↦
            rw (f, on_direct)
              (rw (g, k)
                (on_body-TryReports response.headers body s
                  (set_feed s (record (s.feed) { effective_url = response.url })) refl refl refl))
      ]
      | inr k ↦ elim (Result-split (read_chunks c.max_bytes [] 0 response.chunks)) [
        | inr (e, g) ↦ rw (f, on_direct) (rw (g, k) (refl, inl refl))
        | inl (body, g) ↦
            rw (f, on_direct)
              (rw (g, k) (on_body-TryReports response.headers body s s refl refl refl))
      ]
    ]
  ]

  on_forbidden-TryReports :
      (response : HttpResponse) (headers : Condition) (s : FetchState)
      → TryReports s (on_forbidden up c now response headers s)
  unfolding on_forbidden
  on_forbidden-TryReports response headers s =
      elim (Result-split (fetch_via_impersonation up c now s.feed.effective_url headers)) [
        | inl (resp, f) ↦
            rw (f, on_forbidden)
              (on_body-TryReports resp.headers resp.content s
                (record s {
                  fallback_hosts = host_of up.network s.feed.effective_url ∷ s.fallback_hosts;
                })
                refl refl refl)
        | inr (e, f) ↦ elim (Bool-cases (is_fallback_error e)) [
          | inl k ↦ rw (f, on_forbidden) (rw k (on_direct-TryReports response s))
          | inr k ↦ rw (f, on_forbidden) (rw k (refl, inl refl))
        ]
      ]

  on_response-TryReports :
      (weekly : ℕ) (headers : Condition) (response : HttpResponse) (s : FetchState)
      → TryReports s (on_response up c now weekly headers response s)
  unfolding on_response
  on_response-TryReports weekly headers response s =
      elim (Bool-cases (response.status_code == 304)) [
        | inl e ↦ rw e (on_not_modified-TryReports weekly response.headers s)
        | inr e ↦ rw e (elim (Bool-cases (response.status_code == 429)) [
          | inl f ↦ rw f (on_rate_limited-TryReports response.headers s)
          | inr f ↦ rw f (elim (Bool-cases (response.status_code == 403)) [
            | inl g ↦ rw g (on_forbidden-TryReports response headers s)
            | inr g ↦ rw g (on_direct-TryReports response s)
          ])
        ])
      ]

  attempt-TryReports : (weekly : ℕ) (s : FetchState) → TryReports s (attempt up c now weekly s)
  unfolding attempt
  attempt-TryReports weekly s =
      let url = s.feed.effective_url in
      let headers = conditional_headers s.feed in
      elim (Result-split (validate_public_url up.network url true)) [
        | inr (e, f) ↦ rw (f, attempt) (refl, inl refl)
        | inl (_, f) ↦
            elim (Bool-cases (any (codes_eq (host_of up.network url)) s.fallback_hosts)) [
              | inl k ↦ elim (Result-split (fetch_via_impersonation up c now url headers)) [
                | inr (e, g) ↦ rw (f, attempt) (rw k (rw g (refl, inl refl)))
                | inl (resp, g) ↦
                    rw (f, attempt)
                      (rw k
                        (rw g (on_body-TryReports resp.headers resp.content s s refl refl refl)))
              ]
              | inr k ↦ elim (Result-split (up.stream url headers)) [
                | inr (e, g) ↦ rw (f, attempt) (rw k (rw g (refl, inl refl)))
                | inl (response, g) ↦
                    rw (f, attempt) (rw k (rw g (on_response-TryReports weekly headers response s)))
              ]
            ]
      ]

  on_failure-kept :
      (e : Exc) (s : FetchState)
      → ((on_failure up c now e s).observed ≡ s.observed ++ error (classify_error e) ∷ [])
        × ((on_failure up c now e s).table ≡ s.table)
        × ((on_failure up c now e s).feed.last_error_code ≡ some (classify_error e))
  unfolding on_failure
  on_failure-kept e s = (
    refl,
    refl,
    mark_fetch_failure-code s.feed now (classify_error e) c.intervals.broken_threshold
        c.dead_duration_days,
  )

  conclude-Reports :
      (weekly : ℕ) (s : FetchState) (r : Result Exit × FetchState)
      → TryReports s r
      → Reports s (conclude up c now weekly r).1
  unfolding conclude
  conclude-Reports weekly s (ok returned, s') h = h
  conclude-Reports weekly s (ok completed, s') (o, r) =
      let (o', t', st, cf, ec, l) = schedule-kept weekly s' in
      record { label = success; counted = o' ∙ o; report = (st ∙ r.0, cf ∙ r.1, ec ∙ r.2, l ∙ r.3) }
  conclude-Reports weekly s (raise e, s') (o, t) =
      let (o1, t1, ec1) = on_failure-kept e s' in
      let (o', t', st, cf, ec, l) = schedule-kept weekly (on_failure up c now e s') in
      record {
        label = error (classify_error e);
        counted = o' ∙ o1 ∙ ap (λ x. x ++ error (classify_error e) ∷ []) o;
        report = (
          ec ∙ ec1,
          elim t [
            | inl same ↦ inl (t' ∙ t1 ∙ same)
            | inr late ↦ inr (record {
              other_code = late.other_code;
              expires = late.expires;
              overflows = late.overflows;
              entries = late.entries;
              stored = t' ∙ t1 ∙ late.stored;
            })
          ],
        );
      }

  -- what a fetch sets before its `try` block does not show in the report
  from_start :
      (s s' : FetchState)
      → Reports
          (record s { feed = record (s.feed) { last_attempt_at = some now }; server_hint = none })
          s'
      → Reports s s'
  from_start s s' r = record {
    label = r.label;
    counted = r.counted;
    report = same r.label r.report;
  }
    where
      same :
          (label : Observation)
          → Report
              (record s {
                feed = record (s.feed) { last_attempt_at = some now };
                server_hint = none;
              })
              label
              s'
          → Report s label s'
      same success h = h
      same not_modified h = h
      same rate_limited h = h
      same (error code) (ec, inl t) = (ec, inl t)
      same (error code) (ec, inr late) = (
        ec,
        inr (record {
          other_code = late.other_code;
          expires = late.expires;
          overflows = late.overflows;
          entries = late.entries;
          stored = late.stored;
        }),
      )

  -- When the clock is at least seven days after the first instant, a fetch counts exactly one
  -- observation, and its label tells what happened: `success`, the feed is active, without
  -- failures or error code, and its success time is now; `not_modified`, the table is unchanged
  -- and the success time is now; `rate_limited`, the table, the status, the failure count and the
  -- success time are unchanged, the error code is `rate_limited` and the next fetch is at least
  -- one base interval ahead; an error, that error is the feed's error code, and the table is
  -- unchanged, unless the date of an `Expires` overflows: then the error code is `other`, and a
  -- batch of entries of the feed may have been stored.
  pub fetch_one-Reports : (s : FetchState) → 7 * day ≤ now → Reports s (fetch_one up c now s).1
  unfolding fetch_one
  fetch_one-Reports s h =
      let s' = record s {
        feed = record (s.feed) { last_attempt_at = some now };
        server_hint = none;
      } in
      let weekly = weekly_entry_count up c now (now - 7 * day) s' in
      rw (sub_delta-eq-some now (7 * day) h, fetch_one)
        (from_start s (conclude up c now weekly (attempt up c now weekly s')).1
          (conclude-Reports weekly s' (attempt up c now weekly s') (attempt-TryReports weekly s')))
