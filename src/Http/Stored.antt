-- ===== src/Http/Stored.antt =====
-- About the table of entries under fetcher/http.py: what a fetch, however it ends, makes of it.
use feedgate_fetcher.Prelude.{
  ℕ, ◌*◌, ◌≡◌, refl, ◌∙◌, none, some, List, [], true, Bool-cases, Option-cases, inl, inr, ◌==◌, any,
  ◌∷◌, arith,
}
use feedgate_fetcher.Prelude.Time.{day, sub_delta}
use feedgate_fetcher.Prelude.Texts.{codes_eq}
use feedgate_fetcher.Models.{broken, status_eq}
use feedgate_fetcher.Exceptions.{Result, ok, raise, Result-split}
use feedgate_fetcher.Policy.Headers.{
  Headers, parse_cache_hint, parse_retry_after, is_not_a_feed_content_type,
}
use feedgate_fetcher.Policy.NextFetch.{compute_next_fetch_at}
use feedgate_fetcher.Ssrf.{validate_public_url}
use feedgate_fetcher.Parser.{parse_sync}
use feedgate_fetcher.Upsert.{ParsedEntry, upsert_entries}
use feedgate_fetcher.Http.{
  Upstream, FetchConfig, FetchState, HttpResponse, Condition, Exit, returned, completed, set_feed,
  read_chunks, host_of, conditional_headers, is_fallback_error, fetch_via_impersonation,
  weekly_entry_count, schedule, mark_not_modified, return_not_modified, on_not_modified, wait_for,
  on_rate_limited, store_entries, entries_to_upsert, mark_success, on_body, on_direct, on_forbidden,
  on_response, attempt, on_failure, conclude, fetch_one, observe_fetch,
}

module _ (up : Upstream) (c : FetchConfig) (now : ℕ) where
  -- the table after a fetch of the feed of `s` is that of `s` with a batch of this feed's entries
  pub record Stored (s s' : FetchState) : Type 0 where
    pub entries : List ParsedEntry
    pub stored : s'.table ≡ upsert_entries up.db_now s.feed.id now entries s.table

  Stored-none : (s s' : FetchState) → s'.table ≡ s.table → Stored s s'
  unfolding upsert_entries
  Stored-none s s' e = record { entries = []; stored = e }

  Stored-then : (s a b : FetchState) → Stored s a → b.table ≡ a.table → Stored s b
  Stored-then s a b h e = record { entries = h.entries; stored = e ∙ h.stored }

  schedule-table : (weekly : ℕ) (s : FetchState) → (schedule up c now weekly s).1.table ≡ s.table
  unfolding schedule
  schedule-table weekly s =
      elim (Result-split
        (compute_next_fetch_at s.feed now c.intervals up.draw s.server_hint weekly)) [
          | inl (t, f) ↦ rw (f, schedule) refl
          | inr (e, f) ↦ rw (f, schedule) refl
        ]

  mark_not_modified-table : (s : FetchState) → (mark_not_modified up c now s).table ≡ s.table
  unfolding mark_not_modified
  mark_not_modified-table s = elim (Bool-cases (status_eq s.feed.status broken)) [
    | inl e ↦ rw (e, mark_not_modified) refl
    | inr e ↦ rw (e, mark_not_modified) refl
  ]

  return_not_modified-table :
      (r : Result (Unit {0}) × FetchState) → (return_not_modified r).1.table ≡ r.1.table
  unfolding return_not_modified observe_fetch
  return_not_modified-table (ok u, s) = refl
  return_not_modified-table (raise e, s) = refl

  on_not_modified-table :
      (weekly : ℕ) (headers : Headers) (s : FetchState)
      → (on_not_modified up c now weekly headers s).1.table ≡ s.table
  unfolding on_not_modified
  on_not_modified-table weekly headers s =
      elim (Result-split (parse_cache_hint up.parse_date headers now)) [
        | inr (x, e) ↦ rw (e, on_not_modified) (mark_not_modified-table s)
        | inl (hint, e) ↦
            let s' = record (mark_not_modified up c now s) { server_hint = hint } in
            rw (e, on_not_modified)
              (return_not_modified-table (schedule up c now weekly s')
                ∙ schedule-table weekly s'
                ∙ mark_not_modified-table s)
      ]

  on_rate_limited-table :
      (headers : Headers) (s : FetchState) → (on_rate_limited up c now headers s).1.table ≡ s.table
  unfolding on_rate_limited wait_for observe_fetch
  on_rate_limited-table headers s =
      elim (Result-split (parse_retry_after up.parse_date (headers "retry-after") now)) [
        | inr (x, e) ↦ rw (e, on_rate_limited) refl
        | inl (retry_after, e) ↦ rw (e, on_rate_limited) (ground arith)
      ]

  on_body-Stored :
      (headers : Headers) (body : List ℕ) (s : FetchState)
      → Stored s (on_body up c now headers body s).1
  unfolding on_body store_entries mark_success observe_fetch
  on_body-Stored headers body s =
      elim (Bool-cases (is_not_a_feed_content_type (headers "content-type"))) [
        | inl e ↦ rw (e, on_body) (Stored-none s s refl)
        | inr e ↦
            let parsed = parse_sync up.to_datetime (up.feedparser body) in
            elim (Result-split (parse_cache_hint up.parse_date headers now)) [
              | inr (x, f) ↦
                  rw (e, f, on_body)
                    (record {
                      entries = entries_to_upsert up c now s parsed.entries;
                      stored = refl;
                    })
              | inl (hint, f) ↦
                  rw (e, f, on_body)
                    (record {
                      entries = entries_to_upsert up c now s parsed.entries;
                      stored = refl;
                    })
            ]
      ]

  -- the same from a state with the same feed id and table
  Stored-from :
      (s a b : FetchState) → a.feed.id ≡ s.feed.id → a.table ≡ s.table → Stored a b → Stored s b
  Stored-from s a b i t h = record { entries = h.entries; stored = h.stored ∙ rw (i, t) refl }

  on_direct-Stored :
      (response : HttpResponse) (s : FetchState) → Stored s (on_direct up c now response s).1
  unfolding on_direct
  on_direct-Stored response s = elim (Result-split (up.raise_for_status response.status_code)) [
    | inr (e, f) ↦ rw (f, on_direct) (Stored-none s s refl)
    | inl (_, f) ↦ elim (Bool-cases (any (λ h. h == 301) response.history)) [
      | inl k ↦
          let moved = set_feed s (record (s.feed) { effective_url = response.url }) in
          elim (Result-split (read_chunks c.max_bytes [] 0 response.chunks)) [
            | inr (e, g) ↦ rw (f, on_direct) (rw (g, k) (Stored-none s moved refl))
            | inl (body, g) ↦
                rw (f, on_direct)
                  (rw (g, k)
                    (Stored-from s moved (on_body up c now response.headers body moved).1 refl refl
                      (on_body-Stored response.headers body moved)))
          ]
      | inr k ↦ elim (Result-split (read_chunks c.max_bytes [] 0 response.chunks)) [
        | inr (e, g) ↦ rw (f, on_direct) (rw (g, k) (Stored-none s s refl))
        | inl (body, g) ↦ rw (f, on_direct) (rw (g, k) (on_body-Stored response.headers body s))
      ]
    ]
  ]

  on_forbidden-Stored :
      (response : HttpResponse) (headers : Condition) (s : FetchState)
      → Stored s (on_forbidden up c now response headers s).1
  unfolding on_forbidden
  on_forbidden-Stored response headers s =
      elim (Result-split (fetch_via_impersonation up c now s.feed.effective_url headers)) [
        | inl (resp, f) ↦
            let known = record s {
              fallback_hosts = host_of up.network s.feed.effective_url ∷ s.fallback_hosts;
            } in
            rw (f, on_forbidden)
              (Stored-from s known (on_body up c now resp.headers resp.content known).1 refl refl
                (on_body-Stored resp.headers resp.content known))
        | inr (e, f) ↦ elim (Bool-cases (is_fallback_error e)) [
          | inl k ↦ rw (f, on_forbidden) (rw k (on_direct-Stored response s))
          | inr k ↦ rw (f, on_forbidden) (rw k (Stored-none s s refl))
        ]
      ]

  on_response-Stored :
      (weekly : ℕ) (headers : Condition) (response : HttpResponse) (s : FetchState)
      → Stored s (on_response up c now weekly headers response s).1
  unfolding on_response
  on_response-Stored weekly headers response s = elim (Bool-cases (response.status_code == 304)) [
    | inl e ↦ rw e (Stored-none s _ (on_not_modified-table weekly response.headers s))
    | inr e ↦ rw e (elim (Bool-cases (response.status_code == 429)) [
      | inl f ↦ rw f (Stored-none s _ (on_rate_limited-table response.headers s))
      | inr f ↦ rw f (elim (Bool-cases (response.status_code == 403)) [
        | inl g ↦ rw g (on_forbidden-Stored response headers s)
        | inr g ↦ rw g (on_direct-Stored response s)
      ])
    ])
  ]

  attempt-Stored : (weekly : ℕ) (s : FetchState) → Stored s (attempt up c now weekly s).1
  unfolding attempt
  attempt-Stored weekly s =
      let url = s.feed.effective_url in
      let headers = conditional_headers s.feed in
      elim (Result-split (validate_public_url up.network url true)) [
        | inr (e, f) ↦ rw (f, attempt) (Stored-none s s refl)
        | inl (_, f) ↦
            elim (Bool-cases (any (codes_eq (host_of up.network url)) s.fallback_hosts)) [
              | inl k ↦ elim (Result-split (fetch_via_impersonation up c now url headers)) [
                | inr (e, g) ↦ rw (f, attempt) (rw k (rw g (Stored-none s s refl)))
                | inl (resp, g) ↦
                    rw (f, attempt) (rw k (rw g (on_body-Stored resp.headers resp.content s)))
              ]
              | inr k ↦ elim (Result-split (up.stream url headers)) [
                | inr (e, g) ↦ rw (f, attempt) (rw k (rw g (Stored-none s s refl)))
                | inl (response, g) ↦
                    rw (f, attempt) (rw k (rw g (on_response-Stored weekly headers response s)))
              ]
            ]
      ]

  conclude-Stored :
      (weekly : ℕ) (s : FetchState) (r : Result Exit × FetchState)
      → Stored s r.1
      → Stored s (conclude up c now weekly r).1
  unfolding conclude
  conclude-Stored weekly s (ok returned, s') h = h
  conclude-Stored weekly s (ok completed, s') h =
      Stored-then s s' (schedule up c now weekly s').1 h (schedule-table weekly s')
  conclude-Stored weekly s (raise e, s') h =
      let failed = on_failure up c now e s' in
      Stored-then s s' (schedule up c now weekly failed).1 h
        (unfold on_failure observe_fetch in schedule-table weekly failed)

  -- A fetch, whatever the outside world answers and also where it raises, has done nothing to the
  -- table of entries but store some batch of entries of its own feed.
  pub fetch_one-Stored : (s : FetchState) → Stored s (fetch_one up c now s).1
  unfolding fetch_one
  fetch_one-Stored s =
      let s' = record s {
        feed = record (s.feed) { last_attempt_at = some now };
        server_hint = none;
      } in
      elim (Option-cases (sub_delta now (7 * day))) [
        | inl e ↦ rw (e, fetch_one) (Stored-none s s' refl)
        | inr (cutoff, e) ↦
            let weekly = weekly_entry_count up c now cutoff s' in
            rw (e, fetch_one)
              (Stored-from s s' (conclude up c now weekly (attempt up c now weekly s')).1 refl refl
                (conclude-Stored weekly s' (attempt up c now weekly s') (attempt-Stored weekly s')))
      ]
