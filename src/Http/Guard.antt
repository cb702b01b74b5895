-- ===== src/Http/Guard.antt =====
-- About the place of `validate_public_url` in fetcher/http.py and fetcher/fallback.py: two
-- outside worlds that answer differently.
use feedgate_fetcher.Prelude.{
  ℕ, String, ◌≡◌, refl, ap, ◌∙◌, none, some, List, true, Bool-cases, Option-cases, inl, inr, ◌*◌,
  any,
}
use feedgate_fetcher.Prelude.Texts.{codes_eq}
use feedgate_fetcher.Prelude.Time.{day, sub_delta}
use feedgate_fetcher.Exceptions.{Result, ok, raise, Result-split}
use feedgate_fetcher.Policy.Headers.{Headers}
use feedgate_fetcher.Ssrf.{validate_public_url}
use feedgate_fetcher.Http.{
  Upstream, FetchConfig, FetchState, HttpResponse, FallbackResponse, Condition, Exit, returned,
  completed, host_of, conditional_headers, curl_fetch, max_redirects, fetch_via_impersonation,
  weekly_entry_count, schedule, mark_not_modified, on_not_modified, on_rate_limited, store_entries,
  mark_success, on_body, on_direct, on_forbidden, on_response, attempt, on_failure, conclude,
  fetch_one,
}

module _ (up : Upstream) (curl_get : String → Condition → ℕ → Result FallbackResponse)
    (stream : String → Condition → Result HttpResponse) (c : FetchConfig) (now : ℕ) where
  -- the same world with other answers to requests
  abbrev other : Upstream
  other = record up { stream = stream; curl_get = curl_get }

  abbrev AgreesOnStream : Type 0
  AgreesOnStream =
      (url : String) (headers : Condition)
      → validate_public_url up.network url true ≡ ok tt
      → up.stream url headers ≡ stream url headers

  abbrev AgreesOnCurl : Type 0
  AgreesOnCurl =
      (url : String) (headers : Condition)
      → validate_public_url up.network url true ≡ ok tt
      → up.curl_get url headers max_redirects ≡ curl_get url headers max_redirects

  fetch_via_impersonation-other :
      AgreesOnCurl
      → (url : String) (headers : Condition)
      → fetch_via_impersonation up c now url headers
        ≡ fetch_via_impersonation
            (record up { stream = stream; curl_get = curl_get })
            c
            now
            url
            headers
  unfolding fetch_via_impersonation curl_fetch
  fetch_via_impersonation-other same url headers =
      elim (Result-split (validate_public_url up.network url true)) [
        | inr (e, f) ↦ rw f refl
        | inl (_, f) ↦ rw (f, same url headers f) refl
      ]

  on_body-other :
      (headers : Headers) (body : List ℕ) (s : FetchState)
      → on_body up c now headers body s ≡ on_body other c now headers body s
  unfolding on_body mark_success store_entries
  on_body-other headers body s = refl

  on_direct-other :
      (response : HttpResponse) (s : FetchState)
      → on_direct up c now response s ≡ on_direct other c now response s
  unfolding on_direct on_body store_entries mark_success
  on_direct-other response s = refl

  on_forbidden-other :
      AgreesOnCurl
      → (response : HttpResponse) (headers : Condition) (s : FetchState)
      → on_forbidden up c now response headers s ≡ on_forbidden other c now response headers s
  unfolding on_forbidden on_direct on_body store_entries mark_success
  on_forbidden-other same response headers s =
      rw (fetch_via_impersonation-other same s.feed.effective_url headers, on_forbidden) refl

  schedule-other :
      (weekly : ℕ) (s : FetchState) → schedule up c now weekly s ≡ schedule other c now weekly s
  unfolding schedule
  schedule-other weekly s = refl

  on_response-other :
      AgreesOnCurl
      → (weekly : ℕ) (headers : Condition) (response : HttpResponse) (s : FetchState)
      → on_response up c now weekly headers response s
        ≡ on_response other c now weekly headers response s
  unfolding on_response on_not_modified on_rate_limited schedule mark_not_modified
  on_response-other same weekly headers response s =
      rw (on_forbidden-other same response headers s, on_direct-other response s) refl

  attempt-other :
      AgreesOnStream
      → AgreesOnCurl
      → (weekly : ℕ) (s : FetchState) → attempt up c now weekly s ≡ attempt other c now weekly s
  unfolding attempt
  attempt-other on_stream on_curl weekly s =
      let url = s.feed.effective_url in
      let headers = conditional_headers s.feed in
      elim (Result-split (validate_public_url up.network url true)) [
        | inr (e, f) ↦ rw (f, attempt) refl
        | inl (_, f) ↦
            elim (Bool-cases (any (codes_eq (host_of up.network url)) s.fallback_hosts)) [
              | inl k ↦
                  rw (f, attempt)
                    (rw k (
                      rw (fetch_via_impersonation-other on_curl url headers)
                        (elim (Result-split (fetch_via_impersonation other c now url headers)) [
                          | inl (resp, g) ↦ rw g (on_body-other resp.headers resp.content s)
                          | inr (e, g) ↦ rw g refl
                        ])))
              | inr k ↦
                  rw (f, attempt)
                    (rw k (
                      rw (on_stream url headers f) (elim (Result-split (stream url headers)) [
                        | inl (response, g) ↦
                            rw g (on_response-other on_curl weekly headers response s)
                        | inr (e, g) ↦ rw g refl
                      ])))
            ]
      ]

  conclude-other :
      (weekly : ℕ) (r : Result Exit × FetchState)
      → conclude up c now weekly r ≡ conclude other c now weekly r
  unfolding conclude on_failure
  conclude-other weekly (ok returned, s) = refl
  conclude-other weekly (ok completed, s) = schedule-other weekly s
  conclude-other weekly (raise e, s) = schedule-other weekly (on_failure up c now e s)

  -- Two outside worlds that differ only in what the HTTP client and the fallback answer, and agree
  -- on what they give for each URL that passes the address check with resolution, give the same
  -- fetch. Redirects that the fallback follows by itself, without a check, belong to what it gives
  -- for the URL that it was asked for.
  pub fetch_one-guarded :
      AgreesOnStream
      → AgreesOnCurl
      → (s : FetchState)
      → fetch_one up c now s
        ≡ fetch_one (record up { stream = stream; curl_get = curl_get }) c now s
  unfolding fetch_one weekly_entry_count
  fetch_one-guarded on_stream on_curl s =
      let s' = record s {
        feed = record (s.feed) { last_attempt_at = some now };
        server_hint = none;
      } in
      elim (Option-cases (sub_delta now (7 * day))) [
        | inl e ↦ rw (e, fetch_one) refl
        | inr (cutoff, e) ↦
            let weekly = weekly_entry_count up c now cutoff s' in
            rw (e, fetch_one)
              (ap (conclude up c now weekly) (attempt-other on_stream on_curl weekly s')
                ∙ conclude-other weekly (attempt other c now weekly s'))
      ]
