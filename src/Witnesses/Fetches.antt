-- ===== src/Witnesses/Fetches.antt =====
-- A fetch at concrete inputs.
use feedgate_fetcher.Prelude.{
  ℕ, String, ◌≡◌, ◌∙◌, subst, sym, refl, [], ◌∷◌, true, arith, map, if◌then◌else◌, inl, inr,
  Bool-cases,
}
use feedgate_fetcher.Exceptions.{Result, ok, raise, fresh, response_too_large, blocked_url, other}
use feedgate_fetcher.Http.{HttpResponse, FallbackResponse, Condition, bytes, read_chunks, fetch_one}
use feedgate_fetcher.Http.Body.{read_chunks_lem}
use feedgate_fetcher.Http.Outcome.{fetch_one-Advances}
use feedgate_fetcher.Http.Outcome.Stages.{Advances}
use feedgate_fetcher.Http.Reports.{Reports, fetch_one-Reports}
use feedgate_fetcher.Http.Guard.{fetch_one-guarded}
use feedgate_fetcher.Ssrf.{
  validate_public_url, check_hostname, check_host, check_addresses, is_blocked_address,
  is_blocked_ip, resolve_host, is_allowed_scheme,
}
use feedgate_fetcher.Prelude.Texts.{lower, before_code}
use text.Mathlib.Text.{◌==◌ as str_eq}
use text.Mathlib.TextEquality.{eq_iff}
use feedgate_fetcher.Witnesses.Data.{today, response, upstream, config, start}

fetch_one-Advances_example : Advances 3 start (fetch_one upstream config today start).1
fetch_one-Advances_example = fetch_one-Advances upstream config today start (omega arith)

fetch_one-Reports_example :
    Reports upstream config today start (fetch_one upstream config today start).1
fetch_one-Reports_example = fetch_one-Reports upstream config today start (omega arith)

read_chunks_lem_example :
    read_chunks 4 [] 0 (map bytes ((1 ∷ 2 ∷ []) ∷ (3 ∷ 4 ∷ 5 ∷ []) ∷ []))
    ≡ raise (fresh response_too_large)
read_chunks_lem_example = read_chunks_lem 4 ((1 ∷ 2 ∷ []) ∷ (3 ∷ 4 ∷ 5 ∷ []) ∷ [])

-- the inner host would answer, in the other world
abbrev stream : String → Condition → Result HttpResponse
stream url headers = if str_eq url "http://inside/" then raise (fresh other) else ok response

abbrev curl_get : String → Condition → ℕ → Result FallbackResponse
curl_get url headers redirects = raise (fresh other)

refused_inside :
    validate_public_url upstream.network "http://inside/" true ≡ raise (fresh blocked_url)
unfolding validate_public_url check_hostname check_host check_addresses is_blocked_address
    is_blocked_ip resolve_host is_allowed_scheme lower before_code
refused_inside = refl

same_stream :
    (url : String) (headers : Condition)
    → validate_public_url upstream.network url true ≡ ok tt
    → upstream.stream url headers ≡ stream url headers
same_stream url headers e = elim (Bool-cases (str_eq url "http://inside/")) [
  | inl k ↦
      let e' =
        subst (λ u. validate_public_url upstream.network u true ≡ ok tt)
          ((eq_iff url "http://inside/").0 k) e in
      let bad = sym refused_inside ∙ e' in cc
  | inr k ↦ rw k refl
]

fetch_one-guarded_example :
    fetch_one upstream config today start
    ≡ fetch_one (record upstream { stream = stream; curl_get = curl_get }) config today start
fetch_one-guarded_example =
    fetch_one-guarded upstream curl_get stream config today same_stream (λ url headers e. refl)
      start
