-- ===== src/Seeding.antt =====
-- scripts/seed_feeds.py and the request that it sends: the body is read by `FeedCreate` of schemas.py,
-- and the script brings no key. What pydantic makes of a URL, and whether the network carries a request, are parameters.
pub mod Twice
use feedgate_fetcher.Prelude.{
  ℕ, ◌+◌, String, Option, none, some, List, [], ◌∷◌, Bool, true, false, not, ltb, ◌==◌,
  if◌then◌else◌, any,
}
use feedgate_fetcher.Prelude.Texts.{codes, is_space, strip}
use feedgate_fetcher.Models.{Feed}
use feedgate_fetcher.Ssrf.{Network}
use feedgate_fetcher.Url.{UrlRules}
use feedgate_fetcher.Api.Http.{Reply, respond, http_error}
use feedgate_fetcher.Api.Feeds.{Database, create_feed}
use feedgate_fetcher.Api.Access.{handle}

-- what stands between the script and the handler
pub record Service : Type 0 where
  pub rules : UrlRules
  pub network : Network
  pub configured_key : List ℕ
  -- `str(HttpUrl(text))`; `none` is a validation error
  pub http_url : String → Option String
  -- does a request reach the service?
  pub reaches : String → Bool

-- the validator of `FeedCreate`, and the type of its field; `none` is a 422
unfoldable pub feed_create : (String → Option String) → String → Option String
unfolding is_space strip any
feed_create http_url value = if any is_space (strip (codes value)) then none else http_url value

-- the status of an answer
abbrev pub answer_status {ℓ} : {A : Type ℓ} → Reply (ℕ × A) → ℕ
answer_status (respond (status, a)) = status
answer_status (http_error status) = status

pub record Tally : Type 0 where
  pub created : ℕ
  pub existing : ℕ
  pub failed : ℕ

-- one round of the loop of `main`
unfoldable pub tally : ℕ → Tally → Tally
tally status t =
    if status == 201
    then record t { created = t.created + 1 }
    else if status == 200
    then record t { existing = t.existing + 1 }
    else record t { failed = t.failed + 1 }

module _ (service : Service) (now db_now : ℕ) where
  -- `post_feed`: 0 stands for a network error
  unfoldable pub post_feed : String → Database → ℕ × Database
  unfolding feed_create handle create_feed
  post_feed url db =
      if not (service.reaches url) then (0, db) else elim (feed_create service.http_url url) [
        | none ↦ (422, db)
        | some payload_url ↦
            let r =
              handle service.configured_key none
                (create_feed service.rules service.network payload_url now db_now) db in
            (answer_status r.0, r.1)
      ]

  unfoldable pub seed : List String → Tally → Database → Tally × Database
  unfolding post_feed tally
  seed [] t db = (t, db)
  seed (url ∷ urls) t db =
      let (status, after) = post_feed url db in seed urls (tally status t) after

-- the exit code
unfoldable pub exit_code : ℕ → ℕ
exit_code failed = if ltb 0 failed then 1 else 0
