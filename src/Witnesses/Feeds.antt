-- ===== src/Witnesses/Feeds.antt =====
-- The lifecycle, the scheduler and the address check at concrete inputs.
use feedgate_fetcher.Prelude.{
  ℕ, ◌*◌, ◌+◌, ◌≡◌, refl, some, List, [], ◌∷◌, true, false, All, any, filter, take, arith,
}
use feedgate_fetcher.Prelude.Time.{second, add_delta, sub_delta}
use feedgate_fetcher.Models.{Feed, dead, http_5xx}
use feedgate_fetcher.FeedState.{mark_fetch_failure}
use feedgate_fetcher.FeedState.Lifecycle.{
  IsConsistent, status_after_failure, mark_fetch_failure-status,
}
use feedgate_fetcher.Exceptions.{ok}
use feedgate_fetcher.Ssrf.{
  validate_public_url, exchanges, check_hostname, check_host, check_addresses, is_blocked_address,
  is_blocked_ip, resolve_host, is_allowed_scheme,
}
use feedgate_fetcher.Prelude.Texts.{lower, before_code}
use feedgate_fetcher.Ssrf.Public.{IsPublicUrl, exchanges-IsPublicUrl}
use feedgate_fetcher.Scheduler.{ClaimConfig, claim_due_feeds, select_due, lease, is_due}
use feedgate_fetcher.Prelude.Sort.{sort, insert}
use feedgate_fetcher.Witnesses.Data.{today, feed, broken_feed, network, claim, world}

pub feed-IsConsistent : IsConsistent 3 feed
feed-IsConsistent = record { closed = λ e. omega arith; opened = λ e. cc }

pub broken_feed-IsConsistent : IsConsistent 3 (record broken_feed { id = 2 })
broken_feed-IsConsistent = record { closed = λ e. cc; opened = λ e. omega arith }

-- the third failure opens the circuit, and buries the feed at once, since it never succeeded
mark_fetch_failure-status_example : (mark_fetch_failure feed today http_5xx 3 7).0.status ≡ dead
unfolding status_after_failure
mark_fetch_failure-status_example = mark_fetch_failure-status feed today http_5xx 3 7

validated : validate_public_url network "http://blog/feed" true ≡ ok tt
unfolding validate_public_url check_hostname check_host check_addresses is_blocked_address
    is_blocked_ip resolve_host is_allowed_scheme lower before_code
validated = refl

exchanges-IsPublicUrl_example :
    All
      (IsPublicUrl network)
      (exchanges network (λ url. ok url) ("http://blog/feed" ∷ "http://inside/" ∷ []) [])
exchanges-IsPublicUrl_example =
    exchanges-IsPublicUrl network (λ url. ok url) ("http://blog/feed" ∷ "http://inside/" ∷ []) [] tt

-- one feed at a time
abbrev one : ClaimConfig
one = record claim { claim_batch_size = 1 }

abbrev soon : ℕ
soon = today + 10 * second

abbrev first_leased : List Feed
first_leased =
    record feed { next_fetch_at = today + 90 * second; last_attempt_at = some today }
    ∷ record broken_feed { id = 2 }
    ∷ []

abbrev second_leased : List Feed
second_leased =
    record feed { next_fetch_at = today + 90 * second; last_attempt_at = some today }
    ∷ record broken_feed { id = 2; next_fetch_at = soon + 90 * second; last_attempt_at = some soon }
    ∷ []

first_claim : claim_due_feeds one today (λ id. false) world.feeds ≡ ok (1 ∷ [], first_leased)
unfolding claim_due_feeds select_due sort insert filter take any lease is_due add_delta sub_delta
first_claim = refl

second_claim : claim_due_feeds one soon (λ id. false) first_leased ≡ ok (2 ∷ [], second_leased)
unfolding claim_due_feeds select_due sort insert filter take any lease is_due add_delta sub_delta
second_claim = refl
