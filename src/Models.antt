-- ===== src/Models.antt =====
-- models.py: the rows of the tables `feeds` and `entries`, and the two enumerations.
-- Times are instants of `Prelude.Time`. The relationship attributes have no counterpart;
-- the columns' types and the indices are in Schema.Metadata, and the unique keys are predicates of
-- the modules that need them.
use feedgate_fetcher.Prelude.{ℕ, String, Option, Bool, true, false, arith, ◌≡◌, ◌↔◌}

pub data FeedStatus : Type 0 where
  active broken dead : FeedStatus

pub data ErrorCode : Type 0 where
  dns tcp_refused tls_error timeout connection : ErrorCode
  http_4xx http_410 http_5xx http_error rate_limited : ErrorCode
  not_a_feed redirect_loop too_large : ErrorCode
  blocked : ErrorCode
  other : ErrorCode

-- `==` of two members
abbrev pub status_eq : FeedStatus → FeedStatus → Bool
status_eq active active = true
status_eq broken broken = true
status_eq dead dead = true
status_eq _ _ = false

abbrev pub is_http_410 : ErrorCode → Bool
is_http_410 http_410 = true
is_http_410 _ = false

pub record Feed : Type 0 where
  pub id : ℕ
  pub url : String
  pub effective_url : String
  pub title : Option String
  pub status : FeedStatus
  pub last_successful_fetch_at : Option ℕ
  pub last_attempt_at : Option ℕ
  pub last_error_code : Option ErrorCode
  pub created_at : ℕ
  pub next_fetch_at : ℕ
  pub consecutive_failures : ℕ
  pub etag : Option String
  pub last_modified : Option String

pub record Entry : Type 0 where
  pub id : ℕ
  pub feed_id : ℕ
  pub guid : String
  pub url : String
  pub title : Option String
  pub content : Option String
  pub author : Option String
  pub published_at : Option ℕ
  pub fetched_at : ℕ
  pub content_updated_at : ℕ

pub status_eq_iff : (a b : FeedStatus) → (status_eq a b ≡ true) ↔ (a ≡ b)
status_eq_iff a b = ground arith
