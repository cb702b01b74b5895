-- ===== src/Api/Schemas.antt =====
-- schemas.py: the responses, as pydantic makes them of the rows (`from_attributes`). A status or an
-- error code in a row is always one of the enumeration here.
pub mod Private
use feedgate_fetcher.Prelude.{ℕ, String, Option, none, some, List, map}
use feedgate_fetcher.Prelude.Ints.{ℤ}
use feedgate_fetcher.Models.{Feed, Entry, FeedStatus, ErrorCode}
use feedgate_fetcher.Api.Http.{Reply, respond, http_error, ◌>>=◌}
use feedgate_fetcher.Api.Keyset.{Page}

pub record FeedResponse : Type 0 where
  pub id : ℕ
  pub url : String
  pub effective_url : String
  pub title : Option String
  pub status : FeedStatus
  pub last_successful_fetch_at : Option ℕ
  pub last_attempt_at : Option ℕ
  pub last_error_code : Option ErrorCode
  pub created_at : ℕ

pub record EntryResponse : Type 0 where
  pub id : ℕ
  pub guid : String
  pub feed_id : ℕ
  pub url : String
  pub title : Option String
  pub content : Option String
  pub author : Option String
  pub published_at : Option ℕ
  pub fetched_at : ℕ
  pub content_updated_at : ℕ

abbrev pub feed_response : Feed → FeedResponse
feed_response f = record {
  id = f.id;
  url = f.url;
  effective_url = f.effective_url;
  title = f.title;
  status = f.status;
  last_successful_fetch_at = f.last_successful_fetch_at;
  last_attempt_at = f.last_attempt_at;
  last_error_code = f.last_error_code;
  created_at = f.created_at;
}

abbrev pub entry_response : Entry → EntryResponse
entry_response e = record {
  id = e.id;
  guid = e.guid;
  feed_id = e.feed_id;
  url = e.url;
  title = e.title;
  content = e.content;
  author = e.author;
  published_at = e.published_at;
  fetched_at = e.fetched_at;
  content_updated_at = e.content_updated_at;
}

-- `PaginatedFeeds` and `PaginatedEntries`
abbrev pub paginated {ℓ κ} : {A : Type ℓ} {B : Type κ} → (A → B) → Page A → Page B
paginated f page = record { items = map f page.items; next_cursor = page.next_cursor }

-- a reply as it is sent
abbrev pub sent {ℓ κ} : {A : Type ℓ} {B : Type κ} → (A → B) → Reply A → Reply B
sent f (respond a) = respond (f a)
sent f (http_error status) = http_error status
