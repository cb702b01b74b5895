-- ===== src/Witnesses/Api.antt =====
-- A table of two feeds under the handlers of api/feeds.py.
use feedgate_fetcher.Prelude.{
  ℕ, ◌*◌, ◌+◌, ◌≤◌, ◌≡◌, refl, none, some, List, [], ◌∷◌, ◌==◌, true, false, filter, any, All,
  if◌then◌else◌, arith,
}
use feedgate_fetcher.Prelude.Ints.{pos, negsuc, decimal, nonneg_int}
use feedgate_fetcher.Prelude.Texts.{codes, codes_eq}
use feedgate_fetcher.Prelude.Time.{day, sub_delta, add_delta}
use feedgate_fetcher.Prelude.Sort.{sort}
use feedgate_fetcher.Models.{broken, Feed, active}
use feedgate_fetcher.Exceptions.{ok}
use feedgate_fetcher.Upsert.{find_entry}
use feedgate_fetcher.Ssrf.{validate_public_url}
use feedgate_fetcher.Scheduler.{is_due, find_feed, lease, claim_due_feeds}
use feedgate_fetcher.Scheduler.Fairness.{claim_due_feeds-earliest}
use feedgate_fetcher.Api.Http.{respond, http_error}
use feedgate_fetcher.Api.Cursor.{
  Codec, Attempt, done, refused, Json, integer, object, field, end, feed_payload,
}
use feedgate_fetcher.Api.Cursor.Reading.{ReadsFeedCursor}
use feedgate_fetcher.Api.Keyset.Reading.{read_pages}
use feedgate_fetcher.Api.Entries.{is_id}
use feedgate_fetcher.Api.Feeds.{
  Database, new_feed, normalized, create_feed, get_feed, delete_feed, reactivate_feed, list_feeds,
}
use feedgate_fetcher.Api.Feeds.Tables.{IsValidDatabase}
use feedgate_fetcher.Api.Feeds.Unique.{UniqueFeeds}
use feedgate_fetcher.Api.Feeds.Create.{create_feed-again, create_feed-validated}
use feedgate_fetcher.Api.Feeds.Changes.{delete_feed_lem}
use feedgate_fetcher.Api.Feeds.Listing.{IsListing, list_feeds_complete}
use feedgate_fetcher.Api.Feeds.Liveness.{reactivate_feed-claimed}
use feedgate_fetcher.Witnesses.Data.{today, feed, broken_feed, table, network, claim}
use feedgate_fetcher.Witnesses.Registry.{rules}

abbrev pub second_feed : Feed
second_feed = record broken_feed { id = 2; url = "http://blog/other"; next_fetch_at = 9 * day }

abbrev pub two_feeds : List Feed
two_feeds = feed ∷ second_feed ∷ []

abbrev pub db : Database
db = record { feeds = two_feeds; next_feed_id = 3; table = table }

pub two_feeds-UniqueFeeds : UniqueFeeds two_feeds
two_feeds-UniqueFeeds = ((record { url = refl; id = refl }, tt), (tt, tt))

pub db-IsValidDatabase : IsValidDatabase db
unfolding any find_entry
db-IsValidDatabase = record {
  unique = two_feeds-UniqueFeeds;
  sequence = (omega arith, (omega arith, tt));
  owned = (refl, tt);
  table = record { keys = (refl, tt); ids = (tt, tt); sequence = (omega arith, tt) };
}

abbrev created : Feed
created = new_feed 3 "http://blog/new" today today

create_feed-again_example :
    ((create_feed rules network "http://blog/new#top"
        (today + 1)
        (today + 1)
        (create_feed rules network "http://blog/new/" today today db).1).0
      ≡ respond (200, created))
    × ((create_feed rules network "http://blog/new#top"
          (today + 1)
          (today + 1)
          (create_feed rules network "http://blog/new/" today today db).1).1.feeds
        ≡ (create_feed rules network "http://blog/new/" today today db).1.feeds)
create_feed-again_example =
    create_feed-again rules network "http://blog/new/" "http://blog/new#top" today today (today + 1)
      (today + 1) db 201 created (unfold create_feed in refl) (unfold normalized in refl)

create_feed-validated_example :
    All
      (λ f. validate_public_url network f.url false ≡ ok tt)
      (create_feed rules network "http://blog/new/" today today db).1.feeds
create_feed-validated_example =
    create_feed-validated rules network "http://blog/new/" today today db
      (unfold validate_public_url in (refl, (refl, tt)))

delete_feed_lem_example :
    ((delete_feed (pos 1) db).0 ≡ 204)
    × (get_feed (pos 1) (delete_feed (pos 1) db).1 ≡ http_error 404)
    × All (λ entry. is_id entry.feed_id (pos 1) ≡ false) (((delete_feed (pos 1) db).1).table).rows
delete_feed_lem_example = delete_feed_lem (pos 1) db db-IsValidDatabase

abbrev after_claim : List Feed
after_claim =
    record feed { next_fetch_at = today + 90_000_000; last_attempt_at = some today }
    ∷ record second_feed {
      status = active;
      last_error_code = none;
      consecutive_failures = 0;
      next_fetch_at = today + 90_000_000;
      last_attempt_at = some today;
    }
    ∷ []

reactivate_feed-claimed_example : any (λ i. i == 2) (1 ∷ 2 ∷ []) ≡ true
unfolding claim_due_feeds sub_delta add_delta sort lease is_due any reactivate_feed filter
reactivate_feed-claimed_example =
    reactivate_feed-claimed claim (λ id. false) today today (93 * day) (pos 2) db second_feed
      (1 ∷ 2 ∷ []) after_claim (unfold get_feed in refl) (omega arith) refl (omega arith)
      (omega arith) refl

-- the JSON texts of the cursors of these feeds
pub loads_of : List Feed → List ℕ → Attempt Json
unfolding feed_payload
loads_of [] raw = refused
loads_of (f ∷ fs) raw =
    let rest = loads_of fs raw in
    if codes_eq raw (feed_payload f.id)
    then done (object (field (codes "i") (integer (pos f.id)) end))
    else rest

abbrev pub codec : Codec
codec = record { loads = loads_of two_feeds; isoformat = decimal; fromisoformat = nonneg_int }

two_feeds-ReadsFeedCursor : All (λ f. ReadsFeedCursor codec f.id) two_feeds
unfolding feed_payload loads_of
two_feeds-ReadsFeedCursor = (refl, (refl, tt))

-- one of the two feeds is broken
list_feeds_complete_example :
    (read : List Feed) × (read_pages 4
        (λ cursor. list_feeds codec 50 db cursor (negsuc 6) (some broken))
        none
      ≡ some read)
    × IsListing (some broken) two_feeds read
list_feeds_complete_example =
    list_feeds_complete codec 50 (negsuc 6) (some broken) db 4 two_feeds-UniqueFeeds
      two_feeds-ReadsFeedCursor (omega arith)

-- a batch of one leaves the feed behind that was due later
claim_due_feeds-earliest_example :
    All (λ f. f.next_fetch_at ≤ 9 * day) (filter (λ f. any (λ i. i == f.id) (1 ∷ [])) two_feeds)
unfolding claim_due_feeds sub_delta add_delta sort lease is_due any filter
claim_due_feeds-earliest_example =
    claim_due_feeds-earliest (record claim { claim_batch_size = 1 }) today (λ id. false) (93 * day)
      two_feeds
      (record feed { next_fetch_at = today + 90_000_000; last_attempt_at = some today }
        ∷ second_feed
        ∷ [])
      (1 ∷ []) 2 second_feed refl (unfold find_feed in refl) refl (omega arith) refl
      two_feeds-UniqueFeeds refl
