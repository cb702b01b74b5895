-- ===== src/Api/Feeds/Tables.antt =====
-- About the tables `feeds` and `entries` under the handlers of api/feeds.py: their keys, and the
-- foreign key between them.
use feedgate_fetcher.Prelude.{
  ℕ, ◌<◌, ◌≡◌, ap, ◌∙◌, String, true, not, inl, inr, ◌==◌, if◌then◌else◌, filter, All, All-append,
  arith, Option-cases,
}
use feedgate_fetcher.Prelude.Every.{All-filter, All-both, All-map, All-implies, All-holds}
use feedgate_fetcher.Prelude.Find.{find-none}
use feedgate_fetcher.Prelude.Ints.{ℤ}
use feedgate_fetcher.Models.{Feed, Entry}
use feedgate_fetcher.Upsert.Unique.{IsValidTable}
use feedgate_fetcher.Api.Feeds.{
  Database, find_url, insert_feed, remove_feed, update_feed, reactivated, create_feed, register,
  checked_url, delete_feed, reactivate_feed, find_id,
}
use feedgate_fetcher.Ssrf.{Network}
use feedgate_fetcher.Url.{UrlRules}
use feedgate_fetcher.Api.Http.{Reply-cases}
use feedgate_fetcher.Retention.Top.{UniqueIds-filter}
use text.Mathlib.Text.{◌==◌ as str_eq}
use feedgate_fetcher.Api.Feeds.Unique.{
  UniqueFeeds, has_feed, UniqueFeeds-same, UniqueFeeds-append, UniqueFeeds-filter,
  UniqueFeeds-update, has_feed-append, has_feed-update, has_feed-remove, UniqueKeys-filter,
}

pub record IsValidDatabase (db : Database) : Type 0 where
  pub unique : UniqueFeeds db.feeds
  -- the sequence is ahead of every id
  pub sequence : All (λ feed. feed.id < db.next_feed_id) db.feeds
  -- every entry belongs to a feed
  pub owned : All (λ entry. has_feed db.feeds entry.feed_id ≡ true) (db.table).rows
  pub table : IsValidTable db.table

insert_feed-IsValidDatabase :
    (url : String) (now db_now : ℕ) (db : Database)
    → IsValidDatabase db
    → IsValidDatabase (insert_feed url now db_now db).1
unfolding insert_feed
insert_feed-IsValidDatabase url now db_now db v = elim (Option-cases (find_url url db.feeds)) [
  | inl e ↦
      rw (insert_feed, e)
        (record {
          unique = UniqueFeeds-append db.feeds _ v.unique (
              All-both (λ f k b. record { url = k; id = ground (arith, b) }) db.feeds
                (find-none (λ feed. str_eq feed.url url) db.feeds (unfold find_url in e))
                v.sequence);
          sequence =
              All-append _ db.feeds _ (All-implies (λ f b. omega arith) db.feeds v.sequence)
                (omega arith, tt);
          owned =
              All-implies (λ (entry : Entry) h. has_feed-append db.feeds _ entry.feed_id h)
                (db.table).rows v.owned;
          table = v.table;
        })
  | inr (feed, e) ↦
      rw (insert_feed, e)
        (record {
          unique = v.unique;
          sequence = All-implies (λ f b. omega arith) db.feeds v.sequence;
          owned = v.owned;
          table = v.table;
        })
]

register-IsValidDatabase :
    (url : String) (now db_now : ℕ) (db : Database)
    → IsValidDatabase db
    → IsValidDatabase (register url now db_now db).1
unfolding register
register-IsValidDatabase = insert_feed-IsValidDatabase

create_feed-IsValidDatabase :
    (rules : UrlRules) (net : Network) (payload_url : String) (now db_now : ℕ) (db : Database)
    → IsValidDatabase db
    → IsValidDatabase (create_feed rules net payload_url now db_now db).1
unfolding create_feed
create_feed-IsValidDatabase rules net payload_url now db_now db v =
    elim (Reply-cases (checked_url rules net payload_url)) [
      | inl (status, e) ↦ rw (create_feed, e) v
      | inr (url, e) ↦ rw (create_feed, e) (register-IsValidDatabase url now db_now db v)
    ]

remove_feed-IsValidDatabase :
    (id : ℕ) (db : Database) → IsValidDatabase db → IsValidDatabase (remove_feed id db)
unfolding remove_feed
remove_feed-IsValidDatabase id db v = record {
  unique = UniqueFeeds-filter (λ feed. not (feed.id == id)) db.feeds v.unique;
  sequence = All-filter _ (λ feed. not (feed.id == id)) db.feeds v.sequence;
  owned =
      All-both
        (λ (entry : Entry) h kept.
          has_feed-remove id db.feeds entry.feed_id (ground (arith, kept)) h)
        (filter (λ entry. not (entry.feed_id == id)) (db.table).rows)
        (All-filter _ (λ entry. not (entry.feed_id == id)) (db.table).rows v.owned)
        (All-holds (λ entry. not (entry.feed_id == id)) (db.table).rows);
  table = record {
    keys = UniqueKeys-filter _ (db.table).rows (v.table).keys;
    ids = UniqueIds-filter _ (db.table).rows (v.table).ids;
    sequence = All-filter _ (λ entry. not (entry.feed_id == id)) (db.table).rows (v.table).sequence;
  };
}

delete_feed-IsValidDatabase :
    (feed_id : ℤ) (db : Database) → IsValidDatabase db → IsValidDatabase (delete_feed feed_id db).1
unfolding delete_feed
delete_feed-IsValidDatabase feed_id db v = elim (Option-cases (find_id feed_id db.feeds)) [
  | inl e ↦ rw (delete_feed, e) v
  | inr (feed, e) ↦ rw (delete_feed, e) (remove_feed-IsValidDatabase feed.id db v)
]

update_feed-IsValidDatabase :
    (row : Feed) (db : Database)
    → All (λ feed. (feed.id == row.id) ≡ true → feed.url ≡ row.url) db.feeds
    → IsValidDatabase db
    → IsValidDatabase (record db { feeds = update_feed row db.feeds })
update_feed-IsValidDatabase row db same v = record {
  unique = UniqueFeeds-update row db.feeds same v.unique;
  sequence =
      unfold update_feed in
      All-map (λ f. if f.id == row.id then row else f) (λ f. f.id < db.next_feed_id) db.feeds
        (All-implies (λ f b. ground (arith, b)) db.feeds v.sequence);
  owned =
      All-implies (λ (entry : Entry) h. has_feed-update row db.feeds entry.feed_id ∙ h)
        (db.table).rows v.owned;
  table = v.table;
}

reactivate_feed-IsValidDatabase :
    (feed_id : ℤ) (now : ℕ) (db : Database)
    → IsValidDatabase db
    → IsValidDatabase (reactivate_feed feed_id now db).1
unfolding reactivate_feed reactivated
reactivate_feed-IsValidDatabase feed_id now db v = elim (Option-cases (find_id feed_id db.feeds)) [
  | inl e ↦ rw (reactivate_feed, e) v
  | inr (feed, e) ↦
      rw (reactivate_feed, e)
        (update_feed-IsValidDatabase (reactivated now feed).0 db
          (All-implies {P = λ f. (f.id == feed.id) ≡ true → f ≡ feed}
            {Q = λ f. (f.id == feed.id) ≡ true → f.url ≡ feed.url}
            (λ f same k. ap (λ (g : Feed). g.url) (same k)) db.feeds
            (UniqueFeeds-same db.feeds feed feed_id v.unique e))
          v)
]

-- Each handler that writes, a registration, a deletion or a reactivation, keeps the tables valid:
-- the URLs and the ids of feeds are unique, the sequence of ids is ahead of them, every entry
-- belongs to a feed, and the table of entries keeps its keys.
pub handlers-IsValidDatabase :
    (rules : UrlRules) (net : Network) (payload_url : String) (feed_id : ℤ) (now db_now : ℕ)
    (db : Database)
    → IsValidDatabase db
    → IsValidDatabase (create_feed rules net payload_url now db_now db).1
      × IsValidDatabase (delete_feed feed_id db).1
      × IsValidDatabase (reactivate_feed feed_id now db).1
handlers-IsValidDatabase rules net payload_url feed_id now db_now db v = (
  create_feed-IsValidDatabase rules net payload_url now db_now db v,
  delete_feed-IsValidDatabase feed_id db v,
  reactivate_feed-IsValidDatabase feed_id now db v,
)
