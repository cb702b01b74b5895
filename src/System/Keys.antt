-- ===== src/System/Keys.antt =====
-- About the keys of the tables `feeds` and `entries` under single writes: an UPDATE that keeps ids and
-- URLs, a batch of entries, a DELETE of entries, a sequence that moves on.
use feedgate_fetcher.Prelude.{
  ℕ, ◌<◌, ◌≤◌, ◌≡◌, ◌∙◌, refl, sym, ap, subst, List, [], ◌∷◌, map, Bool, true, ◌==◌, any, filter,
  All, arith, Bool-cases, inl, inr,
}
use feedgate_fetcher.Prelude.Every.{All-implies, All-map, All-filter}
use feedgate_fetcher.Models.{Feed, Entry}
use feedgate_fetcher.Upsert.{ParsedEntry, Entries, has_key, new_row, upsert_entry, upsert_entries}
use feedgate_fetcher.Upsert.Laws.{put_row, upsert_entry-put_row, update_row_fixed}
use feedgate_fetcher.Upsert.Unique.{upsert_entries-IsValidTable}
use feedgate_fetcher.Scheduler.{lease}
use feedgate_fetcher.Retention.Top.{UniqueIds-filter}
use feedgate_fetcher.Api.Feeds.{Database}
use feedgate_fetcher.Api.Feeds.Unique.{UniqueFeeds, IsApart, has_feed, UniqueKeys-filter}
use feedgate_fetcher.Api.Feeds.Tables.{IsValidDatabase}
use feedgate_fetcher.System.{write_changes, update_one}

-- a change of rows that keeps their keys
module _ (g : Feed → Feed) (same_id : (f : Feed) → (g f).id ≡ f.id)
    (same_url : (f : Feed) → (g f).url ≡ f.url) where
  IsApart-map : (a b : Feed) → IsApart a b → IsApart (g a) (g b)
  IsApart-map a b h = record {
    url = rw (same_url a, same_url b) h.url;
    id = rw (same_id a, same_id b) h.id;
  }

  UniqueFeeds-map : (feeds : List Feed) → UniqueFeeds feeds → UniqueFeeds (map g feeds)
  UniqueFeeds-map [] u = tt
  UniqueFeeds-map (feed ∷ feeds) u = (
    All-map g (IsApart (g feed)) feeds (All-implies (IsApart-map feed) feeds u.0),
    UniqueFeeds-map feeds u.1,
  )

  has_feed-map : (feeds : List Feed) (id : ℕ) → has_feed (map g feeds) id ≡ has_feed feeds id
  unfolding any
  has_feed-map [] id = refl
  has_feed-map (feed ∷ feeds) id = rw (same_id feed, has_feed-map feeds id) refl

  pub map-IsValidDatabase :
      (db : Database) → IsValidDatabase db → IsValidDatabase (record db { feeds = map g db.feeds })
  map-IsValidDatabase db v = record {
    unique = UniqueFeeds-map db.feeds v.unique;
    sequence =
        All-map g (λ feed. feed.id < db.next_feed_id) db.feeds
          (All-implies (λ f b. subst (λ i. i < db.next_feed_id) (sym (same_id f)) b) db.feeds
            v.sequence);
    owned =
        All-implies (λ (entry : Entry) h. has_feed-map db.feeds entry.feed_id ∙ h) (db.table).rows
          v.owned;
    table = v.table;
  }

pub write_changes-keys :
    (loaded assigned f : Feed)
    → ((write_changes loaded assigned f).id ≡ f.id)
      × ((write_changes loaded assigned f).url ≡ f.url)
unfolding write_changes
write_changes-keys loaded assigned f = (refl, refl)

pub update_one-keys :
    (loaded assigned f : Feed)
    → ((update_one loaded assigned f).id ≡ f.id) × ((update_one loaded assigned f).url ≡ f.url)
unfolding update_one
update_one-keys loaded assigned f = elim (Bool-cases (f.id == loaded.id)) [
  | inl e ↦ rw (e, update_one) (write_changes-keys loaded assigned f)
  | inr e ↦ rw (e, update_one) (refl, refl)
]

pub lease-url :
    (until now : ℕ) (ids : List ℕ) (feed : Feed) → (lease until now ids feed).url ≡ feed.url
unfolding lease
lease-url until now ids feed = elim (Bool-cases (any (λ id. id == feed.id) ids)) [
  | inl e ↦ rw (e, lease) refl
  | inr e ↦ rw (e, lease) refl
]

-- the entries that a batch stores are of the batch's feed
put_row-owner :
    (P : ℕ → Type 0) (id db_now f now : ℕ) (e : ParsedEntry) (rows : List Entry)
    → P f
    → All (λ r. P r.feed_id) rows
    → All (λ r. P r.feed_id) (put_row id db_now f now e rows)
unfolding put_row new_row
put_row-owner P id db_now f now e [] p h = (p, tt)
put_row-owner P id db_now f now e (row ∷ rows) p h = elim (Bool-cases (has_key f e.guid row)) [
  | inl k ↦ rw k (rw (update_row_fixed db_now e row).1 h)
  | inr k ↦ rw k (h.0, put_row-owner P id db_now f now e rows p h.1)
]

upsert_entries-owner :
    (P : ℕ → Type 0) (db_now f now : ℕ) (entries : List ParsedEntry) (t : Entries)
    → P f
    → All (λ r. P r.feed_id) t.rows
    → All (λ r. P r.feed_id) (upsert_entries db_now f now entries t).rows
unfolding upsert_entries
upsert_entries-owner P db_now f now [] t p h = h
upsert_entries-owner P db_now f now (e ∷ entries) t p h =
    upsert_entries-owner P db_now f now entries (upsert_entry db_now f now e t) p (
      rw (upsert_entry-put_row db_now f now e t)
        (put_row-owner P t.next_id db_now f now e t.rows p h))

pub upsert_entries-next_id :
    (db_now f now : ℕ) (entries : List ParsedEntry) (t : Entries)
    → t.next_id ≤ (upsert_entries db_now f now entries t).next_id
unfolding upsert_entries
upsert_entries-next_id db_now f now [] t = omega arith
upsert_entries-next_id db_now f now (e ∷ entries) t =
    let ih = upsert_entries-next_id db_now f now entries (upsert_entry db_now f now e t) in
    omega (arith, ih, ap (λ (x : Entries). x.next_id) (upsert_entry-put_row db_now f now e t))

-- a sequence that has moved on
pub later_ids-IsValidDatabase :
    (db : Database) (n : ℕ)
    → (db.table).next_id ≤ n
    → IsValidDatabase db
    → IsValidDatabase (record db { table = record (db.table) { next_id = n } })
later_ids-IsValidDatabase db n h v = record {
  unique = v.unique;
  sequence = v.sequence;
  owned = v.owned;
  table = record {
    keys = (v.table).keys;
    ids = (v.table).ids;
    sequence =
        All-implies (λ (r : Entry) b. omega (arith, b, h)) (db.table).rows (v.table).sequence;
  };
}

-- a batch of a feed that is there
pub stored-IsValidDatabase :
    (db : Database) (db_now f now : ℕ) (entries : List ParsedEntry)
    → has_feed db.feeds f ≡ true
    → IsValidDatabase db
    → IsValidDatabase (record db { table = upsert_entries db_now f now entries db.table })
stored-IsValidDatabase db db_now f now entries h v = record {
  unique = v.unique;
  sequence = v.sequence;
  owned =
      upsert_entries-owner (λ id. has_feed db.feeds id ≡ true) db_now f now entries db.table h
        v.owned;
  table = upsert_entries-IsValidTable db_now f now entries db.table v.table;
}

-- rows of entries that go
pub filter-IsValidDatabase :
    (q : Entry → Bool) (db : Database)
    → IsValidDatabase db
    → IsValidDatabase (record db { table = record (db.table) { rows = filter q (db.table).rows } })
filter-IsValidDatabase q db v = record {
  unique = v.unique;
  sequence = v.sequence;
  owned = All-filter _ q (db.table).rows v.owned;
  table = record {
    keys = UniqueKeys-filter q (db.table).rows (v.table).keys;
    ids = UniqueIds-filter q (db.table).rows (v.table).ids;
    sequence = All-filter _ q (db.table).rows (v.table).sequence;
  };
}
