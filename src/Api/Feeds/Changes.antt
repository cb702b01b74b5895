-- ===== src/Api/Feeds/Changes.antt =====
-- About `get_feed` and `delete_feed` of api/feeds.py.
use feedgate_fetcher.Prelude.{
  ℕ, ◌≡◌, ◌≢◌, refl, ap, sym, ◌∙◌, subst, none, some, List, [], ◌∷◌, Bool, true, false, not, inl,
  inr, ◌==◌, filter, any, All, arith, Bool-cases, Option-cases,
}
use feedgate_fetcher.Prelude.Every.{All-implies, All-holds}
use feedgate_fetcher.Prelude.Find.{find-holds, find-absent, find-filter, find-none}
use feedgate_fetcher.Prelude.Ints.{ℤ, pos, negsuc}
use feedgate_fetcher.Models.{Feed, Entry}
use feedgate_fetcher.Api.Http.{respond, http_error}
use feedgate_fetcher.Api.Entries.{is_id, is_in_feeds}
use feedgate_fetcher.Api.Feeds.{Database, find_id, get_feed, remove_feed, delete_feed}
use feedgate_fetcher.Api.Feeds.Tables.{IsValidDatabase}
use feedgate_fetcher.Api.Feeds.Unique.{has_feed, names}

is_id-eq : (id : ℕ) (i : ℤ) → is_id id i ≡ true → i ≡ pos id
is_id-eq id (pos n) h = ap pos (ground (arith, h))
is_id-eq id (negsuc n) h = cc

is_id-pos : (id : ℕ) → is_id id (pos id) ≡ true
is_id-pos id = ground arith

pub find_id-eq :
    (i : ℤ) (feeds : List Feed) (feed : Feed) → find_id i feeds ≡ some feed → i ≡ pos feed.id
unfolding find_id
find_id-eq i feeds feed e = is_id-eq feed.id i (find-holds (names i) feeds e)

pub get_feed-missing :
    (i : ℤ) (db : Database) → find_id i db.feeds ≡ none → get_feed i db ≡ http_error 404
unfolding get_feed
get_feed-missing i db e = rw (get_feed, e) refl

pub get_feed-found :
    (i : ℤ) (db : Database) (feed : Feed)
    → find_id i db.feeds ≡ some feed
    → get_feed i db ≡ respond feed
unfolding get_feed
get_feed-found i db feed e = rw (get_feed, e) refl

delete_feed-missing :
    (i : ℤ) (db : Database) → find_id i db.feeds ≡ none → delete_feed i db ≡ (204, db)
unfolding delete_feed
delete_feed-missing i db e = rw (delete_feed, e) refl

delete_feed-found :
    (i : ℤ) (db : Database) (feed : Feed)
    → find_id i db.feeds ≡ some feed
    → delete_feed i db ≡ (204, remove_feed feed.id db)
unfolding delete_feed
delete_feed-found i db feed e = rw (delete_feed, e) refl

-- an entry of no feed is not of the feed that is missing
has_feed-other :
    (i : ℤ) (feeds : List Feed) (id : ℕ)
    → All (λ feed. is_id feed.id i ≡ false) feeds
    → has_feed feeds id ≡ true
    → is_id id i ≡ false
unfolding any
has_feed-other i [] id h k = cc
has_feed-other (negsuc n) (feed ∷ feeds) id h k = refl
has_feed-other (pos n) (feed ∷ feeds) id h k =
    ground (arith, h.0, k, has_feed-other (pos n) feeds id h.1)

find_id-remove : (id : ℕ) (db : Database) → find_id (pos id) (remove_feed id db).feeds ≡ none
unfolding find_id remove_feed
find_id-remove id db =
    find-absent (names (pos id)) (filter (λ feed. not (feed.id == id)) db.feeds) (
      All-implies (λ (feed : Feed) kept. ground (arith, kept))
        (filter (λ feed. not (feed.id == id)) db.feeds)
        (All-holds (λ feed. not (feed.id == id)) db.feeds))

remove_feed-entries :
    (id : ℕ) (db : Database)
    → All (λ entry. is_id entry.feed_id (pos id) ≡ false) ((remove_feed id db).table).rows
unfolding remove_feed
remove_feed-entries id db =
    All-implies (λ (entry : Entry) kept. ground (arith, kept))
      (filter (λ entry. not (entry.feed_id == id)) (db.table).rows)
      (All-holds (λ entry. not (entry.feed_id == id)) (db.table).rows)

-- After a deletion from valid tables, whether the feed was there or not, the answer is 204, the
-- feed is not found, and no entry of it is left.
pub delete_feed_lem :
    (feed_id : ℤ) (db : Database)
    → IsValidDatabase db
    → ((delete_feed feed_id db).0 ≡ 204)
      × (get_feed feed_id (delete_feed feed_id db).1 ≡ http_error 404)
      × All (λ entry. is_id entry.feed_id feed_id ≡ false) (((delete_feed feed_id db).1).table).rows
delete_feed_lem feed_id db v = elim (Option-cases (find_id feed_id db.feeds)) [
  | inl e ↦ rw (delete_feed-missing feed_id db e) (
    refl,
    get_feed-missing feed_id db e,
    All-implies
        (λ (entry : Entry) h.
          has_feed-other feed_id db.feeds entry.feed_id
            (find-none (names feed_id) db.feeds (unfold find_id in e)) h)
        (db.table).rows v.owned,
  )
  | inr (feed, e) ↦
      rw (delete_feed-found feed_id db feed e, find_id-eq feed_id db.feeds feed e)
        (
          refl,
          get_feed-missing (pos feed.id) (remove_feed feed.id db) (find_id-remove feed.id db),
          remove_feed-entries feed.id db,
        )
]

is_id-other : (id : ℕ) (i j : ℤ) → is_id id i ≡ true → i ≢ j → is_id id j ≡ false
is_id-other id i j h n = elim (Bool-cases (is_id id j)) [
  | inl e ↦ absurd (n (is_id-eq id i h ∙ sym (is_id-eq id j e)))
  | inr e ↦ e
]

-- an element that the filter drops is of the feed that is removed
kept_other :
    (gone : ℕ) (i : ℤ) (id : ℕ) → i ≢ pos gone → is_id id i ≡ true → not (id == gone) ≡ true
kept_other gone i id n h = elim (Bool-cases (id == gone)) [
  | inl e ↦ absurd (n (is_id-eq id i h ∙ ap pos (ground (arith, e))))
  | inr e ↦ ap not e
]

find_id-other :
    (i : ℤ) (gone : ℕ) (db : Database)
    → i ≢ pos gone
    → find_id i (remove_feed gone db).feeds ≡ find_id i db.feeds
unfolding find_id remove_feed
find_id-other i gone db n =
    find-filter (names i) (λ feed. not (feed.id == gone)) db.feeds
      (λ feed h. kept_other gone i feed.id n h)

filter-filter_keeps {ℓ} :
    {A : Type ℓ} (p q : A → Bool) (xs : List A)
    → ((x : A) → p x ≡ true → q x ≡ true)
    → filter p (filter q xs) ≡ filter p xs
unfolding filter
filter-filter_keeps p q [] keeps = refl
filter-filter_keeps p q (x ∷ xs) keeps = elim (Bool-cases (p x)) [
  | inl e ↦ rw (keeps x e, e, filter, filter-filter_keeps p q xs keeps) refl
  | inr e ↦ elim (Bool-cases (q x)) [
    | inl k ↦ rw (k, e, filter) (filter-filter_keeps p q xs keeps)
    | inr k ↦ rw (k, e) (filter-filter_keeps p q xs keeps)
  ]
]

get_feed-same :
    (i : ℤ) (a b : Database) → find_id i a.feeds ≡ find_id i b.feeds → get_feed i a ≡ get_feed i b
unfolding get_feed
get_feed-same i a b e = rw (get_feed, e) refl

is_in_feeds-one : (i : ℤ) (entry : Entry) → is_in_feeds (i ∷ []) entry ≡ is_id entry.feed_id i
unfolding is_in_feeds any
is_in_feeds-one i entry = elim (Bool-cases (is_id entry.feed_id i)) [
  | inl e ↦ rw e refl
  | inr e ↦ rw e refl
]

-- A deletion leaves every other feed, and the entries of every other feed, as they were.
pub delete_feed-others :
    (feed_id other : ℤ) (db : Database)
    → other ≢ feed_id
    → (get_feed other (delete_feed feed_id db).1 ≡ get_feed other db)
      × (filter (is_in_feeds (other ∷ [])) (((delete_feed feed_id db).1).table).rows
          ≡ filter (is_in_feeds (other ∷ [])) (db.table).rows)
delete_feed-others feed_id other db n = elim (Option-cases (find_id feed_id db.feeds)) [
  | inl e ↦ rw (delete_feed-missing feed_id db e) (refl, refl)
  | inr (feed, e) ↦
      let differs = subst (λ i. other ≢ i) (find_id-eq feed_id db.feeds feed e) n in
      rw (delete_feed-found feed_id db feed e) (
        get_feed-same other (remove_feed feed.id db) db (find_id-other other feed.id db differs),
        unfold remove_feed in
            filter-filter_keeps (is_in_feeds (other ∷ [])) (λ entry. not (entry.feed_id == feed.id))
              (db.table).rows
              (λ entry h.
                kept_other feed.id other entry.feed_id differs
                  (sym (is_in_feeds-one other entry) ∙ h)),
      )
]
