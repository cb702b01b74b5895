-- ===== src/Api/Feeds/Unique.antt =====
-- Lemmas on lists of rows of `feeds`, and of `entries`, that are unique by their keys, for the
-- handlers of api/feeds.py.
use feedgate_fetcher.Prelude.{
  ℕ, ◌≡◌, refl, ap, sym, ◌∙◌, subst, none, some, String, List, [], ◌∷◌, ◌++◌, Bool, true, false,
  not, inl, inr, ◌==◌, if◌then◌else◌, filter, any, All, All-append, arith, Bool-cases,
}
use feedgate_fetcher.Prelude.Every.{All-filter, All-both, All-map, All-implies}
use feedgate_fetcher.Prelude.Find.{find-All, find-first, find-later}
use feedgate_fetcher.Prelude.Ints.{ℤ}
use feedgate_fetcher.Models.{Feed, Entry}
use feedgate_fetcher.Upsert.{find_entry}
use feedgate_fetcher.Upsert.Unique.{UniqueKeys}
use feedgate_fetcher.Api.Feeds.{update_feed, find_id}
use feedgate_fetcher.Api.Entries.{is_id}
use mathlib.Core.Option.{some-injective}
use text.Mathlib.Text.{◌==◌ as str_eq}

-- a row keeps its place among the others: no other has its URL, nor its id
pub record IsApart (a b : Feed) : Type 0 where
  pub url : str_eq a.url b.url ≡ false
  pub id : (b.id == a.id) ≡ false

-- No two rows have the same URL, and no two the same id.
abbrev pub UniqueFeeds : List Feed → Type 0
UniqueFeeds [] = Unit
UniqueFeeds (feed ∷ feeds) = All (IsApart feed) feeds × UniqueFeeds feeds

abbrev pub has_feed : List Feed → ℕ → Bool
has_feed feeds id = any (λ feed. feed.id == id) feeds

-- a new row behind the others
pub UniqueFeeds-append :
    (feeds : List Feed) (new : Feed)
    → UniqueFeeds feeds
    → All (λ feed. IsApart feed new) feeds
    → UniqueFeeds (feeds ++ new ∷ [])
UniqueFeeds-append [] new u h = (tt, tt)
UniqueFeeds-append (feed ∷ feeds) new u h =
    (All-append _ feeds (new ∷ []) u.0 (h.0, tt), UniqueFeeds-append feeds new u.1 h.1)

pub UniqueFeeds-filter :
    (q : Feed → Bool) (feeds : List Feed) → UniqueFeeds feeds → UniqueFeeds (filter q feeds)
unfolding filter
UniqueFeeds-filter q [] u = tt
UniqueFeeds-filter q (feed ∷ feeds) u = elim (Bool-cases (q feed)) [
  | inl e ↦ rw e (All-filter (IsApart feed) q feeds u.0, UniqueFeeds-filter q feeds u.1)
  | inr e ↦ rw e (UniqueFeeds-filter q feeds u.1)
]

-- a row that takes the place of the one with its id and its URL
IsApart-replaced :
    (row a b : Feed)
    → ((a.id == row.id) ≡ true → a.url ≡ row.url)
    → ((b.id == row.id) ≡ true → b.url ≡ row.url)
    → IsApart a b
    → IsApart (if a.id == row.id then row else a) (if b.id == row.id then row else b)
IsApart-replaced row a b ha hb h = elim (Bool-cases (a.id == row.id)) [
  | inl k ↦ elim (Bool-cases (b.id == row.id)) [
    | inl l ↦ absurd (ground (arith, k, l, h.id))
    | inr l ↦
        rw (k, l) (record { url = subst (λ url. str_eq url b.url ≡ false) (ha k) h.url; id = l })
  ]
  | inr k ↦ elim (Bool-cases (b.id == row.id)) [
    | inl l ↦
        rw (k, l)
          (record {
            url = subst (λ url. str_eq a.url url ≡ false) (hb l) h.url;
            id = ground (arith, k);
          })
    | inr l ↦ rw (k, l) h
  ]
]

pub UniqueFeeds-update :
    (row : Feed) (feeds : List Feed)
    → All (λ feed. (feed.id == row.id) ≡ true → feed.url ≡ row.url) feeds
    → UniqueFeeds feeds
    → UniqueFeeds (update_feed row feeds)
unfolding update_feed
UniqueFeeds-update row [] h u = tt
UniqueFeeds-update row (feed ∷ feeds) h u = (
  All-map (λ f. if f.id == row.id then row else f) _ feeds
      (All-both (λ f k d. IsApart-replaced row feed f h.0 k d) feeds h.1 u.0),
  UniqueFeeds-update row feeds h.1 u.1,
)

abbrev pub names : ℤ → Feed → Bool
names feed_id f = is_id f.id feed_id

-- rows with one id are one row
pub UniqueFeeds-same :
    (feeds : List Feed) (feed : Feed) (feed_id : ℤ)
    → UniqueFeeds feeds
    → find_id feed_id feeds ≡ some feed
    → All (λ f. (f.id == feed.id) ≡ true → f ≡ feed) feeds
unfolding find_id
UniqueFeeds-same [] feed feed_id u h = tt
UniqueFeeds-same (f ∷ feeds) feed feed_id u h = elim (Bool-cases (is_id f.id feed_id)) [
  | inl e ↦
      let same = some-injective _ _ (sym (find-first (names feed_id) f feeds e) ∙ h) in
      (
        (λ k. same),
        All-implies {Q = λ g. (g.id == feed.id) ≡ true → g ≡ feed}
            (λ (g : Feed) (d : IsApart f g) k.
              absurd (cc (d.id, k, ap (λ (x : Feed). g.id == x.id) same)))
            feeds u.0,
      )
  | inr e ↦
      let later = sym (find-later (names feed_id) f feeds e) ∙ h in
      let apart = find-All (names feed_id) (IsApart f) feeds u.0 later in
      ((λ k. absurd (ground (arith, k, apart.id))), UniqueFeeds-same feeds feed feed_id u.1 later)
]

pub has_feed-append :
    (feeds more : List Feed) (id : ℕ)
    → has_feed feeds id ≡ true
    → has_feed (feeds ++ more) id ≡ true
unfolding any
has_feed-append [] more id h = cc
has_feed-append (feed ∷ feeds) more id h = ground (arith, has_feed-append feeds more id, h)

pub has_feed-update :
    (row : Feed) (feeds : List Feed) (id : ℕ)
    → has_feed (update_feed row feeds) id ≡ has_feed feeds id
unfolding any update_feed
has_feed-update row [] id = refl
has_feed-update row (feed ∷ feeds) id = ground (arith, has_feed-update row feeds id)

pub has_feed-remove :
    (gone : ℕ) (feeds : List Feed) (id : ℕ)
    → (id == gone) ≡ false
    → has_feed feeds id ≡ true
    → has_feed (filter (λ feed. not (feed.id == gone)) feeds) id ≡ true
unfolding any filter
has_feed-remove gone [] id n h = cc
has_feed-remove gone (feed ∷ feeds) id n h = ground (arith, has_feed-remove gone feeds id n, h, n)

find_entry-filter :
    (q : Entry → Bool) (feed_id : ℕ) (guid : String) (rows : List Entry)
    → find_entry feed_id guid rows ≡ none
    → find_entry feed_id guid (filter q rows) ≡ none
unfolding filter find_entry
find_entry-filter q feed_id guid [] h = refl
find_entry-filter q feed_id guid (row ∷ rows) h =
    ground (arith, find_entry-filter q feed_id guid rows, h)

pub UniqueKeys-filter :
    (q : Entry → Bool) (rows : List Entry) → UniqueKeys rows → UniqueKeys (filter q rows)
unfolding filter find_entry
UniqueKeys-filter q [] u = tt
UniqueKeys-filter q (row ∷ rows) u = elim (Bool-cases (q row)) [
  | inl e ↦ rw e (find_entry-filter q row.feed_id row.guid rows u.0, UniqueKeys-filter q rows u.1)
  | inr e ↦ rw e (UniqueKeys-filter q rows u.1)
]
