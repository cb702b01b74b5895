-- ===== src/Api/Feeds/Pages.antt =====
-- About `list_feeds` of api/feeds.py, page after page.
use feedgate_fetcher.Prelude.{
  ℕ, ◌<◌, Option, none, some, List, [], ◌∷◌, ◌++◌, Bool, true, false, ◌≡◌, refl, ap, ◌∙◌, sym,
  subst, ◌⊎◌, inl, inr, take, drop, All, All-take, filter, get_last?, length, take-append-drop,
  arith, Bool-cases,
}
use feedgate_fetcher.Prelude.Every.{All-filter, All-implies, All-suffix}
use feedgate_fetcher.Prelude.Sort.{sort}
use feedgate_fetcher.Prelude.Sort.Laws.{
  IsSorted, IsTransitive, IsAsymmetric, IsConnected, sort-IsSorted, filter-sort, All-sort,
  All-get_last?,
}
use feedgate_fetcher.Prelude.Ints.{ℤ, pos}
use feedgate_fetcher.Models.{Feed, FeedStatus}
use feedgate_fetcher.Api.Http.{Reply, respond}
use feedgate_fetcher.Api.Cursor.{Codec, encode_feed_cursor}
use feedgate_fetcher.Api.Cursor.Reading.{ReadsFeedCursor, decode_feed_cursor-encode_feed_cursor}
use feedgate_fetcher.Api.Keyset.{Page, page_of}
use feedgate_fetcher.Api.Keyset.Order.{filter-after_page}
use feedgate_fetcher.Api.Keyset.Reading.{read_pages, read_pages-rest}
use feedgate_fetcher.Api.Feeds.{
  Database, page_limit, id_before, has_status, select_feeds, after_id, feed_cursor_of, list_feeds,
}
use feedgate_fetcher.Api.Feeds.Unique.{UniqueFeeds, IsApart}
use mathlib.Core.List.{append_assoc}

id_before-IsTransitive : IsTransitive id_before
id_before-IsTransitive a b c h k = ground arith

id_before-IsAsymmetric : IsAsymmetric id_before
id_before-IsAsymmetric a b h = ground arith

filter-IsConnected :
    (p : Feed → Bool) (feeds : List Feed)
    → UniqueFeeds feeds
    → IsConnected id_before (filter p feeds)
unfolding filter
filter-IsConnected p [] u = tt
filter-IsConnected p (f ∷ feeds) u = elim (Bool-cases (p f)) [
  | inl e ↦ rw e (
    All-filter _ p feeds (All-implies (λ g d. connected f g d) feeds u.0),
    filter-IsConnected p feeds u.1,
  )
  | inr e ↦ rw e (filter-IsConnected p feeds u.1)
]
  where
    connected : (f g : Feed) → IsApart f g → (id_before f g ≡ true) ⊎ (id_before g f ≡ true)
    connected f g d = ground (arith, d.id)

module _ {ℓ} {A : Type ℓ} where
  filter-keeps :
      (p : A → Bool) (x : A) (xs : List A) → p x ≡ true → filter p (x ∷ xs) ≡ x ∷ filter p xs
  unfolding filter
  filter-keeps p x xs e = rw e refl

  filter-drops :
      (p : A → Bool) (x : A) (xs : List A) → p x ≡ false → filter p (x ∷ xs) ≡ filter p xs
  unfolding filter
  filter-drops p x xs e = rw e refl

  filter-swap : (p q : A → Bool) (xs : List A) → filter p (filter q xs) ≡ filter q (filter p xs)
  unfolding filter
  filter-swap p q [] = refl
  filter-swap p q (x ∷ xs) =
      let swap = filter-swap p q xs in
      elim (Bool-cases (p x)) [
        | inl e ↦ elim (Bool-cases (q x)) [
          | inl k ↦
              ap (filter p) (filter-keeps q x xs k)
              ∙ filter-keeps p x (filter q xs) e
              ∙ ap (◌∷◌ x) swap
              ∙ sym (ap (filter q) (filter-keeps p x xs e) ∙ filter-keeps q x (filter p xs) k)
          | inr k ↦
              ap (filter p) (filter-drops q x xs k)
              ∙ swap
              ∙ sym (ap (filter q) (filter-keeps p x xs e) ∙ filter-drops q x (filter p xs) k)
        ]
        | inr e ↦ elim (Bool-cases (q x)) [
          | inl k ↦
              ap (filter p) (filter-keeps q x xs k)
              ∙ filter-drops p x (filter q xs) e
              ∙ swap
              ∙ sym (ap (filter q) (filter-drops p x xs e))
          | inr k ↦
              ap (filter p) (filter-drops q x xs k)
              ∙ swap
              ∙ sym (ap (filter q) (filter-drops p x xs e))
        ]
      ]

module _ (status : Option FeedStatus) (feeds : List Feed) (u : UniqueFeeds feeds) where
  pub select_feeds-IsSorted : IsSorted id_before (select_feeds status none feeds)
  unfolding select_feeds after_id
  select_feeds-IsSorted =
      sort-IsSorted id_before id_before-IsTransitive (filter (has_status status) feeds)
        (filter-IsConnected (has_status status) feeds u)

  select_feeds-cursor :
      (x : Feed)
      → select_feeds status (some (pos x.id)) feeds
        ≡ filter (id_before x) (select_feeds status none feeds)
  unfolding select_feeds after_id
  select_feeds-cursor x =
      ap (sort id_before) (filter-swap (has_status status) (id_before x) feeds)
      ∙ sym (
          filter-sort id_before id_before-IsTransitive (id_before x)
            (filter (has_status status) feeds) (filter-IsConnected (has_status status) feeds u))

  select_feeds-rest :
      (seen rest : List Feed) (m : ℕ) (x : Feed)
      → select_feeds status none feeds ≡ seen ++ rest
      → get_last? (take m rest) ≡ some x
      → select_feeds status (some (pos x.id)) feeds ≡ drop m rest
  select_feeds-rest seen rest m x e last =
      select_feeds-cursor x
      ∙ ap (filter (id_before x)) e
      ∙ filter-after_page id_before id_before-IsAsymmetric seen rest m
          (subst (IsSorted id_before) e select_feeds-IsSorted) last

  select_feeds-All {κ} :
      (P : Feed → Type κ) (seen rest : List Feed) (m : ℕ) (x : Feed)
      → All P feeds
      → select_feeds status none feeds ≡ seen ++ rest
      → get_last? (take m rest) ≡ some x
      → P x
  unfolding select_feeds after_id
  select_feeds-All P seen rest m x h e last =
      All-get_last? id_before P (take m rest)
        (All-take P m rest (
          All-suffix P seen rest (
            subst (All P) e (
              All-sort id_before P (filter (has_status status) feeds)
                (All-filter P (has_status status) feeds h)))))
        last

page_limit-pos : (limit : ℤ) (max_limit : ℕ) → 0 < page_limit limit max_limit
page_limit-pos limit max_limit = ground arith

abbrev write : Feed → List ℕ
write feed = encode_feed_cursor feed.id

module _ (codec : Codec) (max_limit : ℕ) (limit : ℤ) (status : Option FeedStatus)
    (db : Database) where
  abbrev page : Option (List ℕ) → Reply (Page Feed)
  page cursor = list_feeds codec max_limit db cursor limit status

  record LeavesFeeds (cursor : Option (List ℕ)) (rest : List Feed) : Type 0 where
    cur : Option ℤ
    seen : List Feed
    reads : feed_cursor_of codec cursor ≡ respond cur
    splits : select_feeds status none db.feeds ≡ seen ++ rest
    selects : select_feeds status cur db.feeds ≡ rest

  page-eq :
      (cursor : Option (List ℕ)) (rest : List Feed)
      → LeavesFeeds cursor rest
      → page cursor ≡ respond (page_of write (page_limit limit max_limit) rest)
  unfolding list_feeds
  page-eq cursor rest s = rw (s.reads, s.selects) refl

  feed_cursor_of-write :
      (id : ℕ)
      → ReadsFeedCursor codec id
      → feed_cursor_of codec (some (encode_feed_cursor id)) ≡ respond (some (pos id))
  unfolding feed_cursor_of
  feed_cursor_of-write id h = rw (decode_feed_cursor-encode_feed_cursor codec id h) refl

  module _ (u : UniqueFeeds db.feeds)
      (round : All (λ feed. ReadsFeedCursor codec feed.id) db.feeds) where
    LeavesFeeds-moves :
        (cursor : Option (List ℕ)) (rest : List Feed) (x : Feed)
        → LeavesFeeds cursor rest
        → get_last? (take (page_limit limit max_limit) rest) ≡ some x
        → LeavesFeeds (some (write x)) (drop (page_limit limit max_limit) rest)
    LeavesFeeds-moves cursor rest x s last =
        let n = page_limit limit max_limit in
        record {
          cur = some (pos x.id);
          seen = s.seen ++ take n rest;
          reads =
              feed_cursor_of-write x.id
                (select_feeds-All status db.feeds u _ s.seen rest n x round s.splits last);
          splits =
              s.splits
              ∙ ap (λ r. s.seen ++ r) (sym (take-append-drop n rest))
              ∙ sym (append_assoc s.seen (take n rest) (drop n rest));
          selects = select_feeds-rest status db.feeds u s.seen rest n x s.splits last;
        }

    -- the pages of the listing, put together, are the query without a cursor
    pub read_pages-list_feeds :
        (fuel : ℕ)
        → length (select_feeds status none db.feeds) < fuel
        → read_pages fuel (λ cursor. list_feeds codec max_limit db cursor limit status) none
          ≡ some (select_feeds status none db.feeds)
    read_pages-list_feeds fuel h =
        read_pages-rest write (page_limit limit max_limit) page LeavesFeeds
          (page_limit-pos limit max_limit) page-eq LeavesFeeds-moves fuel none
          (select_feeds status none db.feeds)
          (record {
            cur = none;
            seen = [];
            reads = unfold feed_cursor_of in refl;
            splits = refl;
            selects = refl;
          })
          h
