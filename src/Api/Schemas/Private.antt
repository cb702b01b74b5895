-- ===== src/Api/Schemas/Private.antt =====
-- About the columns of `feeds` that the responses of schemas.py leave out.
use feedgate_fetcher.Prelude.{
  ℕ, zero, suc, ◌+◌, ◌≡◌, ◌∙◌, refl, ap, Option, none, some, List, [], ◌∷◌, map, Bool, filter, take,
  length, get_last?, Bool-cases, Option-cases, inl, inr,
}
use feedgate_fetcher.Prelude.Ints.{ℤ}
use feedgate_fetcher.Prelude.Find.{find-map}
use feedgate_fetcher.Prelude.Sort.{sort, insert}
use feedgate_fetcher.Models.{Feed, FeedStatus}
use feedgate_fetcher.Api.Http.{respond, Reply-cases}
use feedgate_fetcher.Api.Cursor.{Codec, encode_feed_cursor}
use feedgate_fetcher.Api.Entries.{is_id}
use feedgate_fetcher.Api.Keyset.{cursor_after, page_of}
use feedgate_fetcher.Api.Feeds.{
  Database, id_before, has_status, above_id, after_id, select_feeds, feed_cursor_of, page_limit,
  list_feeds, get_feed, find_id,
}
use feedgate_fetcher.Api.Schemas.{FeedResponse, feed_response, paginated, sent}
use mathlib.Core.Option

module _ {ℓ} {A : Type ℓ} (g : A → A) where
  filter-map :
      (p : A → Bool) (xs : List A)
      → ((x : A) → p (g x) ≡ p x)
      → filter p (map g xs) ≡ map g (filter p xs)
  unfolding filter
  filter-map p [] same = refl
  filter-map p (x ∷ xs) same = elim (Bool-cases (p x)) [
    | inl e ↦ rw (same x) (rw e (ap (◌∷◌ (g x)) (filter-map p xs same)))
    | inr e ↦ rw (same x) (rw e (filter-map p xs same))
  ]

  insert-map :
      (before : A → A → Bool) (x : A) (xs : List A)
      → ((a b : A) → before (g a) (g b) ≡ before a b)
      → insert before (g x) (map g xs) ≡ map g (insert before x xs)
  unfolding insert
  insert-map before x [] same = refl
  insert-map before x (y ∷ ys) same = elim (Bool-cases (before x y)) [
    | inl e ↦ rw (same x y) (rw e refl)
    | inr e ↦ rw (same x y) (rw e (ap (◌∷◌ (g y)) (insert-map before x ys same)))
  ]

  sort-map :
      (before : A → A → Bool) (xs : List A)
      → ((a b : A) → before (g a) (g b) ≡ before a b)
      → sort before (map g xs) ≡ map g (sort before xs)
  unfolding sort
  sort-map before [] same = refl
  sort-map before (x ∷ xs) same =
      ap (insert before (g x)) (sort-map before xs same) ∙ insert-map before x (sort before xs) same

  take-map : (n : ℕ) (xs : List A) → take n (map g xs) ≡ map g (take n xs)
  unfolding take
  take-map zero xs = refl
  take-map (suc n) [] = refl
  take-map (suc n) (x ∷ xs) = ap (◌∷◌ (g x)) (take-map n xs)

  length-map : (xs : List A) → length (map g xs) ≡ length xs
  length-map [] = refl
  length-map (x ∷ xs) = ap suc (length-map xs)

  last-map :
      (write : A → List ℕ) (xs : List A)
      → ((x : A) → write (g x) ≡ write x)
      → Option.map write (get_last? (map g xs)) ≡ Option.map write (get_last? xs)
  unfolding get_last?
  last-map write [] same = refl
  last-map write (x ∷ []) same = ap some (same x)
  last-map write (x ∷ y ∷ xs) same = last-map write (y ∷ xs) same

  page_of-map :
      (write : A → List ℕ) (limit : ℕ) (xs : List A)
      → ((x : A) → write (g x) ≡ write x)
      → page_of write limit (map g xs) ≡ record {
        items = map g (page_of write limit xs).items;
        next_cursor = (page_of write limit xs).next_cursor;
      }
  unfolding page_of cursor_after
  page_of-map write limit xs same =
      let rows = take (limit + 1) xs in
      rw (take-map (limit + 1) xs) (
        rw (take-map limit rows)
          (rw (length-map rows) (rw (last-map write (take limit rows) same) refl)))

map-map {ℓ κ} :
    {A : Type ℓ} {B : Type κ} (g : A → A) (f : A → B) (xs : List A)
    → ((x : A) → f (g x) ≡ f x)
    → map f (map g xs) ≡ map f xs
map-map g f [] same = refl
map-map g f (x ∷ xs) same = rw (same x, map-map g f xs same) refl

module _ (g : Feed → Feed) (same : (f : Feed) → feed_response (g f) ≡ feed_response f) where
  same_id : (f : Feed) → (g f).id ≡ f.id
  same_id f = ap (λ (r : FeedResponse). r.id) (same f)

  same_status : (f : Feed) → (g f).status ≡ f.status
  same_status f = ap (λ (r : FeedResponse). r.status) (same f)

  has_status-same :
      (status : Option FeedStatus) (f : Feed) → has_status status (g f) ≡ has_status status f
  has_status-same none f = refl
  has_status-same (some status) f = rw (same_status f) refl

  after_id-map :
      (cur : Option ℤ) (feeds : List Feed) → after_id cur (map g feeds) ≡ map g (after_id cur feeds)
  unfolding after_id
  after_id-map none feeds = refl
  after_id-map (some cur_id) feeds =
      filter-map g (λ f. above_id cur_id f.id) feeds (λ f. ap (above_id cur_id) (same_id f))

  select_feeds-map :
      (status : Option FeedStatus) (cur : Option ℤ) (feeds : List Feed)
      → select_feeds status cur (map g feeds) ≡ map g (select_feeds status cur feeds)
  unfolding select_feeds
  select_feeds-map status cur feeds =
      ap (λ fs. sort id_before (filter (has_status status) fs)) (after_id-map cur feeds)
      ∙ ap (sort id_before)
          (filter-map g (has_status status) (after_id cur feeds) (has_status-same status))
      ∙ sort-map g id_before (filter (has_status status) (after_id cur feeds))
          (λ a b. rw (same_id a, same_id b) refl)

  page-same :
      (limit : ℕ) (feeds : List Feed)
      → paginated feed_response (page_of (λ f. encode_feed_cursor f.id) limit (map g feeds))
        ≡ paginated feed_response (page_of (λ f. encode_feed_cursor f.id) limit feeds)
  page-same limit feeds =
      let page = page_of (λ (f : Feed). encode_feed_cursor f.id) limit feeds in
      rw
        (page_of-map g (λ f. encode_feed_cursor f.id) limit feeds
          (λ f. ap encode_feed_cursor (same_id f)))
        (ap (λ items. record { items = items; next_cursor = page.next_cursor })
          (map-map g feed_response page.items same))

  find_id-map :
      (feed_id : ℤ) (feeds : List Feed)
      → find_id feed_id (map g feeds) ≡ Option.map g (find_id feed_id feeds)
  unfolding find_id
  find_id-map feed_id feeds =
      find-map (λ f. is_id f.id feed_id) g feeds (λ f. ap (λ i. is_id i feed_id) (same_id f))

  -- Whatever becomes of the columns of `feeds` that no response carries, the scheduler's metadata
  -- and the cache validators, the API answers every listing and every single feed as before,
  -- cursors and errors included.
  pub list_feeds-private :
      (codec : Codec) (max_limit : ℕ) (db : Database) (cursor : Option (List ℕ)) (limit : ℤ)
      (status : Option FeedStatus) (feed_id : ℤ)
      → (sent
            (paginated feed_response)
            (list_feeds codec max_limit (record db { feeds = map g db.feeds }) cursor limit status)
          ≡ sent (paginated feed_response) (list_feeds codec max_limit db cursor limit status))
        × (sent feed_response (get_feed feed_id (record db { feeds = map g db.feeds }))
            ≡ sent feed_response (get_feed feed_id db))
  unfolding list_feeds get_feed
  list_feeds-private codec max_limit db cursor limit status feed_id = (
    elim (Reply-cases (feed_cursor_of codec cursor)) [
      | inl (s, e) ↦ rw (e, list_feeds) refl
      | inr (cur, e) ↦
          let lim = page_limit limit max_limit in
          rw (e, list_feeds)
            (ap respond (
              ap (λ fs. paginated feed_response (page_of (λ f. encode_feed_cursor f.id) lim fs))
                (select_feeds-map status cur db.feeds)
              ∙ page-same lim (select_feeds status cur db.feeds)))
    ],
    elim (Option-cases (find_id feed_id db.feeds)) [
      | inl e ↦ rw (find_id-map feed_id db.feeds, get_feed) (rw (e, get_feed) refl)
      | inr (feed, e) ↦
          rw (find_id-map feed_id db.feeds, get_feed) (rw (e, get_feed) (ap respond (same feed)))
    ],
  )
