-- ===== src/Api/Feeds/Listing.antt =====
-- About `list_feeds` of api/feeds.py: what a client reads that follows its pages, told without the
-- query.
use feedgate_fetcher.Prelude.{
  ℕ, ◌⊎◌, ◌+◌, ◌<◌, ◌≡◌, refl, subst, Option, none, some, List, [], ◌∷◌, Bool, true, filter, length,
  length-filter-le, All, Bool-cases, inl, inr, arith,
}
use feedgate_fetcher.Prelude.Every.{All-filter, All-implies, All-holds, All-both}
use feedgate_fetcher.Prelude.Sort.{sort, insert}
use feedgate_fetcher.Prelude.Sort.Laws.{IsSorted, All-sort}
use feedgate_fetcher.Prelude.Ints.{ℤ}
use feedgate_fetcher.Models.{Feed, FeedStatus, status_eq_iff}
use feedgate_fetcher.Api.Cursor.{Codec}
use feedgate_fetcher.Api.Cursor.Reading.{ReadsFeedCursor}
use feedgate_fetcher.Api.Keyset.Reading.{read_pages}
use feedgate_fetcher.Api.Feeds.{Database, id_before, has_status, select_feeds, after_id, list_feeds}
use feedgate_fetcher.Api.Feeds.Unique.{UniqueFeeds}
use feedgate_fetcher.Api.Feeds.Pages.{select_feeds-IsSorted, read_pages-list_feeds}
use mathlib.Core.List.{Memᴰ}
use mathlib.Core.List.Memᴰ.{head, tail}

-- each id is smaller than all that follow
abbrev pub IsAscending : List Feed → Type 0
IsAscending [] = Unit
IsAscending (f ∷ feeds) = All (λ g. f.id < g.id) feeds × IsAscending feeds

-- does the request ask for such a feed?
abbrev pub IsAskedFor : Option FeedStatus → Feed → Type 0
IsAskedFor none feed = Unit
IsAskedFor (some status) feed = feed.status ≡ status

-- `read` holds the feeds that are asked for, all of them and no other, by their ids.
pub record IsListing (status : Option FeedStatus) (feeds read : List Feed) : Type 0 where
  pub ascending : IsAscending read
  pub asked_for : All (λ f. Memᴰ f feeds × IsAskedFor status f) read
  pub complete : All (λ f. Memᴰ f read ⊎ ¬ IsAskedFor status f) feeds

module _ {ℓ} {A : Type ℓ} where
  mem-filter : (p : A → Bool) (x : A) (xs : List A) → p x ≡ true → Memᴰ x xs → Memᴰ x (filter p xs)
  unfolding filter
  mem-filter p x [] e m = elim m [ ]
  mem-filter p x (y ∷ xs) e (head k) = rw (subst (λ z. p z ≡ true) k e) (head k)
  mem-filter p x (y ∷ xs) e (tail m) = elim (Bool-cases (p y)) [
    | inl k ↦ rw k (tail (mem-filter p x xs e m))
    | inr k ↦ rw k (mem-filter p x xs e m)
  ]

  own : (xs : List A) → All (λ x. Memᴰ x xs) xs
  own [] = tt
  own (x ∷ xs) = (head refl, All-implies (λ y m. tail m) xs (own xs))

  module _ (before : A → A → Bool) where
    mem-insert : (x y : A) (ys : List A) → Memᴰ x (y ∷ ys) → Memᴰ x (insert before y ys)
    unfolding insert
    mem-insert x y [] m = m
    mem-insert x y (z ∷ ys) m = elim (Bool-cases (before y z)) [
      | inl e ↦ rw e m
      | inr e ↦ rw e (elim m [
        | head k ↦ tail (mem-insert x y ys (head k))
        | tail (head k) ↦ head k
        | tail (tail n) ↦ tail (mem-insert x y ys (tail n))
      ])
    ]

    mem-sort : (x : A) (xs : List A) → Memᴰ x xs → Memᴰ x (sort before xs)
    unfolding sort
    mem-sort x [] m = m
    mem-sort x (y ∷ xs) (head k) = mem-insert x y (sort before xs) (head k)
    mem-sort x (y ∷ xs) (tail m) = mem-insert x y (sort before xs) (tail (mem-sort x xs m))

    length-insert : (x : A) (ys : List A) → length (insert before x ys) ≡ 1 + length ys
    unfolding insert
    length-insert x [] = refl
    length-insert x (y ∷ ys) = elim (Bool-cases (before x y)) [
      | inl e ↦ rw e (omega arith)
      | inr e ↦ rw e (omega (arith, length-insert x ys))
    ]

    length-sort : (xs : List A) → length (sort before xs) ≡ length xs
    unfolding sort
    length-sort [] = refl
    length-sort (x ∷ xs) = omega (arith, length-insert x (sort before xs), length-sort xs)

has_status-IsAskedFor :
    (status : Option FeedStatus) (f : Feed)
    → ((has_status status f ≡ true) → IsAskedFor status f)
      × (IsAskedFor status f → has_status status f ≡ true)
has_status-IsAskedFor none f = ((λ e. tt), (λ u. refl))
has_status-IsAskedFor (some status) f =
    ((λ e. (status_eq_iff f.status status).0 e), (λ e. (status_eq_iff f.status status).1 e))

sorted-IsAscending : (feeds : List Feed) → IsSorted id_before feeds → IsAscending feeds
sorted-IsAscending [] s = tt
sorted-IsAscending (f ∷ feeds) s =
    (All-implies (λ g e. ground (arith, e)) feeds s.0, sorted-IsAscending feeds s.1)

select_feeds-IsListing :
    (status : Option FeedStatus) (feeds : List Feed)
    → UniqueFeeds feeds
    → IsListing status feeds (select_feeds status none feeds)
unfolding select_feeds after_id
select_feeds-IsListing status feeds u =
    let asked = filter (has_status status) feeds in
    record {
      ascending =
          sorted-IsAscending (select_feeds status none feeds)
            (select_feeds-IsSorted status feeds u);
      asked_for =
          All-sort id_before (λ f. Memᴰ f feeds × IsAskedFor status f) asked
            (All-both (λ f m e. (m, (has_status-IsAskedFor status f).0 e)) asked
              (All-filter (λ f. Memᴰ f feeds) (has_status status) feeds (own feeds))
              (All-holds (has_status status) feeds));
      complete =
          All-implies
            (λ f m. elim (Bool-cases (has_status status f)) [
              | inl e ↦
                  inl (mem-sort id_before f asked (mem-filter (has_status status) f feeds e m))
              | inr e ↦ inr (λ a. cc (e, (has_status-IsAskedFor status f).1 a))
            ])
            feeds (own feeds);
    }

module _ (codec : Codec) (max_limit : ℕ) (limit : ℤ) (status : Option FeedStatus)
    (db : Database) where
  -- A client that follows `next_cursor` from the first page to the last, whatever limit it asks
  -- for, zero and negative ones included, reads a list of feeds whose ids ascend, in which each is
  -- a feed of the table with the status that was asked for, if one was, and no such feed is
  -- missing. URLs and ids must be unique, JSON must read back what was written for the table's
  -- ids, and the client must be ready to ask for more pages than the table has feeds.
  pub list_feeds_complete :
      (fuel : ℕ)
      → UniqueFeeds db.feeds
      → All (λ feed. ReadsFeedCursor codec feed.id) db.feeds
      → length db.feeds < fuel
      → (read : List Feed) × (read_pages fuel
            (λ cursor. list_feeds codec max_limit db cursor limit status)
            none
          ≡ some read)
        × IsListing status db.feeds read
  unfolding select_feeds after_id
  list_feeds_complete fuel u round h = (
    select_feeds status none db.feeds,
    read_pages-list_feeds codec max_limit limit status db u round fuel (
        omega (
          arith,
          h,
          length-sort id_before (filter (has_status status) db.feeds),
          length-filter-le (has_status status) db.feeds,
        )),
    select_feeds-IsListing status db.feeds u,
  )
