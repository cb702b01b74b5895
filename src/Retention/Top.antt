-- ===== src/Retention/Top.antt =====
-- About sweeps of fetcher/retention.py in a row, and the newest rows of each feed.
use feedgate_fetcher.Prelude.{
  ℕ, ◌≤◌, ◌⊎◌, ◌<◌, ◌≡◌, ◌≢◌, if◌then◌else◌, count, length, ◌∙◌, sym, refl, ap, subst, List, [],
  ◌∷◌, map, Bool, true, false, ◌&&◌, not, ltb, leb, ◌==◌, ==_iff, any, filter, take, All, All-take,
  Bool-cases, inl, inr, arith,
}
use feedgate_fetcher.Prelude.Every.{All-filter, All-holds, All-implies}
use feedgate_fetcher.Models.{Entry}
use feedgate_fetcher.Upsert.Unique.{UniqueIds}
use feedgate_fetcher.Retention.{ranked_before, row_number, is_kept, delete_ids, sweep, sweeps}
use feedgate_fetcher.Retention.Kept.{count-filter-le}

-- is the row's number among the first?
abbrev pub is_top : ℕ → List Entry → Entry → Bool
is_top min_per_feed rows row = leb (row_number rows row) min_per_feed

-- `rows'` is what a test leaves of `rows`, and the test passes the first of each feed.
pub record SparesTop (min_per_feed : ℕ) (rows rows' : List Entry) : Type 0 where
  pub test : Entry → Bool
  pub left : rows' ≡ filter test rows
  pub spared : All (λ row. is_top min_per_feed rows row ≡ true → test row ≡ true) rows

-- rows with one id are one row
ids-same :
    (rows : List Entry) → UniqueIds rows → All (λ row. All (λ v. v.id ≡ row.id → v ≡ row) rows) rows
ids-same [] u = tt
ids-same (x ∷ rows) u =
    ((λ e. refl, All-implies (λ v d e. absurd (d e)) rows u.0), others rows u.0 (ids-same rows u.1))
  where
    others :
        (ys : List Entry)
        → All (λ r. r.id ≢ x.id) ys
        → All (λ row. All (λ v. v.id ≡ row.id → v ≡ row) rows) ys
        → All (λ row. All (λ v. v.id ≡ row.id → v ≡ row) (x ∷ rows)) ys
    others [] d h = tt
    others (y ∷ ys) d h = ((λ e. absurd (d.0 (sym e)), h.0), others ys d.1 h.1)

pub UniqueIds-filter :
    (q : Entry → Bool) (rows : List Entry) → UniqueIds rows → UniqueIds (filter q rows)
unfolding filter
UniqueIds-filter q [] u = tt
UniqueIds-filter q (row ∷ rows) u = elim (Bool-cases (q row)) [
  | inl e ↦ rw e (All-filter (λ r. r.id ≢ row.id) q rows u.0, UniqueIds-filter q rows u.1)
  | inr e ↦ rw e (UniqueIds-filter q rows u.1)
]

-- what holds of all rows that pass a test
All-filter_back :
    (q : Entry → Bool) (P : Entry → Type 0) (rows : List Entry)
    → All P (filter q rows)
    → All (λ row. q row ≡ true → P row) rows
unfolding filter
All-filter_back q P [] h = tt
All-filter_back q P (row ∷ rows) h = elim (Bool-cases (q row)) [
  | inl e ↦ let h' = rw e at h in ((λ k. h'.0), All-filter_back q P rows h'.1)
  | inr e ↦ ((λ k. absurd (cc)), All-filter_back q P rows (rw e at h))
]

-- no id of a row that is kept is among those of rows that are not
not-among :
    (k : Entry → Bool) (row : Entry) (victims : List Entry)
    → k row ≡ true
    → All (λ v. v.id ≡ row.id → v ≡ row) victims
    → All (λ v. not (k v) ≡ true) victims
    → any (λ id. id == row.id) (map (λ v. v.id) victims) ≡ false
unfolding any
not-among k row [] e s d = refl
not-among k row (v ∷ victims) e s d = elim (Bool-cases (v.id == row.id)) [
  | inl f ↦
      let gone = subst (λ x. not (k x) ≡ true) (s.0 ((==_iff v.id row.id).0 f)) d.0 in absurd (cc)
  | inr f ↦ rw (f, not-among k row victims e s.1 d.1) refl
]

module _ (cutoff min_per_feed batch_size : ℕ) where
  top-is_kept :
      (rows : List Entry) (row : Entry)
      → is_top min_per_feed rows row ≡ true
      → is_kept cutoff min_per_feed rows row ≡ true
  unfolding is_kept
  top-is_kept rows row h = ground arith

  batch-spares :
      (rows : List Entry)
      → UniqueIds rows
      → All
          (λ row.
            is_kept cutoff min_per_feed rows row ≡ true
            → any
                (λ id. id == row.id)
                (map
                  (λ v. v.id)
                  (take batch_size (filter (λ v. not (is_kept cutoff min_per_feed rows v)) rows)))
              ≡ false)
          rows
  batch-spares rows u =
      let victims = filter (λ v. not (is_kept cutoff min_per_feed rows v)) rows in
      All-implies
        (λ row s e.
          not-among (is_kept cutoff min_per_feed rows) row (take batch_size victims) e
            (All-take (λ v. v.id ≡ row.id → v ≡ row) batch_size victims
              (All-filter (λ v. v.id ≡ row.id → v ≡ row)
                (λ v. not (is_kept cutoff min_per_feed rows v)) rows s))
            (All-take (λ v. not (is_kept cutoff min_per_feed rows v) ≡ true) batch_size victims
              (All-holds (λ v. not (is_kept cutoff min_per_feed rows v)) rows)))
        rows (ids-same rows u)

  sweep-SparesTop :
      (rows : List Entry)
      → UniqueIds rows
      → SparesTop min_per_feed rows (sweep cutoff min_per_feed batch_size rows).1
  unfolding sweep delete_ids
  sweep-SparesTop rows u = elim (Bool-cases (ltb 0 batch_size)) [
    | inl e ↦
        rw (e, sweep)
          (record {
            test = _;
            left = refl;
            spared =
                All-implies (λ row f t. ap not (f (top-is_kept rows row t))) rows
                  (batch-spares rows u);
          })
    | inr e ↦
        rw (e, sweep)
          (record {
            test = is_kept cutoff min_per_feed rows;
            left = refl;
            spared = All-implies (λ row x t. top-is_kept rows row t) rows (ids-same rows u);
          })
  ]

filter-filter :
    (p q : Entry → Bool) (rows : List Entry)
    → filter q (filter p rows) ≡ filter (λ row. p row && q row) rows
unfolding filter
filter-filter p q [] = refl
filter-filter p q (row ∷ rows) = elim (Bool-cases (p row)) [
  | inl e ↦ rw (e, filter-filter p q rows) refl
  | inr e ↦ rw (e, filter-filter p q rows) refl
]

-- fewer rows, no higher a row number
top-filter :
    (n : ℕ) (q : Entry → Bool) (rows : List Entry) (row : Entry)
    → is_top n rows row ≡ true
    → is_top n (filter q rows) row ≡ true
unfolding row_number
top-filter n q rows row h =
    ground (arith, count-filter-le (λ r. (r.feed_id == row.feed_id) && ranked_before r row) q rows)

All-zip :
    {P Q R : Entry → Type 0}
    → ((row : Entry) → P row → Q row → R row)
    → (rows : List Entry) → All P rows
    → All Q rows
    → All R rows
All-zip f [] h k = tt
All-zip f (row ∷ rows) h k = (f row h.0 k.0, All-zip f rows h.1 k.1)

SparesTop-trans : (n : ℕ) (a b c : List Entry) → SparesTop n a b → SparesTop n b c → SparesTop n a c
SparesTop-trans n a b c p q = record {
  test = λ row. p.test row && q.test row;
  left = q.left ∙ ap (filter q.test) p.left ∙ filter-filter p.test q.test a;
  spared =
      All-zip
        (λ row passed next t. both (p.test row) (q.test row) (passed t) (
          next (passed t)
            (subst (λ l. is_top n l row ≡ true) (sym p.left) (top-filter n p.test a row t))))
        a p.spared
        (All-filter_back p.test (λ row. is_top n b row ≡ true → q.test row ≡ true) a
          (subst (All (λ row. is_top n b row ≡ true → q.test row ≡ true)) p.left q.spared));
}
  where
    both : (x y : Bool) → x ≡ true → y ≡ true → (x && y) ≡ true
    both x y e f = rw (e, f) refl

sweeps-SparesTop :
    (n : ℕ) (plan : List (ℕ × ℕ)) (rows : List Entry)
    → UniqueIds rows
    → SparesTop n rows (sweeps n plan rows)
unfolding sweeps
sweeps-SparesTop n [] rows u = record {
  test = λ row. true;
  left = sym (whole rows);
  spared = All-implies (λ row x t. refl) rows (ids-same rows u);
}
  where
    whole : (rows : List Entry) → filter (λ row. true) rows ≡ rows
    whole [] = refl
    whole (row ∷ rows) = ap (◌∷◌ row) (whole rows)
sweeps-SparesTop n ((cutoff, batch_size) ∷ plan) rows u =
    let s = sweep-SparesTop cutoff n batch_size rows u in
    let next = (sweep cutoff n batch_size rows).1 in
    SparesTop-trans n rows next (sweeps n plan next) s
      (sweeps-SparesTop n plan next (subst UniqueIds (sym s.left) (UniqueIds-filter s.test rows u)))

-- Is `r` a newer row than `row`? It was fetched later, or at the same time and has the higher id.
unfoldable pub newer : Entry → Entry → Bool
newer r row =
    if r.fetched_at == row.fetched_at then ltb row.id r.id else ltb row.fetched_at r.fetched_at

-- the rows of a row's own feed that are newer
abbrev pub newer_siblings : List Entry → Entry → List Entry
newer_siblings rows row = filter (λ r. (r.feed_id == row.feed_id) && newer r row) rows

-- `rows'` is what a test leaves of `rows`, and each row has so many newer siblings or passes the test.
pub record IsSpared (min_per_feed : ℕ) (rows rows' : List Entry) : Type 0 where
  pub test : Entry → Bool
  pub left : rows' ≡ filter test rows
  pub spared :
      All (λ row. (min_per_feed ≤ length (newer_siblings rows row)) ⊎ (test row ≡ true)) rows

ranked_before-newer : (r row : Entry) → ranked_before r row ≡ newer r row
unfolding ranked_before newer
ranked_before-newer r row = ground arith

count-newer :
    (rows : List Entry) (row : Entry)
    → count (λ r. (r.feed_id == row.feed_id) && ranked_before r row) rows
      ≡ length (newer_siblings rows row)
unfolding filter
count-newer [] row = refl
count-newer (r ∷ rows) row = rw (ranked_before-newer r row) (ground (arith, count-newer rows row))

newest-is_top :
    (n : ℕ) (rows : List Entry) (row : Entry)
    → length (newer_siblings rows row) < n
    → is_top n rows row ≡ true
unfolding row_number
newest-is_top n rows row h = rw (count-newer rows row) (ground (arith, h))

-- Whatever sweeps follow one another, batched or not and with any cutoffs, what is left of a table
-- with unique ids is what a test leaves of its rows, and each row passes it that has fewer than
-- `min_per_feed` newer siblings: rows of its feed that were fetched later, or at the same time and
-- have a higher id.
pub sweeps-IsSpared :
    (n : ℕ) (plan : List (ℕ × ℕ)) (rows : List Entry)
    → UniqueIds rows
    → IsSpared n rows (sweeps n plan rows)
sweeps-IsSpared n plan rows u =
    let s = sweeps-SparesTop n plan rows u in
    record {
      test = s.test;
      left = s.left;
      spared = All-implies (λ row passed. either row passed) rows s.spared;
    }
  where
    either :
        (row : Entry)
        → (is_top n rows row ≡ true → (sweeps-SparesTop n plan rows u).test row ≡ true)
        → (n ≤ length (newer_siblings rows row))
          ⊎ ((sweeps-SparesTop n plan rows u).test row ≡ true)
    either row passed = elim (Bool-cases (leb n (length (newer_siblings rows row)))) [
      | inl e ↦ inl (ground (arith, e))
      | inr e ↦ inr (passed (newest-is_top n rows row (ground (arith, e))))
    ]
