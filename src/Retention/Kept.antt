-- ===== src/Retention/Kept.antt =====
-- About one sweep of fetcher/retention.py: its keep set, and the number that it returns.
use feedgate_fetcher.Prelude.{
  ℕ, ◌+◌, ◌≤◌, ◌≡◌, refl, ap, List, [], ◌∷◌, Bool, true, ◌&&◌, not, ltb, ◌==◌, filter, length,
  count, All, Bool-cases, inl, inr, arith,
}
use feedgate_fetcher.Models.{Entry}
use feedgate_fetcher.Retention.{ranked_before, row_number, is_kept, delete_ids, sweep}

pub count-filter-le :
    (p q : Entry → Bool) (rows : List Entry) → count p (filter q rows) ≤ count p rows
unfolding filter
count-filter-le p q [] = omega arith
count-filter-le p q (row ∷ rows) = elim (Bool-cases (q row)) [
  | inl e ↦ rw e (ground (arith, count-filter-le p q rows))
  | inr e ↦ rw e (ground (arith, count-filter-le p q rows))
]

module _ (cutoff min_per_feed : ℕ) where
  -- a row that is kept is kept as well after any other rows have gone
  is_kept-filter :
      (q : Entry → Bool) (rows : List Entry) (row : Entry)
      → is_kept cutoff min_per_feed rows row ≡ true
      → is_kept cutoff min_per_feed (filter q rows) row ≡ true
  unfolding is_kept row_number
  is_kept-filter q rows row h =
      ground
        (arith, count-filter-le (λ r. (r.feed_id == row.feed_id) && ranked_before r row) q rows)

  filter_eq_self :
      (q : Entry → Bool) (rows : List Entry) → All (λ row. q row ≡ true) rows → filter q rows ≡ rows
  unfolding filter
  filter_eq_self q [] h = refl
  filter_eq_self q (row ∷ rows) h = rw h.0 (ap (◌∷◌ row) (filter_eq_self q rows h.1))

  All-of_filter :
      (p q : Entry → Bool) (rows : List Entry)
      → ((row : Entry) → p row ≡ true → q row ≡ true)
      → All (λ row. q row ≡ true) (filter p rows)
  unfolding filter
  All-of_filter p q [] f = tt
  All-of_filter p q (row ∷ rows) f = elim (Bool-cases (p row)) [
    | inl e ↦ rw e (f row e, All-of_filter p q rows f)
    | inr e ↦ rw e (All-of_filter p q rows f)
  ]

  -- After a sweep without a batch size, a second one with the same settings deletes nothing: the
  -- rows that it keeps are kept again.
  pub sweep_idem :
      (rows : List Entry)
      → (sweep cutoff min_per_feed 0 (sweep cutoff min_per_feed 0 rows).1).1
        ≡ (sweep cutoff min_per_feed 0 rows).1
  unfolding sweep
  sweep_idem rows =
      filter_eq_self (is_kept cutoff min_per_feed (filter (is_kept cutoff min_per_feed rows) rows))
        (filter (is_kept cutoff min_per_feed rows) rows)
        (All-of_filter (is_kept cutoff min_per_feed rows)
          (is_kept cutoff min_per_feed (filter (is_kept cutoff min_per_feed rows) rows)) rows
          (is_kept-filter (is_kept cutoff min_per_feed rows) rows))

split_count :
    (p : Entry → Bool) (rows : List Entry)
    → count p rows + length (filter (λ row. not (p row)) rows) ≡ length rows
unfolding filter
split_count p [] = omega arith
split_count p (row ∷ rows) = elim (Bool-cases (p row)) [
  | inl e ↦ rw e (omega (arith, split_count p rows))
  | inr e ↦ rw e (omega (arith, split_count p rows))
]

split_length :
    (p : Entry → Bool) (rows : List Entry)
    → length (filter (λ row. not (p row)) rows) + length (filter p rows) ≡ length rows
unfolding filter
split_length p [] = omega arith
split_length p (row ∷ rows) = elim (Bool-cases (p row)) [
  | inl e ↦ rw e (omega (arith, split_length p rows))
  | inr e ↦ rw e (omega (arith, split_length p rows))
]

-- The number that a sweep returns is the number of rows that are gone, with a batch size and
-- without.
pub sweep-length :
    (cutoff min_per_feed batch_size : ℕ) (rows : List Entry)
    → (sweep cutoff min_per_feed batch_size rows).0
        + length (sweep cutoff min_per_feed batch_size rows).1
      ≡ length rows
unfolding sweep delete_ids
sweep-length cutoff min_per_feed batch_size rows = elim (Bool-cases (ltb 0 batch_size)) [
  | inl e ↦ rw (e, sweep) (split_count _ rows)
  | inr e ↦ rw (e, sweep) (split_length (is_kept cutoff min_per_feed rows) rows)
]
