-- ===== src/Retention/Settled.antt =====
-- About batched sweeps of fetcher/retention.py, one after the other.
use feedgate_fetcher.Prelude.{
  ℕ, zero, suc, lt→ltb, ◌≤◌, ◌<◌, ◌≡◌, refl, ap, sym, ◌∙◌, subst, ◌⊎◌, List, [], ◌∷◌, map, Bool,
  true, not, ◌==◌, any, filter, take, length, count, All, Bool-cases, inl, inr, arith,
}
use feedgate_fetcher.Models.{Entry}
use feedgate_fetcher.Retention.{is_kept, delete_ids, sweep, sweeps}
use feedgate_fetcher.Retention.Kept.{sweep-length}

take-nil : (n : ℕ) → take {A = Entry} n [] ≡ []
unfolding take
take-nil zero = refl
take-nil (suc n) = refl

abbrev id_of : Entry → ℕ
id_of row = row.id

abbrev head_or : Entry → List Entry → Entry
head_or d [] = d
head_or d (row ∷ rows) = row

any-first :
    (n : ℕ) (v : Entry) (vs : List Entry)
    → 0 < n
    → any (λ id. id == v.id) (map id_of (take n (v ∷ vs))) ≡ true
unfolding any take
any-first zero v vs h = elim h [ ]
any-first (suc n) v vs h = ground arith

module _ (cutoff min_per_feed batch_size : ℕ) (batched : 0 < batch_size) where
  -- the rows that a sweep may delete
  abbrev victims : List Entry → List Entry
  victims rows = filter (λ row. not (is_kept cutoff min_per_feed rows row)) rows

  nothing_deleted :
      (rows : List Entry) → filter (λ row. not (any (λ id. id == row.id) [])) rows ≡ rows
  unfolding filter any
  nothing_deleted [] = refl
  nothing_deleted (row ∷ rows) = ap (◌∷◌ row) (nothing_deleted rows)

  nothing_counted : (rows : List Entry) → count (λ row. any (λ id. id == row.id) []) rows ≡ 0
  unfolding any
  nothing_counted [] = refl
  nothing_counted (row ∷ rows) = nothing_counted rows

  sweep-settled :
      (rows : List Entry)
      → victims rows ≡ []
      → sweep cutoff min_per_feed batch_size rows ≡ (0, rows)
  unfolding sweep delete_ids take
  sweep-settled rows e =
      rw
        (
          lt→ltb 0 batch_size batched,
          e,
          take-nil batch_size,
          nothing_counted rows,
          nothing_deleted rows,
        )
        refl

  counted :
      (p q : Entry → Bool) (rows : List Entry) (v : Entry) (vs : List Entry)
      → filter q rows ≡ v ∷ vs
      → p v ≡ true
      → 0 < count p rows
  unfolding filter
  counted p q [] v vs e h = cc
  counted p q (row ∷ rows) v vs e h = elim (Bool-cases (q row)) [
    | inl k ↦
        let e' : row ∷ filter q rows ≡ v ∷ vs = rw k at e in
        let own = subst (λ x. p x ≡ true) (sym (ap (head_or row) e')) h in rw own (omega arith)
    | inr k ↦
        let e' : filter q rows ≡ v ∷ vs = rw k at e in ground (arith, counted p q rows v vs e' h)
  ]

  sweep-progress :
      (rows : List Entry) (v : Entry) (vs : List Entry)
      → victims rows ≡ v ∷ vs
      → 0 < (sweep cutoff min_per_feed batch_size rows).0
  unfolding sweep take any
  sweep-progress rows v vs e = rw (lt→ltb 0 batch_size batched) (
      counted (λ x. any (λ id. id == x.id) (map id_of (take batch_size (victims rows))))
        (λ row. not (is_kept cutoff min_per_feed rows row)) rows v vs e
        (rw e (any-first batch_size v vs batched)))

  abbrev pub again : ℕ → List (ℕ × ℕ)
  again zero = []
  again (suc n) = (cutoff, batch_size) ∷ again n

  sweeps-again :
      (n : ℕ) (rows : List Entry) → victims rows ≡ [] → sweeps min_per_feed (again n) rows ≡ rows
  unfolding sweeps
  sweeps-again zero rows e = refl
  sweeps-again (suc n) rows e =
      ap (λ x. sweeps min_per_feed (again n) x.1) (sweep-settled rows e) ∙ sweeps-again n rows e

  list-cases :
      (rows : List Entry) → (rows ≡ []) ⊎ ((v : Entry) × (vs : List Entry) × (rows ≡ v ∷ vs))
  list-cases [] = inl refl
  list-cases (v ∷ vs) = inr (v, vs, refl)

  victims-sweeps :
      (n : ℕ) (rows : List Entry)
      → length rows ≤ n
      → victims (sweeps min_per_feed (again n) rows) ≡ []
  unfolding sweeps
  victims-sweeps zero [] h = unfold filter in refl
  victims-sweeps zero (row ∷ rows) h = absurd (omega (arith, h))
  victims-sweeps (suc n) rows h = elim (list-cases (victims rows)) [
    | inl e ↦ ap victims (sweeps-again (suc n) rows e) ∙ e
    | inr (v, vs, e) ↦ victims-sweeps n (sweep cutoff min_per_feed batch_size rows).1 (
        omega
          (arith, h, sweep-progress rows v vs e, sweep-length cutoff min_per_feed batch_size rows))
  ]

  no_victims :
      (p : Entry → Bool) (rows : List Entry)
      → filter (λ row. not (p row)) rows ≡ []
      → All (λ row. p row ≡ true) rows
  unfolding filter
  no_victims p [] e = tt
  no_victims p (row ∷ rows) e = elim (Bool-cases (p row)) [
    | inl k ↦ (k, no_victims p rows (rw k at e))
    | inr k ↦ let e' : row ∷ filter (λ r. not (p r)) rows ≡ [] = rw k at e in absurd (cc e')
  ]

  -- With a positive batch size and one cutoff, as many sweeps as the table has rows, or more,
  -- leave only rows that the rule keeps in what is left, and one more sweep deletes nothing.
  pub sweeps_settle :
      (n : ℕ) (rows : List Entry)
      → length rows ≤ n
      → All
          (λ row. is_kept cutoff min_per_feed (sweeps min_per_feed (again n) rows) row ≡ true)
          (sweeps min_per_feed (again n) rows)
        × (sweep cutoff min_per_feed batch_size (sweeps min_per_feed (again n) rows)
            ≡ (0, sweeps min_per_feed (again n) rows))
  sweeps_settle n rows h =
      let e = victims-sweeps n rows h in
      (
        no_victims (is_kept cutoff min_per_feed (sweeps min_per_feed (again n) rows))
            (sweeps min_per_feed (again n) rows) e,
        sweep-settled (sweeps min_per_feed (again n) rows) e,
      )
