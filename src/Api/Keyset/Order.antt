-- ===== src/Api/Keyset/Order.antt =====
-- What is left of a sorted listing behind the last row of a page.
use feedgate_fetcher.Prelude.{
  ℕ, some, List, [], ◌∷◌, ◌++◌, Bool, true, ◌≡◌, ◌∙◌, All-take, take, drop, filter, get_last?,
}
use feedgate_fetcher.Prelude.Every.{All-suffix}
use feedgate_fetcher.Prelude.Sort.Laws.{
  IsSorted, IsAsymmetric, filter-after_last, filter-skip, All-get_last?,
}

module _ {ℓ} {Row : Type ℓ} (before : Row → Row → Bool) (asymmetric : IsAsymmetric before) where
  -- Behind rows that were already listed, the rows after the last of the next `m` are what is left.
  pub filter-after_page :
      (seen rest : List Row) (m : ℕ) {x : Row}
      → IsSorted before (seen ++ rest)
      → get_last? (take m rest) ≡ some x
      → filter (before x) (seen ++ rest) ≡ drop m rest
  filter-after_page [] rest m {x} s e = filter-after_last before asymmetric rest m x s e
  filter-after_page (b ∷ seen) rest m {x} s e =
      let later =
        All-get_last? before (λ r. before b r ≡ true) (take m rest)
          (All-take _ m rest (All-suffix _ seen rest s.0)) e in
      filter-skip before x b (seen ++ rest) (asymmetric b x later)
      ∙ filter-after_page seen rest m s.1 e
