-- ===== src/Errors/Chain.antt =====
-- About `_classify_connect_cause` of fetcher/errors.py: the search along the causes, beside a
-- search that keeps no `seen` set.
use feedgate_fetcher.Prelude.{
  ℕ, zero, suc, ◌≡◌, Option, none, some, List, Bool, true, any, ◌==◌, ◌⊎◌,
}
use feedgate_fetcher.Models.{ErrorCode, connection}
use feedgate_fetcher.Exceptions.{ExcObject}
use feedgate_fetcher.Errors.{next_exc, connect_code}

-- The first of the links `start`, ..., `start + n - 1` that says something.
unfoldable pub first_code : (ℕ → ExcObject) → Option ℕ → ℕ → ErrorCode
first_code heap none n = connection
first_code heap (some i) zero = connection
first_code heap (some i) (suc n) =
    let rest = first_code heap (next_exc (heap i)) n in
    elim (connect_code (heap i).kind) [ some code ↦ code | none ↦ rest ]

abbrev mem : ℕ → List ℕ → Bool
mem i seen = any (λ j. j == i) seen

-- What the loop knows of the objects that it has passed on its way to `current`.
record IsPassed (heap : ℕ → ExcObject) (current : ℕ) (seen : List ℕ) : Type 0 where
  silent : (i : ℕ) → mem i seen ≡ true → connect_code (heap i).kind ≡ none
  closed :
      (i j : ℕ)
      → mem i seen ≡ true
      → next_exc (heap i) ≡ some j
      → (mem j seen ≡ true) ⊎ (j ≡ current)
