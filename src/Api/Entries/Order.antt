-- ===== src/Api/Entries/Order.antt =====
-- The order of the listing, and what a cursor selects in it.
use feedgate_fetcher.Prelude.{
  List, [], ◌∷◌, Bool, true, ◌≡◌, ◌≢◌, ◌⊎◌, inl, inr, All, filter, arith, Bool-cases,
}
use feedgate_fetcher.Prelude.Every.{All-filter}
use feedgate_fetcher.Prelude.Sort.Laws.{IsTransitive, IsAsymmetric, IsConnected}
use feedgate_fetcher.Prelude.Ints.{pos}
use feedgate_fetcher.Models.{Entry}
use feedgate_fetcher.Api.Entries.{listed_before, is_after}
use feedgate_fetcher.Upsert.Unique.{UniqueIds}

pub listed_before-IsTransitive : IsTransitive listed_before
unfolding listed_before
listed_before-IsTransitive a b c h k = ground arith

pub listed_before-IsAsymmetric : IsAsymmetric listed_before
unfolding listed_before
listed_before-IsAsymmetric a b h = ground arith

listed_before_total :
    (a b : Entry) → b.id ≢ a.id → (listed_before a b ≡ true) ⊎ (listed_before b a ≡ true)
unfolding listed_before
listed_before_total a b h = ground arith

-- The WHERE of a cursor is the order of the listing, NULLs included.
pub is_after-listed_before :
    (a b : Entry) → is_after (a.published_at, pos a.id) b ≡ listed_before a b
unfolding is_after listed_before
is_after-listed_before a b = ground arith

All-connected :
    (a : Entry) (rows : List Entry)
    → All (λ r. r.id ≢ a.id) rows
    → All (λ r. (listed_before a r ≡ true) ⊎ (listed_before r a ≡ true)) rows
All-connected a [] h = tt
All-connected a (r ∷ rows) h = (listed_before_total a r h.0, All-connected a rows h.1)

pub filter-IsConnected :
    (p : Entry → Bool) (rows : List Entry)
    → UniqueIds rows
    → IsConnected listed_before (filter p rows)
unfolding filter
filter-IsConnected p [] u = tt
filter-IsConnected p (r ∷ rows) u = elim (Bool-cases (p r)) [
  | inl e ↦ rw e (
    All-filter (λ r'. (listed_before r r' ≡ true) ⊎ (listed_before r' r ≡ true)) p rows
        (All-connected r rows u.0),
    filter-IsConnected p rows u.1,
  )
  | inr e ↦ rw e (filter-IsConnected p rows u.1)
]
