-- ===== src/Scheduler/Selection.antt =====
-- Lemmas on rows that are filtered, sorted and taken, as the claim of fetcher/scheduler.py does it.
use feedgate_fetcher.Prelude.{
  ℕ, ◌+◌, ◌≡◌, ◌∙◌, refl, sym, ◌⊎◌, inl, inr, List, [], ◌∷◌, ◌++◌, map, Bool, true, false, ◌==◌,
  ==_iff, any, filter, length, All, arith, Bool-cases,
}
use feedgate_fetcher.Prelude.Sort.{sort, insert}
use feedgate_fetcher.Prelude.Sort.Laws.{IsSorted, IsTransitive, IsConnected}
use feedgate_fetcher.Prelude.Every.{All-both, All-intro}
use feedgate_fetcher.Models.{Feed}
use feedgate_fetcher.Scheduler.{earlier}
use feedgate_fetcher.Scheduler.Claims.{among, id_of}

pub earlier-IsTransitive : IsTransitive earlier
earlier-IsTransitive a b c h k = ground arith

pub earlier-IsConnected : (feeds : List Feed) → IsConnected earlier feeds
earlier-IsConnected [] = tt
earlier-IsConnected (f ∷ feeds) = (All-intro (λ g. total f g) feeds, earlier-IsConnected feeds)
  where
    total : (f g : Feed) → (earlier f g ≡ true) ⊎ (earlier g f ≡ true)
    total f g = ground arith

-- what comes later in a sorted list is after everything that comes first
pub sorted-later :
    (xs ys : List Feed)
    → IsSorted earlier (xs ++ ys)
    → All (λ y. All (λ x. earlier x y ≡ true) xs) ys
sorted-later [] ys s = All-intro (λ y. tt) ys
sorted-later (x ∷ xs) ys s =
    All-both (λ y e later. (e, later)) ys (suffix xs ys s.0) (sorted-later xs ys s.1)
  where
    suffix :
        (xs ys : List Feed)
        → All (λ y. earlier x y ≡ true) (xs ++ ys)
        → All (λ y. earlier x y ≡ true) ys
    suffix [] ys h = h
    suffix (z ∷ xs) ys h = suffix xs ys h.1

insert-back {κ} :
    (P : Feed → Type κ) (x : Feed) (ys : List Feed) → All P (insert earlier x ys) → P x × All P ys
unfolding insert
insert-back P x [] h = (h.0, tt)
insert-back P x (y ∷ ys) h = elim (Bool-cases (earlier x y)) [
  | inl e ↦ let h' = rw e at h in h'
  | inr e ↦ let h' = rw e at h in let (p, rest) = insert-back P x ys h'.1 in (p, (h'.0, rest))
]

pub sort-back {κ} : (P : Feed → Type κ) (xs : List Feed) → All P (sort earlier xs) → All P xs
unfolding sort
sort-back P [] h = tt
sort-back P (x ∷ xs) h =
    let (p, rest) = insert-back P x (sort earlier xs) h in (p, sort-back P xs rest)

pub filter-back {κ} :
    (P : Feed → Type κ) (p : Feed → Bool) (xs : List Feed)
    → All P (filter p xs)
    → All (λ x. p x ≡ true → P x) xs
unfolding filter
filter-back P p [] h = tt
filter-back P p (x ∷ xs) h = elim (Bool-cases (p x)) [
  | inl e ↦ let h' = rw e at h in ((λ k. h'.0), filter-back P p xs h'.1)
  | inr e ↦ ((λ k. absurd (cc (sym e ∙ k))), filter-back P p xs (rw e at h))
]

length-insert : (x : Feed) (ys : List Feed) → length (insert earlier x ys) ≡ 1 + length ys
unfolding insert
length-insert x [] = omega arith
length-insert x (y ∷ ys) = elim (Bool-cases (earlier x y)) [
  | inl e ↦ rw e (omega arith)
  | inr e ↦ rw e (omega (arith, length-insert x ys))
]

pub length-sort : (xs : List Feed) → length (sort earlier xs) ≡ length xs
unfolding sort
length-sort [] = refl
length-sort (x ∷ xs) = omega (arith, length-insert x (sort earlier xs), length-sort xs)

pub not_among :
    (feeds : List Feed) (id : ℕ)
    → among (map id_of feeds) id ≡ false
    → All (λ f. (f.id == id) ≡ false) feeds
unfolding any
not_among [] id h = tt
not_among (f ∷ feeds) id h = elim (Bool-cases (f.id == id)) [
  | inl e ↦ absurd (ground (arith, e, h))
  | inr e ↦ (e, not_among feeds id (ground (arith, e, h)))
]

pub among-All {κ} :
    (Q : Type κ) (feeds : List Feed) (id : ℕ)
    → All (λ f. f.id ≡ id → Q) feeds
    → among (map id_of feeds) id ≡ true
    → Q
unfolding any
among-All Q [] id h e = cc
among-All Q (f ∷ feeds) id h e = elim (Bool-cases (f.id == id)) [
  | inl k ↦ h.0 ((==_iff f.id id).0 k)
  | inr k ↦ among-All Q feeds id h.1 (ground (arith, k, e))
]
