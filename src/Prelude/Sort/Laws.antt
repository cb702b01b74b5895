-- ===== src/Prelude/Sort/Laws.antt =====
-- Lemmas on sorting, and how it meets filters and prefixes.
use feedgate_fetcher.Prelude.Tests.{if◌then◌else◌, Bool-cases}
use feedgate_fetcher.Prelude.Every.{All-filter}
use feedgate_fetcher.Prelude.Lists.{All, filter, take, All-take, drop, get_last?}
use feedgate_fetcher.Prelude.Sort.{insert, sort}
use Prim.Native.Nat.{ℕ, zero, suc}
use mathlib.Core.Bool.{Bool, true, false}
use mathlib.Core.List.{List, [], ◌∷◌}
use mathlib.Core.Logic.{◌⊎◌, inl, inr}
use mathlib.Core.Option.{some, some-injective}
use mathlib.Core.Path.{◌≡◌, refl, ap, ◌∙◌, subst}

module _ {ℓ} {A : Type ℓ} (before : A → A → Bool) where
  -- Every element is before all that follow it.
  abbrev pub IsSorted : List A → Type ℓ
  IsSorted [] = Unit
  IsSorted (x ∷ xs) = All (λ y. before x y ≡ true) xs × IsSorted xs

  abbrev pub IsTransitive : Type ℓ
  IsTransitive = (a b c : A) → before a b ≡ true → before b c ≡ true → before a c ≡ true

  abbrev pub IsAsymmetric : Type ℓ
  IsAsymmetric = (a b : A) → before a b ≡ true → before b a ≡ false

  -- any two different places of the list are ordered
  abbrev pub IsConnected : List A → Type ℓ
  IsConnected [] = Unit
  IsConnected (x ∷ xs) = All (λ y. (before x y ≡ true) ⊎ (before y x ≡ true)) xs × IsConnected xs

  All-insert {κ} :
      (P : A → Type κ) (x : A) (ys : List A) → P x → All P ys → All P (insert before x ys)
  unfolding insert
  All-insert P x [] p h = (p, tt)
  All-insert P x (y ∷ ys) p h = elim (Bool-cases (before x y)) [
    | inl e ↦ rw e (p, h)
    | inr e ↦ rw e (h.0, All-insert P x ys p h.1)
  ]

  pub All-sort {κ} : (P : A → Type κ) (xs : List A) → All P xs → All P (sort before xs)
  unfolding sort
  All-sort P [] h = tt
  All-sort P (x ∷ xs) h = All-insert P x (sort before xs) h.0 (All-sort P xs h.1)

  after_first :
      IsTransitive
      → (x y : A) (ys : List A) → before x y ≡ true
      → All (λ z. before y z ≡ true) ys
      → All (λ z. before x z ≡ true) ys
  after_first t x y [] e h = tt
  after_first t x y (z ∷ ys) e h = (t x y z e h.0, after_first t x y ys e h.1)

  insert-IsSorted :
      IsTransitive
      → (x : A) (ys : List A) → All (λ y. (before x y ≡ true) ⊎ (before y x ≡ true)) ys
      → IsSorted ys
      → IsSorted (insert before x ys)
  unfolding insert
  insert-IsSorted t x [] c h = (tt, tt)
  insert-IsSorted t x (y ∷ ys) c h = elim (Bool-cases (before x y)) [
    | inl e ↦ rw e ((e, after_first t x y ys e h.0), h)
    | inr e ↦ rw e (
      All-insert (λ z. before y z ≡ true) x ys (other (before x y) e c.0) h.0,
      insert-IsSorted t x ys c.1 h.1,
    )
  ]
    where
      other : (b : Bool) → b ≡ false → (b ≡ true) ⊎ (before y x ≡ true) → before y x ≡ true
      other b e (inl k) = cc
      other b e (inr k) = k

  pub sort-IsSorted : IsTransitive → (xs : List A) → IsConnected xs → IsSorted (sort before xs)
  unfolding sort
  sort-IsSorted t [] c = tt
  sort-IsSorted t (x ∷ xs) c =
      insert-IsSorted t x (sort before xs) (All-sort _ xs c.0) (sort-IsSorted t xs c.1)

  insert-front :
      (x : A) (ys : List A) → All (λ y. before x y ≡ true) ys → insert before x ys ≡ x ∷ ys
  unfolding insert
  insert-front x [] h = refl
  insert-front x (y ∷ ys) h = rw h.0 refl

  filter-front :
      (p : A → Bool) (x : A) (ys : List A)
      → All (λ y. before x y ≡ true) ys
      → filter p (x ∷ ys) ≡ (if p x then insert before x (filter p ys) else filter p ys)
  unfolding filter
  filter-front p x ys h = elim (Bool-cases (p x)) [
    | inl e ↦ rw (e, insert-front x (filter p ys) (All-filter _ p ys h)) refl
    | inr e ↦ rw e refl
  ]

  filter-insert :
      IsTransitive
      → (p : A → Bool) (x : A) (ys : List A) → IsSorted ys
      → filter p (insert before x ys) ≡ (if p x then insert before x (filter p ys) else filter p ys)
  unfolding insert filter
  filter-insert t p x [] h = elim (Bool-cases (p x)) [ inl e ↦ rw e refl | inr e ↦ rw e refl ]
  filter-insert t p x (y ∷ ys) h = elim (Bool-cases (before x y)) [
    | inl e ↦ rw e (filter-front p x (y ∷ ys) (e, after_first t x y ys e h.0))
    | inr e ↦ rw e (elim (Bool-cases (p y)) [
      | inl k ↦
          rw (k, filter-insert t p x ys h.1)
            (elim (Bool-cases (p x)) [ inl m ↦ rw (m, e) refl | inr m ↦ rw m refl ])
      | inr k ↦ rw k (filter-insert t p x ys h.1)
    ])
  ]

  -- To select and then to sort is to sort and then to select.
  pub filter-sort :
      IsTransitive
      → (p : A → Bool) (xs : List A) → IsConnected xs
      → filter p (sort before xs) ≡ sort before (filter p xs)
  unfolding sort filter
  filter-sort t p [] c = refl
  filter-sort t p (x ∷ xs) c =
      filter-insert t p x (sort before xs) (sort-IsSorted t xs c.1) ∙ elim (Bool-cases (p x)) [
        | inl e ↦ rw e (ap (insert before x) (filter-sort t p xs c.1))
        | inr e ↦ rw e (filter-sort t p xs c.1)
      ]

  filter_none : (p : A → Bool) (xs : List A) → All (λ y. p y ≡ false) xs → filter p xs ≡ []
  unfolding filter
  filter_none p [] h = refl
  filter_none p (x ∷ xs) h = rw h.0 (filter_none p xs h.1)

  filter-All : (p : A → Bool) (xs : List A) → All (λ y. p y ≡ true) xs → filter p xs ≡ xs
  unfolding filter
  filter-All p [] h = refl
  filter-All p (x ∷ xs) h = rw h.0 (ap (◌∷◌ x) (filter-All p xs h.1))

  irreflexive : IsAsymmetric → (x : A) → before x x ≡ false
  irreflexive a x = elim (Bool-cases (before x x)) [ inl e ↦ a x x e | inr e ↦ e ]

  pub filter-skip :
      (x y : A) (ys : List A)
      → before x y ≡ false
      → filter (before x) (y ∷ ys) ≡ filter (before x) ys
  unfolding filter
  filter-skip x y ys e = rw e refl

  filter_own :
      IsAsymmetric
      → (x : A) (ys : List A) → All (λ y. before x y ≡ true) ys
      → filter (before x) (x ∷ ys) ≡ ys
  filter_own a x ys h = filter-skip x x ys (irreflexive a x) ∙ filter-All (before x) ys h

  pub All-get_last? {κ} :
      (P : A → Type κ) (xs : List A) {x : A} → All P xs → get_last? xs ≡ some x → P x
  unfolding get_last?
  All-get_last? P [] h e = cc
  All-get_last? P (y ∷ []) h e = subst P (some-injective _ _ e) h.0
  All-get_last? P (y ∷ z ∷ xs) h e = All-get_last? P (z ∷ xs) h.1 e

  -- What comes after the last of the first `n` elements is what is left without these.
  pub filter-after_last :
      IsAsymmetric
      → (xs : List A) (n : ℕ) (x : A) → IsSorted xs
      → get_last? (take n xs) ≡ some x
      → filter (before x) xs ≡ drop n xs
  unfolding take drop get_last?
  filter-after_last a xs zero x s e = cc
  filter-after_last a [] (suc n) x s e = cc
  filter-after_last a (y ∷ ys) (suc zero) x s e =
      let same : y ≡ x = cc in rw (← same) (filter_own a y ys s.0)
  filter-after_last a (y ∷ []) (suc (suc n)) x s e =
      let same : y ≡ x = cc in rw (← same) (filter_own a y [] tt)
  filter-after_last a (y ∷ z ∷ ys) (suc (suc n)) x s e =
      let last : before y x ≡ true =
        All-get_last? (λ w. before y w ≡ true) (take (suc n) (z ∷ ys))
          (All-take _ (suc n) (z ∷ ys) s.0) e in
      rw (filter-skip x y (z ∷ ys) (a y x last)) (filter-after_last a (z ∷ ys) (suc n) x s.1 e)
