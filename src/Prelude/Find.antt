-- ===== src/Prelude/Find.antt =====
-- The first element of a list that passes a test, as a query by a key finds it.
use feedgate_fetcher.Prelude.Tests.{if◌then◌else◌, Bool-cases}
use feedgate_fetcher.Prelude.Lists.{All, filter}
use mathlib.Core.Path.{◌≡◌, refl, ap, sym, ◌∙◌, subst}
use mathlib.Core.Logic.{inl, inr}
use mathlib.Core.Bool.{Bool, true, false}
use mathlib.Core.List.{List, [], ◌∷◌, ◌++◌, map}
use mathlib.Core.Option
use mathlib.Core.Option.{Option, none, some, some-injective}

module _ {ℓ} {A : Type ℓ} (p : A → Bool) where
  unfoldable pub find : List A → Option A
  find [] = none
  find (x ∷ xs) = let rest = find xs in if p x then some x else rest

  pub find-first : (x : A) (xs : List A) → p x ≡ true → find (x ∷ xs) ≡ some x
  unfolding find
  find-first x xs e = rw e refl

  pub find-later : (x : A) (xs : List A) → p x ≡ false → find (x ∷ xs) ≡ find xs
  unfolding find
  find-later x xs e = rw e refl

  pub find-holds : (xs : List A) {y : A} → find xs ≡ some y → p y ≡ true
  unfolding find
  find-holds [] h = cc
  find-holds (x ∷ xs) h = elim (Bool-cases (p x)) [
    | inl e ↦ subst (λ z. p z ≡ true) (some-injective _ _ (sym (find-first x xs e) ∙ h)) e
    | inr e ↦ find-holds xs (sym (find-later x xs e) ∙ h)
  ]

  pub find-All {κ} : (P : A → Type κ) (xs : List A) {y : A} → All P xs → find xs ≡ some y → P y
  unfolding find
  find-All P [] a h = cc
  find-All P (x ∷ xs) a h = elim (Bool-cases (p x)) [
    | inl e ↦ subst P (some-injective _ _ (sym (find-first x xs e) ∙ h)) a.0
    | inr e ↦ find-All P xs a.1 (sym (find-later x xs e) ∙ h)
  ]

  pub find-none : (xs : List A) → find xs ≡ none → All (λ x. p x ≡ false) xs
  unfolding find
  find-none [] h = tt
  find-none (x ∷ xs) h = elim (Bool-cases (p x)) [
    | inl e ↦ cc (sym (find-first x xs e) ∙ h)
    | inr e ↦ (e, find-none xs (sym (find-later x xs e) ∙ h))
  ]

  pub find-absent : (xs : List A) → All (λ x. p x ≡ false) xs → find xs ≡ none
  unfolding find
  find-absent [] a = refl
  find-absent (x ∷ xs) a = find-later x xs a.0 ∙ find-absent xs a.1

  pub find-append_none : (xs ys : List A) → find xs ≡ none → find (xs ++ ys) ≡ find ys
  unfolding find
  find-append_none [] ys h = refl
  find-append_none (x ∷ xs) ys h = elim (Bool-cases (p x)) [
    | inl e ↦ cc (sym (find-first x xs e) ∙ h)
    | inr e ↦ find-later x (xs ++ ys) e ∙ find-append_none xs ys (sym (find-later x xs e) ∙ h)
  ]

  pub find-append_some : (xs ys : List A) {y : A} → find xs ≡ some y → find (xs ++ ys) ≡ some y
  unfolding find
  find-append_some [] ys h = cc
  find-append_some (x ∷ xs) ys h = elim (Bool-cases (p x)) [
    | inl e ↦ find-first x (xs ++ ys) e ∙ sym (find-first x xs e) ∙ h
    | inr e ↦ find-later x (xs ++ ys) e ∙ find-append_some xs ys (sym (find-later x xs e) ∙ h)
  ]

  -- a change of the elements that leaves the test alone
  pub find-map :
      (f : A → A) (xs : List A)
      → ((x : A) → p (f x) ≡ p x)
      → find (map f xs) ≡ Option.map f (find xs)
  unfolding find
  find-map f [] same = refl
  find-map f (x ∷ xs) same = elim (Bool-cases (p x)) [
    | inl e ↦ find-first (f x) (map f xs) (same x ∙ e) ∙ ap (Option.map f) (sym (find-first x xs e))
    | inr e ↦
        find-later (f x) (map f xs) (same x ∙ e)
        ∙ find-map f xs same
        ∙ ap (Option.map f) (sym (find-later x xs e))
  ]

  -- a filter that keeps what the test names
  pub find-filter :
      (q : A → Bool) (xs : List A)
      → ((x : A) → p x ≡ true → q x ≡ true)
      → find (filter q xs) ≡ find xs
  unfolding find filter
  find-filter q [] keeps = refl
  find-filter q (x ∷ xs) keeps = elim (Bool-cases (p x)) [
    | inl e ↦ rw (keeps x e) (find-first x (filter q xs) e ∙ sym (find-first x xs e))
    | inr e ↦ elim (Bool-cases (q x)) [
      | inl k ↦
          rw k (find-later x (filter q xs) e ∙ find-filter q xs keeps ∙ sym (find-later x xs e))
      | inr k ↦ rw k (find-filter q xs keeps ∙ sym (find-later x xs e))
    ]
  ]
