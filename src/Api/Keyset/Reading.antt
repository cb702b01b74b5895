-- ===== src/Api/Keyset/Reading.antt =====
-- About the pages of api/entries.py and api/feeds.py: the client that follows `next_cursor`.
use feedgate_fetcher.Prelude.{
  ℕ, zero, suc, ◌+◌, ◌<◌, Option, none, some, List, [], ◌∷◌, ◌++◌, true, false, ◌≡◌, refl, ap, ◌∙◌,
  inl, inr, min, take, drop, get_last?, ltb, length, length-take, length-drop, take-append-drop,
  take_eq_self, ltb→lt, ltb-false→le, arith, Bool-cases,
}
use feedgate_fetcher.Api.Http.{Reply, respond, http_error}
use feedgate_fetcher.Api.Keyset.{Page, cursor_after, page_of}
use mathlib.Core.Option
use native.Mathlib.Numerals.{add-one}

take-take-suc {ℓ} : {A : Type ℓ} (n : ℕ) (xs : List A) → take n (take (suc n) xs) ≡ take n xs
unfolding take
take-take-suc zero xs = refl
take-take-suc (suc n) [] = refl
take-take-suc (suc n) (x ∷ xs) = ap (◌∷◌ x) (take-take-suc n xs)

get_last?-take {ℓ} :
    {A : Type ℓ} (n : ℕ) (xs : List A)
    → 0 < n
    → n < length xs
    → (x : A) × (get_last? (take n xs) ≡ some x)
unfolding take get_last?
get_last?-take zero xs p h = elim p [ ]
get_last?-take (suc n) [] p h = absurd (omega arith)
get_last?-take (suc zero) (x ∷ xs) p h = (x, refl)
get_last?-take (suc (suc n)) (x ∷ []) p h = (x, refl)
get_last?-take (suc (suc n)) (x ∷ y ∷ xs) p h =
    let (z, e) = get_last?-take (suc n) (y ∷ xs) (omega arith) (omega arith) in (z, e)

limit_tests : (limit n : ℕ) → ltb limit (min (limit + 1) n) ≡ ltb limit n
limit_tests limit n = ground arith

module _ {ℓ} {Row : Type ℓ} where
  abbrev page_with : List Row → Option (List ℕ) → Page Row
  page_with items next_cursor = record { items = items; next_cursor = next_cursor }

  -- reading on from a cursor until a page has none
  unfoldable pub read_pages :
      ℕ → (Option (List ℕ) → Reply (Page Row)) → Option (List ℕ) → Option (List Row)
  read_pages zero page cursor = none
  read_pages (suc fuel) page cursor = elim (page cursor) [
    | http_error status ↦ none
    | respond page_read ↦ elim page_read.next_cursor [
      | none ↦ some page_read.items
      | some next ↦ Option.map (λ rest. page_read.items ++ rest) (read_pages fuel page (some next))
    ]
  ]

  read_pages-last :
      (fuel : ℕ) (page : Option (List ℕ) → Reply (Page Row)) (cursor : Option (List ℕ))
      (items : List Row)
      → page cursor ≡ respond (page_with items none)
      → read_pages (suc fuel) page cursor ≡ some items
  unfolding read_pages
  read_pages-last fuel page cursor items h = rw (h, read_pages) refl

  read_pages-more :
      (fuel : ℕ) (page : Option (List ℕ) → Reply (Page Row)) (cursor : Option (List ℕ))
      (items more : List Row) (next : List ℕ)
      → page cursor ≡ respond (page_with items (some next))
      → read_pages fuel page (some next) ≡ some more
      → read_pages (suc fuel) page cursor ≡ some (items ++ more)
  unfolding read_pages
  read_pages-more fuel page cursor items more next h k = rw (h, read_pages) (rw k refl)

  module _ (write : Row → List ℕ) where
    page_of-eq :
        (limit : ℕ) (rest : List Row)
        → page_of write limit rest
          ≡ page_with
              (take limit rest)
              (cursor_after write (ltb limit (length rest)) (take limit rest))
    unfolding page_of
    page_of-eq limit rest = rw (length-take, limit_tests, add-one, take-take-suc) refl

    page_of-last :
        (limit : ℕ) (rest : List Row)
        → ltb limit (length rest) ≡ false
        → page_of write limit rest ≡ page_with rest none
    unfolding cursor_after
    page_of-last limit rest h =
        page_of-eq limit rest
        ∙ rw (h, take_eq_self rest limit (ltb-false→le limit (length rest) h)) refl

    page_of-more :
        (limit : ℕ) (rest : List Row) (x : Row)
        → ltb limit (length rest) ≡ true
        → get_last? (take limit rest) ≡ some x
        → page_of write limit rest ≡ page_with (take limit rest) (some (write x))
    unfolding cursor_after
    page_of-more limit rest x h e = page_of-eq limit rest ∙ rw (h, e) refl

    -- `Selects cursor rest`: what is left to read at the cursor is `rest`.
    module _ {κ} (limit : ℕ) (page : Option (List ℕ) → Reply (Page Row))
        (Selects : Option (List ℕ) → List Row → Type κ) (positive : 0 < limit)
        (answers : (cursor : Option (List ℕ)) (rest : List Row)
          → Selects cursor rest
          → page cursor ≡ respond (page_of write limit rest))
        (moves : (cursor : Option (List ℕ)) (rest : List Row) (x : Row)
          → Selects cursor rest
          → get_last? (take limit rest) ≡ some x
          → Selects (some (write x)) (drop limit rest)) where
      pub read_pages-rest :
          (fuel : ℕ) (cursor : Option (List ℕ)) (rest : List Row)
          → Selects cursor rest
          → length rest < fuel
          → read_pages fuel page cursor ≡ some rest
      read_pages-rest zero cursor rest s h = elim h [ ]
      read_pages-rest (suc fuel) cursor rest s h = elim (Bool-cases (ltb limit (length rest))) [
        | inl more ↦
            let (x, last) = get_last?-take limit rest positive (ltb→lt _ _ more) in
            read_pages-more fuel page cursor (take limit rest) (drop limit rest) (write x)
              (answers cursor rest s ∙ ap respond (page_of-more limit rest x more last))
              (read_pages-rest fuel (some (write x)) (drop limit rest) (moves cursor rest x s last)
                (omega (arith, length-drop limit rest, ltb→lt limit (length rest) more)))
            ∙ ap some (take-append-drop limit rest)
        | inr done ↦
            read_pages-last fuel page cursor rest
              (answers cursor rest s ∙ ap respond (page_of-last limit rest done))
      ]
