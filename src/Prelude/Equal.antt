-- ===== src/Prelude/Equal.antt =====
-- When two texts are the same, as lists of code points.
use feedgate_fetcher.Prelude.Tests.{◌==◌}
use feedgate_fetcher.Prelude.Texts.{codes_eq}
use Prim.Native.Nat.{ℕ}
use mathlib.Core.Path.{◌≡◌, refl, ap, ◌∙◌}
use mathlib.Core.Bool.{Bool, true, false, ◌&&◌}
use mathlib.Core.List.{List, [], ◌∷◌}
use native.Mathlib.Omega.{arith}

and-both : (a b : Bool) → (a && b) ≡ true → (a ≡ true) × (b ≡ true)
and-both true true h = (refl, refl)
and-both true false h = cc
and-both false b h = cc

pub codes_eq_lem : (a b : List ℕ) → codes_eq a b ≡ true → a ≡ b
codes_eq_lem [] [] h = refl
codes_eq_lem [] (d ∷ b) h = cc
codes_eq_lem (c ∷ a) [] h = cc
codes_eq_lem (c ∷ a) (d ∷ b) h =
    let (first, rest) = and-both (c == d) (codes_eq a b) h in
    let same : c ≡ d = ground (arith, first) in
    ap (λ x. x ∷ a) same ∙ ap (λ s. d ∷ s) (codes_eq_lem a b rest)
