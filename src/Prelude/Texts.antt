-- ===== src/Prelude/Texts.antt =====
-- The texts that the program walks, as lists of code points, and what it uses of Python's `str`.
use feedgate_fetcher.Prelude.Tests.{leb, ◌==◌, if◌then◌else◌}
use Prim.Native.Nat.{ℕ, ◌+◌, compare, Ordering}
use Prim.Native.Char.{Char, char, code, nul, IsLt}
use Prim.Native.String.{String}
use mathlib.Core.Bool.{Bool, true, false, ◌&&◌, ◌||◌}
use mathlib.Core.List.{List, [], ◌∷◌, ◌++◌, map, reverse}
use mathlib.Core.Option.{Option, none, some}

abbrev pub codes : String → List ℕ
codes String.[] = []
codes (String.◌∷◌ c s) = code c ∷ codes s

abbrev pub codes_eq : List ℕ → List ℕ → Bool
codes_eq [] [] = true
codes_eq (a ∷ s) (b ∷ t) = (a == b) && codes_eq s t
codes_eq _ _ = false

-- `str.isspace` of one ASCII character
unfoldable pub is_space : ℕ → Bool
is_space c = (leb 9 c && leb c 13) || (leb 28 c && leb c 32)

-- ASCII `str.lower` of one character
unfoldable pub lower_code : ℕ → ℕ
lower_code c = if leb 65 c && leb c 90 then c + 32 else c

unfoldable pub lower : List ℕ → List ℕ
unfolding lower_code
lower = map lower_code

unfoldable pub lstrip : List ℕ → List ℕ
unfolding is_space
lstrip [] = []
lstrip (c ∷ s) = let rest = lstrip s in if is_space c then rest else c ∷ s

unfoldable pub strip : List ℕ → List ℕ
unfolding lstrip
strip s = reverse (lstrip (reverse (lstrip s)))

-- one character before a text that was stripped of `stop` at its end
abbrev pub keep_before : ℕ → ℕ → List ℕ → List ℕ
keep_before stop c [] = if c == stop then [] else c ∷ []
keep_before stop c (d ∷ s) = c ∷ d ∷ s

-- `s.rstrip(chr(stop))`
unfoldable pub rstrip : ℕ → List ℕ → List ℕ
rstrip stop [] = []
rstrip stop (c ∷ s) = keep_before stop c (rstrip stop s)

-- `s.split(sep, 1)[0]`
unfoldable pub before_code : ℕ → List ℕ → List ℕ
before_code sep [] = []
before_code sep (c ∷ s) = let rest = before_code sep s in if c == sep then [] else c ∷ rest

push_code : ℕ → List (List ℕ) → List (List ℕ)
push_code c [] = (c ∷ []) ∷ []
push_code c (part ∷ parts) = (c ∷ part) ∷ parts

-- `s.split(sep)`: never empty
unfoldable pub split : ℕ → List ℕ → List (List ℕ)
unfolding push_code
split sep [] = [] ∷ []
split sep (c ∷ s) = let rest = split sep s in if c == sep then [] ∷ rest else push_code c rest

-- What follows a prefix, where the text starts with it.
unfoldable pub after_prefix : List ℕ → List ℕ → Option (List ℕ)
after_prefix [] s = some s
after_prefix (p ∷ ps) [] = none
after_prefix (p ∷ ps) (c ∷ s) = let rest = after_prefix ps s in if p == c then rest else none

-- `sep.join([p, *ps])`
unfoldable pub join : ℕ → List ℕ → List (List ℕ) → List ℕ
join sep p [] = p
join sep p (q ∷ ps) = p ++ (sep ∷ join sep q ps)

-- the character of a code point; U+0000 for a number that is none
abbrev Both : Ordering → Ordering → Type 0
Both Ordering.lt o = IsLt o
Both Ordering.eq o = ⊥
Both Ordering.gt o = ⊥

abbrev Scalar : Ordering → Ordering → Ordering → Type 0
Scalar Ordering.lt o p = Unit
Scalar Ordering.eq o p = Both o p
Scalar Ordering.gt o p = Both o p

abbrev less_of : (o : Ordering) → Option (IsLt o)
less_of Ordering.lt = some tt
less_of Ordering.eq = none
less_of Ordering.gt = none

abbrev both_of : (o p : Ordering) → Option (Both o p)
both_of Ordering.lt p = less_of p
both_of Ordering.eq p = none
both_of Ordering.gt p = none

abbrev scalar_of : (o p q : Ordering) → Option (Scalar o p q)
scalar_of Ordering.lt p q = some tt
scalar_of Ordering.eq p q = both_of p q
scalar_of Ordering.gt p q = both_of p q

unfoldable pub char_of : ℕ → Char
char_of n = elim (scalar_of (compare n 55296) (compare 57343 n) (compare n 1114112)) [
  | none ↦ nul
  | some h ↦ char n h
]

unfoldable pub text_of : List ℕ → String
unfolding char_of
text_of [] = String.[]
text_of (c ∷ s) = String.◌∷◌ (char_of c) (text_of s)
