-- ===== src/Url/Parts.antt =====
-- A web address, put together from its parts and split again.
use feedgate_fetcher.Prelude.{
  ℕ, ◌≡◌, refl, ap, sym, ◌∙◌, ◌⊎◌, inl, inr, some, List, [], ◌∷◌, ◌++◌, Bool, true, false, ◌&&◌,
  ◌||◌, not, if◌then◌else◌, filter, any, All, All-append, arith,
}
use feedgate_fetcher.Prelude.Texts.{codes, lower}
use feedgate_fetcher.Url.{
  SplitResult, UrlRules, before_first, from_first, tail, is_empty, starts_with, is_alpha,
  is_scheme_char, is_unsafe, lstrip_controls, is_query, is_hash, ends_netloc, has_scheme,
  split_rest, split_hier, urlsplit, with_netloc, urlunsplit,
}
use mathlib.Core.List.{append_assoc}

-- no code of the text is named by the test
abbrev pub Avoids : (ℕ → Bool) → List ℕ → Type 0
Avoids stops = All (λ c. stops c ≡ false)

-- the parts of a web address, as `HttpUrl` gives them: no white space or control character in them
pub record IsHttpParts (rules : UrlRules) (p : SplitResult) : Type 0 where
  pub scheme : (p.scheme ≡ codes "http") ⊎ (p.scheme ≡ codes "https")
  pub netloc_nonempty : is_empty p.netloc ≡ false
  pub netloc : Avoids ends_netloc p.netloc
  pub netloc_valid : rules.is_valid_netloc p.netloc ≡ true
  pub path_rooted : (is_empty p.path || starts_with b'/' p.path) ≡ true
  pub path : Avoids (λ c. is_query c || is_hash c) p.path
  pub query : Avoids is_hash p.query
  pub visible : All (Avoids is_unsafe) (p.netloc ∷ p.path ∷ p.query ∷ p.fragment ∷ [])

-- nothing, or a code that the test names
abbrev pub begins : (ℕ → Bool) → List ℕ → Bool
begins stops [] = true
begins stops (c ∷ s) = stops c

before_first-append :
    (stops : ℕ → Bool) (s rest : List ℕ)
    → Avoids stops s
    → begins stops rest ≡ true
    → before_first stops (s ++ rest) ≡ s
unfolding before_first
before_first-append stops [] [] h b = refl
before_first-append stops [] (c ∷ rest) h b = rw b refl
before_first-append stops (c ∷ s) rest h b =
    rw h.0 (ap (◌∷◌ c) (before_first-append stops s rest h.1 b))

from_first-append :
    (stops : ℕ → Bool) (s rest : List ℕ)
    → Avoids stops s
    → begins stops rest ≡ true
    → from_first stops (s ++ rest) ≡ rest
unfolding from_first
from_first-append stops [] [] h b = refl
from_first-append stops [] (c ∷ rest) h b = rw b refl
from_first-append stops (c ∷ s) rest h b = rw h.0 (from_first-append stops s rest h.1 b)

filter-safe : (s : List ℕ) → Avoids is_unsafe s → filter (λ c. not (is_unsafe c)) s ≡ s
unfolding filter
filter-safe [] h = refl
filter-safe (c ∷ s) h = rw h.0 (ap (◌∷◌ c) (filter-safe s h.1))

-- what stands behind the scheme
abbrev pub with_mark : ℕ → List ℕ → List ℕ
with_mark mark s = if is_empty s then [] else mark ∷ s

abbrev pub behind_path : SplitResult → List ℕ
behind_path p = with_mark b'?' p.query ++ with_mark b'#' p.fragment

begins-hash : (s : List ℕ) → begins is_hash (with_mark b'#' s) ≡ true
begins-hash [] = refl
begins-hash (c ∷ s) = refl

begins-query : (q : List ℕ) → begins is_query (with_mark b'?' q) ≡ true
begins-query [] = refl
begins-query (c ∷ s) = refl

tail-with_mark : (mark : ℕ) (s : List ℕ) → tail (with_mark mark s) ≡ s
tail-with_mark mark [] = refl
tail-with_mark mark (c ∷ s) = refl

Avoids-weaken : (p q : ℕ → Bool) (s : List ℕ) → Avoids (λ c. p c || q c) s → Avoids p s × Avoids q s
Avoids-weaken p q [] h = (tt, tt)
Avoids-weaken p q (c ∷ s) h =
    let (a, b) = Avoids-weaken p q s h.1 in ((ground (arith, h.0), a), (ground (arith, h.0), b))

Avoids-with_query : (q : List ℕ) → Avoids is_hash q → Avoids is_hash (with_mark b'?' q)
Avoids-with_query [] h = tt
Avoids-with_query (c ∷ q) h = (refl, h)

-- The path, the query and the fragment are found again.
split_rest-eq :
    (rules : UrlRules) (p : SplitResult)
    → IsHttpParts rules p
    → split_rest p.scheme p.netloc (p.path ++ behind_path p) ≡ p
unfolding split_rest
split_rest-eq rules p h =
    let (q, k) = Avoids-weaken is_query is_hash p.path h.path in
    let front = p.path ++ with_mark b'?' p.query in
    let avoids =
      All-append _ p.path (with_mark b'?' p.query) k (Avoids-with_query p.query h.query) in
    rw
      (
        ← append_assoc p.path (with_mark b'?' p.query) (with_mark b'#' p.fragment),
        before_first-append is_hash front _ avoids (begins-hash p.fragment),
        from_first-append is_hash front _ avoids (begins-hash p.fragment),
        before_first-append is_query p.path _ q (begins-query p.query),
        from_first-append is_query p.path _ q (begins-query p.query),
        tail-with_mark b'?' p.query,
        tail-with_mark b'#' p.fragment,
      )
      refl

begins-behind : (p : SplitResult) → begins ends_netloc (behind_path p) ≡ true
begins-behind p = marks p.query p.fragment
  where
    marks : (q f : List ℕ) → begins ends_netloc (with_mark b'?' q ++ with_mark b'#' f) ≡ true
    marks [] [] = refl
    marks [] (c ∷ f) = refl
    marks (c ∷ q) f = refl

begins-path :
    (path rest : List ℕ)
    → (is_empty path || starts_with b'/' path) ≡ true
    → begins ends_netloc rest ≡ true
    → begins ends_netloc (path ++ rest) ≡ true
begins-path [] rest r b = b
begins-path (c ∷ path) rest r b = ground (arith, r)

All-behind :
    (p : SplitResult)
    → Avoids is_unsafe p.query
    → Avoids is_unsafe p.fragment
    → Avoids is_unsafe (behind_path p)
unfolding is_unsafe
All-behind p hq hf = All-append _ _ _ (marked b'?' p.query refl hq) (marked b'#' p.fragment refl hf)
  where
    marked :
        (mark : ℕ) (s : List ℕ)
        → is_unsafe mark ≡ false
        → Avoids is_unsafe s
        → Avoids is_unsafe (with_mark mark s)
    marked mark [] m h = tt
    marked mark (c ∷ s) m h = (m, h)

-- a text with a network location, behind its scheme
abbrev hier : SplitResult → List ℕ
hier p = p.netloc ++ (p.path ++ behind_path p)

scheme_nonempty :
    (scheme : List ℕ) → (scheme ≡ codes "http") ⊎ (scheme ≡ codes "https") → is_empty scheme ≡ false
scheme_nonempty scheme (inl e) = ap is_empty e
scheme_nonempty scheme (inr e) = ap is_empty e

rooted-eq :
    (path : List ℕ)
    → (is_empty path || starts_with b'/' path) ≡ true
    → (not (is_empty path) && not (starts_with b'/' path)) ≡ false
rooted-eq [] r = refl
rooted-eq (c ∷ path) r = ap not r

urlunsplit-eq :
    (rules : UrlRules) (p : SplitResult)
    → IsHttpParts rules p
    → urlunsplit rules p ≡ p.scheme ++ (b':' ∷ b'/' ∷ b'/' ∷ hier p)
unfolding urlunsplit with_netloc
urlunsplit-eq rules p h =
    rw
      (
        scheme_nonempty p.scheme h.scheme,
        h.netloc_nonempty,
        rooted-eq p.path h.path_rooted,
        append_assoc p.scheme (b':' ∷ []) _,
        append_assoc p.netloc p.path _,
      )
      refl

Avoids-hier : (rules : UrlRules) (p : SplitResult) → IsHttpParts rules p → Avoids is_unsafe (hier p)
Avoids-hier rules p h =
    All-append _ p.netloc _ h.visible.0
      (All-append _ p.path _ h.visible.1.0 (All-behind p h.visible.1.1.0 h.visible.1.1.1.0))

urlsplit-http :
    (rules : UrlRules) (s : List ℕ)
    → Avoids is_unsafe s
    → urlsplit rules (codes "http" ++ (b':' ∷ b'/' ∷ b'/' ∷ s))
      ≡ split_hier rules (codes "http") (b'/' ∷ b'/' ∷ s)
unfolding urlsplit lstrip_controls filter is_unsafe has_scheme before_first from_first is_alpha
    is_scheme_char any lower split_hier split_rest
urlsplit-http rules s h = rw (filter-safe s h) refl

urlsplit-https :
    (rules : UrlRules) (s : List ℕ)
    → Avoids is_unsafe s
    → urlsplit rules (codes "https" ++ (b':' ∷ b'/' ∷ b'/' ∷ s))
      ≡ split_hier rules (codes "https") (b'/' ∷ b'/' ∷ s)
unfolding urlsplit lstrip_controls filter is_unsafe has_scheme before_first from_first is_alpha
    is_scheme_char any lower split_hier split_rest
urlsplit-https rules s h = rw (filter-safe s h) refl

split_hier-eq :
    (rules : UrlRules) (p : SplitResult)
    → IsHttpParts rules p
    → split_hier rules p.scheme (b'/' ∷ b'/' ∷ hier p) ≡ some p
unfolding split_hier
split_hier-eq rules p h =
    let begin = begins-path p.path (behind_path p) h.path_rooted (begins-behind p) in
    rw
      (
        before_first-append ends_netloc p.netloc _ h.netloc begin,
        from_first-append ends_netloc p.netloc _ h.netloc begin,
        h.netloc_valid,
      )
      (ap some (split_rest-eq rules p h))

-- What is put together from the parts of a web address splits into these parts.
pub urlsplit-urlunsplit :
    (rules : UrlRules) (p : SplitResult)
    → IsHttpParts rules p
    → urlsplit rules (urlunsplit rules p) ≡ some p
urlsplit-urlunsplit rules p h = rw (urlunsplit-eq rules p h) (elim h.scheme [
  | inl e ↦
      ap (λ s. urlsplit rules (s ++ (b':' ∷ b'/' ∷ b'/' ∷ hier p))) e
      ∙ urlsplit-http rules (hier p) (Avoids-hier rules p h)
      ∙ ap (λ s. split_hier rules s (b'/' ∷ b'/' ∷ hier p)) (sym e)
      ∙ split_hier-eq rules p h
  | inr e ↦
      ap (λ s. urlsplit rules (s ++ (b':' ∷ b'/' ∷ b'/' ∷ hier p))) e
      ∙ urlsplit-https rules (hier p) (Avoids-hier rules p h)
      ∙ ap (λ s. split_hier rules s (b'/' ∷ b'/' ∷ hier p)) (sym e)
      ∙ split_hier-eq rules p h
])
