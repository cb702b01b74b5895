-- ===== src/Url.antt =====
-- Python's `urllib.parse.urlsplit` and `urlunsplit`, over code points, for what api/feeds.py does with
-- them, and its `normalize_url`. What `urlsplit` tests of a network location (its brackets, and its
-- characters under NFKC) is a parameter, as is the test that a bracketed host is an address.
pub mod Parts
pub mod Identity
use feedgate_fetcher.Prelude.{
  ℕ, ◌+◌, Option, none, some, List, [], ◌∷◌, ◌++◌, Bool, true, false, ◌&&◌, ◌||◌, not, ltb, leb,
  ◌==◌, if◌then◌else◌, filter, any,
}
use feedgate_fetcher.Prelude.Texts.{codes, codes_eq, lower, rstrip}

pub record SplitResult : Type 0 where
  pub scheme : List ℕ
  pub netloc : List ℕ
  pub path : List ℕ
  pub query : List ℕ
  pub fragment : List ℕ

-- `s.partition(sep)`: what stands before the first code that the test names, and what stands after it
unfoldable pub before_first : (ℕ → Bool) → List ℕ → List ℕ
before_first stops [] = []
before_first stops (c ∷ s) = let rest = before_first stops s in if stops c then [] else c ∷ rest

-- from the first such code on
unfoldable pub from_first : (ℕ → Bool) → List ℕ → List ℕ
from_first stops [] = []
from_first stops (c ∷ s) = let rest = from_first stops s in if stops c then c ∷ s else rest

abbrev pub tail : List ℕ → List ℕ
tail [] = []
tail (c ∷ s) = s

abbrev pub is_empty : List ℕ → Bool
is_empty [] = true
is_empty (c ∷ s) = false

abbrev pub starts_with : ℕ → List ℕ → Bool
starts_with c [] = false
starts_with c (d ∷ s) = d == c

unfoldable pub is_alpha : ℕ → Bool
is_alpha c = (leb b'a' c && leb c b'z') || (leb b'A' c && leb c b'Z')

-- `scheme_chars`
unfoldable pub is_scheme_char : ℕ → Bool
unfolding is_alpha
is_scheme_char c =
    is_alpha c || (leb b'0' c && leb c b'9') || (c == b'+') || (c == b'-') || (c == b'.')

-- `_UNSAFE_URL_BYTES_TO_REMOVE`
unfoldable pub is_unsafe : ℕ → Bool
is_unsafe c = (c == 9) || (c == 13) || (c == 10)

-- `url.lstrip(_WHATWG_C0_CONTROL_OR_SPACE)`
unfoldable pub lstrip_controls : List ℕ → List ℕ
lstrip_controls [] = []
lstrip_controls (c ∷ s) = let rest = lstrip_controls s in if leb c 32 then rest else c ∷ s

abbrev pub is_colon : ℕ → Bool
is_colon c = c == b':'

abbrev pub is_query : ℕ → Bool
is_query c = c == b'?'

abbrev pub is_hash : ℕ → Bool
is_hash c = c == b'#'

-- the delimiters of `_splitnetloc`
abbrev pub ends_netloc : ℕ → Bool
ends_netloc c = (c == b'/') || (c == b'?') || (c == b'#')

-- the scheme that `url` starts with, in front of a colon
unfoldable pub has_scheme : List ℕ → Bool
unfolding before_first from_first is_alpha is_scheme_char any
has_scheme [] = false
has_scheme (c ∷ s) =
    is_alpha c
    && not (is_empty (from_first is_colon (c ∷ s)))
    && not (any (λ d. not (is_scheme_char d)) (before_first is_colon (c ∷ s)))

-- the path, the query and the fragment
unfoldable pub split_rest : List ℕ → List ℕ → List ℕ → SplitResult
unfolding before_first from_first
split_rest scheme netloc url =
    let front = before_first is_hash url in
    record {
      scheme = scheme;
      netloc = netloc;
      path = before_first is_query front;
      query = tail (from_first is_query front);
      fragment = tail (from_first is_hash url);
    }

-- what the functions ask of a network location and of a scheme
pub record UrlRules : Type 0 where
  pub is_valid_netloc : List ℕ → Bool
  pub uses_netloc : List ℕ → Bool

abbrev pub starts_slashes : List ℕ → Bool
starts_slashes (c ∷ d ∷ s) = (c == b'/') && (d == b'/')
starts_slashes _ = false

module _ (rules : UrlRules) where
  -- what follows the scheme; `none` is a `ValueError`
  unfoldable pub split_hier : List ℕ → List ℕ → Option SplitResult
  unfolding before_first from_first split_rest
  split_hier scheme url =
      let rest = tail (tail url) in
      if starts_slashes url
      then (if rules.is_valid_netloc (before_first ends_netloc rest)
          then some
              (split_rest scheme (before_first ends_netloc rest) (from_first ends_netloc rest))
          else none)
      else some (split_rest scheme [] url)

  unfoldable pub urlsplit : List ℕ → Option SplitResult
  unfolding filter is_unsafe lstrip_controls has_scheme before_first from_first lower split_hier
  urlsplit raw =
      let url = filter (λ c. not (is_unsafe c)) (lstrip_controls raw) in
      if has_scheme url
      then split_hier (lower (before_first is_colon url)) (tail (from_first is_colon url))
      else split_hier [] url

  -- the path in front of which stand the slashes and the network location
  unfoldable pub with_netloc : SplitResult → List ℕ
  with_netloc parts =
      if not (is_empty parts.netloc)
      then b'/'
        ∷ b'/'
        ∷ (parts.netloc
            ++ (if not (is_empty parts.path) && not (starts_with b'/' parts.path)
                then b'/' ∷ parts.path
                else parts.path))
      else if starts_slashes parts.path
      then b'/' ∷ b'/' ∷ parts.path
      else if not (is_empty parts.scheme)
          && rules.uses_netloc parts.scheme
          && (is_empty parts.path || starts_with b'/' parts.path)
      then b'/' ∷ b'/' ∷ parts.path
      else parts.path

  unfoldable pub urlunsplit : SplitResult → List ℕ
  unfolding with_netloc
  urlunsplit parts =
      (if is_empty parts.scheme then [] else parts.scheme ++ b':' ∷ [])
      ++ (with_netloc parts
          ++ ((if is_empty parts.query then [] else b'?' ∷ parts.query)
              ++ (if is_empty parts.fragment then [] else b'#' ∷ parts.fragment)))

-- `path.endswith(chr(c))`
unfoldable pub ends_with : ℕ → List ℕ → Bool
ends_with c [] = false
ends_with c (d ∷ []) = d == c
ends_with c (d ∷ e ∷ s) = ends_with c (e ∷ s)

-- the two tests on the path
unfoldable pub strip_path : List ℕ → List ℕ
unfolding rstrip ends_with
strip_path path =
    let stripped =
      if not (codes_eq path (codes "/")) && ends_with b'/' path then rstrip b'/' path else path in
    if codes_eq stripped (codes "/") then [] else stripped

unfoldable pub normalize_url : UrlRules → List ℕ → Option (List ℕ)
unfolding urlsplit urlunsplit strip_path
normalize_url rules raw = elim (urlsplit rules raw) [
  | none ↦ none
  | some parts ↦
      some (urlunsplit rules (record parts { path = strip_path parts.path; fragment = [] }))
]
