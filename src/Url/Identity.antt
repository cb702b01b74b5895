-- ===== src/Url/Identity.antt =====
-- About `normalize_url` of api/feeds.py: which texts name the same feed.
use feedgate_fetcher.Prelude.{
  ℕ, ◌≡◌, refl, ap, sym, ◌∙◌, ◌↔◌, inl, inr, some, List, [], ◌∷◌, true, false, ◌||◌, ◌==◌, All,
  arith, Bool-cases,
}
use feedgate_fetcher.Prelude.Texts.{codes, codes_eq, rstrip, keep_before}
use feedgate_fetcher.Url.{
  SplitResult, UrlRules, is_empty, starts_with, urlsplit, urlunsplit, ends_with, strip_path,
  normalize_url,
}
use feedgate_fetcher.Url.Parts.{IsHttpParts, urlsplit-urlunsplit}
use mathlib.Core.Option.{some-injective}

keep_before-not_ends :
    (c d : ℕ) (s : List ℕ) → ends_with c s ≡ false → ends_with c (keep_before c d s) ≡ false
unfolding ends_with
keep_before-not_ends c d [] h = elim (Bool-cases (d == c)) [
  | inl e ↦ rw (e, ends_with) refl
  | inr e ↦ rw (e, ends_with) e
]
keep_before-not_ends c d (e ∷ s) h = h

rstrip-not_ends : (c : ℕ) (s : List ℕ) → ends_with c (rstrip c s) ≡ false
unfolding rstrip ends_with
rstrip-not_ends c [] = refl
rstrip-not_ends c (d ∷ s) = keep_before-not_ends c d (rstrip c s) (rstrip-not_ends c s)

rstrip-eq_self : (c : ℕ) (s : List ℕ) → ends_with c s ≡ false → rstrip c s ≡ s
unfolding rstrip ends_with
rstrip-eq_self c [] h = refl
rstrip-eq_self c (d ∷ []) h = rw h refl
rstrip-eq_self c (d ∷ e ∷ s) h = rw (rstrip-eq_self c (e ∷ s) h) refl

slash-ends : (s : List ℕ) → codes_eq s (codes "/") ≡ true → ends_with b'/' s ≡ true
unfolding ends_with
slash-ends [] h = cc
slash-ends (c ∷ []) h = ground (arith, h)
slash-ends (c ∷ d ∷ s) h = ground (arith, h)

slash-stripped : (s : List ℕ) → codes_eq s (codes "/") ≡ true → rstrip b'/' s ≡ []
unfolding rstrip
slash-stripped [] h = refl
slash-stripped (c ∷ []) h =
    let is_slash : (c == b'/') ≡ true = ground (arith, h) in rw is_slash refl
slash-stripped (c ∷ d ∷ s) h = absurd (ground (arith, h))

not_slash : (s : List ℕ) → ends_with b'/' s ≡ false → codes_eq s (codes "/") ≡ false
not_slash s h = elim (Bool-cases (codes_eq s (codes "/"))) [
  | inl e ↦ absurd (cc (slash-ends s e, h))
  | inr e ↦ e
]

-- The two tests on the path strip every slash at its end.
strip_path-rstrip : (path : List ℕ) → strip_path path ≡ rstrip b'/' path
unfolding strip_path
strip_path-rstrip path = elim (Bool-cases (ends_with b'/' path)) [
  | inl e ↦ elim (Bool-cases (codes_eq path (codes "/"))) [
    | inl k ↦ rw (k, k, slash-stripped path k) refl
    | inr k ↦ rw (k, e, not_slash _ (rstrip-not_ends b'/' path)) refl
  ]
  | inr e ↦ rw (not_slash path e, e, not_slash path e) (sym (rstrip-eq_self b'/' path e))
]

-- the parts under which a feed is registered
abbrev pub canonical : SplitResult → SplitResult
canonical parts = record parts { path = rstrip b'/' parts.path; fragment = [] }

rstrip-All {κ} : (P : ℕ → Type κ) (c : ℕ) (s : List ℕ) → All P s → All P (rstrip c s)
unfolding rstrip
rstrip-All P c [] h = tt
rstrip-All P c (d ∷ s) h = keep d (rstrip c s) h.0 (rstrip-All P c s h.1)
  where
    keep : (d : ℕ) (s : List ℕ) → P d → All P s → All P (keep_before c d s)
    keep d [] p h = elim (Bool-cases (d == c)) [ inl e ↦ rw e tt | inr e ↦ rw e (p, tt) ]
    keep d (e ∷ s) p h = (p, h)

rstrip-rooted :
    (path : List ℕ)
    → (is_empty path || starts_with b'/' path) ≡ true
    → (is_empty (rstrip b'/' path) || starts_with b'/' (rstrip b'/' path)) ≡ true
unfolding rstrip
rstrip-rooted [] r = refl
rstrip-rooted (c ∷ path) r = keep c (rstrip b'/' path) r
  where
    keep :
        (c : ℕ) (s : List ℕ)
        → (c == b'/') ≡ true
        → (is_empty (keep_before b'/' c s) || starts_with b'/' (keep_before b'/' c s)) ≡ true
    keep c [] r = rw r refl
    keep c (d ∷ s) r = r

rstrip-rstrip : (c : ℕ) (s : List ℕ) → rstrip c (rstrip c s) ≡ rstrip c s
rstrip-rstrip c s = rstrip-eq_self c (rstrip c s) (rstrip-not_ends c s)

module _ (rules : UrlRules) where
  canonical-IsHttpParts : (p : SplitResult) → IsHttpParts rules p → IsHttpParts rules (canonical p)
  canonical-IsHttpParts p h = record {
    scheme = h.scheme;
    netloc_nonempty = h.netloc_nonempty;
    netloc = h.netloc;
    netloc_valid = h.netloc_valid;
    path_rooted = rstrip-rooted p.path h.path_rooted;
    path = rstrip-All _ b'/' p.path h.path;
    query = h.query;
    visible = (h.visible.0, (rstrip-All _ b'/' p.path h.visible.1.0, (h.visible.1.1.0, (tt, tt))));
  }

  normalize_url-canonical :
      (p : SplitResult)
      → IsHttpParts rules p
      → normalize_url rules (urlunsplit rules p) ≡ some (urlunsplit rules (canonical p))
  unfolding normalize_url
  normalize_url-canonical p h =
      rw (normalize_url, urlsplit-urlunsplit rules p h, strip_path-rstrip p.path) refl

  -- Registering what a registration has made of a web address names the same feed again.
  pub normalize_url-idempotent :
      (p : SplitResult) (url : List ℕ)
      → IsHttpParts rules p
      → normalize_url rules (urlunsplit rules p) ≡ some url
      → normalize_url rules url ≡ some url
  normalize_url-idempotent p url h e =
      let same = some-injective _ _ (sym (normalize_url-canonical p h) ∙ e) in
      rw (← same) (
        normalize_url-canonical (canonical p) (canonical-IsHttpParts p h)
        ∙ ap (λ path. some (urlunsplit rules (record p { path = path; fragment = [] })))
            (rstrip-rstrip b'/' p.path))

  -- Two web addresses are registered under the same text exactly when they agree in the scheme,
  -- the network location, the query and the path without the slashes at its end; fragments do not
  -- count. Both must be texts of http or https with a valid network location, no white space or
  -- control characters, and a path that is empty or starts with a slash.
  pub normalize_url_iff :
      (p q : SplitResult)
      → IsHttpParts rules p
      → IsHttpParts rules q
      → (normalize_url rules (urlunsplit rules p) ≡ normalize_url rules (urlunsplit rules q))
        ↔ (canonical p ≡ canonical q)
  normalize_url_iff p q h k = (
    (λ e.
        let same =
          some-injective _ _
            (sym (normalize_url-canonical p h) ∙ e ∙ normalize_url-canonical q k) in
        some-injective _ _ (
          sym (urlsplit-urlunsplit rules (canonical p) (canonical-IsHttpParts p h))
          ∙ ap (urlsplit rules) same
          ∙ urlsplit-urlunsplit rules (canonical q) (canonical-IsHttpParts q k))),
    (λ e.
        normalize_url-canonical p h
        ∙ ap (λ parts. some (urlunsplit rules parts)) e
        ∙ sym (normalize_url-canonical q k)),
  )
