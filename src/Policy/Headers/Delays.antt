-- ===== src/Policy/Headers/Delays.antt =====
-- About `parse_retry_after` and `parse_cache_hint` of fetcher/policy.py: header texts, and the
-- delays that are read from them.
use feedgate_fetcher.Prelude.{
  ℕ, ◌+◌, ◌-◌, ◌*◌, ◌≤◌, ◌<◌, ◌≡◌, refl, ap, ◌∙◌, Option, none, some, String, false, List, [], ◌∷◌,
  ◌++◌, All, length, arith, ◌==◌, ==_iff,
}
use feedgate_fetcher.Prelude.Time.{second}
use feedgate_fetcher.Prelude.Texts.{is_space, codes, strip, split, join}
use feedgate_fetcher.Prelude.Ints.{
  decimal, nonneg_int, max_str_digits, nonneg_int-decimal, decimal-AllVisible, AllVisible,
  strip-eq_of_AllVisible,
}
use feedgate_fetcher.Exceptions.{Kind, Exc, Result, ok, raise, fresh}
use feedgate_fetcher.Policy.Headers.{
  Headers, Dated, DateRead, dated, overflowed, or_read, as_utc, or_empty, seconds_until, date_delay,
  parse_retry_after, max_age, stripped_max_age, first_max_age, expires_delay, parse_cache_hint,
}

seconds_until_bounds :
    (now t : ℕ)
    → (seconds_until now t * second ≤ t - now) × (t - now < (seconds_until now t + 1) * second)
unfolding seconds_until
seconds_until_bounds now t = ground arith

module _ (parse_date : List ℕ → DateRead) (now : ℕ) where
  -- A `Retry-After` that is the decimal text of a number, of at most 4300 digits, is read as that
  -- number of seconds.
  pub parse_retry_after-decimal :
      (header : String) (n : ℕ)
      → codes header ≡ decimal n
      → length (decimal n) ≤ max_str_digits
      → parse_retry_after parse_date (some header) now ≡ ok (some n)
  unfolding parse_retry_after
  parse_retry_after-decimal header n e h =
      rw (e, strip-eq_of_AllVisible (decimal n) (decimal-AllVisible n), nonneg_int-decimal n h)

  -- A `Retry-After` that is no number but a date gives the whole seconds from now until that date,
  -- rounded down, and 0 for a date that has passed.
  pub parse_retry_after-date :
      (header : String) (d : Dated)
      → nonneg_int (strip (codes header)) ≡ none
      → parse_date (strip (codes header)) ≡ dated d
      → (s : ℕ) × (parse_retry_after parse_date (some header) now ≡ ok (some s))
        × (s * second ≤ as_utc d - now)
        × (as_utc d - now < (s + 1) * second)
  unfolding parse_retry_after
  parse_retry_after-date header d i e =
      let b = seconds_until_bounds now (as_utc d) in
      (seconds_until now (as_utc d), rw (i, e), b.0, b.1)

split-no_code : (sep : ℕ) (s : List ℕ) → All (λ c. (c == sep) ≡ false) s → split sep s ≡ s ∷ []
unfolding split
split-no_code sep [] h = refl
split-no_code sep (c ∷ s) h = rw (h.0, split-no_code sep s h.1)

split-append :
    (sep : ℕ) (s t : List ℕ)
    → All (λ c. (c == sep) ≡ false) s
    → split sep (s ++ sep ∷ t) ≡ s ∷ split sep t
unfolding split
split-append sep [] t h = rw ((==_iff sep sep).1 refl)
split-append sep (c ∷ s) t h = rw (h.0, split-append sep s t h.1)

split-join :
    (sep : ℕ) (p : List ℕ) (ps : List (List ℕ))
    → All (λ s. All (λ c. (c == sep) ≡ false) s) (p ∷ ps)
    → split sep (join sep p ps) ≡ p ∷ ps
unfolding join
split-join sep p [] h = split-no_code sep p h.0
split-join sep p (q ∷ ps) h =
    split-append sep p (join sep q ps) h.0 ∙ ap (◌∷◌ p) (split-join sep q ps h.1)

first_max_age-append :
    (pre post : List (List ℕ)) (d : List ℕ) {n : ℕ}
    → All (λ p. max_age p ≡ none) pre
    → max_age d ≡ some n
    → first_max_age (pre ++ d ∷ post) ≡ some n
unfolding first_max_age
first_max_age-append [] post d h e = rw e
first_max_age-append (p ∷ pre) post d h e = rw (h.0, first_max_age-append pre post d h.1 e)

-- the directive `max-age=<n>`
abbrev pub max_age_text : ℕ → List ℕ
max_age_text n = codes "max-age=" ++ decimal n

max_age_text-AllVisible : (n : ℕ) → AllVisible (max_age_text n)
unfolding is_space
max_age_text-AllVisible n =
    (refl, (refl, (refl, (refl, (refl, (refl, (refl, (refl, decimal-AllVisible n))))))))

max_age-decimal : (n : ℕ) → length (decimal n) ≤ max_str_digits → max_age (max_age_text n) ≡ some n
unfolding max_age
max_age-decimal n h =
    ap stripped_max_age (strip-eq_of_AllVisible (max_age_text n) (max_age_text-AllVisible n))
    ∙ nonneg_int-decimal n h

module _ (parse_date : List ℕ → DateRead) (now : ℕ) where
  -- If `Cache-Control` is a list of directives without commas of their own, joined by commas, one
  -- of which is `max-age=` with the decimal text of a number of at most 4300 digits, and none
  -- before it is a `max-age` that reads, then the cache hint is that number.
  pub parse_cache_hint-max_age :
      (headers : Headers) (pre post : List (List ℕ)) (n : ℕ) (d : List ℕ) (ps : List (List ℕ))
      → d ∷ ps ≡ pre ++ max_age_text n ∷ post
      → codes (or_empty (headers "cache-control")) ≡ join b',' d ps
      → All (λ s. All (λ c. (c == b',') ≡ false) s) (d ∷ ps)
      → All (λ p. max_age p ≡ none) pre
      → length (decimal n) ≤ max_str_digits
      → parse_cache_hint parse_date headers now ≡ ok (some n)
  unfolding parse_cache_hint
  parse_cache_hint-max_age headers pre post n d ps e text free none_before h =
      rw (text, split-join b',' d ps free)
        (ap (λ l. or_read (first_max_age l) (expires_delay parse_date (headers "expires") now)) e
          ∙ rw (first_max_age-append pre post (max_age_text n) none_before (max_age-decimal n h)))

  pub parse_cache_hint-expires :
      (headers : Headers)
      → first_max_age (split b',' (codes (or_empty (headers "cache-control")))) ≡ none
      → parse_cache_hint parse_date headers now ≡ expires_delay parse_date (headers "expires") now
  unfolding parse_cache_hint
  parse_cache_hint-expires headers h = rw h

date_delay-raise :
    (now : ℕ) (r : DateRead) (e : Exc)
    → date_delay now r ≡ raise e
    → (r ≡ overflowed) × (e ≡ fresh Kind.overflow_error)
unfolding date_delay
date_delay-raise now DateRead.unreadable e h = cc
date_delay-raise now overflowed e h = (refl, cc h)
date_delay-raise now (dated d) e h = cc

-- what is known of an `Expires` whose date overflows
abbrev pub Overflows : (List ℕ → DateRead) → Option String → Type 0
Overflows parse_date header =
    (expires : String) × (header ≡ some expires) × (parse_date (codes expires) ≡ overflowed)

expires_delay-raise :
    (parse_date : List ℕ → DateRead) (now : ℕ) (header : Option String) (e : Exc)
    → expires_delay parse_date header now ≡ raise e
    → Overflows parse_date header × (e ≡ fresh Kind.overflow_error)
unfolding expires_delay
expires_delay-raise parse_date now none e h = cc
expires_delay-raise parse_date now (some String.[]) e h = cc
expires_delay-raise parse_date now (some (String.◌∷◌ c s)) e h =
    let (o, same) = date_delay-raise now (parse_date (codes (String.◌∷◌ c s))) e h in
    ((String.◌∷◌ c s, refl, o), same)

or_read-raise :
    (first : Option ℕ) (other : Result (Option ℕ)) (e : Exc)
    → or_read first other ≡ raise e
    → other ≡ raise e
or_read-raise none other e h = h
or_read-raise (some n) other e h = cc

-- The hint raises only where the date of `Expires` overflows.
pub parse_cache_hint-raise :
    (parse_date : List ℕ → DateRead) (now : ℕ) (headers : Headers) (e : Exc)
    → parse_cache_hint parse_date headers now ≡ raise e
    → Overflows parse_date (headers "expires") × (e ≡ fresh Kind.overflow_error)
unfolding parse_cache_hint
parse_cache_hint-raise parse_date now headers e h =
    expires_delay-raise parse_date now (headers "expires") e (
      or_read-raise (first_max_age (split b',' (codes (or_empty (headers "cache-control")))))
        (expires_delay parse_date (headers "expires") now) e h)
