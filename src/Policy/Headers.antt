-- ===== src/Policy/Headers.antt =====
-- The header readers of fetcher/policy.py. Header values are native strings; what the code walks
-- are their code points. `parsedate_to_datetime` of Python's `email.utils` is the parameter
-- `parse_date`, from the text to what it comes to. What Python does to characters outside ASCII in `lower`, `strip` and `int` is not modelled.
pub mod Delays
use feedgate_fetcher.Prelude.{
  ℕ, ◌-◌, ◌/◌, String, Option, none, some, List, [], ◌∷◌, Bool, false, leb, if◌then◌else◌, any,
  drop,
}
use feedgate_fetcher.Prelude.Texts.{codes, codes_eq, lower, strip, before_code, split, after_prefix}
use feedgate_fetcher.Prelude.Ints.{nonneg_int}
use feedgate_fetcher.Prelude.Time.{second}
use feedgate_fetcher.Exceptions.{Kind, Result, ok, raise, fresh}

-- A datetime that was read: without a time zone, or with one, as an instant. Giving a naive one
-- the zone UTC keeps its number.
pub data Dated : Type 0 where
  naive : ℕ → Dated
  aware : ℕ → Dated

-- What `parsedate_to_datetime` comes to: a datetime; a `TypeError` or `ValueError`, which both readers
-- catch; or the `OverflowError` of a number that is too large for `datetime`, which neither does.
pub data DateRead : Type 0 where
  dated : Dated → DateRead
  unreadable : DateRead
  overflowed : DateRead

-- `if parsed.tzinfo is None: parsed = parsed.replace(tzinfo=UTC)`
abbrev pub as_utc : Dated → ℕ
as_utc (naive t) = t
as_utc (aware t) = t

-- `httpx.Headers.get`: from a header's name to its value
abbrev pub Headers : Type 0
Headers = String → Option String

unfoldable pub not_a_feed_content_types : List (List ℕ)
not_a_feed_content_types =
    codes "text/html"
    ∷ codes "application/xhtml+xml"
    ∷ codes "application/json"
    ∷ codes "application/ld+json"
    ∷ []

unfoldable pub base_type : List ℕ → List ℕ
unfolding before_code strip lower
base_type ct = lower (strip (before_code b';' ct))

unfoldable pub is_not_a_feed_content_type : Option String → Bool
unfolding not_a_feed_content_types any base_type
is_not_a_feed_content_type none = false
is_not_a_feed_content_type (some String.[]) = false
is_not_a_feed_content_type (some ct) =
    any (codes_eq (base_type (codes ct))) not_a_feed_content_types

-- `max(0, int((parsed - now).total_seconds()))`
unfoldable pub seconds_until : ℕ → ℕ → ℕ
seconds_until now t = if leb now t then (t - now) / second else 0

unfoldable pub date_delay : ℕ → DateRead → Result (Option ℕ)
unfolding seconds_until
date_delay now unreadable = ok none
date_delay now overflowed = raise (fresh Kind.overflow_error)
date_delay now (dated parsed) = ok (some (seconds_until now (as_utc parsed)))

abbrev pub or_else {ℓ} : {A : Type ℓ} → Option A → Option A → Option A
or_else none other = other
or_else (some a) other = some a

-- a number that was read first, or what comes after
abbrev pub or_read : Option ℕ → Result (Option ℕ) → Result (Option ℕ)
or_read none other = other
or_read (some n) other = ok (some n)

abbrev pub or_empty : Option String → String
or_empty none = ""
or_empty (some s) = s

-- one round of the loop: the directive's seconds, if it is a `max-age` that reads
unfoldable pub stripped_max_age : List ℕ → Option ℕ
unfolding lower after_prefix nonneg_int drop
stripped_max_age stripped = elim (after_prefix (codes "max-age=") (lower stripped)) [
  | none ↦ none
  | some _ ↦ nonneg_int (drop 8 stripped)
]

unfoldable pub max_age : List ℕ → Option ℕ
unfolding strip stripped_max_age
max_age part = stripped_max_age (strip part)

unfoldable pub first_max_age : List (List ℕ) → Option ℕ
unfolding max_age
first_max_age [] = none
first_max_age (part ∷ parts) = or_else (max_age part) (first_max_age parts)

module _ (parse_date : List ℕ → DateRead) where
  unfoldable pub parse_retry_after : Option String → ℕ → Result (Option ℕ)
  unfolding nonneg_int date_delay
  parse_retry_after none now = ok none
  parse_retry_after (some header) now =
      let stripped = strip (codes header) in
      or_read (nonneg_int stripped) (date_delay now (parse_date stripped))

  unfoldable pub expires_delay : Option String → ℕ → Result (Option ℕ)
  unfolding date_delay
  expires_delay none now = ok none
  expires_delay (some String.[]) now = ok none
  expires_delay (some expires) now = date_delay now (parse_date (codes expires))

  unfoldable pub parse_cache_hint : Headers → ℕ → Result (Option ℕ)
  unfolding first_max_age split expires_delay
  parse_cache_hint headers now =
      or_read (first_max_age (split b',' (codes (or_empty (headers "cache-control")))))
        (expires_delay (headers "expires") now)
