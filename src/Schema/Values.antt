-- ===== src/Schema/Values.antt =====
-- models.py: the values of a row's columns, as they are sent to the database, against the types of the
-- columns. A text of Postgres holds no NUL character, an integer column has 32 bits with a sign.
use feedgate_fetcher.Prelude.{
  ℕ, ◌^◌, ◌≡◌, refl, String, Option, none, some, List, [], ◌∷◌, Bool, true, false, not, ◌&&◌, ◌==◌,
  ltb, leb, any, length,
}
use feedgate_fetcher.Prelude.Texts.{codes}
use feedgate_fetcher.Models.{Feed, Entry, FeedStatus, active, broken, dead, ErrorCode}
use feedgate_fetcher.Schema.{SqlType, integer, unbounded, varchar, timestamptz, Column}
use feedgate_fetcher.Schema.Metadata.{column}

-- the values of `FeedStatus`
abbrev pub status_text : FeedStatus → String
status_text active = "active"
status_text broken = "broken"
status_text dead = "dead"

-- the values of `ErrorCode`
abbrev pub code_text : ErrorCode → String
code_text ErrorCode.dns = "dns"
code_text ErrorCode.tcp_refused = "tcp_refused"
code_text ErrorCode.tls_error = "tls_error"
code_text ErrorCode.timeout = "timeout"
code_text ErrorCode.connection = "connection"
code_text ErrorCode.http_4xx = "http_4xx"
code_text ErrorCode.http_410 = "http_410"
code_text ErrorCode.http_5xx = "http_5xx"
code_text ErrorCode.http_error = "http_error"
code_text ErrorCode.rate_limited = "rate_limited"
code_text ErrorCode.not_a_feed = "not_a_feed"
code_text ErrorCode.redirect_loop = "redirect_loop"
code_text ErrorCode.too_large = "too_large"
code_text ErrorCode.blocked = "blocked"
code_text ErrorCode.other = "other"

pub data SqlValue : Type 0 where
  null : SqlValue
  number : ℕ → SqlValue
  text : String → SqlValue
  instant : ℕ → SqlValue

abbrev pub text_or_null : Option String → SqlValue
text_or_null none = null
text_or_null (some s) = text s

abbrev pub instant_or_null : Option ℕ → SqlValue
instant_or_null none = null
instant_or_null (some t) = instant t

abbrev pub code_or_null : Option ErrorCode → SqlValue
code_or_null none = null
code_or_null (some code) = text (code_text code)

-- the attributes of a row, by the names of their columns
abbrev pub feed_values : Feed → List (String × SqlValue)
feed_values f =
    ("id", number f.id)
    ∷ ("url", text f.url)
    ∷ ("effective_url", text f.effective_url)
    ∷ ("title", text_or_null f.title)
    ∷ ("status", text (status_text f.status))
    ∷ ("last_successful_fetch_at", instant_or_null f.last_successful_fetch_at)
    ∷ ("last_attempt_at", instant_or_null f.last_attempt_at)
    ∷ ("last_error_code", code_or_null f.last_error_code)
    ∷ ("created_at", instant f.created_at)
    ∷ ("next_fetch_at", instant f.next_fetch_at)
    ∷ ("consecutive_failures", number f.consecutive_failures)
    ∷ ("etag", text_or_null f.etag)
    ∷ ("last_modified", text_or_null f.last_modified)
    ∷ []

abbrev pub entry_values : Entry → List (String × SqlValue)
entry_values e =
    ("id", number e.id)
    ∷ ("feed_id", number e.feed_id)
    ∷ ("guid", text e.guid)
    ∷ ("url", text e.url)
    ∷ ("title", text_or_null e.title)
    ∷ ("content", text_or_null e.content)
    ∷ ("author", text_or_null e.author)
    ∷ ("published_at", instant_or_null e.published_at)
    ∷ ("fetched_at", instant e.fetched_at)
    ∷ ("content_updated_at", instant e.content_updated_at)
    ∷ []

unfoldable pub has_nul : String → Bool
unfolding any
has_nul s = any (λ c. c == 0) (codes s)

abbrev pub is_storable : Option String → Bool
is_storable none = true
is_storable (some s) = not (has_nul s)

-- is the value one of the column's type?
unfoldable pub fits : SqlType → SqlValue → Bool
unfolding has_nul
fits integer (number n) = ltb n (2 ^ 31)
fits unbounded (text s) = not (has_nul s)
fits (varchar n) (text s) = leb (length (codes s)) n && not (has_nul s)
fits timestamptz (instant t) = true
fits _ _ = false

abbrev pub Fits : Column → SqlValue → Type 0
Fits c null = c.nullable ≡ true
Fits c (number n) = fits c.sql_type (number n) ≡ true
Fits c (text s) = fits c.sql_type (text s) ≡ true
Fits c (instant t) = fits c.sql_type (instant t) ≡ true

-- A value for each column, under its name and of its type; NULL only where the column is nullable.
abbrev pub Conforms : List Column → List (String × SqlValue) → Type 0
Conforms [] [] = Unit
Conforms (c ∷ columns) ((name, value) ∷ values) =
    (c.name ≡ name) × Fits c value × Conforms columns values
Conforms _ _ = ⊥

pub status_text-fits : (s : FeedStatus) → fits (varchar 32) (text (status_text s)) ≡ true
unfolding fits
status_text-fits active = refl
status_text-fits broken = refl
status_text-fits dead = refl

code_text-fits : (code : ErrorCode) → fits (varchar 64) (text (code_text code)) ≡ true
unfolding fits
code_text-fits ErrorCode.dns = refl
code_text-fits ErrorCode.tcp_refused = refl
code_text-fits ErrorCode.tls_error = refl
code_text-fits ErrorCode.timeout = refl
code_text-fits ErrorCode.connection = refl
code_text-fits ErrorCode.http_4xx = refl
code_text-fits ErrorCode.http_410 = refl
code_text-fits ErrorCode.http_5xx = refl
code_text-fits ErrorCode.http_error = refl
code_text-fits ErrorCode.rate_limited = refl
code_text-fits ErrorCode.not_a_feed = refl
code_text-fits ErrorCode.redirect_loop = refl
code_text-fits ErrorCode.too_large = refl
code_text-fits ErrorCode.blocked = refl
code_text-fits ErrorCode.other = refl

module _ (name : String) where
  pub text-Fits :
      (o : Option String)
      → is_storable o ≡ true
      → Fits (column name unbounded true) (text_or_null o)
  unfolding fits
  text-Fits none h = refl
  text-Fits (some s) h = h

  pub instant-Fits : (o : Option ℕ) → Fits (column name timestamptz true) (instant_or_null o)
  unfolding fits
  instant-Fits none = refl
  instant-Fits (some t) = refl

  pub code-Fits : (o : Option ErrorCode) → Fits (column name (varchar 64) true) (code_or_null o)
  code-Fits none = refl
  code-Fits (some code) = code_text-fits code
