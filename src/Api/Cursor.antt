-- ===== src/Api/Cursor.antt =====
-- The cursors of api/entries.py and api/feeds.py: base64 without padding around a JSON object. What
-- `json.loads(raw.decode())` reads, and datetimes in ISO format, are parameters: a `Codec`.
pub mod Reading
use feedgate_fetcher.Prelude.{
  ℕ, ◌+◌, Option, none, some, List, [], ◌∷◌, ◌++◌, Bool, true, false, not, ◌==◌, if◌then◌else◌,
}
use feedgate_fetcher.Prelude.Base64.{encode, decode, padding}
use feedgate_fetcher.Prelude.Ints.{ℤ, pos, negsuc, int, decimal}
use feedgate_fetcher.Prelude.Texts.{codes, codes_eq, rstrip}
use feedgate_fetcher.Api.Http.{Reply, respond, http_error}

-- a JSON number with a fraction or an exponent, as far as truth and `int` see it
pub data Real : Type 0 where
  zero_real : Real
  finite : ℤ → Real
  infinite nan : Real

mutual
  pub data Json : Type 0 where
    null : Json
    boolean : Bool → Json
    integer : ℤ → Json
    real : Real → Json
    text : List ℕ → Json
    array : Items → Json
    object : Fields → Json

  pub data Items : Type 0 where
    nil : Items
    cons : Json → Items → Items

  pub data Fields : Type 0 where
    end : Fields
    field : List ℕ → Json → Fields → Fields

-- what a Python expression does inside `_decode_cursor`: it raises an exception that is caught there
-- (a ValueError, KeyError or TypeError), or one that is not
pub data Attempt {ℓ} (A : Type ℓ) : Type ℓ where
  done : A → Attempt A
  refused escaped : Attempt A

infixl 5 ◌>>=◌
abbrev pub ◌>>=◌ {ℓ κ} : {A : Type ℓ} {B : Type κ} → Attempt A → (A → Attempt B) → Attempt B
done a >>= f = f a
refused >>= f = refused
escaped >>= f = escaped

-- `try: ... except (ValueError, KeyError, TypeError)`: 400, or the server's 500
abbrev pub reply_of {ℓ} : {A : Type ℓ} → Attempt A → Reply A
reply_of (done a) = respond a
reply_of refused = http_error 400
reply_of escaped = http_error 500

abbrev pub or_refused {ℓ} : {A : Type ℓ} → Option A → Attempt A
or_refused none = refused
or_refused (some a) = done a

pub record Codec : Type 0 where
  pub loads : List ℕ → Attempt Json
  pub isoformat : ℕ → List ℕ
  pub fromisoformat : List ℕ → Option ℕ

unfoldable pub lookup_field : List ℕ → Fields → Option Json
lookup_field key end = none
lookup_field key (field k v fields) = if codes_eq k key then some v else lookup_field key fields

-- `int(x)` of a JSON value
abbrev pub int_of_real : Real → Attempt ℤ
int_of_real zero_real = done (pos 0)
int_of_real (finite n) = done n
int_of_real infinite = escaped
int_of_real nan = refused

unfoldable pub int_of : Json → Attempt ℤ
unfolding int
int_of null = refused
int_of (boolean b) = done (if b then pos 1 else pos 0)
int_of (integer n) = done n
int_of (real x) = int_of_real x
int_of (text s) = or_refused (int s)
int_of (array xs) = refused
int_of (object fs) = refused

-- `payload["i"]`
unfoldable pub subscript : List ℕ → Json → Attempt Json
unfolding lookup_field
subscript key (object fs) = or_refused (lookup_field key fs)
subscript key _ = refused

-- `payload.get("p")`: only a dict has `get`
unfoldable pub get_or_null : List ℕ → Json → Attempt Json
unfolding lookup_field
get_or_null key (object fs) = done (elim (lookup_field key fs) [ none ↦ null | some v ↦ v ])
get_or_null key _ = escaped

abbrev pub is_zero : ℤ → Bool
is_zero (pos n) = n == 0
is_zero (negsuc n) = false

-- the truth of a JSON value in Python
abbrev pub truth : Json → Bool
truth null = false
truth (boolean b) = b
truth (integer n) = not (is_zero n)
truth (real zero_real) = false
truth (real (finite n)) = true
truth (real infinite) = true
truth (real nan) = true
truth (text []) = false
truth (text (c ∷ s)) = true
truth (array nil) = false
truth (array (cons x xs)) = true
truth (object end) = false
truth (object (field k v fs)) = true

abbrev pub fromisoformat_of : Codec → Json → Attempt ℕ
fromisoformat_of codec (text s) = or_refused (codec.fromisoformat s)
fromisoformat_of codec _ = refused

module _ (codec : Codec) where
  -- `json.loads(base64.urlsafe_b64decode(cursor + padding).decode())`
  unfoldable pub load_payload : List ℕ → Attempt Json
  unfolding decode padding
  load_payload cursor = elim (decode (cursor ++ padding cursor)) [
    | none ↦ refused
    | some raw ↦ codec.loads raw
  ]

  -- entries.py
  unfoldable pub published_text : Option ℕ → List ℕ
  published_text none = codes "null"
  published_text (some t) = b'"' ∷ (codec.isoformat t ++ b'"' ∷ [])

  unfoldable pub entry_payload : Option ℕ → ℕ → List ℕ
  unfolding published_text decimal
  entry_payload published_at entry_id =
      codes "{\"p\":"
      ++ (published_text published_at ++ (codes ",\"i\":" ++ (decimal entry_id ++ b'}' ∷ [])))

  unfoldable pub encode_cursor : Option ℕ → ℕ → List ℕ
  unfolding entry_payload encode rstrip
  encode_cursor published_at entry_id = rstrip b'=' (encode (entry_payload published_at entry_id))

  unfoldable pub published_of : Json → Attempt (Option ℕ)
  published_of p_raw =
      if truth p_raw then (fromisoformat_of codec p_raw >>= λ t. done (some t)) else done none

  unfoldable pub decode_payload : Json → Attempt (Option ℕ × ℤ)
  unfolding get_or_null published_of subscript int_of
  decode_payload payload = do
    p_raw ← get_or_null (codes "p") payload
    pub_at ← published_of p_raw
    i ← subscript (codes "i") payload
    n ← int_of i
    done (pub_at, n)

  unfoldable pub decode_cursor : List ℕ → Reply (Option ℕ × ℤ)
  unfolding load_payload decode_payload
  decode_cursor cursor = reply_of (load_payload cursor >>= decode_payload)

  -- feeds.py
  unfoldable pub decode_feed_cursor : List ℕ → Reply ℤ
  unfolding load_payload subscript int_of
  decode_feed_cursor cursor =
      reply_of (do payload ← load_payload cursor; i ← subscript (codes "i") payload; int_of i)

unfoldable pub feed_payload : ℕ → List ℕ
unfolding decimal
feed_payload feed_id = codes "{\"i\":" ++ (decimal feed_id ++ b'}' ∷ [])

unfoldable pub encode_feed_cursor : ℕ → List ℕ
unfolding feed_payload encode rstrip
encode_feed_cursor feed_id = rstrip b'=' (encode (feed_payload feed_id))
