-- ===== src/Api/Access.antt =====
-- api/dependencies.py, api/errors.py and api/middleware.py: what stands around a handler. Header
-- values are code points below 256, as the server decodes them.
pub mod Safety
use feedgate_fetcher.Prelude.{
  ℕ, ◌+◌, String, Option, none, some, List, [], ◌∷◌, Bool, true, false, ◌||◌, not, leb, ◌==◌,
  if◌then◌else◌, any,
}
use feedgate_fetcher.Prelude.Texts.{codes, codes_eq}
use feedgate_fetcher.Api.Http.{Reply, respond, http_error, ◌>>=◌}
use feedgate_fetcher.Api.Feeds.{Database}
use Prim.Native.String.{◌++◌ as ◌++ˢ◌}
use text.Mathlib.Text.{◌==◌ as str_eq}

-- `hmac.compare_digest` of two texts; `none` is the TypeError for a text that is not ASCII
unfoldable pub compare_digest : List ℕ → List ℕ → Option Bool
unfolding any
compare_digest a b = if any (leb 128) a || any (leb 128) b then none else some (codes_eq a b)

-- `request.headers.get("x-api-key", "")`
abbrev pub or_empty : Option (List ℕ) → List ℕ
or_empty none = []
or_empty (some s) = s

unfoldable pub check_key : List ℕ → List ℕ → Reply (Unit {0})
unfolding compare_digest
check_key configured_key [] = http_error 401
check_key configured_key (c ∷ provided) = elim (compare_digest (c ∷ provided) configured_key) [
  | none ↦ http_error 500
  | some same ↦ if same then respond tt else http_error 401
]

-- an empty configured key switches the check off
unfoldable pub require_api_key : List ℕ → Option (List ℕ) → Reply (Unit {0})
unfolding check_key
require_api_key [] provided = respond tt
require_api_key (k ∷ configured_key) provided = check_key (k ∷ configured_key) (or_empty provided)

-- A rollback takes back the rows, and not the sequences of ids.
abbrev pub rolled_back : Database → Database → Database
rolled_back db after = record db {
  next_feed_id = after.next_feed_id;
  table = record (db.table) { next_id = (after.table).next_id };
}

-- the end of `get_session`
unfoldable pub end_session {ℓ} : {A : Type ℓ} → Database → Reply A × Database → Reply A × Database
end_session db (respond a, after) = (respond a, after)
end_session db (http_error status, after) = (http_error status, rolled_back db after)

-- a request to a handler behind the key
unfoldable pub handle {ℓ} :
    {A : Type ℓ}
    → List ℕ
    → Option (List ℕ)
    → (Database → Reply A × Database)
    → Database
    → Reply A × Database
unfolding require_api_key end_session
handle configured_key provided handler db = elim (require_api_key configured_key provided) [
  | http_error status ↦ (http_error status, db)
  | respond _ ↦ end_session db (handler db)
]

-- the problem document of an error
pub record Problem : Type 0 where
  pub title : String
  pub status : ℕ
  pub detail : String
  pub instance_path : String

-- `HTTPStatus(status_code).phrase`; `none` is a ValueError
unfoldable pub status_title : (ℕ → Option String) → ℕ → String
status_title phrases status_code = elim (phrases status_code) [
  | none ↦ "Error"
  | some phrase ↦ phrase
]

unfoldable pub http_exception_handler : (ℕ → Option String) → String → ℕ → Option String → Problem
unfolding status_title
http_exception_handler phrases path status_code detail =
    let title = status_title phrases status_code in
    record {
      title = title;
      status = status_code;
      detail = elim detail [ none ↦ title | some d ↦ d ];
      instance_path = path;
    }

-- one error of pydantic: the text of its location, and its message
pub record FieldError : Type 0 where
  pub loc : Option String
  pub msg : Option String

abbrev pub or_text : Option String → String → String
or_text none d = d
or_text (some s) d = s

-- `f"{loc}: {msg}"` of the first error
unfoldable pub first_detail : List FieldError → String
first_detail [] = "validation error"
first_detail (first ∷ errors) =
    or_text first.loc "()" ++ˢ (": " ++ˢ or_text first.msg "validation error")

unfoldable pub validation_exception_handler : String → List FieldError → Problem
unfolding first_detail
validation_exception_handler path errors = record {
  title = "Unprocessable Entity";
  status = 422;
  detail = first_detail errors;
  instance_path = path;
}

-- one count of `feedgate_api_requests_total`
pub record RequestCount : Type 0 where
  pub method : String
  pub path : String
  pub status_code : ℕ

-- `MetricsMiddleware.dispatch`: `none` is an exception that leaves the application
unfoldable pub dispatch :
    String → String → Option String → Option ℕ → List RequestCount → Option ℕ × List RequestCount
dispatch method url_path route response counts =
    if str_eq url_path "/metrics" then (response, counts) else elim response [
      | none ↦ (none, counts)
      | some status_code ↦ (
        some status_code,
        record { method = method; path = or_text route url_path; status_code = status_code }
            ∷ counts,
      )
    ]
