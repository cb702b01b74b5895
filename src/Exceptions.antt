-- ===== src/Exceptions.antt =====
-- Python exceptions as values, and the results of code that may raise. The classes are those that
-- fetcher/errors.py tells apart; a class of which no `isinstance` test of the program speaks is
-- `other`. An exception object knows its class, its `__cause__` and its `__context__`; the objects
-- that they lead to live in a heap, since such a chain may run in a circle.
use feedgate_fetcher.Prelude.{ℕ, zero, suc, Option, none, some, ◌≡◌, refl, ◌⊎◌, inl, inr}

pub data Kind : Type 0 where
  -- ssrf.BlockedURLError, errors.NotAFeedError, errors.ResponseTooLargeError, fallback.FallbackError
  blocked_url not_a_feed response_too_large fallback_error : Kind
  -- httpx.TimeoutException or TimeoutError
  timeout : Kind
  -- httpx.ConnectError, httpx.TooManyRedirects, any other httpx.HTTPError
  connect_error too_many_redirects http_error : Kind
  -- httpx.HTTPStatusError, with its status code
  http_status_error : ℕ → Kind
  -- ssl.SSLError, socket.gaierror, ConnectionRefusedError
  ssl_error gaierror connection_refused : Kind
  overflow_error zero_division_error other : Kind

pub record ExcObject : Type 0 where
  pub kind : Kind
  pub cause : Option ℕ
  pub context : Option ℕ

-- An exception in flight: the identity of its object, and the heap.
pub record Exc : Type 0 where
  pub id : ℕ
  pub heap : ℕ → ExcObject

-- A new exception with no cause and no context.
abbrev pub fresh : Kind → Exc
fresh k = record { id = 0; heap = λ _. record { kind = k; cause = none; context = none } }

-- `raise New(...) from exc`: a new object at 0, whose cause is the old one; the objects of the old
-- heap move up by one place.
abbrev moved : Option ℕ → Option ℕ
moved none = none
moved (some i) = some (suc i)

abbrev chained_heap : Kind → Exc → ℕ → ExcObject
chained_heap k e zero = record { kind = k; cause = some (suc e.id); context = some (suc e.id) }
chained_heap k e (suc i) = record {
  kind = (e.heap i).kind;
  cause = moved (e.heap i).cause;
  context = moved (e.heap i).context;
}

abbrev pub chained : Kind → Exc → Exc
chained k e = record { id = 0; heap = chained_heap k e }

pub data Result {ℓ} (A : Type ℓ) : Type ℓ where
  ok : A → Result A
  raise : Exc → Result A

infixl 5 ◌>>=◌ ◌>>◌
abbrev pub ◌>>=◌ {ℓ κ} : {A : Type ℓ} {B : Type κ} → Result A → (A → Result B) → Result B
ok a >>= f = f a
raise e >>= f = raise e

abbrev pub ◌>>◌ {ℓ} : {B : Type ℓ} → Result (Unit {0}) → Result B → Result B
m >> k = m >>= λ _. k

-- Date arithmetic that leaves the calendar raises `OverflowError`.
abbrev pub or_overflow {ℓ} : {A : Type ℓ} → Option A → Result A
or_overflow none = raise (fresh overflow_error)
or_overflow (some a) = ok a

pub Result-cases : (r : Result (Unit {0})) → (r ≡ ok tt) ⊎ ((e : Exc) × (r ≡ raise e))
Result-cases (ok u) = inl refl
Result-cases (raise e) = inr (e, refl)

pub Result-split {ℓ} :
    {A : Type ℓ} (r : Result A) → ((a : A) × (r ≡ ok a)) ⊎ ((e : Exc) × (r ≡ raise e))
Result-split (ok a) = inl (a, refl)
Result-split (raise e) = inr (e, refl)
