-- ===== src/Errors.antt =====
-- fetcher/errors.py: from the exception that ended a fetch to its error code. An `isinstance` test
-- is a case of the exception's class.
pub mod Chain
use feedgate_fetcher.Prelude.{
  ℕ, zero, suc, Option, none, some, List, [], ◌∷◌, Bool, ◌&&◌, any, leb, ltb, ◌==◌, if◌then◌else◌,
}
use feedgate_fetcher.Models.{
  ErrorCode, dns, tcp_refused, tls_error, timeout, connection, http_4xx, http_410, http_5xx,
  http_error, not_a_feed, redirect_loop, too_large, blocked, other,
}
use feedgate_fetcher.Exceptions.{Kind, ExcObject, Exc}

-- `x or y` on two optional exceptions
abbrev pub or_context : Option ℕ → Option ℕ → Option ℕ
or_context none context = context
or_context (some i) context = some i

-- `exc.__cause__ or exc.__context__`
abbrev pub next_exc : ExcObject → Option ℕ
next_exc o = or_context o.cause o.context

-- the three tests of a round of the loop
abbrev pub connect_code : Kind → Option ErrorCode
connect_code Kind.ssl_error = some tls_error
connect_code Kind.gaierror = some dns
connect_code Kind.connection_refused = some tcp_refused
connect_code _ = none

-- The loop of `_classify_connect_cause`: the rounds left, `current` and `seen`.
unfoldable pub walk : (ℕ → ExcObject) → ℕ → Option ℕ → List ℕ → ErrorCode
unfolding any
walk heap zero current seen = connection
walk heap (suc rounds) none seen = connection
walk heap (suc rounds) (some current) seen =
    let rest = walk heap rounds (next_exc (heap current)) (current ∷ seen) in
    elim (connect_code (heap current).kind) [
      | some code ↦ code
      | none ↦ if any (λ i. i == current) seen then connection else rest
    ]

unfoldable pub classify_connect_cause : Exc → ErrorCode
unfolding walk
classify_connect_cause exc = walk exc.heap 8 (some exc.id) []

-- the `FallbackError` branch
abbrev fallback_code : (ℕ → ExcObject) → Option ℕ → ErrorCode
fallback_code heap none = other
fallback_code heap (some i) = elim (heap i).kind [ Kind.response_too_large ↦ too_large | _ ↦ other ]

unfoldable pub status_code : ℕ → ErrorCode
status_code status =
    if status == 410
    then http_410
    else if leb 400 status && ltb status 500
    then http_4xx
    else http_5xx

classify_kind : Kind → Exc → ErrorCode
unfolding classify_connect_cause status_code
classify_kind Kind.blocked_url exc = blocked
classify_kind Kind.not_a_feed exc = not_a_feed
classify_kind Kind.response_too_large exc = too_large
classify_kind Kind.fallback_error exc = fallback_code exc.heap (next_exc (exc.heap exc.id))
classify_kind Kind.timeout exc = timeout
classify_kind Kind.connect_error exc = classify_connect_cause exc
classify_kind (Kind.http_status_error status) exc = status_code status
classify_kind Kind.too_many_redirects exc = redirect_loop
classify_kind Kind.http_error exc = http_error
classify_kind _ exc = other

unfoldable pub classify_error : Exc → ErrorCode
unfolding classify_kind
classify_error exc = classify_kind (exc.heap exc.id).kind exc
