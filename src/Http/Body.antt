-- ===== src/Http/Body.antt =====
-- About the loop over `response.aiter_bytes()` in fetcher/http.py.
use feedgate_fetcher.Prelude.{
  ℕ, ◌+◌, ◌≤◌, ◌≡◌, ◌∙◌, List, [], ◌∷◌, ◌++◌, map, ltb, length, length-append, arith, Bool-cases,
  inl, inr, if◌then◌else◌, ltb-false→le,
}
use feedgate_fetcher.Exceptions.{ok, raise, fresh, response_too_large}
use feedgate_fetcher.Http.{bytes, read_chunks}
use mathlib.Core.List.{append_assoc, append-nil}

-- the chunks, joined
abbrev pub joined : List (List ℕ) → List ℕ
joined [] = []
joined (chunk ∷ chunks) = chunk ++ joined chunks

read_chunks-size :
    (max_bytes : ℕ) (parts : List ℕ) (size : ℕ) (chunks : List (List ℕ))
    → size ≤ max_bytes
    → read_chunks max_bytes parts size (map bytes chunks) ≡ (
        if ltb max_bytes (size + length (joined chunks))
        then raise (fresh response_too_large)
        else ok (parts ++ joined chunks))
unfolding read_chunks
read_chunks-size max_bytes parts size [] h = rw append-nil (ground arith)
read_chunks-size max_bytes parts size (chunk ∷ chunks) h =
    elim (Bool-cases (ltb max_bytes (size + length chunk))) [
      | inl big ↦ rw big (ground (arith, length-append chunk (joined chunks)))
      | inr fits ↦
          rw
            (
              fits,
              read_chunks-size max_bytes (parts ++ chunk) (size + length chunk) chunks
                  (ltb-false→le _ _ fits),
              append_assoc,
              length-append,
            )
            (ground arith)
    ]

-- A stream that does not break off is read whole if it has at most `max_bytes` bytes, and refused
-- as too large otherwise, however it is cut into chunks.
pub read_chunks_lem :
    (max_bytes : ℕ) (chunks : List (List ℕ))
    → read_chunks max_bytes [] 0 (map bytes chunks) ≡ (
        if ltb max_bytes (length (joined chunks))
        then raise (fresh response_too_large)
        else ok (joined chunks))
read_chunks_lem max_bytes chunks =
    read_chunks-size max_bytes [] 0 chunks (omega arith) ∙ ground arith
