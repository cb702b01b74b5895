-- ===== src/Prelude/Base64.antt =====
-- Python's `base64.urlsafe_b64encode` and `urlsafe_b64decode`, over bytes as numbers. The decoder is
-- lenient as `binascii.a2b_base64` is: it passes over what is not of the alphabet, and reads both
-- alphabets, since `-` and `_` are first translated to `+` and `/`.
pub mod RoundTrip
use feedgate_fetcher.Prelude.Tests.{ltb, leb, ◌==◌, if◌then◌else◌}
use feedgate_fetcher.Prelude.Lists.{length, any}
use Prim.Native.Nat.{ℕ, zero, suc, ◌+◌, ◌-◌, ◌*◌, ◌/◌, ◌%◌}
use mathlib.Core.Bool.{◌&&◌}
use mathlib.Core.List.{List, [], ◌∷◌, ◌++◌}
use mathlib.Core.Option
use mathlib.Core.Option.{Option, none, some}

-- the character for six bits
unfoldable pub symbol : ℕ → ℕ
symbol v =
    if ltb v 26
    then v + b'A'
    else if ltb v 52
    then v - 26 + b'a'
    else if ltb v 62
    then v - 52 + b'0'
    else if v == 62
    then b'-'
    else b'_'

-- the six bits of a character of either alphabet
unfoldable pub symbol_value : ℕ → Option ℕ
symbol_value c =
    if leb b'A' c && leb c b'Z'
    then some (c - b'A')
    else if leb b'a' c && leb c b'z'
    then some (c - b'a' + 26)
    else if leb b'0' c && leb c b'9'
    then some (c - b'0' + 52)
    else if c == b'-'
    then some 62
    else if c == b'+'
    then some 62
    else if c == b'_'
    then some 63
    else if c == b'/'
    then some 63
    else none

unfoldable pub encode : List ℕ → List ℕ
unfolding symbol
encode [] = []
encode (a ∷ []) = symbol (a / 4) ∷ symbol (a % 4 * 16) ∷ b'=' ∷ b'=' ∷ []
encode (a ∷ b ∷ []) =
    symbol (a / 4) ∷ symbol (a % 4 * 16 + b / 16) ∷ symbol (b % 16 * 4) ∷ b'=' ∷ []
encode (a ∷ b ∷ c ∷ bytes) =
    symbol (a / 4)
    ∷ symbol (a % 4 * 16 + b / 16)
    ∷ symbol (b % 16 * 4 + c / 64)
    ∷ symbol (c % 64)
    ∷ encode bytes

-- `quad_pos`, `leftchar` and `pads` of the decoder
pub record Quad : Type 0 where
  pub pos : ℕ
  pub left : ℕ
  pub pads : ℕ

-- what the decoder makes of one character: it stops, or gives bytes and goes on
pub data Move : Type 0 where
  stop : Move
  go : List ℕ → Quad → Move

abbrev pub quad : ℕ → ℕ → Quad
quad pos left = record { pos = pos; left = left; pads = 0 }

abbrev pub place : ℕ → ℕ → ℕ → Move
place zero left v = go [] (quad 1 v)
place (suc zero) left v = go ((left * 4 + v / 16) ∷ []) (quad 2 (v % 16))
place (suc (suc zero)) left v = go ((left * 16 + v / 4) ∷ []) (quad 3 (v % 4))
place (suc (suc (suc pos))) left v = go ((left * 64 + v) ∷ []) (quad 0 0)

unfoldable pub accept : Quad → ℕ → Move
unfolding symbol_value
accept q c =
    if c == b'='
    then (if leb 2 q.pos
        then (if leb 4 (q.pos + (q.pads + 1)) then stop else go [] (record q { pads = q.pads + 1 }))
        else go [] q)
    else elim (symbol_value c) [ none ↦ go [] q | some v ↦ place q.pos q.left v ]

-- `none` is a `binascii.Error`, which is a `ValueError`
unfoldable pub decode_from : Quad → List ℕ → Option (List ℕ)
unfolding accept
decode_from q [] = if q.pos == 0 then some [] else none
decode_from q (c ∷ s) = elim (accept q c) [
  | stop ↦ some []
  | go out q' ↦ Option.map (λ rest. out ++ rest) (decode_from q' s)
]

-- a text that is not ASCII is a `ValueError` too
unfoldable pub decode : List ℕ → Option (List ℕ)
unfolding decode_from any
decode s = if any (leb 128) s then none else decode_from (quad 0 0) s

abbrev pub pads : ℕ → List ℕ
pads zero = []
pads (suc n) = b'=' ∷ pads n

-- `"=" * (-len(s) % 4)`
unfoldable pub padding : List ℕ → List ℕ
padding s = pads ((4 - length s % 4) % 4)
