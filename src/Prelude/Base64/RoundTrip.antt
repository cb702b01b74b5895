-- ===== src/Prelude/Base64/RoundTrip.antt =====
-- A text of base64 without its padding, padded again and decoded.
use feedgate_fetcher.Prelude.Tests.{leb, ◌==◌}
use feedgate_fetcher.Prelude.Lists.{length, All, any}
use feedgate_fetcher.Prelude.Texts.{rstrip, keep_before}
use feedgate_fetcher.Prelude.Base64.{
  symbol, symbol_value, encode, Quad, quad, go, place, accept, decode_from, decode, pads, padding,
}
use Prim.Native.Nat.{ℕ, zero, suc, ◌+◌, ◌-◌, ◌*◌, ◌/◌, ◌%◌, ◌<◌}
use mathlib.Core.List.{List, [], ◌∷◌, ◌++◌}
use mathlib.Core.Option.{some}
use mathlib.Core.Path.{◌≡◌, refl, ◌∙◌}
use mathlib.Core.Bool.{false}
use native.Mathlib.Nat.{add-zero}
use native.Mathlib.Omega.{arith}

abbrev pub AllBytes : List ℕ → Type 0
AllBytes = All (λ b. b < 256)

-- what is left of the text of some bytes when the padding is stripped
unfoldable pub unpadded : List ℕ → List ℕ
unpadded [] = []
unpadded (a ∷ []) = symbol (a / 4) ∷ symbol (a % 4 * 16) ∷ []
unpadded (a ∷ b ∷ []) = symbol (a / 4) ∷ symbol (a % 4 * 16 + b / 16) ∷ symbol (b % 16 * 4) ∷ []
unpadded (a ∷ b ∷ c ∷ bytes) =
    symbol (a / 4)
    ∷ symbol (a % 4 * 16 + b / 16)
    ∷ symbol (b % 16 * 4 + c / 64)
    ∷ symbol (c % 64)
    ∷ unpadded bytes

symbol-value : (v : ℕ) → v < 64 → symbol_value (symbol v) ≡ some v
unfolding symbol symbol_value
symbol-value v h = ground arith

symbol_no_pad : (v : ℕ) → v < 64 → (symbol v == b'=') ≡ false
unfolding symbol
symbol_no_pad v h = ground arith

rstrip-keep : (c : ℕ) (s : List ℕ) → (c == b'=') ≡ false → rstrip b'=' (c ∷ s) ≡ c ∷ rstrip b'=' s
unfolding rstrip
rstrip-keep c s h = keep c (rstrip b'=' s) h
  where
    keep : (c : ℕ) (s : List ℕ) → (c == b'=') ≡ false → keep_before b'=' c s ≡ c ∷ s
    keep c [] h = rw h refl
    keep c (d ∷ s) h = refl

pub rstrip-encode : (bytes : List ℕ) → AllBytes bytes → rstrip b'=' (encode bytes) ≡ unpadded bytes
unfolding encode unpadded rstrip
rstrip-encode [] h = refl
rstrip-encode (a ∷ []) h =
    rw
      (
        rstrip-keep (symbol (a / 4)) _ (symbol_no_pad (a / 4) (omega arith)),
        rstrip-keep (symbol (a % 4 * 16)) _ (symbol_no_pad (a % 4 * 16) (omega arith)),
      )
      refl
rstrip-encode (a ∷ b ∷ []) h =
    rw
      (
        rstrip-keep (symbol (a / 4)) _ (symbol_no_pad (a / 4) (omega arith)),
        rstrip-keep (symbol (a % 4 * 16 + b / 16)) _
            (symbol_no_pad (a % 4 * 16 + b / 16) (omega arith)),
        rstrip-keep (symbol (b % 16 * 4)) _ (symbol_no_pad (b % 16 * 4) (omega arith)),
      )
      refl
rstrip-encode (a ∷ b ∷ c ∷ bytes) h =
    rw
      (
        rstrip-keep (symbol (a / 4)) _ (symbol_no_pad (a / 4) (omega arith)),
        rstrip-keep (symbol (a % 4 * 16 + b / 16)) _
            (symbol_no_pad (a % 4 * 16 + b / 16) (omega arith)),
        rstrip-keep (symbol (b % 16 * 4 + c / 64)) _
            (symbol_no_pad (b % 16 * 4 + c / 64) (omega arith)),
        rstrip-keep (symbol (c % 64)) _ (symbol_no_pad (c % 64) (omega arith)),
        rstrip-encode bytes h.1.1.1,
      )
      refl

accept-symbol : (pos left v : ℕ) → v < 64 → accept (quad pos left) (symbol v) ≡ place pos left v
unfolding accept
accept-symbol pos left v h = rw (symbol_no_pad v h, symbol-value v h) refl

-- the padding of a text that is four characters longer is the same
pads-suc : (n : ℕ) → (4 - suc (suc (suc (suc n))) % 4) % 4 ≡ (4 - n % 4) % 4
pads-suc n = omega arith

decode_from-go :
    (q q' : Quad) (c : ℕ) (out s rest : List ℕ)
    → accept q c ≡ go out q'
    → decode_from q' s ≡ some rest
    → decode_from q (c ∷ s) ≡ some (out ++ rest)
unfolding decode_from
decode_from-go q q' c out s rest h k = rw (h, decode_from) (rw k refl)

-- three bytes from four characters, two from three and one from two
first_byte : (a : ℕ) (low : ℕ) → low < 16 → a / 4 * 4 + (a % 4 * 16 + low) / 16 ≡ a
first_byte a low h = omega arith

second_byte : (b : ℕ) (low : ℕ) → low < 4 → b / 16 * 16 + (b % 16 * 4 + low) / 4 ≡ b
second_byte b low h = omega arith

-- the decoder has read the characters of one byte, or of two
decode_from-first :
    (a low : ℕ) (s rest : List ℕ)
    → a < 256
    → low < 16
    → decode_from (quad 2 ((a % 4 * 16 + low) % 16)) s ≡ some rest
    → decode_from (quad 0 0) (symbol (a / 4) ∷ symbol (a % 4 * 16 + low) ∷ s) ≡ some (a ∷ rest)
decode_from-first a low s rest h k e =
    decode_from-go (quad 0 0) (quad 1 (a / 4)) (symbol (a / 4)) [] (symbol (a % 4 * 16 + low) ∷ s)
      (a ∷ rest) (accept-symbol 0 0 (a / 4) (omega arith))
      (decode_from-go (quad 1 (a / 4)) (quad 2 ((a % 4 * 16 + low) % 16))
          (symbol (a % 4 * 16 + low)) ((a / 4 * 4 + (a % 4 * 16 + low) / 16) ∷ []) s rest
          (accept-symbol 1 (a / 4) (a % 4 * 16 + low) (omega arith)) e
        ∙ rw (first_byte a low k) refl)

decode_from-second :
    (left b low : ℕ) (s rest : List ℕ)
    → b < 256
    → low < 4
    → left ≡ b / 16
    → decode_from (quad 3 ((b % 16 * 4 + low) % 4)) s ≡ some rest
    → decode_from (quad 2 left) (symbol (b % 16 * 4 + low) ∷ s) ≡ some (b ∷ rest)
decode_from-second left b low s rest h k l e =
    decode_from-go (quad 2 left) (quad 3 ((b % 16 * 4 + low) % 4)) (symbol (b % 16 * 4 + low))
      ((left * 16 + (b % 16 * 4 + low) / 4) ∷ []) s rest
      (accept-symbol 2 left (b % 16 * 4 + low) (omega arith)) e
    ∙ rw (l, second_byte b low k) refl

-- two signs of padding after two characters, one after three
decode_from-pads2 : (left : ℕ) → decode_from (quad 2 left) (b'=' ∷ b'=' ∷ []) ≡ some []
unfolding decode_from
decode_from-pads2 left = refl

decode_from-pads1 : (left : ℕ) → decode_from (quad 3 left) (b'=' ∷ []) ≡ some []
unfolding decode_from
decode_from-pads1 left = refl

pub decode_from-unpadded :
    (bytes : List ℕ)
    → AllBytes bytes
    → decode_from (quad 0 0) (unpadded bytes ++ padding (unpadded bytes)) ≡ some bytes
unfolding unpadded padding
decode_from-unpadded [] h = unfold decode_from in refl
decode_from-unpadded (a ∷ []) h =
    rw (← add-zero (a % 4 * 16))
      (decode_from-first a 0 _ [] h.0 (omega arith) (decode_from-pads2 _))
decode_from-unpadded (a ∷ b ∷ []) h = rw (← add-zero (b % 16 * 4)) (
    decode_from-first a (b / 16) _ (b ∷ []) h.0 (omega arith)
      (decode_from-second _ b 0 _ [] h.1.0 (omega arith) (omega arith) (decode_from-pads1 _)))
decode_from-unpadded (a ∷ b ∷ c ∷ bytes) h =
    decode_from-first a (b / 16) _ (b ∷ c ∷ bytes) h.0 (omega arith) (
      decode_from-second _ b (c / 64) _ (c ∷ bytes) h.1.0 (omega arith) (omega arith) (
        decode_from-go (quad 3 ((b % 16 * 4 + c / 64) % 4)) (quad 0 0) (symbol (c % 64)) _ _ bytes
          (accept-symbol 3 _ (c % 64) (omega arith))
          (rw (pads-suc (length (unpadded bytes))) (decode_from-unpadded bytes h.1.1.1))
        ∙ rw (third_byte b c h.1.1.0) refl))
  where
    third_byte : (b c : ℕ) → c < 256 → (b % 16 * 4 + c / 64) % 4 * 64 + c % 64 ≡ c
    third_byte b c h = omega arith

abbrev IsAsciiText : List ℕ → Type 0
IsAsciiText s = any (leb 128) s ≡ false

symbol_is_ascii : (v : ℕ) → leb 128 (symbol v) ≡ false
unfolding symbol
symbol_is_ascii v = ground arith

any-cons-false : (c : ℕ) (s : List ℕ) → leb 128 c ≡ false → IsAsciiText s → IsAsciiText (c ∷ s)
unfolding any
any-cons-false c s h k = rw (h, any, k) refl

any-pads : (n : ℕ) → IsAsciiText (pads n)
unfolding any
any-pads zero = refl
any-pads (suc n) = any-pads n

any-unpadded : (bytes s : List ℕ) → IsAsciiText s → IsAsciiText (unpadded bytes ++ s)
unfolding unpadded
any-unpadded [] s h = h
any-unpadded (a ∷ []) s h =
    any-cons-false _ _ (symbol_is_ascii _) (any-cons-false _ _ (symbol_is_ascii _) h)
any-unpadded (a ∷ b ∷ []) s h =
    any-cons-false _ _ (symbol_is_ascii _)
      (any-cons-false _ _ (symbol_is_ascii _) (any-cons-false _ _ (symbol_is_ascii _) h))
any-unpadded (a ∷ b ∷ c ∷ bytes) s h = any-cons-false _ _ (symbol_is_ascii _) (
    any-cons-false _ _ (symbol_is_ascii _) (
      any-cons-false _ _ (symbol_is_ascii _)
        (any-cons-false _ _ (symbol_is_ascii _) (any-unpadded bytes s h))))

-- What a cursor's text is made of is read back: the text without its padding, padded as the reader
-- pads it, decodes to the bytes that were encoded.
pub decode-encode :
    (bytes : List ℕ)
    → AllBytes bytes
    → decode (rstrip b'=' (encode bytes) ++ padding (rstrip b'=' (encode bytes))) ≡ some bytes
unfolding decode padding
decode-encode bytes h =
    let n = (4 - length (unpadded bytes) % 4) % 4 in
    rw (rstrip-encode bytes h, any-unpadded bytes (pads n) (any-pads n))
      (decode_from-unpadded bytes h)
