-- ===== src/Prelude/Ints.antt =====
-- Python's `int(s)` of a decimal literal, and `str(n)`.
use feedgate_fetcher.Prelude.Tests.{ltb, leb, ◌==◌, if◌then◌else◌}
use feedgate_fetcher.Prelude.Lists.{length, count, All, All-append}
use feedgate_fetcher.Prelude.Texts.{is_space, lstrip, strip}
use Prim.Native.Nat.{ℕ, zero, suc, ◌+◌, ◌-◌, ◌*◌, ◌/◌, ◌%◌, ◌≤◌, ◌<◌}
use mathlib.Core.Bool.{Bool, true, false, ◌&&◌}
use mathlib.Core.List.{List, [], ◌∷◌, reverse, reverse-cons, reverse-reverse}
use mathlib.Core.Option
use mathlib.Core.Option.{Option, none, some}
use mathlib.Core.Path.{◌≡◌, refl, ap}
use native.Mathlib.Omega.{arith}

abbrev pub is_digit : ℕ → Bool
is_digit c = leb 48 c && leb c 57

-- The digits after the sign: one at least, with single underscores between digits. `none` is a
-- `ValueError`. The first argument says whether a digit stands just before.
unfoldable pub digits : Bool → ℕ → List ℕ → Option ℕ
digits seen n [] = if seen then some n else none
digits seen n (c ∷ s) =
    let after_digit = digits true (n * 10 + (c - 48)) s in
    let after_underscore = digits false n s in
    if is_digit c then after_digit else if seen && (c == b'_') then after_underscore else none

-- `negsuc n` is -(n + 1).
pub data ℤ : Type 0 where
  pos : ℕ → ℤ
  negsuc : ℕ → ℤ

abbrev pub negative : ℕ → ℤ
negative zero = pos 0
negative (suc n) = negsuc n

-- `max(0, z)`
abbrev pub clamped : ℤ → ℕ
clamped (pos n) = n
clamped (negsuc n) = 0

unfoldable pub signed : List ℕ → Option ℤ
unfolding digits
signed [] = none
signed (c ∷ s) =
    if c == b'-'
    then Option.map negative (digits false 0 s)
    else if c == b'+'
    then Option.map pos (digits false 0 s)
    else Option.map pos (digits false 0 (c ∷ s))

-- `sys.int_info.default_max_str_digits`: a longer literal is a `ValueError`
abbrev pub max_str_digits : ℕ
max_str_digits = 4300

-- `int(s)`; it drops white space at both ends
unfoldable pub int : List ℕ → Option ℤ
unfolding signed strip
int s = if ltb max_str_digits (count is_digit s) then none else signed (strip s)

-- `max(0, int(s))`
unfoldable pub nonneg_int : List ℕ → Option ℕ
unfolding int
nonneg_int s = Option.map clamped (int s)

-- `str(n)` in front of a text, with fuel
decimal_before : ℕ → ℕ → List ℕ → List ℕ
decimal_before zero n acc = acc
decimal_before (suc f) n acc =
    let more = decimal_before f (n / 10) ((48 + n % 10) ∷ acc) in
    if ltb n 10 then (48 + n) ∷ acc else more

-- A number has fewer digits than its successor is big.
unfoldable pub decimal : ℕ → List ℕ
unfolding decimal_before
decimal n = decimal_before (suc n) n []

digits-decimal_before :
    (f n : ℕ) (seen : Bool) (acc : List ℕ)
    → n < f
    → digits seen 0 (decimal_before f n acc) ≡ digits true n acc
unfolding digits decimal_before
digits-decimal_before zero n seen acc h = elim h [ ]
digits-decimal_before (suc f) n seen acc h =
    ground (arith, digits-decimal_before f (n / 10) seen ((48 + n % 10) ∷ acc))

digits-decimal : (n : ℕ) → digits false 0 (decimal n) ≡ some n
unfolding decimal digits
digits-decimal n = digits-decimal_before (suc n) n false [] (omega arith)

abbrev pub AllDigits : List ℕ → Type 0
AllDigits = All (λ c. is_digit c ≡ true)

decimal_before-AllDigits :
    (f n : ℕ) (acc : List ℕ) → AllDigits acc → AllDigits (decimal_before f n acc)
unfolding decimal_before
decimal_before-AllDigits zero n acc h = h
decimal_before-AllDigits (suc f) n acc h =
    ground (arith, decimal_before-AllDigits f (n / 10) ((48 + n % 10) ∷ acc))

abbrev pub AllVisible : List ℕ → Type 0
AllVisible = All (λ c. is_space c ≡ false)

lstrip-eq_of_AllVisible : (s : List ℕ) → AllVisible s → lstrip s ≡ s
unfolding lstrip
lstrip-eq_of_AllVisible [] h = refl
lstrip-eq_of_AllVisible (c ∷ s) h = rw h.0

reverse-AllVisible : (s : List ℕ) → AllVisible s → AllVisible (reverse s)
reverse-AllVisible [] h = tt
reverse-AllVisible (c ∷ s) h =
    rw reverse-cons (All-append _ (reverse s) (c ∷ []) (reverse-AllVisible s h.1) (h.0, tt))

pub strip-eq_of_AllVisible : (s : List ℕ) → AllVisible s → strip s ≡ s
unfolding strip
strip-eq_of_AllVisible s h = rw (
  lstrip-eq_of_AllVisible s h,
  lstrip-eq_of_AllVisible (reverse s) (reverse-AllVisible s h),
  reverse-reverse,
)

AllVisible-of_AllDigits : (s : List ℕ) → AllDigits s → AllVisible s
unfolding is_space
AllVisible-of_AllDigits [] h = tt
AllVisible-of_AllDigits (c ∷ s) h = (ground arith, AllVisible-of_AllDigits s h.1)

count-eq-length_of_AllDigits : (s : List ℕ) → AllDigits s → count is_digit s ≡ length s
count-eq-length_of_AllDigits [] h = refl
count-eq-length_of_AllDigits (c ∷ s) h = ground (arith, count-eq-length_of_AllDigits s h.1)

signed-eq-digits : (s : List ℕ) → AllDigits s → signed s ≡ Option.map pos (digits false 0 s)
unfolding signed digits
signed-eq-digits [] h = refl
signed-eq-digits (c ∷ s) h = ground arith

pub decimal-AllDigits : (n : ℕ) → AllDigits (decimal n)
unfolding decimal
decimal-AllDigits n = decimal_before-AllDigits (suc n) n [] tt

pub decimal-AllVisible : (n : ℕ) → AllVisible (decimal n)
decimal-AllVisible n = AllVisible-of_AllDigits (decimal n) (decimal-AllDigits n)

-- `int(str(n)) == n`, up to the limit on the number of digits.
pub int-decimal : (n : ℕ) → length (decimal n) ≤ max_str_digits → int (decimal n) ≡ some (pos n)
unfolding int
int-decimal n h =
    let d = decimal-AllDigits n in
    rw
      (
        count-eq-length_of_AllDigits (decimal n) d,
        strip-eq_of_AllVisible (decimal n) (decimal-AllVisible n),
        signed-eq-digits (decimal n) d,
      )
      (ground (arith, digits-decimal n))

pub nonneg_int-decimal :
    (n : ℕ) → length (decimal n) ≤ max_str_digits → nonneg_int (decimal n) ≡ some n
unfolding nonneg_int
nonneg_int-decimal n h = ap (Option.map clamped) (int-decimal n h)
