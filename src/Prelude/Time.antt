-- ===== src/Prelude/Time.antt =====
-- Aware datetimes and timedeltas of Python. An instant is the number of microseconds since
-- 0001-01-01T00:00:00 UTC (`datetime.min`); arithmetic that leaves the years 1 to 9999 raises
-- `OverflowError`, which is `none` here.
use feedgate_fetcher.Prelude.Tests.{leb, if◌then◌else◌}
use Prim.Native.Nat.{ℕ, ◌+◌, ◌-◌, ◌≤◌}
use mathlib.Core.Option.{Option, none, some}
use mathlib.Core.Path.{◌≡◌}
use native.Mathlib.Omega.{arith}

abbrev pub second : ℕ
second = 1_000_000

abbrev pub day : ℕ
day = 86_400_000_000

-- 9999-12-31T23:59:59.999999, `datetime.max`
abbrev pub max_instant : ℕ
max_instant = 315_537_897_599_999_999

-- `t + timedelta(microseconds=d)`, d not negative
unfoldable pub add_delta : ℕ → ℕ → Option ℕ
add_delta t d = if leb (t + d) max_instant then some (t + d) else none

-- `t - timedelta(microseconds=d)`, d not negative
unfoldable pub sub_delta : ℕ → ℕ → Option ℕ
sub_delta t d = if leb d t then some (t - d) else none

pub add_delta-eq-some : (t d : ℕ) → t + d ≤ max_instant → add_delta t d ≡ some (t + d)
unfolding add_delta
add_delta-eq-some t d h = ground arith

pub add_delta-late : (t d u : ℕ) → add_delta t d ≡ some u → u ≡ t + d
unfolding add_delta
add_delta-late t d u h = ground arith

pub sub_delta-eq-some : (t d : ℕ) → d ≤ t → sub_delta t d ≡ some (t - d)
unfolding sub_delta
sub_delta-eq-some t d h = ground arith

pub sub_delta-back : (t d u : ℕ) → sub_delta t d ≡ some u → u + d ≡ t
unfolding sub_delta
sub_delta-back t d u h = ground arith
