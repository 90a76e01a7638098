-- ===== src/Common/Clock.antt =====
-- Go's time.Duration and time.Time. A Duration is an int64 count of nanoseconds; an instant counts
-- nanoseconds from Go's zero time (year 1), so it is a natural number and Time{} is 0.
use Prim.Native.Nat.{ℕ, suc, ◌+◌, ◌-◌, ◌*◌, ◌%◌, ◌≤◌, min}
use mathlib.Core.Path.{◌≡◌}
use mathlib.Core.Bool.{Bool, true, false}
use native.Mathlib.Omega.{arith}
use morgenblau.Common.Tests.{ltb, leb, if◌then◌else◌}

-- `negsuc n` is -(n + 1).
pub data ℤ : Type 0 where
  pos : ℕ → ℤ
  negsuc : ℕ → ℤ

abbrev pub is_negative : ℤ → Bool
is_negative (pos n) = false
is_negative (negsuc n) = true

abbrev pub pos_part : ℤ → ℕ
pos_part (pos n) = n
pos_part (negsuc n) = 0

abbrev pub half_range : ℕ
half_range = 9223372036854775808

-- The int64 with the given 64 bits.
unfoldable pub int64_of_bits : ℕ → ℤ
int64_of_bits m = if ltb m half_range then pos m else negsuc (18446744073709551616 - m - 1)

-- time.Duration(secs) * time.Second, with the wrap of the int64 product.
unfoldable pub seconds : ℕ → ℤ
unfolding int64_of_bits
seconds n = int64_of_bits (n * 1000000000 % 18446744073709551616)

-- t.Add(d). A Duration reaches back 292 years at most, so no clock of this program truncates here.
unfoldable pub add_time : ℕ → ℤ → ℕ
add_time t (pos n) = t + n
add_time t (negsuc n) = t - suc n

-- t.Sub(u), which saturates at the ends of the Duration range.
unfoldable pub sub_time : ℕ → ℕ → ℤ
sub_time t u =
    if leb u t
    then pos (min (t - u) (half_range - 1))
    else negsuc (min (u - t - 1) (half_range - 1))

-- min(d, cap) for a cap that is not negative.
unfoldable pub min_duration : ℤ → ℕ → ℤ
min_duration (pos n) cap = pos (min n cap)
min_duration (negsuc n) cap = negsuc n

abbrev pub second : ℕ
second = 1000000000

abbrev pub minute : ℕ
minute = 60000000000

abbrev pub hour : ℕ
hour = 3600000000000

abbrev pub Duration : Type 0
Duration = ℤ

-- Below 2^63 nanoseconds the product does not wrap.
pub seconds_exact : (n : ℕ) → n ≤ 9223372036 → seconds n ≡ pos (n * second)
unfolding seconds
seconds_exact n h = ground arith
