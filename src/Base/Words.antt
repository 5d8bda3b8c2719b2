-- ===== src/Base/Words.antt =====
-- Arithmetic of the 64-bit unsigned size_t, and its conversions through the 32-bit int.
use Prim.Native.Nat.{ℕ, ◌+◌, ◌-◌, ◌%◌, ◌^◌, ◌<◌}
use mathlib.Core.Path.{◌≡◌}
use native.Mathlib.Omega.{arith}
use libeva.Base.Tests.{ltb, if◌then◌else◌}

abbrev pub add_size : ℕ → ℕ → ℕ
add_size a b = (a + b) % 2 ^ 64

abbrev pub sub_size : ℕ → ℕ → ℕ
sub_size a b = (a + 2 ^ 64 - b) % 2 ^ 64

-- The largest number of bytes that a vector may hold, PTRDIFF_MAX.
abbrev pub max_size : ℕ
max_size = 2 ^ 63 - 1

-- The 32-bit pattern that `static_cast<int>` makes of a size_t.
abbrev pub int_of_size : ℕ → ℕ
int_of_size n = n % 2 ^ 32

-- An int that is converted to size_t: its sign bit is extended.
abbrev pub size_of_int : ℕ → ℕ
size_of_int m = if ltb m (2 ^ 31) then m else m + (2 ^ 64 - 2 ^ 32)

pub size_of_int-int_of_size : (n : ℕ) → n < 2 ^ 31 → size_of_int (int_of_size n) ≡ n
size_of_int-int_of_size n h = ground arith
