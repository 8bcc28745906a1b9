-- ===== src/Base/Words.antt =====
-- Machine words as natural numbers: `size_t` and `off_t` are the 64-bit patterns, and a signed
-- value is read off its pattern. `int` results are integers.
use Prim.Native.Nat.{ℕ, zero, suc, ◌+◌, ◌-◌, ◌%◌, ◌^◌, ◌<◌}
use mathlib.Core.Path.{◌≡◌}
use mathlib.Core.Bool.{Bool}
use native.Mathlib.Omega.{arith}
use mgridfs.Base.Tests.{ltb, leb, if◌then◌else◌}

-- `negsuc n` is -(n + 1).
pub data ℤ : Type 0 where
  pos : ℕ → ℤ
  negsuc : ℕ → ℤ

-- `-e` for a positive constant `e`.
abbrev pub neg : ℕ → ℤ
neg zero = pos 0
neg (suc n) = negsuc n

-- `size_t` addition and subtraction.
abbrev pub add64 : ℕ → ℕ → ℕ
add64 a b = (a + b) % 2 ^ 64

abbrev pub sub64 : ℕ → ℕ → ℕ
sub64 a b = (a + 2 ^ 64 - b) % 2 ^ 64

-- The conversion to `unsigned int`.
abbrev pub uint32 : ℕ → ℕ
uint32 x = x % 2 ^ 32

-- A `size_t` stored in an `int` and read back as `size_t`: the sign is extended.
abbrev pub int_size : ℕ → ℕ
int_size x = if ltb (x % 2 ^ 32) (2 ^ 31) then x % 2 ^ 32 else x % 2 ^ 32 + (2 ^ 64 - 2 ^ 32)

-- A `size_t` returned as `int`.
abbrev pub to_int : ℕ → ℤ
to_int x = if ltb (x % 2 ^ 32) (2 ^ 31) then pos (x % 2 ^ 32) else negsuc (2 ^ 32 - 1 - x % 2 ^ 32)

-- `a >= b` and `a < 0` for `off_t`.
abbrev pub off_le : ℕ → ℕ → Bool
off_le a b = leb ((a + 2 ^ 63) % 2 ^ 64) ((b + 2 ^ 63) % 2 ^ 64)

abbrev pub off_neg : ℕ → Bool
off_neg a = leb (2 ^ 63) a

pub int_size_small : (x : ℕ) → x < 2 ^ 31 → int_size x ≡ x
int_size_small x h = ground arith

pub to_int_small : (x : ℕ) → x < 2 ^ 31 → to_int x ≡ pos x
to_int_small x h = ground arith

pub off_le-leb : (a b : ℕ) → a < 2 ^ 63 → b < 2 ^ 63 → off_le a b ≡ leb a b
off_le-leb a b h k = ground arith
