-- ===== src/Common/Int.antt =====
-- Signed integers over the native numbers, and their conversions to the C integer types.
use Prim.Native.Nat.{ℕ, zero, suc, ◌-◌, ◌%◌, ◌^◌, ◌<◌}
use mathlib.Core.Path.{◌≡◌}
use mathlib.Core.Bool.{Bool, true, false}
use native.Mathlib.Omega.{arith}
use bluepy.Common.Tests.{ltb, if◌then◌else◌}

-- `negsuc n` is -(n + 1).
pub data ℤ : Type 0 where
  pos : ℕ → ℤ
  negsuc : ℕ → ℤ

-- The value modulo m, as a conversion to an unsigned type of m values gives it.
abbrev pub wrap : ℕ → ℤ → ℕ
wrap m (pos n) = n % m
wrap m (negsuc n) = m - 1 - n % m

abbrev pub to_u8 : ℤ → ℕ
to_u8 = wrap (2 ^ 8)

abbrev pub to_u16 : ℤ → ℕ
to_u16 = wrap (2 ^ 16)

abbrev pub to_u32 : ℤ → ℕ
to_u32 = wrap (2 ^ 32)

-- The int32_t that a bit pattern stands for.
abbrev pub signed32 : ℕ → ℤ
signed32 w = if ltb w (2 ^ 31) then pos w else negsuc (2 ^ 32 - w - 1)

-- Conversion to `int`: the value modulo 2^32.
abbrev pub to_int : ℤ → ℤ
to_int a = signed32 (to_u32 a)

-- -n
abbrev pub neg : ℕ → ℤ
neg zero = pos 0
neg (suc n) = negsuc n

abbrev pub negate : ℤ → ℤ
negate (pos n) = neg n
negate (negsuc n) = pos (suc n)

abbrev pub is_negative : ℤ → Bool
is_negative (pos n) = false
is_negative (negsuc n) = true

abbrev pub is_zero : ℤ → Bool
is_zero (pos zero) = true
is_zero (pos (suc n)) = false
is_zero (negsuc n) = false

-- a < n for a number n
abbrev pub lt_ℕ : ℤ → ℕ → Bool
lt_ℕ (pos a) n = ltb a n
lt_ℕ (negsuc a) n = true

pub to_int-pos : (n : ℕ) → n < 2 ^ 31 → to_int (pos n) ≡ pos n
to_int-pos n h = ground arith

pub to_u32-bound : (a : ℤ) → to_u32 a < 2 ^ 32
to_u32-bound (pos n) = omega arith
to_u32-bound (negsuc n) = omega arith
