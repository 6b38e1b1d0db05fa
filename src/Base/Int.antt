-- ===== src/Base/Int.antt =====
-- Go's signed integers: an integer over the native numbers, and the wrap of a conversion to int16.
use Prim.Native.Nat.{ℕ, suc, ◌+◌, ◌-◌, ◌/◌, ◌%◌, ◌^◌, ◌≤◌}
use mathlib.Core.Path.{◌≡◌}
use native.Mathlib.Omega.{arith}
use talk_telephony_gateway_p.Base.Tests.{ltb, leb, if◌then◌else◌}

-- `negsuc n` is -(n + 1).
pub data ℤ : Type 0 where
  pos : ℕ → ℤ
  negsuc : ℕ → ℤ

abbrev pub pos_part : ℤ → ℕ
pos_part (pos n) = n
pos_part (negsuc n) = 0

abbrev pub neg_part : ℤ → ℕ
neg_part (pos n) = 0
neg_part (negsuc n) = suc n

-- a - b, as an integer.
abbrev pub sub_ℕ : ℕ → ℕ → ℤ
sub_ℕ a b = if leb b a then pos (a - b) else negsuc (b - a - 1)

infixl 65 ◌+ℤ◌
infix 50 ◌≤ℤ◌
abbrev pub ◌+ℤ◌ : ℤ → ℤ → ℤ
a +ℤ b = sub_ℕ (pos_part a + pos_part b) (neg_part a + neg_part b)

abbrev pub ◌≤ℤ◌ : ℤ → ℤ → Type 0
a ≤ℤ b = pos_part a + neg_part b ≤ pos_part b + neg_part a

abbrev pub neg : ℤ → ℤ
neg a = sub_ℕ (neg_part a) (pos_part a)

-- `a / n` for n > 0: Go's division truncates toward zero.
abbrev pub quot_ℤ : ℤ → ℕ → ℤ
quot_ℤ (pos a) n = pos (a / n)
quot_ℤ (negsuc a) n = sub_ℕ 0 (suc a / n)

-- `int16(a)`: the low 16 bits, read in two's complement.
abbrev pub to_int16 : ℤ → ℤ
to_int16 (pos a) =
    if ltb (a % 2 ^ 16) (2 ^ 15) then pos (a % 2 ^ 16) else negsuc (2 ^ 16 - a % 2 ^ 16 - 1)
to_int16 (negsuc a) =
    if ltb (a % 2 ^ 16) (2 ^ 15) then negsuc (a % 2 ^ 16) else pos (2 ^ 16 - a % 2 ^ 16 - 1)

-- The values of an int16.
abbrev pub IsInt16 : ℤ → Type 0
IsInt16 a = (negsuc (2 ^ 15 - 1) ≤ℤ a) × (a ≤ℤ pos (2 ^ 15 - 1))

pub to_int16-IsInt16 : (a : ℤ) → IsInt16 (to_int16 a)
to_int16-IsInt16 (pos a) = ground arith
to_int16-IsInt16 (negsuc a) = ground arith

-- No wrap happens to a value in range.
pub to_int16_lem : (a : ℤ) → IsInt16 a → to_int16 a ≡ a
to_int16_lem (pos a) h = ground arith
to_int16_lem (negsuc a) h = ground arith
