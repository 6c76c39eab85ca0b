-- ===== src/Base/Int.antt =====
-- Signed 64-bit values, `i64` and `isize` in the source; `wrap_i64` is where they overflow.
use Prim.Native.Nat.{ℕ, suc, ◌+◌, ◌-◌, ◌%◌, ◌^◌}
use mathlib.Core.Bool.{Bool}
use dimpl.Base.Tests.{ltb, leb, if◌then◌else◌}

-- `negsuc n` is -(n + 1).
pub data ℤ : Type 0 where
  pos : ℕ → ℤ
  negsuc : ℕ → ℤ

-- a - b of two naturals
abbrev pub sub_ℕ : ℕ → ℕ → ℤ
sub_ℕ a b = if leb b a then pos (a - b) else negsuc (b - a - 1)

infixl 65 ◌+ℤ◌ ◌-ℤ◌
abbrev pub ◌+ℤ◌ : ℤ → ℤ → ℤ
pos a +ℤ pos b = pos (a + b)
pos a +ℤ negsuc b = sub_ℕ a (suc b)
negsuc a +ℤ pos b = sub_ℕ b (suc a)
negsuc a +ℤ negsuc b = negsuc (a + b + 1)

abbrev pub neg : ℤ → ℤ
neg (pos a) = sub_ℕ 0 a
neg (negsuc a) = pos (a + 1)

abbrev pub ◌-ℤ◌ : ℤ → ℤ → ℤ
a -ℤ b = a +ℤ neg b

abbrev pub ltb_ℤ : ℤ → ℤ → Bool
ltb_ℤ (pos a) (pos b) = ltb a b
ltb_ℤ (pos a) (negsuc b) = Bool.false
ltb_ℤ (negsuc a) (pos b) = Bool.true
ltb_ℤ (negsuc a) (negsuc b) = ltb b a

-- `x.max(0) as u64`
abbrev pub clamp_nonneg : ℤ → ℕ
clamp_nonneg (pos a) = a
clamp_nonneg (negsuc a) = 0

-- `x as i64` of a `u64`, in two's complement
abbrev pub as_i64 : ℕ → ℤ
as_i64 x = if ltb x (2 ^ 63) then pos x else sub_ℕ x (2 ^ 64)

-- The value of 64 bits behind a sum of two.
abbrev pub wrap_i64 : ℤ → ℤ
wrap_i64 (pos a) = as_i64 (a % 2 ^ 64)
wrap_i64 (negsuc a) = if ltb a (2 ^ 63) then negsuc a else pos (2 ^ 64 - 1 - a)
