-- ===== src/Base/Xor.antt =====
-- Exclusive or on numbers: what was masked can be told apart.
use Prim.Native.Nat.{ℕ, zero, suc, ◌+◌, ◌*◌, ◌/◌, ◌%◌, ◌≤◌, ◌<◌, bit_xor}
use Prim.Native.Nat.{differ, bit_xor-bitwise}
use mathlib.Core.Path.{◌≡◌, refl, sym, ◌∙◌}
use native.Mathlib.Omega.{arith}
use dimpl.Base.Bits.{halved}

bit_xor-zero : (b : ℕ) → bit_xor 0 b ≡ b
bit_xor-zero b = omega (arith, bit_xor-bitwise 0 b)

bit_xor-digits : (a b : ℕ) → bit_xor a b ≡ bit_xor (a / 2) (b / 2) * 2 + differ (a % 2) (b % 2)
bit_xor-digits zero b = omega (arith, bit_xor-zero b, bit_xor-zero (b / 2))
bit_xor-digits (suc a) b = omega (
  arith,
  bit_xor-bitwise (suc a) b,
  bit_xor-bitwise (suc a / 2) (b / 2),
  halved (λ d. d) differ a (b / 2),
)

differ_cancel : (d x y : ℕ) → d < 2 → x < 2 → y < 2 → differ d x ≡ differ d y → x ≡ y
differ_cancel zero x y hd hx hy h = h
differ_cancel (suc zero) zero zero hd hx hy h = refl
differ_cancel (suc zero) zero (suc y) hd hx hy h = absurd (differ_small y (omega arith) h)
  where
    differ_small : (y : ℕ) → y < 1 → ¬ (1 ≡ y)
    differ_small y hy h = omega arith
differ_cancel (suc zero) (suc x) zero hd hx hy h = absurd (differ_small x (omega arith) h)
  where
    differ_small : (y : ℕ) → y < 1 → ¬ (y ≡ 1)
    differ_small y hy h = omega arith
differ_cancel (suc zero) (suc x) (suc y) hd hx hy h = omega arith
differ_cancel (suc (suc d)) x y hd hx hy h = absurd (omega arith)

differ_lt : (d x : ℕ) → d < 2 → x < 2 → differ d x < 2
differ_lt zero x hd hx = hx
differ_lt (suc d) zero hd hx = hd
differ_lt (suc zero) (suc x) hd hx = omega arith
differ_lt (suc (suc d)) (suc x) hd hx = absurd (omega arith)

halves : (x y : ℕ) → x / 2 ≡ y / 2 → x % 2 ≡ y % 2 → x ≡ y
halves x y h k = omega arith

same_parts : (a b c d : ℕ) → c < 2 → d < 2 → a * 2 + c ≡ b * 2 + d → (a ≡ b) × (c ≡ d)
same_parts a b c d hc hd h = (omega arith, omega arith)

cancel_fuel : (n a x y : ℕ) → a ≤ n → bit_xor a x ≡ bit_xor a y → x ≡ y
cancel_fuel n zero x y le h = sym (bit_xor-zero x) ∙ h ∙ bit_xor-zero y
cancel_fuel zero (suc a) x y le h = absurd (omega arith)
cancel_fuel (suc n) (suc a) x y le h =
    let parts =
      same_parts (bit_xor (suc a / 2) (x / 2)) (bit_xor (suc a / 2) (y / 2))
        (differ (suc a % 2) (x % 2)) (differ (suc a % 2) (y % 2))
        (differ_lt (suc a % 2) (x % 2) (omega arith) (omega arith))
        (differ_lt (suc a % 2) (y % 2) (omega arith) (omega arith))
        (sym (bit_xor-digits (suc a) x) ∙ h ∙ bit_xor-digits (suc a) y) in
    halves x y (cancel_fuel n (suc a / 2) (x / 2) (y / 2) (omega arith) parts.0)
      (differ_cancel (suc a % 2) (x % 2) (y % 2) (omega arith) (omega arith) (omega arith) parts.1)

pub bit_xor_cancel : (a x y : ℕ) → bit_xor a x ≡ bit_xor a y → x ≡ y
bit_xor_cancel a x y h = cancel_fuel a a x y (omega arith) h
