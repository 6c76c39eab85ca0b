-- ===== src/Base/Bits.antt =====
-- The bits of a number, and what the bitwise operations and shifts do to them.
use Prim.Native.Nat.{
  ℕ, zero, suc, ◌+◌, ◌-◌, ◌*◌, ◌/◌, ◌%◌, ◌^◌, ◌≤◌, ◌<◌, min, max, bit_and, bit_or,
}
use Prim.Native.Nat.{digits, bit_and-bitwise, bit_or-bitwise}
use mathlib.Core.Path.{◌≡◌, refl, sym, ◌∙◌, ap}
use mathlib.Core.Logic.{◌≢◌}
use native.Mathlib.Omega.{arith}
use native.Mathlib.Nat.{pow-suc, div-add-mod, add-mul-mod_self_right, mod-eq_of_lt, mod-lt}

-- bit `i` of `x`, lowest first
abbrev pub bit : ℕ → ℕ → ℕ
bit x zero = x % 2
bit x (suc i) = bit (x / 2) i

pub pow_double : (n : ℕ) → 2 ^ suc n ≡ 2 * 2 ^ n
pow_double n = omega (arith, pow-suc 2 n)

suc_plus : (a b : ℕ) → suc a + b ≡ suc (a + b)
suc_plus a b = omega arith

-- The recursion on digits that the native operations stand for: digits that are not there, and a count
-- of digits to go that is larger than needed.
module _ (left : ℕ → ℕ) (op : ℕ → ℕ → ℕ) where
  run_out : (fuel y : ℕ) → digits left op fuel 0 y ≡ left y
  run_out zero y = refl
  run_out (suc fuel) y = refl

  surplus :
      (fuel extra x y : ℕ) → x ≤ fuel → digits left op (fuel + extra) x y ≡ digits left op fuel x y
  surplus fuel extra zero y h = run_out (fuel + extra) y ∙ sym (run_out fuel y)
  surplus zero extra (suc x) y h = absurd (omega arith)
  surplus (suc fuel) extra (suc x) y h =
      rw (suc_plus fuel extra) (omega (arith, surplus fuel extra (suc x / 2) (y / 2) (omega arith)))

  pub halved : (x y : ℕ) → digits left op x (suc x / 2) y ≡ digits left op (suc x / 2) (suc x / 2) y
  halved x y =
      let parts : x ≡ suc x / 2 + (x - suc x / 2) = omega arith in
      ap (λ n. digits left op n (suc x / 2) y) parts
      ∙ surplus (suc x / 2) (x - suc x / 2) (suc x / 2) y (omega arith)

bit_and-digits : (x y : ℕ) → bit_and x y ≡ min (x % 2) (y % 2) + 2 * bit_and (x / 2) (y / 2)
bit_and-digits zero y = omega (arith, bit_and-bitwise 0 (y / 2), bit_and-bitwise 0 y)
bit_and-digits (suc x) y = omega (
  arith,
  halved (λ d. 0) min x (y / 2),
  bit_and-bitwise (suc x / 2) (y / 2),
  bit_and-bitwise (suc x) y,
)

bit_or-digits : (x y : ℕ) → bit_or x y ≡ max (x % 2) (y % 2) + 2 * bit_or (x / 2) (y / 2)
bit_or-digits zero y = omega (arith, bit_or-bitwise 0 (y / 2), bit_or-bitwise 0 y)
bit_or-digits (suc x) y = omega (
  arith,
  halved (λ d. d) max x (y / 2),
  bit_or-bitwise (suc x / 2) (y / 2),
  bit_or-bitwise (suc x) y,
)

pub bit_lt : (x i : ℕ) → bit x i < 2
bit_lt x zero = omega arith
bit_lt x (suc i) = bit_lt (x / 2) i

pub bit-zero : (i : ℕ) → bit 0 i ≡ 0
bit-zero zero = refl
bit-zero (suc i) = bit-zero i

half_bit_or : (a b : ℕ) → bit_or a b / 2 ≡ bit_or (a / 2) (b / 2)
half_bit_or a b = omega (arith, bit_or-digits a b)

pub bit-bit_or : (a b i : ℕ) → bit (bit_or a b) i ≡ max (bit a i) (bit b i)
bit-bit_or a b zero = omega (arith, bit_or-digits a b)
bit-bit_or a b (suc i) = ap (λ x. bit x i) (half_bit_or a b) ∙ bit-bit_or (a / 2) (b / 2) i

half_pow : (o : ℕ) → 2 ^ suc o / 2 ≡ 2 ^ o
half_pow o = omega (arith, pow_double o)

pub bit-pow_self : (o : ℕ) → bit (2 ^ o) o ≡ 1
bit-pow_self zero = refl
bit-pow_self (suc o) = ap (λ x. bit x o) (half_pow o) ∙ bit-pow_self o

pub bit-pow_ne : (o i : ℕ) → o ≢ i → bit (2 ^ o) i ≡ 0
bit-pow_ne zero zero h = absurd (h refl)
bit-pow_ne zero (suc i) h = bit-zero i
bit-pow_ne (suc o) zero h = omega (arith, pow_double o)
bit-pow_ne (suc o) (suc i) h = ap (λ x. bit x i) (half_pow o) ∙ bit-pow_ne o i (λ e. h (ap suc e))

-- A mask with one bit set reads that bit.
bit_and_zero : (a n : ℕ) → a ≤ n → bit_and a 0 ≡ 0
bit_and_zero zero n h = refl
bit_and_zero (suc a) zero h = absurd (omega arith)
bit_and_zero (suc a) (suc n) h =
    omega (arith, bit_and-digits (suc a) 0, bit_and_zero (suc a / 2) n (omega arith))

pub bit_and-pow : (w o : ℕ) → bit_and w (2 ^ o) ≡ bit w o * 2 ^ o
bit_and-pow w zero = omega (arith, bit_and-digits w 1, bit_and_zero (w / 2) (w / 2) (omega arith))
bit_and-pow w (suc o) = omega (
  arith,
  bit_and-digits w (2 ^ suc o),
  ap (bit_and (w / 2)) (half_pow o),
  pow_double o,
  bit_and-pow (w / 2) o,
  ap (λ (t : ℕ). bit (w / 2) o * t) (pow_double o),
)

-- Bits of a shifted number, and of a number with a multiple of a higher power added.
pub bit-shift_low : (w d i : ℕ) → i < d → bit (w * 2 ^ d) i ≡ 0
bit-shift_low w zero i h = absurd (omega arith)
bit-shift_low w (suc d) zero h = omega (arith, ap (λ (t : ℕ). w * t) (pow_double d))
bit-shift_low w (suc d) (suc i) h =
    ap (λ x. bit x i) (omega (arith, ap (λ (t : ℕ). w * t) (pow_double d)))
    ∙ bit-shift_low w d i (omega arith)

unshifted : (w : ℕ) → w * 2 ^ 0 ≡ w
unshifted w = omega arith

unmoved : (i : ℕ) → 0 + i ≡ i
unmoved i = omega arith

one_more : (d i : ℕ) → suc d + i ≡ suc (d + i)
one_more d i = omega arith

pub bit-shift_high : (w d i : ℕ) → bit (w * 2 ^ d) (d + i) ≡ bit w i
bit-shift_high w zero i = rw (unshifted w, unmoved i)
bit-shift_high w (suc d) i =
    ap (bit (w * 2 ^ suc d)) (one_more d i)
    ∙ ap (λ x. bit x (d + i)) (omega (arith, ap (λ (t : ℕ). w * t) (pow_double d)))
    ∙ bit-shift_high w d i

bit_add_multiple : (n k y i : ℕ) → i < n → bit (y + k * 2 ^ n) i ≡ bit y i
bit_add_multiple zero k y i h = absurd (omega arith)
bit_add_multiple (suc n) k y zero h = omega (arith, ap (λ (t : ℕ). k * t) (pow_double n))
bit_add_multiple (suc n) k y (suc i) h =
    ap (λ x. bit x i) (omega (arith, ap (λ (t : ℕ). k * t) (pow_double n)))
    ∙ bit_add_multiple n k (y / 2) i (omega arith)

-- Wrapping at 64 bits keeps the low 64 bits.
pub bit-mod_u64 : (x i : ℕ) → i < 64 → bit (x % 2 ^ 64) i ≡ bit x i
bit-mod_u64 x i h =
    sym (bit_add_multiple 64 (x / 2 ^ 64) (x % 2 ^ 64) i h) ∙ ap (λ t. bit t i) (omega arith)

pub pow_pos : (o : ℕ) → 0 < 2 ^ o
pow_pos zero = omega arith
pow_pos (suc o) = omega (arith, pow_double o, pow_pos o)

mod_double : (x m : ℕ) → 0 < m → x % (2 * m) ≡ (x / 2 % m) * 2 + x % 2
mod_double x m h =
    let q : ℕ = x / 2 / m in
    let r : ℕ = (x / 2 % m) * 2 + x % 2 in
    let small : r < 2 * m = omega (arith, mod-lt (x / 2) h) in
    let whole : x ≡ r + q * (2 * m) = omega (arith, div-add-mod (x / 2) m) in
    ap (λ t. t % (2 * m)) whole ∙ add-mul-mod_self_right r q (2 * m) ∙ mod-eq_of_lt small

-- `x & ((1 << n) - 1)` is the remainder by `1 << n`.
pub bit_and-mask : (x n : ℕ) → bit_and x (2 ^ n - 1) ≡ x % 2 ^ n
bit_and-mask x zero = omega (arith, bit_and_zero x x)
bit_and-mask x (suc n) = omega (
  arith,
  bit_and-digits x (2 ^ suc n - 1),
  ap (bit_and (x / 2)) (halved n),
  bit_and-mask (x / 2) n,
  pow_double n,
  pow_pos n,
  ap (λ t. x % t) (pow_double n),
  mod_double x (2 ^ n) (pow_pos n),
)
  where
    halved : (k : ℕ) → (2 ^ suc k - 1) / 2 ≡ 2 ^ k - 1
    halved k = omega (arith, pow_double k, pow_pos k)
