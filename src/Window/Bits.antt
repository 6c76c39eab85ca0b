-- ===== src/Window/Bits.antt =====
-- What `check` reads and `update` writes, bit by bit.
use dimpl.Base.{
  ℕ, zero, suc, ◌+◌, ◌-◌, ◌*◌, ◌^◌, ◌≤◌, ◌<◌, bit_and, bit_or, ◌≡◌, sym, ap, ltb, ◌==◌,
  if◌then◌else◌, arith,
}
use dimpl.Base.Bits.{
  bit, bit_lt, bit-zero, bit-bit_or, bit-pow_self, bit-pow_ne, bit_and-pow, bit-shift_low,
  bit-shift_high, bit-mod_u64, pow_double, pow_pos,
}
use dimpl.Window.{shl_u64}
use native.Mathlib.Decide.{ℕ_discrete, dec_lt}

pow_mono : (n o : ℕ) → n ≤ o → 2 ^ n ≤ 2 ^ o
pow_mono n zero h = let e : n ≡ 0 = omega arith in rw e (omega arith)
pow_mono n (suc o) h = elim (ℕ_discrete n (suc o)) [
  | yes e ↦ rw e (omega arith)
  | no ne ↦ omega (arith, pow_double o, pow_mono n o (omega arith))
]

mask_fits : (o : ℕ) → o < 64 → shl_u64 1 o ≡ 2 ^ o
mask_fits o h = let below : 2 ^ o ≤ 2 ^ 63 = pow_mono o 63 (omega arith) in omega arith

-- The test of `check` on an offset inside the window reads one bit.
pub masked_test : (w o : ℕ) → o < 64 → (bit_and w (shl_u64 1 o) == 0) ≡ (bit w o == 0)
masked_test w o h = rw (mask_fits o h, bit_and-pow w o) (tested (bit w o) (2 ^ o) (pow_pos o))
  where
    tested : (b p : ℕ) → 0 < p → (b * p == 0) ≡ (b == 0)
    tested zero p hp = ground arith
    tested (suc b) (suc p) hp = ground arith
    tested (suc b) zero hp = absurd (omega arith)

pub set_bit :
    (w o i : ℕ) → o < 64 → bit (bit_or w (shl_u64 1 o)) i ≡ (if i == o then 1 else bit w i)
set_bit w o i h = elim (ℕ_discrete o i) [
  | yes e ↦ ground (
    arith,
    mask_fits o h,
    bit-bit_or w (2 ^ o) i,
    ap (bit (2 ^ o)) (sym e),
    bit-pow_self o,
    bit_lt w i,
  )
  | no ne ↦ ground (arith, mask_fits o h, bit-bit_or w (2 ^ o) i, bit-pow_ne o i ne, bit_lt w i)
]

-- Moving the window up by `d` and marking the newest number.
pub shifted_bit :
    (w d i : ℕ)
    → 0 < d
    → d < 64
    → i < 64
    → bit (bit_or (shl_u64 w d) 1) i ≡ (if i == 0 then 1 else if ltb i d then 0 else bit w (i - d))
shifted_bit w d zero h0 hd hi = omega (arith, bit-bit_or (shl_u64 w d) 1 0, bit_lt (shl_u64 w d) 0)
shifted_bit w d (suc i) h0 hd hi = elim (dec_lt (suc i) d) [
  | yes below ↦ ground (
    arith,
    bit-bit_or (shl_u64 w d) 1 (suc i),
    bit-zero i,
    bit-mod_u64 (w * 2 ^ d) (suc i) hi,
    bit-shift_low w d (suc i) below,
  )
  | no above ↦ ground (
    arith,
    bit-bit_or (shl_u64 w d) 1 (suc i),
    bit-zero i,
    bit-mod_u64 (w * 2 ^ d) (suc i) hi,
    bit-shift_high w d (suc i - d),
    ap (bit (w * 2 ^ d)) (back above),
  )
]
  where
    back : ¬ (suc i < d) → d + (suc i - d) ≡ suc i
    back h = omega arith
