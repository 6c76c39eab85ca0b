-- ===== src/Dtls13/Reconstruct.antt =====
-- src/dtls13/engine.rs, `reconstruct_sequence`: the full sequence number behind the 8 or 16 bits of
-- a record header.
use dimpl.Base.{
  ℕ, ◌+◌, ◌-◌, ◌/◌, ◌%◌, ◌^◌, ◌<◌, ◌≤◌, bit_and, ◌≡◌, ◌≢◌, Bool, true, false, if◌then◌else◌, arith,
}
use dimpl.Base.Int.{ℤ, pos, ◌+ℤ◌, ◌-ℤ◌, neg, ltb_ℤ, clamp_nonneg, as_i64, wrap_i64}
use dimpl.Base.Bits.{bit_and-mask}

-- `diff > half`, then `diff < -half`
abbrev centre : ℤ → ℕ → ℤ
centre diff window =
    let half = window / 2 in
    if ltb_ℤ (pos half) diff
    then diff -ℤ pos window
    else if ltb_ℤ diff (neg (pos half))
    then diff +ℤ pos window
    else diff

-- The partial numbers and the window are small, so that only `expected as i64` and the sum can wrap.
unfoldable pub reconstruct_sequence : ℕ → ℕ → ℕ → ℕ
reconstruct_sequence partial expected bits =
    let mask = 2 ^ bits - 1 in
    let window = 2 ^ bits in
    let received_partial = bit_and partial mask in
    let expected_partial = bit_and expected mask in
    let diff = centre (pos received_partial -ℤ pos expected_partial) window in
    clamp_nonneg (wrap_i64 (as_i64 expected +ℤ diff))

-- How many bits a header holds: `if s_flag { 16 } else { 8 }`.
abbrev pub sequence_bits : Bool → ℕ
sequence_bits s_flag = if s_flag then 16 else 8

abbrev pub distance : ℕ → ℕ → ℕ
distance a b = (a - b) + (b - a)

-- A number less than half a window from the expected one, both below 2^63, is found from the low bits in
-- the header.
pub reconstruct_near :
    (s_flag : Bool) (actual expected : ℕ)
    → actual < 2 ^ 63
    → expected < 2 ^ 63
    → actual < expected + 2 ^ sequence_bits s_flag / 2
    → expected < actual + 2 ^ sequence_bits s_flag / 2
    → reconstruct_sequence (actual % 2 ^ sequence_bits s_flag) expected (sequence_bits s_flag)
      ≡ actual
unfolding reconstruct_sequence
reconstruct_near true actual expected small small' above below =
    ground (arith, bit_and-mask (actual % 2 ^ 16) 16, bit_and-mask expected 16)
reconstruct_near false actual expected small small' above below =
    ground (arith, bit_and-mask (actual % 2 ^ 8) 8, bit_and-mask expected 8)

-- Before half a window has been received, a partial number more than half a window ahead of the
-- expected one is taken for 0. But 0 has other low bits, and of all numbers with these low bits the
-- partial number itself is the nearest to the expected one.
pub reconstruct_clamped :
    (s_flag : Bool) (partial expected n : ℕ)
    → partial < 2 ^ sequence_bits s_flag
    → expected + 2 ^ sequence_bits s_flag / 2 < partial
    → n % 2 ^ sequence_bits s_flag ≡ partial
    → (reconstruct_sequence partial expected (sequence_bits s_flag) ≡ 0)
      × (0 % 2 ^ sequence_bits s_flag ≢ partial)
      × (distance partial expected ≤ distance n expected)
unfolding reconstruct_sequence
reconstruct_clamped true partial expected n small far low =
    (ground (arith, bit_and-mask partial 16, bit_and-mask expected 16), omega arith, omega arith)
reconstruct_clamped false partial expected n small far low =
    (ground (arith, bit_and-mask partial 8, bit_and-mask expected 8), omega arith, omega arith)
