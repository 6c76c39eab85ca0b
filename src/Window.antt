-- ===== src/Window.antt =====
-- src/window.rs: the 64-bit sliding replay window of one epoch.
pub mod Bits
pub mod Refine
use dimpl.Base.{
  ℕ, ◌+◌, ◌-◌, ◌*◌, ◌%◌, ◌^◌, ◌<◌, bit_and, bit_or, Bool, true, false, ltb, leb, ◌==◌,
  if◌then◌else◌,
}

pub record ReplayWindow : Type 0 where
  pub max_seq : ℕ
  pub window : ℕ

-- `Default`: both fields are zero.
abbrev pub new : ReplayWindow
new = record { max_seq = 0; window = 0 }

-- `x << n` on a u64, for `n` below 64
abbrev pub shl_u64 : ℕ → ℕ → ℕ
shl_u64 x n = x * 2 ^ n % 2 ^ 64

-- The subtraction runs where `seqno <= max_seq`, so it is exact.
unfoldable pub check : ReplayWindow → ℕ → Bool
check w seqno =
    if ltb w.max_seq seqno
    then true
    else (let offset = w.max_seq - seqno in
        if leb 64 offset
        then false
        else (let mask = shl_u64 1 offset in bit_and w.window mask == 0))

unfoldable pub update : ReplayWindow → ℕ → ReplayWindow
update w seqno =
    if ltb w.max_seq seqno
    then (let delta = seqno - w.max_seq in
        record {
          max_seq = seqno;
          window = if ltb 63 delta then 1 else bit_or (shl_u64 w.window delta) 1;
        })
    else (let offset = w.max_seq - seqno in
        if ltb offset 64 then record w { window = bit_or w.window (shl_u64 1 offset) } else w)
