-- ===== src/Wire/Numbers.antt =====
-- Reading back the numbers that are written, with whatever follows them.
use dimpl.Base.{
  ℕ, ◌^◌, ◌<◌, ◌≡◌, ◌++◌, ok, Bytes, length, arith, length-append, take-length-append,
  drop-length-append,
}
use dimpl.Wire.{
  be_u16, be_u24, be_u48, take_bytes, u16_bytes, u24_bytes, u48_bytes, u64_bytes, u64_of_bytes,
}

pub be_u16-u16_bytes :
    (n : ℕ) (rest : Bytes) → n < 2 ^ 16 → be_u16 (u16_bytes n ++ rest) ≡ ok (rest, n)
unfolding be_u16
be_u16-u16_bytes n rest h = ground arith

pub be_u24-u24_bytes :
    (n : ℕ) (rest : Bytes) → n < 2 ^ 24 → be_u24 (u24_bytes n ++ rest) ≡ ok (rest, n)
unfolding be_u24
be_u24-u24_bytes n rest h = ground arith

pub be_u48-u48_bytes :
    (n : ℕ) (rest : Bytes) → n < 2 ^ 48 → be_u48 (u48_bytes n ++ rest) ≡ ok (rest, n)
unfolding be_u48
be_u48-u48_bytes n rest h = ground arith

pub u64_of_bytes-u64_bytes : (n : ℕ) → n < 2 ^ 64 → u64_of_bytes (u64_bytes n) ≡ n
u64_of_bytes-u64_bytes n h = omega arith

pub take_bytes-append : (xs rest : Bytes) → take_bytes (length xs) (xs ++ rest) ≡ ok (rest, xs)
unfolding take_bytes
take_bytes-append xs rest =
    ground (arith, length-append xs rest, take-length-append xs rest, drop-length-append xs rest)
