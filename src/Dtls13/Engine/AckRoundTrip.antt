-- ===== src/Dtls13/Engine/AckRoundTrip.antt =====
-- src/dtls13/engine.rs: the acknowledgements that are sent are those that `process_ack` reads.
use dimpl.Base.{
  ℕ, ◌+◌, ◌*◌, ◌/◌, ◌%◌, ◌^◌, ◌≤◌, ◌<◌, ◌≡◌, refl, ap, ap₂, List, [], ◌∷◌, length, arith, All,
}
use dimpl.Wire.Numbers.{u64_of_bytes-u64_bytes}
use dimpl.Dtls13.Engine.{ack_capacity}
use dimpl.Dtls13.Engine.Flight.{record_number_bytes, ack_bytes, read_numbers, parse_ack}

-- An epoch and a sequence number that fit in 64 bits.
abbrev pub FitsU64 : ℕ × ℕ → Type 0
FitsU64 (epoch, seq) = (epoch < 2 ^ 64) × (seq < 2 ^ 64)

pub length-record_number_bytes :
    (ns : List (ℕ × ℕ)) → length (record_number_bytes ns) ≡ length ns * 16
length-record_number_bytes [] = refl
length-record_number_bytes ((epoch, seq) ∷ ns) = omega (arith, length-record_number_bytes ns)

read_numbers-record_number_bytes :
    (ns : List (ℕ × ℕ)) → All FitsU64 ns → read_numbers (length ns) (record_number_bytes ns) ≡ ns
read_numbers-record_number_bytes [] h = refl
read_numbers-record_number_bytes ((epoch, seq) ∷ ns) ((he, hs), h) =
    ap₂ (λ n t. n ∷ t)
      (ap₂ (λ a b. (a, b)) (u64_of_bytes-u64_bytes epoch he) (u64_of_bytes-u64_bytes seq hs))
      (read_numbers-record_number_bytes ns h)

-- The numbers of at most 32 records, each below 2^64, come out of the acknowledgement that was
-- written for them, in the same order.
pub parse_ack-ack_bytes :
    (ns : List (ℕ × ℕ)) → length ns ≤ ack_capacity → All FitsU64 ns → parse_ack (ack_bytes ns) ≡ ns
unfolding parse_ack ack_bytes
parse_ack-ack_bytes ns small h = ground (
  arith,
  length-record_number_bytes ns,
  read_numbers-record_number_bytes ns h,
  ap (λ n. read_numbers n (record_number_bytes ns)) (count ns small),
)
  where
    count :
        (ns : List (ℕ × ℕ))
        → length ns ≤ ack_capacity
        → (length ns * 16 % 65536 / 256 % 256 * 256 + length ns * 16 % 65536 % 256) / 16 ≡ length ns
    count ns small = omega arith
