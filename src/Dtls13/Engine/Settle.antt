-- ===== src/Dtls13/Engine/Settle.antt =====
-- src/dtls13/engine.rs, `process_ack`: what an acknowledgement does to the flight.
use dimpl.Base.{
  ℕ, ◌≡◌, ◌≢◌, refl, ap, ap₂, subst, ◌∙◌, ◌≤◌, ◌||◌, if◌then◌else◌, map, length, All, ◌⊎◌, true,
  ◌&&◌, List, [], ◌∷◌, Bytes, all, any, arith, retain, ◌==◌,
}
use dimpl.Dtls13.Engine.{Engine, Entry, ack_capacity}
use dimpl.Dtls13.Engine.Flight.{
  process_ack, settle_handshake, settle_key_update, acknowledge, parse_ack, is_wellformed_ack,
  numbered, ack_bytes,
}
use dimpl.Dtls13.Engine.AckRoundTrip.{FitsU64, parse_ack-ack_bytes, length-record_number_bytes}

-- The records of a flight whose acknowledgement the settling waits for: some, and all acknowledged.
abbrev pub Settled : List Entry → Type 0
Settled entries =
    ((retain (λ r. r.epoch == 2) entries ≢ [])
      × (all (λ r. r.acked) (retain (λ r. r.epoch == 2) entries) ≡ true))
    ⊎ ((entries ≢ []) × (all (λ r. r.acked) entries ≡ true))

-- The records with the listed numbers, marked.
abbrev pub mark : List (ℕ × ℕ) → Entry → Entry
mark ns r = record r { acked = r.acked || any (λ n. n.0 == r.epoch && n.1 == r.send_seq) ns }

abbrev pub marked : List (ℕ × ℕ) → List Entry → List Entry
marked ns entries = map (mark ns) entries

any-same :
    (ns : List (ℕ × ℕ)) (r : Entry)
    → any (numbered r) ns ≡ any (λ n. n.0 == r.epoch && n.1 == r.send_seq) ns
any-same [] r = refl
any-same ((epoch, seq) ∷ ns) r = ground (arith, any-same ns r)

acknowledge-marked :
    (ns : List (ℕ × ℕ)) (entries : List Entry) → acknowledge ns entries ≡ marked ns entries
unfolding acknowledge
acknowledge-marked ns [] = refl
acknowledge-marked ns (r ∷ entries) = ap₂ (λ x q. x ∷ q) (same r) (acknowledge-marked ns entries)
  where
    same : (r : Entry) → (if any (numbered r) ns then record r { acked = true } else r) ≡ mark ns r
    same r = ground (arith, any-same ns r)

process_ack-flight :
    (ack_data : Bytes) (e : Engine)
    → is_wellformed_ack ack_data ≡ true
    → ((process_ack ack_data e).flight_saved_records
        ≡ acknowledge (parse_ack ack_data) e.flight_saved_records)
      ⊎ (((process_ack ack_data e).flight_saved_records ≡ [])
          × Settled (acknowledge (parse_ack ack_data) e.flight_saved_records))
unfolding process_ack settle_handshake settle_key_update
process_ack-flight ack_data e h = ground arith

is_wellformed-ack_bytes :
    (ns : List (ℕ × ℕ)) → length ns ≤ ack_capacity → is_wellformed_ack (ack_bytes ns) ≡ true
unfolding is_wellformed_ack ack_bytes
is_wellformed-ack_bytes ns small = ground (arith, length-record_number_bytes ns)

-- An acknowledgement of at most 32 record numbers, each below 2^64, marks the saved records that have
-- one of these epochs and numbers and no others, and the flight stays; or the flight is dropped, and
-- then, so marked, it had handshake records of epoch 2 or was not empty, and these, or all its records,
-- are acknowledged.
pub process_ack-ack_bytes :
    (ns : List (ℕ × ℕ)) (e : Engine)
    → length ns ≤ ack_capacity
    → All FitsU64 ns
    → ((process_ack (ack_bytes ns) e).flight_saved_records ≡ marked ns e.flight_saved_records)
      ⊎ (((process_ack (ack_bytes ns) e).flight_saved_records ≡ [])
          × Settled (marked ns e.flight_saved_records))
process_ack-ack_bytes ns e small fits =
    subst
      (λ entries.
        ((process_ack (ack_bytes ns) e).flight_saved_records ≡ entries)
        ⊎ (((process_ack (ack_bytes ns) e).flight_saved_records ≡ []) × Settled entries))
      (ap (λ m. acknowledge m e.flight_saved_records) (parse_ack-ack_bytes ns small fits)
        ∙ acknowledge-marked ns e.flight_saved_records)
      (process_ack-flight (ack_bytes ns) e (is_wellformed-ack_bytes ns small))
