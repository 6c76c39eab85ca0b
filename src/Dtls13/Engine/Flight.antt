-- ===== src/Dtls13/Engine/Flight.antt =====
-- src/dtls13/engine.rs: flights, their timers, retransmission and acknowledgement.
use dimpl.Base.{
  ℕ, zero, suc, ◌+◌, ◌*◌, ◌/◌, ◌%◌, Bool, true, false, not, ◌&&◌, ◌||◌, none, some, List, [], ◌∷◌,
  ◌++◌, ok, err, Bytes, ◌==◌, if◌then◌else◌, length, take, drop, slice, any, all, retain, is_empty,
}
use dimpl.Wire.{u16_bytes, u64_bytes, u64_of_bytes}
use dimpl.Wire
use dimpl.Timer
use dimpl.Dtls13.Engine.{
  Engine, Entry, M, ◌>>=◌, ◌>>◌, disabled, unarmed, next_jitter, advance, panicked,
}
use dimpl.Dtls13.Engine.Send.{
  create_plaintext_record, create_ciphertext_record, slot_of, slot_seq, is_some,
}

-- `flight_backoff.reset(&mut rng)` and `attempt(&mut rng)`, which draw a jitter (none without a retry).
unfoldable pub reset_backoff : Engine → Engine
reset_backoff e = record e {
  flight_backoff = Timer.reset e.flight_backoff (next_jitter e);
  rng = advance e.rng;
}

unfoldable pub attempt_backoff : M (Unit {0})
attempt_backoff e = elim (Timer.attempt e.flight_backoff (next_jitter e)) [
  | none ↦ (e, err panicked)
  | some b ↦ (
    record e {
      flight_backoff = b;
      rng = if e.flight_backoff.left == 0 then e.rng else advance e.rng;
    },
    ok tt,
  )
]

unfoldable pub flight_begin : Engine → Engine
flight_begin e = record (reset_backoff e) { flight_saved_records = []; flight_timeout = unarmed }

unfoldable pub flight_stop_resend_timers : Engine → Engine
flight_stop_resend_timers e = record e { flight_timeout = disabled; connect_timeout = disabled }

unfoldable pub cancel_flights : Engine → Engine
cancel_flights e = record e {
  flight_saved_records = [];
  flight_timeout = disabled;
  connect_timeout = disabled;
  handshake_ack_deadline = none;
}

unfoldable pub abort : Engine → Engine
abort e = record e {
  queue_tx = [];
  flight_saved_records = [];
  flight_timeout = disabled;
  connect_timeout = disabled;
  handshake_ack_deadline = none;
}

-- One round of the loop of `flight_resend`: the number that the record will have is taken before it
-- is built, and written to the entry when it was.
unfoldable pub resend_entry : Entry → M Entry
resend_entry entry e =
    if entry.acked
    then (e, ok entry)
    else if entry.epoch == 0
    then (do
      create_plaintext_record entry.content_type false entry.fragment
      λ e'. (e', ok (record entry { send_seq = e.sequence_epoch_0.sequence_number })))
        e
    else (do
      create_ciphertext_record entry.content_type entry.epoch false entry.fragment
      λ e'. (e', ok (record entry { send_seq = slot_seq e (slot_of e entry.epoch) })))
        e

unfoldable pub resend_loop : List Entry → M (List Entry)
resend_loop [] e = (e, ok [])
resend_loop (entry ∷ entries) e =
    let (e1, sent) = resend_entry entry e in
    elim sent [
      | err x ↦ (e1, err x)
      | ok entry' ↦
          let (e2, more) = resend_loop entries e1 in
          elim more [ err x ↦ (e2, err x) | ok entries' ↦ (e2, ok (entry' ∷ entries')) ]
    ]

-- The saved records are taken out first: an error on the way loses them.
unfoldable pub flight_resend : M (Unit {0})
flight_resend e =
    (do
      entries ← resend_loop e.flight_saved_records
      λ e'. (record e' { flight_saved_records = entries }, ok tt))
      (record e { flight_saved_records = []; datagram_sealed = true })

-- An acknowledgement on the wire.
abbrev pub record_number_bytes : List (ℕ × ℕ) → Bytes
record_number_bytes [] = []
record_number_bytes ((epoch, seq) ∷ ns) =
    u64_bytes epoch ++ (u64_bytes seq ++ record_number_bytes ns)

unfoldable pub ack_bytes : List (ℕ × ℕ) → Bytes
ack_bytes ns = u16_bytes (length ns * 16 % 65536) ++ record_number_bytes ns

unfoldable pub send_ack : M (Unit {0})
send_ack e =
    if is_empty e.received_record_numbers
    then (e, ok tt)
    else create_ciphertext_record Wire.ack (if is_some e.app_send_keys then e.app_send_epoch else 2)
        false (ack_bytes e.received_record_numbers) (record e { received_record_numbers = [] })

-- The numbers in the vector of an ACK: 16 bytes each, `n` of them.
abbrev pub read_numbers : ℕ → Bytes → List (ℕ × ℕ)
read_numbers zero entries = []
read_numbers (suc n) entries =
    (u64_of_bytes (take 8 entries), u64_of_bytes (slice 8 16 entries))
    ∷ read_numbers n (drop 16 entries)

-- What `process_ack` reads, or nothing where it returns early.
unfoldable pub parse_ack : Bytes → List (ℕ × ℕ)
parse_ack (a ∷ b ∷ entries) =
    let len = a * 256 + b in
    if not (length entries == len) || not (len % 16 == 0)
    then []
    else read_numbers (len / 16) entries
parse_ack _ = []

-- Whether `process_ack` goes on to look at the flight.
unfoldable pub is_wellformed_ack : Bytes → Bool
is_wellformed_ack (a ∷ b ∷ entries) =
    let len = a * 256 + b in length entries == len && len % 16 == 0
is_wellformed_ack _ = false

abbrev pub numbered : Entry → ℕ × ℕ → Bool
numbered entry (epoch, seq) = entry.epoch == epoch && entry.send_seq == seq

unfoldable pub acknowledge : List (ℕ × ℕ) → List Entry → List Entry
acknowledge ns [] = []
acknowledge ns (entry ∷ entries) =
    (if any (numbered entry) ns then record entry { acked = true } else entry)
    ∷ acknowledge ns entries

unfoldable pub settle_handshake : Engine → Engine
settle_handshake e =
    let epoch2 = retain (λ r. r.epoch == 2) e.flight_saved_records in
    if not (is_empty epoch2) && all (λ r. r.acked) epoch2
    then record e { flight_timeout = disabled; flight_saved_records = [] }
    else e

unfoldable pub settle_key_update : Engine → Engine
settle_key_update e =
    if is_some e.prev_app_send_keys
      && (not (is_empty e.flight_saved_records) && all (λ r. r.acked) e.flight_saved_records)
    then record e {
      prev_app_send_keys = none;
      flight_saved_records = [];
      flight_timeout = disabled;
    }
    else e

unfoldable pub process_ack : Bytes → Engine → Engine
process_ack ack_data e =
    if is_wellformed_ack ack_data
    then settle_key_update (
        settle_handshake (record e {
          flight_saved_records = acknowledge (parse_ack ack_data) e.flight_saved_records;
        }))
    else e
