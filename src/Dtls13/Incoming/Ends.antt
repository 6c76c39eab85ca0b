-- ===== src/Dtls13/Incoming/Ends.antt =====
-- The loop over the records of a datagram ends.
use dimpl.Base.{
  ℕ, zero, suc, ◌≤◌, ◌<◌, ◌≡◌, ◌≢◌, refl, ◌⊎◌, inl, inr, Option, none, some, List, [], ◌∷◌, Result,
  ok, err, Bytes, length, take, drop, length-drop, arith, Bool-cases, Option-cases, Result-cases,
  ◌&&◌, if◌then◌else◌, ltb,
}
use dimpl.Dtls13.Record.{Dtls13Record, is_ciphertext_header}
use dimpl.Dtls13.Record
use dimpl.Dtls13.Handshake.{BodyParser}
use dimpl.Dtls13.Engine.{Engine, no_end, IncomingRecord, Error, too_many_records}
use dimpl.Dtls13.Incoming.{
  Boundary, until, stop, incomplete, record_end, parse_record, open_record, records_loop,
  push_record, unmask,
}

record_end-pos : (b : ℕ) (packet : Bytes) (n : ℕ) → record_end (b ∷ packet) ≡ until n → 0 < n
unfolding record_end
record_end-pos b packet n h = ground arith

open_record-ne-no_end :
    (pb : BodyParser) (flags : ℕ) (buffer : Bytes) (r : Dtls13Record) (e : Engine)
    → (open_record pb flags buffer r e).1 ≢ err no_end
unfolding open_record
open_record-ne-no_end pb flags buffer r e = ground arith

parse_record-ne-no_end :
    (pb : BodyParser) (bytes : Bytes) (e : Engine) → (parse_record pb bytes e).1 ≢ err no_end
unfolding parse_record
parse_record-ne-no_end pb [] e = ground arith
parse_record-ne-no_end pb (b ∷ bytes) e =
    let protected = is_ciphertext_header b && e.peer_encryption_enabled in
    elim (Option-cases (if protected then unmask e (b ∷ bytes) else some (b ∷ bytes))) [
      | inl h ↦ ground (arith, h)
      | inr (buffer, h) ↦ elim (Result-cases (Record.parse buffer 0)) [
        | inr (x, p) ↦ rw (h, p, parse_record) (ground arith)
        | inl ((rest, r), p) ↦ ground (arith, h, p, open_record-ne-no_end pb b buffer r e)
      ]
    ]

Boundary-cases : (x : Boundary) → ((x ≡ stop) ⊎ (x ≡ incomplete)) ⊎ ((n : ℕ) × (x ≡ until n))
Boundary-cases stop = inl (inl refl)
Boundary-cases incomplete = inl (inr refl)
Boundary-cases (until n) = inr (n, refl)

-- What a round of the loop does once it has read a record.
abbrev continued :
    ℕ
    → BodyParser
    → Bytes
    → List IncomingRecord
    → Engine
    → Result Error (Option IncomingRecord)
    → Engine × Result Error (List IncomingRecord)
continued fuel pb packet parsed e r = elim r [
  | err x ↦ (e, err x)
  | ok o ↦ elim (push_record parsed o) [
    | none ↦ (e, err too_many_records)
    | some parsed' ↦ records_loop fuel pb packet parsed' e
  ]
]

continue_with :
    (fuel : ℕ) (pb : BodyParser) (packet : Bytes) (parsed : List IncomingRecord) (e : Engine)
    (r : Result Error (Option IncomingRecord))
    → r ≢ err no_end
    → ((p : List IncomingRecord) (e1 : Engine) → (records_loop fuel pb packet p e1).1 ≢ err no_end)
    → (continued fuel pb packet parsed e r).1 ≢ err no_end
continue_with fuel pb packet parsed e (err x) h ih = ground (arith, h)
continue_with fuel pb packet parsed e (ok o) h ih = elim (Option-cases (push_record parsed o)) [
  | inl s ↦ rw (s, continued) (ground arith)
  | inr (p, s) ↦ rw (s, continued) (ih p e)
]

-- With fuel for the length of the datagram, the loop over its records ends, whatever the records are
-- and whatever the state: it never runs out of fuel.
pub records_loop-ne-no_end :
    (fuel : ℕ) (pb : BodyParser) (packet : Bytes) (parsed : List IncomingRecord) (e : Engine)
    → length packet ≤ fuel
    → (records_loop fuel pb packet parsed e).1 ≢ err no_end
unfolding records_loop
records_loop-ne-no_end fuel pb [] parsed e h = ground arith
records_loop-ne-no_end zero pb (b ∷ packet) parsed e h = absurd (omega arith)
records_loop-ne-no_end (suc fuel) pb (b ∷ packet) parsed e h =
    elim (Boundary-cases (record_end (b ∷ packet))) [
      | inl (inl s) ↦ ground (arith, s)
      | inl (inr s) ↦ ground (arith, s)
      | inr (n, s) ↦
          go n s (record_end-pos b packet n s)
            (records_loop-ne-no_end fuel pb (drop n (b ∷ packet)))
    ]
  where
    go :
        (n : ℕ)
        → record_end (b ∷ packet) ≡ until n
        → 0 < n
        → ((p : List IncomingRecord) (e1 : Engine)
            → length (drop n (b ∷ packet)) ≤ fuel
            → (records_loop fuel pb (drop n (b ∷ packet)) p e1).1 ≢ err no_end)
        → (records_loop (suc fuel) pb (b ∷ packet) parsed e).1 ≢ err no_end
    go n s pos ih = elim (Bool-cases (ltb (length (b ∷ packet)) n)) [
      | inl t ↦ rw (s, t, records_loop) (ground arith)
      | inr t ↦
          rw (s, t, records_loop)
            (continue_with fuel pb (drop n (b ∷ packet)) parsed
              (parse_record pb (take n (b ∷ packet)) e).0
              (parse_record pb (take n (b ∷ packet)) e).1
              (parse_record-ne-no_end pb (take n (b ∷ packet)) e)
              (λ p e1. ih p e1 (omega (arith, length-drop n (b ∷ packet)))))
    ]
