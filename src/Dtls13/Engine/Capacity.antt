-- ===== src/Dtls13/Engine/Capacity.antt =====
-- src/dtls13/engine.rs, `create_handshake`: the flight has room for 12 records, and a message that needs
-- more is not sent.
use dimpl.Base.{
  ℕ, zero, suc, ◌+◌, ◌-◌, ◌*◌, ◌≤◌, ◌<◌, ◌≡◌, ◌≢◌, refl, ap, ◌∙◌, inl, inr, true, ◌&&◌, ◌||◌, some,
  [], ◌∷◌, Result, ok, err, Bytes, length, Bool-cases, ltb, leb, ◌==◌, arith, length-append,
}
use dimpl.Wire
use dimpl.Dtls13.Handshake.{MessageType}
use dimpl.Dtls13.Engine.{Engine, Entry, Error, M, ◌>>◌, then-err, panicked, flight_capacity}
use dimpl.Dtls13.Engine.Send.{
  save_record, plaintext_tail, protect, create_plaintext_record, create_ciphertext_record,
}
use dimpl.Dtls13.Engine.Fragment.{
  chunk_len, fixed_overhead, fragment_wire, send_fragment, fragment_loop, create_handshake,
  begin_message, epoch_for_message, protection_overhead,
}
use dimpl.Dtls13.Engine.Rounds.{after_fragment}
use dimpl.Dtls13.Engine.Saved.{send_fragment-Saves}

save_record-full :
    (entry : Entry) (k : M (Unit {0})) (e : Engine)
    → leb flight_capacity (length e.flight_saved_records) ≡ true
    → (save_record entry >> k) e ≡ (e, err panicked)
unfolding save_record
save_record-full entry k e full = then-err (save_record entry) k e e panicked (rw full refl)

send_fragment-full :
    (epoch : ℕ) (bytes : Bytes) (e : Engine)
    → leb flight_capacity (length e.flight_saved_records) ≡ true
    → (send_fragment epoch bytes e).1 ≡ err panicked
unfolding send_fragment create_plaintext_record create_ciphertext_record
send_fragment-full epoch bytes e full = elim (Bool-cases (epoch == 0)) [
  | inl t ↦ rw t (ap (λ p. p.1) (save_record-full _ (plaintext_tail Wire.handshake bytes) e full))
  | inr t ↦ rw t (ap (λ p. p.1) (save_record-full _ (protect Wire.handshake epoch bytes) e full))
]

not_both : (r : Result Error (Unit {0})) → r ≡ err panicked → r ≢ ok tt
not_both r h k = ground (arith, h, k)

-- A fragment that was sent found room, and takes one place.
send_fragment-count :
    (epoch : ℕ) (bytes : Bytes) (e : Engine)
    → (send_fragment epoch bytes e).1 ≡ ok tt
    → (length e.flight_saved_records < 12)
      × (length (send_fragment epoch bytes e).0.flight_saved_records
          ≡ length e.flight_saved_records + 1)
send_fragment-count epoch bytes e sent =
    let saved = (send_fragment-Saves epoch bytes e).2 sent in
    (
      elim (Bool-cases (leb flight_capacity (length e.flight_saved_records))) [
        | inl full ↦
            absurd (
              not_both (send_fragment epoch bytes e).1 (send_fragment-full epoch bytes e full) sent)
        | inr room ↦ ground (arith, room)
      ],
      ap length saved.1 ∙ length-append e.flight_saved_records (saved.0 ∷ []),
    )

chunk_len-most :
    (e : Engine) (epoch protection total offset : ℕ)
    → chunk_len e epoch protection total offset ≤ e.config.mtu - fixed_overhead epoch protection
unfolding chunk_len
chunk_len-most e epoch protection total offset = ground arith

one_more : (n room : ℕ) → (n + 1) * room ≡ n * room + room
one_more n room = grind arith

at_most_twelve : (n room : ℕ) → n ≤ 12 → n * room ≤ 12 * room
at_most_twelve n room h = grind arith

module _ (msg_type seq epoch protection : ℕ) (body : Bytes) (room : ℕ) where
  -- What is left of the body fits the records that the flight still takes, each of `room` bytes.
  abbrev Enough : ℕ → Engine → Result Error (Unit {0}) → Type 0
  Enough offset e r =
      r ≡ ok tt → length body - offset + length e.flight_saved_records * room ≤ 12 * room

  after_fragment-Enough :
      (fuel offset chunk : ℕ) (e e' : Engine) (r : Result Error (Unit {0}))
      → (r ≡ ok tt
          → (length e.flight_saved_records < 12)
            × (length e'.flight_saved_records ≡ length e.flight_saved_records + 1))
      → chunk ≤ room
      → (r ≡ ok tt
          → Enough
              (offset + chunk)
              e'
              (fragment_loop fuel msg_type seq epoch protection body (offset + chunk) e').1)
      → Enough offset e (after_fragment fuel msg_type seq epoch protection body offset chunk e' r).1
  after_fragment-Enough fuel offset chunk e e' (err x) count small ih = λ h. ground (arith, h)
  after_fragment-Enough fuel offset chunk e e' (ok tt) count small ih =
      let n = length e.flight_saved_records in
      let counted = count refl in
      elim (Bool-cases (length body == 0)) [
        | inl t ↦ λ h. ground (arith, t, at_most_twelve n room (omega (arith, counted.0)))
        | inr t ↦
            let taken : length e'.flight_saved_records * room ≡ n * room + room =
              ap (λ m. m * room) counted.1 ∙ one_more n room in
            rw (t, after_fragment) (λ h. omega (arith, ih refl h, taken, small))
      ]

  fragment_loop-Enough :
      (fuel offset : ℕ) (e : Engine)
      → length e.flight_saved_records ≤ 12
      → e.config.mtu - fixed_overhead epoch protection ≡ room
      → Enough offset e (fragment_loop fuel msg_type seq epoch protection body offset e).1
  unfolding fragment_loop
  fragment_loop-Enough zero offset e few same = λ h. ground (arith, h)
  fragment_loop-Enough (suc fuel) offset e few same =
      let chunk = chunk_len e epoch protection (length body) offset in
      let bytes = fragment_wire msg_type seq body offset chunk in
      let s = send_fragment-Saves epoch bytes e in
      elim (Bool-cases (ltb offset (length body) || (length body == 0 && offset == 0))) [
        | inl t ↦
            rw (t, fragment_loop)
              (after_fragment-Enough fuel offset chunk e (send_fragment epoch bytes e).0
                (send_fragment epoch bytes e).1 (send_fragment-count epoch bytes e)
                (omega (arith, chunk_len-most e epoch protection (length body) offset, same))
                (λ sent.
                  let count = send_fragment-count epoch bytes e sent in
                  fragment_loop-Enough fuel (offset + chunk) (send_fragment epoch bytes e).0
                    (omega (arith, count.0, count.1))
                    (ap (λ c. c.mtu - fixed_overhead epoch protection) s.0 ∙ same)))
        | inr t ↦
            rw (t, fragment_loop)
              (λ h. ground (arith, t, at_most_twelve (length e.flight_saved_records) room few))
      ]

-- On an empty flight, `create_handshake` succeeds only with a body that 12 fragments can hold, each of
-- the bytes that the MTU leaves in a datagram of its own.
pub create_handshake-capacity :
    (msg_type : MessageType) (body : Bytes) (e : Engine) (protection : ℕ)
    → protection_overhead e (epoch_for_message msg_type) ≡ some protection
    → e.flight_saved_records ≡ []
    → (create_handshake msg_type body e).1 ≡ ok tt
    → length body ≤ 12 * (e.config.mtu - fixed_overhead (epoch_for_message msg_type) protection)
unfolding create_handshake begin_message
create_handshake-capacity msg_type body e protection known fresh sent =
    let epoch = epoch_for_message msg_type in
    let room = e.config.mtu - fixed_overhead epoch protection in
    let none_saved : length e.flight_saved_records ≡ 0 = ap length fresh in
    let enough : length body - 0 + length e.flight_saved_records * room ≤ 12 * room =
      fragment_loop-Enough msg_type e.next_handshake_seq_no epoch protection body room
        (suc (length body)) 0 (begin_message msg_type body e) (omega (arith, none_saved)) refl
        (ground (arith, known, sent)) in
    omega (arith, enough)
