-- ===== src/Dtls13/Engine/Close.antt =====
-- src/dtls13/engine.rs, `classify_record`: what is delivered once the peer has closed.
use dimpl.Base.{
  ℕ, ◌≡◌, refl, sym, ap, subst, ◌∙◌, inl, inr, false, Option, none, some, List, [], ◌∷◌, All, ok,
  err, Result, arith, Bool-cases, Result-cases,
}
use dimpl.Dtls13.Record
use dimpl.Wire.{Sequence, is_after}
use dimpl.Dtls13.Engine.{Engine, IncomingRecord, Error}
use dimpl.Dtls13.Engine.Receive.{classify_record, classify_alert}
use dimpl.Dtls13.Engine.Flight.{
  process_ack, settle_handshake, settle_key_update, is_wellformed_ack, acknowledge, parse_ack,
}
use dimpl.Dtls13.Incoming.{classify_all}

settle_handshake-close :
    (e : Engine) → (settle_handshake e).close_notify_sequence ≡ e.close_notify_sequence
unfolding settle_handshake
settle_handshake-close e = ground arith

settle_key_update-close :
    (e : Engine) → (settle_key_update e).close_notify_sequence ≡ e.close_notify_sequence
unfolding settle_key_update
settle_key_update-close e = ground arith

abbrev acknowledged : List ℕ → Engine → Engine
acknowledged bytes e = record e {
  flight_saved_records = acknowledge (parse_ack bytes) e.flight_saved_records;
}

process_ack-close :
    (bytes : List ℕ) (e : Engine)
    → (process_ack bytes e).close_notify_sequence ≡ e.close_notify_sequence
unfolding process_ack
process_ack-close bytes e = elim (Bool-cases (is_wellformed_ack bytes)) [
  | inl t ↦ rw t (
      settle_key_update-close (settle_handshake (acknowledged bytes e))
      ∙ settle_handshake-close (acknowledged bytes e))
  | inr t ↦ rw t refl
]

-- A record that is kept does not stand behind the close_notify, which stays.
abbrev Heeds : Sequence → Engine × Result Error (Option IncomingRecord) → Type 0
Heeds closed (e', r) =
    (e'.close_notify_sequence ≡ some closed)
    × ((kept : IncomingRecord) → r ≡ ok (some kept) → is_after kept.parsed.sequence closed ≡ false)

classify_record-Heeds :
    (r : IncomingRecord) (e : Engine) (closed : Sequence)
    → e.close_notify_sequence ≡ some closed
    → Heeds closed (classify_record r e)
unfolding classify_record classify_alert
classify_record-Heeds r e closed h =
    ground (arith, h, process_ack-close (Record.fragment r.parsed r.buffer) e)

-- No record that is delivered stands behind the close_notify.
abbrev pub Delivers : Sequence → Result Error (List IncomingRecord) → Type 0
Delivers closed (err x) = Unit
Delivers closed (ok kept) = All (λ r. is_after r.parsed.sequence closed ≡ false) kept

-- The end of a round of `classify_all`.
abbrev collected :
    Option IncomingRecord → Result Error (List IncomingRecord) → Result Error (List IncomingRecord)
collected o (err x) = err x
collected o (ok rs) = ok (elim o [ none ↦ rs | some r ↦ r ∷ rs ])

collected-Delivers :
    (closed : Sequence) (o : Option IncomingRecord) (more : Result Error (List IncomingRecord))
    → ((kept : IncomingRecord) → o ≡ some kept → is_after kept.parsed.sequence closed ≡ false)
    → Delivers closed more
    → Delivers closed (collected o more)
collected-Delivers closed o (err x) h d = tt
collected-Delivers closed none (ok rs) h d = d
collected-Delivers closed (some r) (ok rs) h d = (h r refl, d)

classify_all_step :
    (r : IncomingRecord) (rs : List IncomingRecord) (e : Engine) (o : Option IncomingRecord)
    → (classify_record r e).1 ≡ ok o
    → (classify_all (r ∷ rs) e).1 ≡ collected o (classify_all rs (classify_record r e).0).1
unfolding classify_all
classify_all_step r rs e o h = elim (Result-cases (classify_all rs (classify_record r e).0).1) [
  | inl (kept, more) ↦ rw (h, more, classify_all) refl
  | inr (x, more) ↦ rw (h, more, classify_all) refl
]

-- Once a close_notify has been received, classifying the records of a datagram delivers none whose
-- epoch and number stand behind it.
pub classify_all-Delivers :
    (rs : List IncomingRecord) (e : Engine) (closed : Sequence)
    → e.close_notify_sequence ≡ some closed
    → Delivers closed (classify_all rs e).1
unfolding classify_all
classify_all-Delivers [] e closed h = tt
classify_all-Delivers (r ∷ rs) e closed h =
    let heeds = classify_record-Heeds r e closed h in
    elim (Result-cases (classify_record r e).1) [
      | inr (x, failed) ↦ rw (failed, classify_all) tt
      | inl (o, done) ↦ subst (Delivers closed) (sym (classify_all_step r rs e o done)) (
          collected-Delivers closed o (classify_all rs (classify_record r e).0).1
            (λ kept same. heeds.1 kept (done ∙ ap ok same))
            (classify_all-Delivers rs (classify_record r e).0 closed heeds.0))
    ]
