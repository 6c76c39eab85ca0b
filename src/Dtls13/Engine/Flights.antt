-- ===== src/Dtls13/Engine/Flights.antt =====
-- src/dtls13/engine.rs, `create_handshake`: the fragments of a message keep the datagrams within the
-- MTU.
use dimpl.Base.{
  ℕ, zero, suc, ◌+◌, ◌-◌, ◌≤◌, ◌<◌, ◌≡◌, sym, ap₂, drop, ◌⊎◌, subst, ◌∙◌, inl, inr, true, false,
  ◌&&◌, ◌||◌, Option, none, some, Result, ok, err, Bytes, length, Bool-cases, ltb, leb, ◌==◌,
  if◌then◌else◌, arith, length-take,
}
use dimpl.Wire
use dimpl.Dtls13.Handshake.{MessageType, serialize, serialize_header}
use dimpl.Dtls13.Engine.{Engine, Config, Error}
use dimpl.Dtls13.Engine.Fragment.{
  chunk_len, fixed_overhead, fragment_wire, send_fragment, fragment_loop, create_handshake,
  begin_message, epoch_for_message, protection_overhead,
}
use dimpl.Dtls13.Engine.Rounds.{after_fragment}
use dimpl.Dtls13.Engine.Saved.{Saves, send_fragment-Saves}
use dimpl.Dtls13.Engine.Mtu.{FitsMtu}
use dimpl.Dtls13.Engine.Datagrams.{
  TagSized, protected_len, create_plaintext_record-FitsMtu, create_ciphertext_record-FitsMtu,
}

-- `protection_overhead` as a function of what it reads.
abbrev overhead_of : ℕ → Config × Option ℕ → Option ℕ
overhead_of epoch (c, suite) =
    if leb 2 epoch
    then elim suite [ none ↦ none | some s ↦ some (c.provider.tag_len s + 1) ]
    else some 0

-- What the loop relies on: the room that it was told is the room that its epoch needs.
pub record Ready (epoch protection : ℕ) (e : Engine) : Type 0 where
  pub kind : (epoch ≡ 0) ⊎ (2 ≤ epoch)
  pub first : e.sequence_epoch_0.epoch ≡ 0
  pub sized : TagSized e.config.provider e.cipher_suite
  pub known : overhead_of epoch (e.config, e.cipher_suite) ≡ some protection
  pub room : fixed_overhead epoch protection < e.config.mtu
  pub fits : FitsMtu e

chunk_len-room :
    (e : Engine) (epoch protection total offset : ℕ)
    → fixed_overhead epoch protection < e.config.mtu
    → chunk_len e epoch protection total offset + fixed_overhead epoch protection ≤ e.config.mtu
unfolding chunk_len
chunk_len-room e epoch protection total offset room = ground arith

length-fragment_wire :
    (msg_type seq : ℕ) (body : Bytes) (offset chunk : ℕ)
    → length (fragment_wire msg_type seq body offset chunk) ≤ 12 + chunk
unfolding fragment_wire serialize serialize_header
length-fragment_wire msg_type seq body offset chunk = elim (Bool-cases (chunk == 0)) [
  | inl t ↦ rw t (omega arith)
  | inr t ↦ rw t (omega (arith, length-take (offset + chunk - offset) (drop offset body)))
]

protected_len-overhead :
    (epoch protection n : ℕ) (c : Config) (suite : Option ℕ)
    → 2 ≤ epoch
    → overhead_of epoch (c, suite) ≡ some protection
    → protected_len c.provider suite n ≤ 5 + n + protection
protected_len-overhead epoch protection n c none h known = omega arith
protected_len-overhead epoch protection n c (some s) h known = ground (arith, known)

send_fragment-FitsMtu :
    (epoch protection chunk : ℕ) (bytes : Bytes) (e : Engine)
    → Ready epoch protection e
    → length bytes ≤ 12 + chunk
    → chunk + fixed_overhead epoch protection ≤ e.config.mtu
    → FitsMtu (send_fragment epoch bytes e).0
unfolding send_fragment
send_fragment-FitsMtu epoch protection chunk bytes e ready size room = elim ready.kind [
  | inl zero_epoch ↦
      let plain : (epoch == 0) ≡ true = ground (arith, zero_epoch) in
      rw plain (
        create_plaintext_record-FitsMtu Wire.handshake true bytes e ready.first
          (ground (arith, size, room, plain)) ready.fits)
  | inr high ↦
      let plain : (epoch == 0) ≡ false = ground (arith, high) in
      let small : protected_len e.config.provider e.cipher_suite (length bytes)
          ≤ 5 + length bytes + protection =
        protected_len-overhead epoch protection (length bytes) e.config e.cipher_suite high
          ready.known in
      rw plain (
        create_ciphertext_record-FitsMtu Wire.handshake epoch true bytes e (omega (arith, high))
          ready.sized (ground (arith, small, size, room, plain)) ready.fits)
]

-- A fragment that was sent leaves the loop what it relies on.
sent-Ready :
    (epoch protection : ℕ) (bytes : Bytes) (e : Engine) (p : Engine × Result Error (Unit {0}))
    → Saves epoch bytes e p
    → Ready epoch protection e
    → FitsMtu p.0
    → Ready epoch protection p.0
sent-Ready epoch protection bytes e (e', r) s ready fits =
    let same : (e.config, e.cipher_suite) ≡ (e'.config, e'.cipher_suite) =
      ap₂ (λ c t. (c, t)) (sym s.0) (sym s.3) in
    record {
      kind = ready.kind;
      first = s.4 ∙ ready.first;
      sized = subst (λ q. TagSized q.0.provider q.1) same ready.sized;
      known = subst (λ q. overhead_of epoch q ≡ some protection) same ready.known;
      room = subst (λ c. fixed_overhead epoch protection < c.mtu) (sym s.0) ready.room;
      fits = fits;
    }

module _ (msg_type seq epoch protection : ℕ) (body : Bytes) where
  after_fragment-FitsMtu :
      (fuel offset chunk : ℕ) (e : Engine) (r : Result Error (Unit {0}))
      → FitsMtu e
      → FitsMtu (fragment_loop fuel msg_type seq epoch protection body (offset + chunk) e).0
      → FitsMtu (after_fragment fuel msg_type seq epoch protection body offset chunk e r).0
  after_fragment-FitsMtu fuel offset chunk e (err x) now later = now
  after_fragment-FitsMtu fuel offset chunk e (ok tt) now later =
      elim (Bool-cases (length body == 0)) [
        | inl t ↦ rw (t, after_fragment) now
        | inr t ↦ rw (t, after_fragment) later
      ]

  fragment_loop-FitsMtu :
      (fuel offset : ℕ) (e : Engine)
      → Ready epoch protection e
      → FitsMtu (fragment_loop fuel msg_type seq epoch protection body offset e).0
  unfolding fragment_loop
  fragment_loop-FitsMtu zero offset e ready = ready.fits
  fragment_loop-FitsMtu (suc fuel) offset e ready =
      let chunk = chunk_len e epoch protection (length body) offset in
      let bytes = fragment_wire msg_type seq body offset chunk in
      let p = send_fragment epoch bytes e in
      let fits : FitsMtu (send_fragment epoch bytes e).0 =
        send_fragment-FitsMtu epoch protection chunk bytes e ready
          (length-fragment_wire msg_type seq body offset chunk)
          (chunk_len-room e epoch protection (length body) offset ready.room) in
      elim (Bool-cases (ltb offset (length body) || (length body == 0 && offset == 0))) [
        | inl t ↦
            rw (t, fragment_loop)
              (after_fragment-FitsMtu fuel offset chunk (send_fragment epoch bytes e).0
                (send_fragment epoch bytes e).1 fits
                (fragment_loop-FitsMtu fuel (offset + chunk) (send_fragment epoch bytes e).0 (
                  sent-Ready epoch protection bytes e p (send_fragment-Saves epoch bytes e) ready
                    fits)))
        | inr t ↦ rw (t, fragment_loop) ready.fits
      ]

epoch_for_message-kind :
    (msg_type : ℕ) → (epoch_for_message msg_type ≡ 0) ⊎ (2 ≤ epoch_for_message msg_type)
unfolding epoch_for_message
epoch_for_message-kind msg_type = ground arith

-- Where every waiting datagram fits the MTU, it still does after `create_handshake`, whether it
-- succeeds or fails on the way, if a datagram has room for a byte of the body, the plaintext epoch is
-- 0, and the AEAD of the negotiated suite adds a tag of the length that the suite names.
pub create_handshake-FitsMtu :
    (msg_type : MessageType) (body : Bytes) (e : Engine) (protection : ℕ)
    → protection_overhead e (epoch_for_message msg_type) ≡ some protection
    → fixed_overhead (epoch_for_message msg_type) protection < e.config.mtu
    → e.sequence_epoch_0.epoch ≡ 0
    → TagSized e.config.provider e.cipher_suite
    → FitsMtu e
    → FitsMtu (create_handshake msg_type body e).0
unfolding create_handshake begin_message
create_handshake-FitsMtu msg_type body e protection known room first sized fits =
    let epoch = epoch_for_message msg_type in
    let ready : Ready epoch protection (begin_message msg_type body e) = record {
      kind = epoch_for_message-kind msg_type;
      first = first;
      sized = sized;
      known = known;
      room = room;
      fits = fits;
    } in
    rw (known, create_handshake)
      (fragment_loop-FitsMtu msg_type e.next_handshake_seq_no epoch protection body
        (suc (length body)) 0 (begin_message msg_type body e) ready)
