-- ===== src/Dtls13/Engine/Cover.antt =====
-- src/dtls13/engine.rs, `create_handshake`: the fragments of a message cover its body.
use dimpl.Base.{
  ℕ, zero, suc, ◌+◌, ◌-◌, ◌≤◌, ◌<◌, is_empty, ◌≡◌, ◌≢◌, refl, sym, ap, subst, ◌∙◌, inl, inr, false,
  ◌&&◌, ◌||◌, some, List, [], ◌∷◌, ◌++◌, Result, ok, err, Bytes, length, Bool-cases, ltb, ◌==◌,
  arith, append-nil, append_assoc,
}
use dimpl.Wire
use dimpl.Dtls13.Handshake.{MessageType}
use dimpl.Dtls13.Engine.{Engine, Entry, Error, no_end}
use dimpl.Dtls13.Engine.Fragment.{
  chunk_len, fixed_overhead, fragment_wire, send_fragment, fragment_loop, create_handshake,
  begin_message, epoch_for_message, protection_overhead,
}
use dimpl.Dtls13.Engine.Rounds.{after_fragment}
use dimpl.Dtls13.Engine.Saved.{Saves, send_fragment-Saves}

-- The next fragment takes no more than is left of the body, and something where there is room.
chunk_len_bounds :
    (e : Engine) (epoch protection total offset : ℕ)
    → offset ≤ total
    → fixed_overhead epoch protection < e.config.mtu
    → (offset + chunk_len e epoch protection total offset ≤ total)
      × (offset < total → 0 < chunk_len e epoch protection total offset)
unfolding chunk_len
chunk_len_bounds e epoch protection total offset h room = (ground arith, λ k. ground arith)

module _ (msg_type : MessageType) (seq epoch : ℕ) (body : Bytes) where
  -- Saved records that hold, one after the other, the fragments of the body from `offset` to its end;
  -- each takes a byte at least, unless the body is empty.
  abbrev pub Covers : ℕ → List Entry → Type 0
  Covers offset [] = offset ≡ length body
  Covers offset (entry ∷ entries) =
      (chunk : ℕ) × (entry.fragment ≡ fragment_wire msg_type seq body offset chunk)
      × (entry.content_type ≡ Wire.handshake)
      × (entry.epoch ≡ epoch)
      × (offset + chunk ≤ length body)
      × (0 < length body → 0 < chunk)
      × Covers (offset + chunk) entries

  abbrev pub Done : ℕ → Engine → Engine × Result Error (Unit {0}) → Type 0
  Done offset e (e', r) =
      (r ≢ err no_end)
      × (r ≡ ok tt
          → (entries : List Entry) × (e'.flight_saved_records ≡ e.flight_saved_records ++ entries)
            × Covers offset entries
            × (offset ≡ 0 → is_empty entries ≡ false))

  after_fragment-Done :
      (fuel protection offset chunk : ℕ) (e e' : Engine) (r : Result Error (Unit {0}))
      → Saves epoch (fragment_wire msg_type seq body offset chunk) e (e', r)
      → offset + chunk ≤ length body
      → (0 < length body → 0 < chunk)
      → (0 < length body
          → Done
              (offset + chunk)
              e'
              (fragment_loop fuel msg_type seq epoch protection body (offset + chunk) e'))
      → Done offset e (after_fragment fuel msg_type seq epoch protection body offset chunk e' r)
  after_fragment-Done fuel protection offset chunk e e' (err x) s inside some_bytes ih =
      ((λ h. s.1 (ground (arith, h))), λ h. ground (arith, h))
  after_fragment-Done fuel protection offset chunk e e' (ok tt) s inside some_bytes ih =
      let saved = s.2 refl in
      elim (Bool-cases (length body == 0)) [
        | inl t ↦
            rw (t, after_fragment)
              (
                (λ h. ground arith),
                λ h. (
                  saved.0 ∷ [],
                  saved.1,
                  (chunk, saved.2, saved.4, saved.3, inside, some_bytes, ground (arith, t, inside)),
                  λ z. refl,
                ),
              )
        | inr t ↦
            let more = ih (ground (arith, t)) in
            rw (t, after_fragment)
              (
                more.0,
                λ h.
                    let covered = more.1 h in
                    (
                      saved.0 ∷ covered.0,
                      covered.1
                          ∙ ap (λ q. q ++ covered.0) saved.1
                          ∙ append_assoc e.flight_saved_records (saved.0 ∷ []) covered.0,
                      (chunk, saved.2, saved.4, saved.3, inside, some_bytes, covered.2),
                      λ z. refl,
                    ),
              )
      ]

  fragment_loop-Done :
      (fuel protection offset : ℕ) (e : Engine)
      → offset ≤ length body
      → length body - offset < fuel
      → fixed_overhead epoch protection < e.config.mtu
      → Done offset e (fragment_loop fuel msg_type seq epoch protection body offset e)
  unfolding fragment_loop
  fragment_loop-Done zero protection offset e inside enough room = absurd (omega arith)
  fragment_loop-Done (suc fuel) protection offset e inside enough room =
      let chunk = chunk_len e epoch protection (length body) offset in
      let bounds = chunk_len_bounds e epoch protection (length body) offset inside room in
      let bytes = fragment_wire msg_type seq body offset chunk in
      let s = send_fragment-Saves epoch bytes e in
      elim (Bool-cases (ltb offset (length body) || (length body == 0 && offset == 0))) [
        | inl t ↦
            rw (t, fragment_loop)
              (after_fragment-Done fuel protection offset chunk e (send_fragment epoch bytes e).0
                (send_fragment epoch bytes e).1 s bounds.0 (λ h. bounds.1 (ground (arith, t)))
                (λ h.
                  fragment_loop-Done fuel protection (offset + chunk)
                    (send_fragment epoch bytes e).0 bounds.0
                    (omega (arith, bounds.1 (ground (arith, t, h))))
                    (subst (λ c. fixed_overhead epoch protection < c.mtu) (sym s.0) room)))
        | inr t ↦
            rw (t, fragment_loop)
              (
                (λ h. ground arith),
                λ h. (
                  [],
                  sym (append-nil e.flight_saved_records),
                  ground (arith, t),
                  λ z. ground (arith, t, z),
                ),
              )
      ]

-- With room for a byte of the body in a datagram, `create_handshake` ends, and if it succeeds it has
-- saved, behind what was saved before, records of the message's epoch that hold the fragments of the
-- whole body in order, each with the type and the number of the message, its length and its offset,
-- without a gap and without an overlap; there is one at least.
pub create_handshake-Covers :
    (msg_type : MessageType) (body : Bytes) (e : Engine) (protection : ℕ)
    → protection_overhead e (epoch_for_message msg_type) ≡ some protection
    → fixed_overhead (epoch_for_message msg_type) protection < e.config.mtu
    → ((create_handshake msg_type body e).1 ≢ err no_end)
      × ((create_handshake msg_type body e).1 ≡ ok tt
          → (entries : List Entry) × ((create_handshake msg_type body e).0.flight_saved_records
              ≡ e.flight_saved_records ++ entries)
            × Covers msg_type e.next_handshake_seq_no (epoch_for_message msg_type) body 0 entries
            × (is_empty entries ≡ false))
unfolding create_handshake epoch_for_message begin_message
create_handshake-Covers msg_type body e protection known room =
    let done =
      fragment_loop-Done msg_type e.next_handshake_seq_no (epoch_for_message msg_type) body
        (suc (length body)) protection 0 (begin_message msg_type body e) (omega arith) (omega arith)
        room in
    rw (create_handshake, known) (done.0, λ h. let d = done.1 h in (d.0, d.1, d.2, d.3 refl))
