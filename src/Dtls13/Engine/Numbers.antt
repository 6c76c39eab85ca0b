-- ===== src/Dtls13/Engine/Numbers.antt =====
-- src/dtls13/engine.rs: the sequence numbers under which records are protected.
use dimpl.Base.{
  ℕ, ◌+◌, ◌<◌, ◌≡◌, ◌≢◌, refl, sym, subst, ◌∙◌, ◌⊎◌, inl, inr, Bool, true, false, not, ◌&&◌, ◌++◌,
  Option, none, some, [], ◌∷◌, Result, ok, err, Bytes, length, arith, Bool-cases, leb,
}
use dimpl.Wire.{ContentType}
use dimpl.Dtls13.Engine.{
  Engine, then-ok, then-err, EpochKeys, Entry, Error, max_sequence_number, flight_capacity,
  transmit_queue_full, send_sequence_number_exhausted, send_keys_not_available, crypto_failed,
  panicked,
}
use dimpl.Dtls13.Engine.Send.{
  Slot, hs, prev, app, slot_of, slot_seq, bump_slot, enqueue, ciphertext_tail, protect,
  protect_with, seal, save_record, create_ciphertext_record, can_append, sn_mask,
}

-- The three counters of protected records.
abbrev pub counters : Engine → ℕ × ℕ × ℕ
counters e = (e.hs_send_seq, e.prev_app_send_seq, e.app_send_seq)

abbrev pub raised : Slot → ℕ × ℕ × ℕ → ℕ × ℕ × ℕ
raised hs (a, b, c) = (a + 1, b, c)
raised prev (a, b, c) = (a, b + 1, c)
raised app (a, b, c) = (a, b, c + 1)

-- A record either raises the counter of its slot, which was below 2^48 - 1, by one, or fails and
-- leaves the three as they are.
abbrev pub Numbered : Engine → Slot → Engine × Result Error (Unit {0}) → Type 0
Numbered e slot (e', r) =
    ((r ≡ ok tt)
      × (slot_seq e slot < max_sequence_number)
      × (counters e' ≡ raised slot (counters e)))
    ⊎ ((r ≢ ok tt) × (counters e' ≡ counters e))

counters-enqueue :
    (append : Bool) (bytes : Bytes) (e : Engine) → counters (enqueue append bytes e) ≡ counters e
unfolding enqueue
counters-enqueue true bytes e = refl
counters-enqueue false bytes e = refl

counters-bump_slot :
    (epoch : ℕ) (slot : Slot) (e : Engine)
    → counters (bump_slot epoch slot e) ≡ raised slot (counters e)
unfolding bump_slot
counters-bump_slot epoch hs e = refl
counters-bump_slot epoch prev e = refl
counters-bump_slot epoch app e = elim (Bool-cases (leb 3 epoch)) [
  | inl h ↦ rw h refl
  | inr h ↦ rw h refl
]

failed : (e : Engine) (slot : Slot) (x : Error) → Numbered e slot (e, err x)
failed e slot x = inr (λ h. cc, refl)

ciphertext_tail-Numbered :
    (epoch : ℕ) (slot : Slot) (seq : ℕ) (ciphertext mask : Bytes) (e : Engine)
    → Numbered e slot (ciphertext_tail epoch slot seq ciphertext mask e)
unfolding ciphertext_tail
ciphertext_tail-Numbered epoch slot seq ciphertext mask e =
    let append = can_append e (5 + length ciphertext) in
    elim (Bool-cases (not append && leb e.config.max_queue_tx (length e.queue_tx))) [
      | inl t ↦ rw t (failed e slot transmit_queue_full)
      | inr t ↦ elim (Bool-cases (leb max_sequence_number (slot_seq e slot))) [
        | inl u ↦ rw (t, u) (failed e slot (send_sequence_number_exhausted epoch))
        | inr u ↦
            rw (t, u)
              (inl (
                refl,
                ground (arith, u),
                counters-enqueue append _ (bump_slot epoch slot e)
                    ∙ counters-bump_slot epoch slot e,
              ))
      ]
    ]

seal-Numbered :
    (epoch seq suite : ℕ) (keys : EpochKeys) (sealed : Option Bytes) (e : Engine)
    → Numbered e (slot_of e epoch) (seal epoch seq suite keys sealed e)
seal-Numbered epoch seq suite keys none e = failed e (slot_of e epoch) crypto_failed
seal-Numbered epoch seq suite keys (some ciphertext) e =
    ciphertext_tail-Numbered epoch (slot_of e epoch) seq ciphertext
      (sn_mask e suite keys ciphertext) e

protect_with-Numbered :
    (content_type : ContentType) (epoch seq : ℕ) (bytes : Bytes) (suite : Option ℕ)
    (keys : Option EpochKeys) (e : Engine)
    → Numbered e (slot_of e epoch) (protect_with content_type epoch seq bytes suite keys e)
protect_with-Numbered content_type epoch seq bytes none keys e = failed e (slot_of e epoch) panicked
protect_with-Numbered content_type epoch seq bytes (some suite) none e =
    failed e (slot_of e epoch) (send_keys_not_available epoch)
protect_with-Numbered content_type epoch seq bytes (some suite) (some keys) e =
    seal-Numbered epoch seq suite keys _ e

protect-Numbered :
    (content_type : ContentType) (epoch : ℕ) (bytes : Bytes) (e : Engine)
    → Numbered e (slot_of e epoch) (protect content_type epoch bytes e)
unfolding protect
protect-Numbered content_type epoch bytes e = protect_with-Numbered content_type epoch _ bytes _ _ e

abbrev pub with_saved : Entry → Engine → Engine
with_saved entry e = record e { flight_saved_records = e.flight_saved_records ++ (entry ∷ []) }

-- What saving a record does.
pub save_record-cases :
    (entry : Entry) (e : Engine)
    → (save_record entry e ≡ (e, err panicked))
      ⊎ (save_record entry e ≡ (with_saved entry e, ok tt))
unfolding save_record
save_record-cases entry e =
    elim (Bool-cases (leb flight_capacity (length e.flight_saved_records))) [
      | inl t ↦ inl (rw t refl)
      | inr t ↦ inr (rw t refl)
    ]

abbrev pub entry_for : ContentType → ℕ → Bytes → Engine → Entry
entry_for content_type epoch bytes e = record {
  content_type = content_type;
  epoch = epoch;
  send_seq = slot_seq e (slot_of e epoch);
  fragment = bytes;
  acked = false;
}

-- Building a protected record, whether it is saved for a resend or not, either succeeds, and then the
-- counter of its keys, which was below 2^48 - 1, goes up by one, and the other two stay; or it
-- fails, and the three counters stay as they are.
pub create_ciphertext_record-Numbered :
    (content_type : ContentType) (epoch : ℕ) (save : Bool) (bytes : Bytes) (e : Engine)
    → Numbered e (slot_of e epoch) (create_ciphertext_record content_type epoch save bytes e)
unfolding create_ciphertext_record slot_of
create_ciphertext_record-Numbered content_type epoch false bytes e =
    protect-Numbered content_type epoch bytes e
create_ciphertext_record-Numbered content_type epoch true bytes e =
    let m = save_record (entry_for content_type epoch bytes e) in
    let k = protect content_type epoch bytes in
    elim (save_record-cases (entry_for content_type epoch bytes e) e) [
      | inl t ↦
          subst (Numbered e (slot_of e epoch)) (sym (then-err m k e e panicked t))
            (failed e (slot_of e epoch) panicked)
      | inr t ↦
          subst (Numbered e (slot_of e epoch))
            (sym (then-ok m k e (with_saved (entry_for content_type epoch bytes e) e) t))
            (protect-Numbered content_type epoch bytes
              (with_saved (entry_for content_type epoch bytes e) e))
    ]
