-- ===== src/Dtls13/Engine/Saved.antt =====
-- src/dtls13/engine.rs: what a record leaves of the flight and of the configuration.
use dimpl.Base.{
  ℕ, ◌+◌, ◌≡◌, ◌≢◌, refl, sym, ap, subst, ◌∙◌, inl, inr, Bool, true, false, not, ◌&&◌, Option, none,
  some, List, [], ◌∷◌, ◌++◌, Result, ok, err, Bytes, length, Bool-cases, leb, arith, ◌==◌,
}
use dimpl.Wire.{ContentType, Sequence}
use dimpl.Wire
use dimpl.Dtls13.Record.{plaintext_header_len}
use dimpl.Dtls13.Engine.{
  Engine, Incoming, Config, M, ◌>>◌, then-ok, then-err, EpochKeys, Entry, Error,
  max_sequence_number, panicked, no_end,
}
use dimpl.Dtls13.Engine.Send.{
  Slot, hs, prev, app, slot_of, slot_seq, bump_slot, enqueue, can_append, ciphertext_tail,
  plaintext_tail, seal, protect_with, protect, save_record, sn_mask, create_plaintext_record,
  create_ciphertext_record,
}
use dimpl.Dtls13.Engine.Numbers.{save_record-cases, with_saved}
use dimpl.Dtls13.Engine.Fragment.{send_fragment}

abbrev pub kept : Engine → Config × List Entry × Option ℕ × ℕ × List Incoming
kept e = (e.config, e.flight_saved_records, e.cipher_suite, e.sequence_epoch_0.epoch, e.queue_rx)

-- An effect that keeps the configuration, the saved records, the suite, the first epoch and the
-- receive queue, and that ends.
abbrev pub Keeps : Engine → Engine × Result Error (Unit {0}) → Type 0
Keeps e (e', r) = (kept e' ≡ kept e) × (r ≢ err no_end)

kept-enqueue : (append : Bool) (bytes : Bytes) (e : Engine) → kept (enqueue append bytes e) ≡ kept e
unfolding enqueue
kept-enqueue true bytes e = refl
kept-enqueue false bytes e = refl

kept-bump_slot : (epoch : ℕ) (slot : Slot) (e : Engine) → kept (bump_slot epoch slot e) ≡ kept e
unfolding bump_slot
kept-bump_slot epoch hs e = refl
kept-bump_slot epoch prev e = refl
kept-bump_slot epoch app e = elim (Bool-cases (leb 3 epoch)) [
  | inl h ↦ rw h refl
  | inr h ↦ rw h refl
]

ciphertext_tail-Keeps :
    (epoch : ℕ) (slot : Slot) (seq : ℕ) (ciphertext mask : Bytes) (e : Engine)
    → Keeps e (ciphertext_tail epoch slot seq ciphertext mask e)
unfolding ciphertext_tail
ciphertext_tail-Keeps epoch slot seq ciphertext mask e =
    let append = can_append e (5 + length ciphertext) in
    elim (Bool-cases (not append && leb e.config.max_queue_tx (length e.queue_tx))) [
      | inl t ↦ rw t (refl, λ h. cc)
      | inr t ↦ elim (Bool-cases (leb max_sequence_number (slot_seq e slot))) [
        | inl u ↦ rw (t, u) (refl, λ h. cc)
        | inr u ↦
            rw (t, u)
              (
                kept-enqueue append _ (bump_slot epoch slot e) ∙ kept-bump_slot epoch slot e,
                λ h. cc,
              )
      ]
    ]

pub plaintext_tail-Keeps :
    (content_type : ContentType) (bytes : Bytes) (e : Engine)
    → Keeps e (plaintext_tail content_type bytes e)
unfolding plaintext_tail
plaintext_tail-Keeps content_type bytes e =
    let append = can_append e (plaintext_header_len + length bytes) in
    elim (Bool-cases (not append && leb e.config.max_queue_tx (length e.queue_tx))) [
      | inl t ↦ rw t (refl, λ h. cc)
      | inr t ↦ elim (Bool-cases (leb max_sequence_number e.sequence_epoch_0.sequence_number)) [
        | inl u ↦ rw (t, u) (refl, λ h. cc)
        | inr u ↦
            rw (t, u)
              (
                kept-enqueue append _ (record e {
                  sequence_epoch_0 = record e.sequence_epoch_0 {
                    sequence_number = e.sequence_epoch_0.sequence_number + 1;
                  };
                }),
                λ h. cc,
              )
      ]
    ]

seal-Keeps :
    (epoch seq suite : ℕ) (keys : EpochKeys) (sealed : Option Bytes) (e : Engine)
    → Keeps e (seal epoch seq suite keys sealed e)
seal-Keeps epoch seq suite keys none e = (refl, λ h. cc)
seal-Keeps epoch seq suite keys (some ciphertext) e =
    ciphertext_tail-Keeps epoch (slot_of e epoch) seq ciphertext (sn_mask e suite keys ciphertext) e

protect_with-Keeps :
    (content_type : ContentType) (epoch seq : ℕ) (bytes : Bytes) (suite : Option ℕ)
    (keys : Option EpochKeys) (e : Engine)
    → Keeps e (protect_with content_type epoch seq bytes suite keys e)
protect_with-Keeps content_type epoch seq bytes none keys e = (refl, λ h. cc)
protect_with-Keeps content_type epoch seq bytes (some suite) none e = (refl, λ h. cc)
protect_with-Keeps content_type epoch seq bytes (some suite) (some keys) e =
    seal-Keeps epoch seq suite keys _ e

pub protect-Keeps :
    (content_type : ContentType) (epoch : ℕ) (bytes : Bytes) (e : Engine)
    → Keeps e (protect content_type epoch bytes e)
unfolding protect
protect-Keeps content_type epoch bytes e = protect_with-Keeps content_type epoch _ bytes _ _ e

-- A fragment that is sent is saved, with its epoch; one that is not has failed for a reason. The
-- configuration, the suite and the first epoch stay.
abbrev pub Saves : ℕ → Bytes → Engine → Engine × Result Error (Unit {0}) → Type 0
Saves epoch bytes e (e', r) =
    (e'.config ≡ e.config)
    × (r ≢ err no_end)
    × (r ≡ ok tt
        → (entry : Entry) × (e'.flight_saved_records ≡ e.flight_saved_records ++ (entry ∷ []))
          × (entry.fragment ≡ bytes)
          × (entry.epoch ≡ epoch)
          × (entry.content_type ≡ Wire.handshake))
    × (e'.cipher_suite ≡ e.cipher_suite)
    × (e'.sequence_epoch_0.epoch ≡ e.sequence_epoch_0.epoch)

-- Saving an entry and going on with an effect that keeps it.
then-Saves :
    (epoch : ℕ) (bytes : Bytes) (entry : Entry) (k : M (Unit {0})) (e : Engine)
    → entry.fragment ≡ bytes
    → entry.epoch ≡ epoch
    → entry.content_type ≡ Wire.handshake
    → ((e' : Engine) → Keeps e' (k e'))
    → Saves epoch bytes e ((save_record entry >> k) e)
then-Saves epoch bytes entry k e same_bytes same_epoch same_type keeps =
    let m = save_record entry in
    elim (save_record-cases entry e) [
      | inl t ↦
          subst (Saves epoch bytes e) (sym (then-err m k e e panicked t))
            (refl, (λ h. cc), (λ h. cc), refl, refl)
      | inr t ↦ subst (Saves epoch bytes e) (sym (then-ok m k e (with_saved entry e) t)) (
        ap (λ p. p.0) (keeps (with_saved entry e)).0,
        (keeps (with_saved entry e)).1,
        (λ h. (
          entry,
          ap (λ p. p.1) (keeps (with_saved entry e)).0,
          same_bytes,
          same_epoch,
          same_type,
        )),
        ap (λ p. p.2) (keeps (with_saved entry e)).0,
        ap (λ p. p.3) (keeps (with_saved entry e)).0,
      )
    ]

pub send_fragment-Saves :
    (epoch : ℕ) (bytes : Bytes) (e : Engine) → Saves epoch bytes e (send_fragment epoch bytes e)
unfolding send_fragment create_plaintext_record create_ciphertext_record
send_fragment-Saves epoch bytes e = elim (Bool-cases (epoch == 0)) [
  | inl t ↦ rw t (
      then-Saves epoch bytes _ (plaintext_tail Wire.handshake bytes) e refl (ground (arith, t)) refl
        (plaintext_tail-Keeps Wire.handshake bytes))
  | inr t ↦ rw t (
      then-Saves epoch bytes _ (protect Wire.handshake epoch bytes) e refl refl refl
        (protect-Keeps Wire.handshake epoch bytes))
]
