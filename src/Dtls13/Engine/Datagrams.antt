-- ===== src/Dtls13/Engine/Datagrams.antt =====
-- src/dtls13/engine.rs: the two record builders keep the datagrams within the MTU.
use dimpl.Base.{
  ℕ, ◌+◌, ◌≤◌, ◌≡◌, ◌≢◌, refl, sym, subst, inl, inr, Bool, true, false, not, ◌&&◌, Option, none,
  some, [], ◌∷◌, Bytes, length, Bool-cases, leb, arith, length-append,
}
use dimpl.Wire.{ContentType, Sequence, application_data}
use dimpl.Dtls13.Record.{serialize, plaintext_header_len}
use dimpl.Dtls13.Engine.{
  Engine, M, ◌>>◌, then-ok, then-err, EpochKeys, Entry, max_sequence_number, panicked,
}
use dimpl.Dtls13.Engine.Send.{
  Slot, hs, prev, app, slot_of, slot_seq, bump_slot, can_append, ciphertext_tail, plaintext_tail,
  seal, protect_with, protect, save_record, sn_mask, create_plaintext_record,
  create_ciphertext_record, mask_number,
}
use dimpl.Dtls13.Engine.Numbers.{save_record-cases, with_saved}
use dimpl.Crypto.Provider.{Provider}
use dimpl.Dtls13.Engine.Mtu.{
  FitsMtu, enqueue-FitsMtu, length-plaintext, length-ciphertext, record_of,
}

plaintext_tail-FitsMtu :
    (content_type : ContentType) (bytes : Bytes) (e : Engine)
    → e.sequence_epoch_0.epoch ≡ 0
    → 13 + length bytes ≤ e.config.mtu
    → FitsMtu e
    → FitsMtu (plaintext_tail content_type bytes e).0
unfolding plaintext_tail
plaintext_tail-FitsMtu content_type bytes e first small fits =
    let append = can_append e (plaintext_header_len + length bytes) in
    elim (Bool-cases (not append && leb e.config.max_queue_tx (length e.queue_tx))) [
      | inl t ↦ rw t fits
      | inr t ↦ elim (Bool-cases (leb max_sequence_number e.sequence_epoch_0.sequence_number)) [
        | inl u ↦ rw (t, u) fits
        | inr u ↦
            rw (t, u)
              (enqueue-FitsMtu e (13 + length bytes)
                (serialize (record_of content_type e.sequence_epoch_0 bytes) bytes)
                (record e {
                  sequence_epoch_0 = record e.sequence_epoch_0 {
                    sequence_number = e.sequence_epoch_0.sequence_number + 1;
                  };
                })
                refl refl (length-plaintext content_type e.sequence_epoch_0 bytes first) small fits)
      ]
    ]

bump_slot-same :
    (epoch : ℕ) (slot : Slot) (e : Engine)
    → ((bump_slot epoch slot e).config ≡ e.config)
      × ((bump_slot epoch slot e).queue_tx ≡ e.queue_tx)
unfolding bump_slot
bump_slot-same epoch hs e = (refl, refl)
bump_slot-same epoch prev e = (refl, refl)
bump_slot-same epoch app e = elim (Bool-cases (leb 3 epoch)) [
  | inl h ↦ (rw h refl, rw h refl)
  | inr h ↦ (rw h refl, rw h refl)
]

ciphertext_tail-FitsMtu :
    (epoch : ℕ) (slot : Slot) (seq : ℕ) (ciphertext mask : Bytes) (e : Engine)
    → epoch ≢ 0
    → 5 + length ciphertext ≤ e.config.mtu
    → FitsMtu e
    → FitsMtu (ciphertext_tail epoch slot seq ciphertext mask e).0
unfolding ciphertext_tail
ciphertext_tail-FitsMtu epoch slot seq ciphertext mask e protected small fits =
    let append = can_append e (5 + length ciphertext) in
    let number : Sequence = record { epoch = epoch; sequence_number = seq } in
    elim (Bool-cases (not append && leb e.config.max_queue_tx (length e.queue_tx))) [
      | inl t ↦ rw t fits
      | inr t ↦ elim (Bool-cases (leb max_sequence_number (slot_seq e slot))) [
        | inl u ↦ rw (t, u) fits
        | inr u ↦
            rw (t, u)
              (enqueue-FitsMtu e (5 + length ciphertext)
                (mask_number mask
                  (serialize (record_of application_data number ciphertext) ciphertext))
                (bump_slot epoch slot e) (bump_slot-same epoch slot e).0
                (bump_slot-same epoch slot e).1 (length-ciphertext number ciphertext mask protected)
                small fits)
      ]
    ]

-- An AEAD adds a tag of the length that the suite names.
abbrev pub TagSized : Provider → Option ℕ → Type 0
TagSized p none = Unit
TagSized p (some suite) =
    (key aad nonce text ciphertext : Bytes)
    → p.encrypt key aad nonce text ≡ some ciphertext
    → length ciphertext ≡ length text + p.tag_len suite

-- The room that a protected record takes.
abbrev pub protected_len : Provider → Option ℕ → ℕ → ℕ
protected_len p none n = 0
protected_len p (some suite) n = 5 + (n + 1 + p.tag_len suite)

seal-FitsMtu :
    (epoch seq suite : ℕ) (keys : EpochKeys) (sealed : Option Bytes) (e : Engine)
    → epoch ≢ 0
    → ((ciphertext : Bytes) → sealed ≡ some ciphertext → 5 + length ciphertext ≤ e.config.mtu)
    → FitsMtu e
    → FitsMtu (seal epoch seq suite keys sealed e).0
seal-FitsMtu epoch seq suite keys none e protected small fits = fits
seal-FitsMtu epoch seq suite keys (some ciphertext) e protected small fits =
    ciphertext_tail-FitsMtu epoch (slot_of e epoch) seq ciphertext (sn_mask e suite keys ciphertext)
      e protected (small ciphertext refl) fits

protect_with-FitsMtu :
    (content_type : ContentType) (epoch seq : ℕ) (bytes : Bytes) (suite : Option ℕ)
    (keys : Option EpochKeys) (e : Engine)
    → epoch ≢ 0
    → TagSized e.config.provider suite
    → protected_len e.config.provider suite (length bytes) ≤ e.config.mtu
    → FitsMtu e
    → FitsMtu (protect_with content_type epoch seq bytes suite keys e).0
protect_with-FitsMtu content_type epoch seq bytes none keys e protected sized small fits = fits
protect_with-FitsMtu content_type epoch seq bytes (some suite) none e protected sized small fits =
    fits
protect_with-FitsMtu content_type epoch seq bytes (some suite) (some keys) e protected sized small
      fits =
    seal-FitsMtu epoch seq suite keys _ e protected
      (λ ciphertext made.
        let size = sized _ _ _ _ ciphertext made in
        omega (arith, size, length-append bytes (content_type ∷ []), small))
      fits

saved_then-FitsMtu :
    (entry : Entry) (k : M (Unit {0})) (e : Engine)
    → FitsMtu e
    → FitsMtu (k (with_saved entry e)).0
    → FitsMtu ((save_record entry >> k) e).0
saved_then-FitsMtu entry k e fits after = elim (save_record-cases entry e) [
  | inl t ↦ subst (λ p. FitsMtu p.0) (sym (then-err (save_record entry) k e e panicked t)) fits
  | inr t ↦
      subst (λ p. FitsMtu p.0) (sym (then-ok (save_record entry) k e (with_saved entry e) t)) after
]

-- Where every waiting datagram fits the MTU, it still does after a plaintext record that fits it by
-- itself has been built or refused, saved for a resend or not.
pub create_plaintext_record-FitsMtu :
    (content_type : ContentType) (save : Bool) (bytes : Bytes) (e : Engine)
    → e.sequence_epoch_0.epoch ≡ 0
    → 13 + length bytes ≤ e.config.mtu
    → FitsMtu e
    → FitsMtu (create_plaintext_record content_type save bytes e).0
unfolding create_plaintext_record
create_plaintext_record-FitsMtu content_type false bytes e first small fits =
    plaintext_tail-FitsMtu content_type bytes e first small fits
create_plaintext_record-FitsMtu content_type true bytes e first small fits =
    saved_then-FitsMtu _ (plaintext_tail content_type bytes) e fits
      (plaintext_tail-FitsMtu content_type bytes (with_saved _ e) first small fits)

-- The same for a protected record, of 5 bytes, the content, its type and a tag, where the AEAD of the
-- negotiated suite adds a tag of the length that the suite names.
pub create_ciphertext_record-FitsMtu :
    (content_type : ContentType) (epoch : ℕ) (save : Bool) (bytes : Bytes) (e : Engine)
    → epoch ≢ 0
    → TagSized e.config.provider e.cipher_suite
    → protected_len e.config.provider e.cipher_suite (length bytes) ≤ e.config.mtu
    → FitsMtu e
    → FitsMtu (create_ciphertext_record content_type epoch save bytes e).0
unfolding create_ciphertext_record protect
create_ciphertext_record-FitsMtu content_type epoch false bytes e protected sized small fits =
    protect_with-FitsMtu content_type epoch _ bytes e.cipher_suite _ e protected sized small fits
create_ciphertext_record-FitsMtu content_type epoch true bytes e protected sized small fits =
    saved_then-FitsMtu _ (protect content_type epoch bytes) e fits (
      protect_with-FitsMtu content_type epoch _ bytes e.cipher_suite _ (with_saved _ e) protected
        sized small fits)
