-- ===== src/Dtls13/Engine/Sealed.antt =====
-- src/dtls13/engine.rs, `create_ciphertext_record`: what is encrypted, and under which nonce.
use dimpl.Base.{
  ℕ, ◌+◌, ◌≡◌, refl, sym, ◌∙◌, inl, inr, Bool, true, false, Option, none, some, [], ◌∷◌, ◌++◌, ok,
  Bytes, length, subst,
}
use dimpl.Wire.{ContentType}
use dimpl.Dtls13.Engine.{Engine, EpochKeys, crypto_failed, then-ok, then-err, panicked}
use dimpl.Dtls13.Engine.Send.{
  slot_of, slot_seq, slot_keys, create_ciphertext_record, protect, protect_with, seal,
  unified_header, nonce_xor, save_record, sn_mask,
}
use dimpl.Dtls13.Engine.Numbers.{save_record-cases, with_saved, entry_for}
use dimpl.Dtls13.Engine.LastSent.{LastSent, failed, ciphertext_tail-LastSent}

-- The call that built a record in state `e` encrypted its content, with the type behind it, under the
-- given keys and nonce, and put the result at the end of the transmit queue.
pub record Sealed (ct : ContentType) (epoch : ℕ) (bytes : Bytes) (e e1 : Engine) (keys : EpochKeys)
    (nonce : Bytes) : Type 0 where
  pub suite : ℕ
  pub ciphertext : Bytes
  pub suite_there : e.cipher_suite ≡ some suite
  pub keys_there : slot_keys e (slot_of e epoch) ≡ some keys
  pub encrypted :
      e.config.provider.encrypt keys.cipher
        (unified_header epoch
          (slot_seq e (slot_of e epoch))
          (length (bytes ++ (ct ∷ [])) + e.config.provider.tag_len suite))
        nonce
        (bytes ++ (ct ∷ []))
      ≡ some ciphertext
  pub sent : LastSent ciphertext e1.queue_tx

seal-Sealed :
    (ct : ContentType) (epoch suite : ℕ) (bytes : Bytes) (keys : EpochKeys) (e e1 : Engine)
    → e.cipher_suite ≡ some suite
    → slot_keys e (slot_of e epoch) ≡ some keys
    → (o : Option Bytes)
    → e.config.provider.encrypt keys.cipher
        (unified_header epoch
          (slot_seq e (slot_of e epoch))
          (length (bytes ++ (ct ∷ [])) + e.config.provider.tag_len suite))
        (nonce_xor keys.iv (slot_seq e (slot_of e epoch)))
        (bytes ++ (ct ∷ []))
      ≡ o
    → seal epoch (slot_seq e (slot_of e epoch)) suite keys o e ≡ (e1, ok tt)
    → Sealed ct epoch bytes e e1 keys (nonce_xor keys.iv (slot_seq e (slot_of e epoch)))
seal-Sealed ct epoch suite bytes keys e e1 there keyed none c h =
    absurd (failed crypto_failed e e1 h)
seal-Sealed ct epoch suite bytes keys e e1 there keyed (some ciphertext) c h = record {
  suite = suite;
  ciphertext = ciphertext;
  suite_there = there;
  keys_there = keyed;
  encrypted = c;
  sent =
      ciphertext_tail-LastSent epoch (slot_of e epoch) (slot_seq e (slot_of e epoch)) ciphertext
        (sn_mask e suite keys ciphertext) e e1 h;
}

with_suite :
    (ct : ContentType) (epoch : ℕ) (bytes : Bytes) (keys : EpochKeys) (e e1 : Engine)
    → slot_keys e (slot_of e epoch) ≡ some keys
    → (o : Option ℕ) → e.cipher_suite ≡ o
    → protect_with ct epoch (slot_seq e (slot_of e epoch)) bytes o (some keys) e ≡ (e1, ok tt)
    → Sealed ct epoch bytes e e1 keys (nonce_xor keys.iv (slot_seq e (slot_of e epoch)))
with_suite ct epoch bytes keys e e1 keyed none there h = absurd (failed panicked e e1 h)
with_suite ct epoch bytes keys e e1 keyed (some suite) there h =
    seal-Sealed ct epoch suite bytes keys e e1 there keyed _ refl h

protect-Sealed :
    (ct : ContentType) (epoch : ℕ) (bytes : Bytes) (keys : EpochKeys) (e e1 : Engine)
    → slot_keys e (slot_of e epoch) ≡ some keys
    → protect ct epoch bytes e ≡ (e1, ok tt)
    → Sealed ct epoch bytes e e1 keys (nonce_xor keys.iv (slot_seq e (slot_of e epoch)))
unfolding protect
protect-Sealed ct epoch bytes keys e e1 keyed h =
    with_suite ct epoch bytes keys e e1 keyed e.cipher_suite refl (
      subst
        (λ k.
          protect_with ct epoch (slot_seq e (slot_of e epoch)) bytes e.cipher_suite k e
          ≡ (e1, ok tt))
        keyed h)

-- A protected record that is built under some keys is encrypted under its number's nonce.
pub create_ciphertext_record-Sealed :
    (ct : ContentType) (epoch : ℕ) (save : Bool) (bytes : Bytes) (keys : EpochKeys) (e e1 : Engine)
    → slot_keys e (slot_of e epoch) ≡ some keys
    → create_ciphertext_record ct epoch save bytes e ≡ (e1, ok tt)
    → Sealed ct epoch bytes e e1 keys (nonce_xor keys.iv (slot_seq e (slot_of e epoch)))
unfolding create_ciphertext_record slot_of
create_ciphertext_record-Sealed ct epoch false bytes keys e e1 keyed h =
    protect-Sealed ct epoch bytes keys e e1 keyed h
create_ciphertext_record-Sealed ct epoch true bytes keys e e1 keyed h =
    let entry = entry_for ct epoch bytes e in
    let m = save_record entry in
    let k = protect ct epoch bytes in
    elim (save_record-cases entry e) [
      | inl t ↦ absurd (failed panicked e e1 (sym (then-err m k e e panicked t) ∙ h))
      | inr t ↦
          let s =
            protect-Sealed ct epoch bytes keys (with_saved entry e) e1 keyed
              (sym (then-ok m k e (with_saved entry e) t) ∙ h) in
          record {
            suite = s.suite;
            ciphertext = s.ciphertext;
            suite_there = s.suite_there;
            keys_there = keyed;
            encrypted = s.encrypted;
            sent = s.sent;
          }
    ]
