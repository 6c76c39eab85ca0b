-- ===== src/Dtls13/Engine/Nonce.antt =====
-- src/crypto/dtls_aead.rs and src/dtls13/engine.rs: the nonces under which records are encrypted.
use dimpl.Base.{
  ℕ, ◌+◌, ◌^◌, ◌≤◌, ◌<◌, ◌≡◌, ◌≢◌, refl, sym, ap, ap₂, subst, ◌∙◌, inl, inr, Bool, [], ◌∷◌, ◌++◌,
  some, ok, Bytes, length, take, drop, arith, bit_xor, length-drop,
}
use dimpl.Base.Xor.{bit_xor_cancel}
use dimpl.Wire.{ContentType, u64_bytes, u64_of_bytes}
use dimpl.Wire.Numbers.{u64_of_bytes-u64_bytes}
use dimpl.Dtls13.Engine.{Engine, EpochKeys, max_sequence_number}
use dimpl.Dtls13.Engine.Send.{
  Slot, hs, prev, app, slot_of, slot_seq, slot_keys, create_ciphertext_record, nonce_xor, xor_bytes,
}
use dimpl.Dtls13.Engine.Sealed.{Sealed, create_ciphertext_record-Sealed}
use dimpl.Dtls13.Engine.Numbers.{counters, raised, Numbered, create_ciphertext_record-Numbered}

abbrev of_cons : ℕ → Bytes → Bytes
of_cons a xs = a ∷ xs

tails : (p xs ys : Bytes) → p ++ xs ≡ p ++ ys → xs ≡ ys
tails [] xs ys h = h
tails (a ∷ p) xs ys h = tails p xs ys (ap (drop 1) h)

cons_parts : (a b : ℕ) (xs ys : Bytes) → of_cons a xs ≡ of_cons b ys → (a ≡ b) × (xs ≡ ys)
cons_parts a b xs ys h = (cc, cc)

xor_bytes_cancel :
    (xs ys zs : Bytes)
    → length ys ≡ length xs
    → length zs ≡ length xs
    → xor_bytes xs ys ≡ xor_bytes xs zs
    → ys ≡ zs
xor_bytes_cancel [] [] [] hy hz h = refl
xor_bytes_cancel [] (y ∷ ys) zs hy hz h = absurd (omega arith)
xor_bytes_cancel [] [] (z ∷ zs) hy hz h = absurd (omega arith)
xor_bytes_cancel (x ∷ xs) [] zs hy hz h = absurd (omega arith)
xor_bytes_cancel (x ∷ xs) (y ∷ ys) [] hy hz h = absurd (omega arith)
xor_bytes_cancel (x ∷ xs) (y ∷ ys) (z ∷ zs) hy hz h =
    let parts = cons_parts (bit_xor x y) (bit_xor x z) (xor_bytes xs ys) (xor_bytes xs zs) h in
    ap₂ (λ b bs. b ∷ bs) (bit_xor_cancel x y z parts.0)
      (xor_bytes_cancel xs ys zs (omega arith) (omega arith) parts.1)

-- An IV of 12 bytes gives different nonces for different 64-bit sequence numbers.
pub nonce_xor-injective :
    (iv : Bytes) (s t : ℕ)
    → length iv ≡ 12
    → s < 2 ^ 64
    → t < 2 ^ 64
    → nonce_xor iv s ≡ nonce_xor iv t
    → s ≡ t
unfolding nonce_xor
nonce_xor-injective iv s t size small small' h =
    let masked : xor_bytes (drop 4 iv) (u64_bytes s) ≡ xor_bytes (drop 4 iv) (u64_bytes t) =
      tails (take 4 iv) (xor_bytes (drop 4 iv) (u64_bytes s)) (xor_bytes (drop 4 iv) (u64_bytes t))
        h in
    let eight : 8 ≡ length (drop 4 iv) = omega (arith, length-drop 4 iv) in
    sym (u64_of_bytes-u64_bytes s small)
    ∙ ap u64_of_bytes (xor_bytes_cancel (drop 4 iv) (u64_bytes s) (u64_bytes t) eight eight masked)
    ∙ u64_of_bytes-u64_bytes t small'

-- A run of protected records that were all built, of any types and epochs, with nothing between them.
pub data Sends : Engine → Engine → Type 0 where
  done : (e : Engine) → Sends e e
  send :
      (content_type : ContentType) (epoch : ℕ) (save : Bool) (bytes : Bytes) (e e1 e2 : Engine)
      → create_ciphertext_record content_type epoch save bytes e ≡ (e1, ok tt)
      → Sends e1 e2
      → Sends e e2

slot_seq-raised :
    (slot s : Slot) (e e' : Engine)
    → counters e' ≡ raised slot (counters e)
    → (slot_seq e s ≤ slot_seq e' s) × (s ≡ slot → slot_seq e' s ≡ slot_seq e s + 1)
slot_seq-raised hs hs e e' h = (ground (arith, h), λ k. ground (arith, h))
slot_seq-raised hs prev e e' h = (ground (arith, h), λ k. ground (arith, h))
slot_seq-raised hs app e e' h = (ground (arith, h), λ k. ground (arith, h))
slot_seq-raised prev hs e e' h = (ground (arith, h), λ k. ground (arith, h))
slot_seq-raised prev prev e e' h = (ground (arith, h), λ k. ground (arith, h))
slot_seq-raised prev app e e' h = (ground (arith, h), λ k. ground (arith, h))
slot_seq-raised app hs e e' h = (ground (arith, h), λ k. ground (arith, h))
slot_seq-raised app prev e e' h = (ground (arith, h), λ k. ground (arith, h))
slot_seq-raised app app e e' h = (ground (arith, h), λ k. ground (arith, h))

-- What a record that was built did to the counters.
sent :
    (content_type : ContentType) (epoch : ℕ) (save : Bool) (bytes : Bytes) (e e1 : Engine)
    → create_ciphertext_record content_type epoch save bytes e ≡ (e1, ok tt)
    → (slot_seq e (slot_of e epoch) < max_sequence_number)
      × (counters e1 ≡ raised (slot_of e epoch) (counters e))
sent content_type epoch save bytes e e1 h =
    elim (subst (Numbered e (slot_of e epoch)) h
      (create_ciphertext_record-Numbered content_type epoch save bytes e)) [
        | inl (r, small, c) ↦ (small, c)
        | inr (r, c) ↦ absurd (r refl)
      ]

Sends-monotone : (e e' : Engine) (s : Slot) → Sends e e' → slot_seq e s ≤ slot_seq e' s
Sends-monotone _ _ s (done e) = omega arith
Sends-monotone _ _ s (send content_type epoch save bytes e e1 e2 h more) = omega (
  arith,
  (slot_seq-raised (slot_of e epoch) s e e1 (sent content_type epoch save bytes e e1 h).1).0,
  Sends-monotone e1 e2 s more,
)

nonces_apart :
    (ct ct' : ContentType) (epoch epoch' : ℕ) (save save' : Bool) (bytes bytes' iv : Bytes)
    (e e1 e2 e3 : Engine)
    → length iv ≡ 12
    → create_ciphertext_record ct epoch save bytes e ≡ (e1, ok tt)
    → Sends e1 e2
    → create_ciphertext_record ct' epoch' save' bytes' e2 ≡ (e3, ok tt)
    → slot_of e2 epoch' ≡ slot_of e epoch
    → nonce_xor iv (slot_seq e (slot_of e epoch)) ≢ nonce_xor iv (slot_seq e2 (slot_of e2 epoch'))
nonces_apart ct ct' epoch epoch' save save' bytes bytes' iv e e1 e2 e3 size first run last same
      clash =
    let slot = slot_of e epoch in
    let a = sent ct epoch save bytes e e1 first in
    let b = sent ct' epoch' save' bytes' e2 e3 last in
    let up : slot_seq e1 slot ≡ slot_seq e slot + 1 = (slot_seq-raised slot slot e e1 a.1).1 refl in
    let more : slot_seq e1 slot ≤ slot_seq e2 slot = Sends-monotone e1 e2 slot run in
    let limit : slot_seq e2 (slot_of e2 epoch') < max_sequence_number = b.0 in
    let equal : slot_seq e slot ≡ slot_seq e2 (slot_of e2 epoch') =
      nonce_xor-injective iv (slot_seq e slot) (slot_seq e2 (slot_of e2 epoch')) size
        (omega (arith, a.0)) (omega (arith, b.0)) clash in
    let moved : slot_seq e2 (slot_of e2 epoch') ≡ slot_seq e2 slot = ap (slot_seq e2) same in
    omega (arith, up, more, equal, moved)

-- Let one protected record be built, then any run of protected records, then another one, both under
-- the same keys, with an IV of 12 bytes, and let the last take its number from the counter that the first
-- took it from. Then each is encrypted, its content with the type behind it under the unified header with
-- its number, and the ciphertext is the end of the last datagram of the queue; and the two nonces that
-- the encryption was given differ.
pub nonces_differ :
    (ct ct' : ContentType) (epoch epoch' : ℕ) (save save' : Bool) (bytes bytes' : Bytes)
    (keys : EpochKeys) (e e1 e2 e3 : Engine)
    → length keys.iv ≡ 12
    → slot_keys e (slot_of e epoch) ≡ some keys
    → slot_keys e2 (slot_of e2 epoch') ≡ some keys
    → create_ciphertext_record ct epoch save bytes e ≡ (e1, ok tt)
    → Sends e1 e2
    → create_ciphertext_record ct' epoch' save' bytes' e2 ≡ (e3, ok tt)
    → slot_of e2 epoch' ≡ slot_of e epoch
    → (nonce nonce' : Bytes) × Sealed ct epoch bytes e e1 keys nonce
      × Sealed ct' epoch' bytes' e2 e3 keys nonce'
      × (nonce ≢ nonce')
nonces_differ ct ct' epoch epoch' save save' bytes bytes' keys e e1 e2 e3 size keyed keyed' first
      run last same =
    (
      nonce_xor keys.iv (slot_seq e (slot_of e epoch)),
      nonce_xor keys.iv (slot_seq e2 (slot_of e2 epoch')),
      create_ciphertext_record-Sealed ct epoch save bytes keys e e1 keyed first,
      create_ciphertext_record-Sealed ct' epoch' save' bytes' keys e2 e3 keyed' last,
      nonces_apart ct ct' epoch epoch' save save' bytes bytes' keys.iv e e1 e2 e3 size first run
          last same,
    )
