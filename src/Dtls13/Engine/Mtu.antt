-- ===== src/Dtls13/Engine/Mtu.antt =====
-- src/dtls13/engine.rs: no datagram is larger than the MTU.
use dimpl.Base.{
  ℕ, ◌+◌, ◌%◌, ◌≤◌, ◌≡◌, ◌≢◌, refl, ap, ◌∙◌, inl, inr, true, false, some, List, [], ◌∷◌, ◌++◌,
  Bytes, length, take, slice, All, All-append, last?, Bool-cases, Option-cases, arith, ◌==◌,
  length-append, length-slice,
}
use dimpl.Wire.{ContentType, Sequence, u16_bytes, application_data}
use dimpl.Dtls13.Record.{Dtls13Record, serialize}
use dimpl.Dtls13.Engine.{Engine}
use dimpl.Dtls13.Engine.Send.{enqueue, extend_last, can_append, mask_number, xor_bytes}

-- Every datagram that waits to be sent fits the MTU.
abbrev pub FitsMtu : Engine → Type 0
FitsMtu e = All (λ d. length d ≤ e.config.mtu) e.queue_tx

extend_last-All :
    (m : ℕ) (q : List Bytes) (b bytes : Bytes)
    → last? q ≡ some b
    → length b + length bytes ≤ m
    → All (λ d. length d ≤ m) q
    → All (λ d. length d ≤ m) (extend_last q bytes)
extend_last-All m [] b bytes l h a = tt
extend_last-All m (c ∷ []) b bytes l h a =
    let same : length c ≡ length b = ground (arith, l) in
    (omega (arith, length-append c bytes, same), tt)
extend_last-All m (c ∷ d ∷ q) b bytes l h a = (a.0, extend_last-All m (d ∷ q) b bytes l h a.1)

can_append_lem :
    (e : Engine) (len : ℕ)
    → can_append e len ≡ true
    → (b : Bytes) × (last? e.queue_tx ≡ some b) × (length b + len ≤ e.config.mtu)
unfolding can_append
can_append_lem e len h = elim (Option-cases (last? e.queue_tx)) [
  | inl n ↦ ground (arith, h, n)
  | inr (b, n) ↦ (b, n, ground (arith, h, n))
]

-- A record of the length that was asked for goes into the last datagram, where it fits, or a fresh one.
pub enqueue-FitsMtu :
    (e : Engine) (len : ℕ) (bytes : Bytes) (e' : Engine)
    → e'.config ≡ e.config
    → e'.queue_tx ≡ e.queue_tx
    → length bytes ≡ len
    → len ≤ e.config.mtu
    → FitsMtu e
    → FitsMtu (enqueue (can_append e len) bytes e')
unfolding enqueue
enqueue-FitsMtu e len bytes e' same_config same_queue size small fits =
    elim (Bool-cases (can_append e len)) [
      | inl t ↦
          let room = can_append_lem e len t in
          rw (t, same_queue, same_config)
            (extend_last-All e.config.mtu e.queue_tx room.0 bytes room.1
              (omega (arith, room.2, size)) fits)
      | inr t ↦
          rw (t, same_queue, same_config)
            (All-append (λ d. length d ≤ e.config.mtu) e.queue_tx (bytes ∷ []) fits
              (omega (arith, size), tt))
    ]

length-xor_bytes : (xs ys : Bytes) → length (xor_bytes xs ys) ≡ length xs
length-xor_bytes [] ys = refl
length-xor_bytes (x ∷ xs) [] = refl
length-xor_bytes (x ∷ xs) (y ∷ ys) = omega (arith, length-xor_bytes xs ys)

-- The records on the wire.
abbrev pub record_of : ContentType → Sequence → Bytes → Dtls13Record
record_of content_type sequence bytes = record {
  content_type = content_type;
  sequence = sequence;
  length = length bytes % 65536;
  fragment_start = 0;
  fragment_end = length bytes;
}

pub length-plaintext :
    (content_type : ContentType) (sequence : Sequence) (bytes : Bytes)
    → sequence.epoch ≡ 0
    → length (serialize (record_of content_type sequence bytes) bytes) ≡ 13 + length bytes
unfolding serialize
length-plaintext content_type sequence bytes h =
    ground (arith, h, length-slice 0 (length bytes) bytes (omega arith))

length-masked :
    (a b : ℕ) (mask rest : Bytes) → length (xor_bytes (a ∷ b ∷ []) mask ++ rest) ≡ 2 + length rest
length-masked a b mask rest =
    length-append (xor_bytes (a ∷ b ∷ []) mask) rest
    ∙ ap (λ n. n + length rest) (length-xor_bytes (a ∷ b ∷ []) mask)

pub length-ciphertext :
    (sequence : Sequence) (bytes mask : Bytes)
    → sequence.epoch ≢ 0
    → length (mask_number mask (serialize (record_of application_data sequence bytes) bytes))
      ≡ 5 + length bytes
unfolding serialize
length-ciphertext sequence bytes mask h =
    let protected : (sequence.epoch == 0) ≡ false = ground (arith, h) in
    rw protected (
      omega (
        arith,
        length-masked _ _ (take 2 mask)
            (u16_bytes (length bytes % 65536) ++ slice 0 (length bytes) bytes),
        length-slice 0 (length bytes) bytes (omega arith),
      ))
