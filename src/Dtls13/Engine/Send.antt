-- ===== src/Dtls13/Engine/Send.antt =====
-- src/dtls13/engine.rs: how records are numbered, protected and packed into datagrams.
use dimpl.Base.{
  ℕ, ◌+◌, ◌%◌, bit_xor, Bool, true, false, not, ◌&&◌, Option, none, some, List, [], ◌∷◌, ◌++◌, ok,
  err, Bytes, leb, ◌==◌, if◌then◌else◌, length, take, drop, slice, last?, replicate,
}
use dimpl.Wire.{ContentType, u16_bytes, u64_bytes, application_data}
use dimpl.Dtls13.Record.{plaintext_header_len, serialize, unified_flags}
use dimpl.Dtls13.Engine.{
  Engine, Entry, EpochKeys, M, ◌>>◌, transmit_queue_full, panicked,
  epoch0_sequence_number_exhausted, send_sequence_number_exhausted, send_keys_not_available,
  crypto_failed, max_sequence_number, flight_capacity,
}

-- `flight_saved_records.push(…)`: an `ArrayVec` that is full panics.
unfoldable pub save_record : Entry → M (Unit {0})
save_record entry e =
    if leb flight_capacity (length e.flight_saved_records)
    then (e, err panicked)
    else (record e { flight_saved_records = e.flight_saved_records ++ (entry ∷ []) }, ok tt)

-- Whether the last datagram of the queue has room for a record of `len` bytes and is not sealed.
unfoldable pub can_append : Engine → ℕ → Bool
can_append e len =
    not e.datagram_sealed
    && elim (last? e.queue_tx) [ none ↦ false | some b ↦ leb (length b + len) e.config.mtu ]

-- `queue_tx.back_mut()`, extended
abbrev pub extend_last : List Bytes → Bytes → List Bytes
extend_last [] bytes = []
extend_last (b ∷ []) bytes = (b ++ bytes) ∷ []
extend_last (b ∷ c ∷ q) bytes = b ∷ extend_last (c ∷ q) bytes

-- The end of both record builders: into the last datagram, or a fresh one.
unfoldable pub enqueue : Bool → Bytes → Engine → Engine
enqueue append bytes e =
    if append
    then record e { queue_tx = extend_last e.queue_tx bytes }
    else record e { queue_tx = e.queue_tx ++ (bytes ∷ []); datagram_sealed = false }

-- The checks, the number and the packing of a plaintext record, once the fragment is saved.
unfoldable pub plaintext_tail : ContentType → Bytes → M (Unit {0})
plaintext_tail content_type fragment e =
    let append = can_append e (plaintext_header_len + length fragment) in
    if not append && leb e.config.max_queue_tx (length e.queue_tx)
    then (e, err transmit_queue_full)
    else if leb max_sequence_number e.sequence_epoch_0.sequence_number
    then (e, err epoch0_sequence_number_exhausted)
    else (let sequence = e.sequence_epoch_0 in
        let next = record sequence { sequence_number = sequence.sequence_number + 1 } in
        let wire =
          serialize
            (record {
              content_type = content_type;
              sequence = sequence;
              length = length fragment % 65536;
              fragment_start = 0;
              fragment_end = length fragment;
            })
            fragment in
        (enqueue append wire (record e { sequence_epoch_0 = next }), ok tt))

-- `f` writes the fragment: here its bytes.
unfoldable pub create_plaintext_record : ContentType → Bool → Bytes → M (Unit {0})
create_plaintext_record content_type save_fragment fragment e =
    if save_fragment
    then (do
      save_record (record {
        content_type = content_type;
        epoch = 0;
        send_seq = e.sequence_epoch_0.sequence_number;
        fragment = fragment;
        acked = false;
      })
      plaintext_tail content_type fragment)
        e
    else plaintext_tail content_type fragment e

-- Which send keys, with their sequence number, an epoch takes.
pub data Slot : Type 0 where
  hs prev app : Slot

abbrev pub is_some {ℓ} : {A : Type ℓ} → Option A → Bool
is_some none = false
is_some (some a) = true

unfoldable pub slot_of : Engine → ℕ → Slot
slot_of e epoch =
    if epoch == 2
    then hs
    else if is_some e.prev_app_send_keys && epoch == e.prev_app_send_epoch
    then prev
    else app

abbrev pub slot_seq : Engine → Slot → ℕ
slot_seq e hs = e.hs_send_seq
slot_seq e prev = e.prev_app_send_seq
slot_seq e app = e.app_send_seq

abbrev pub slot_keys : Engine → Slot → Option EpochKeys
slot_keys e hs = e.hs_send_keys
slot_keys e prev = e.prev_app_send_keys
slot_keys e app = e.app_send_keys

-- The increment of the number, which must not pass 2^48 - 1, and the count of application records.
unfoldable pub bump_slot : ℕ → Slot → Engine → Engine
bump_slot epoch hs e = record e { hs_send_seq = e.hs_send_seq + 1 }
bump_slot epoch prev e = record e { prev_app_send_seq = e.prev_app_send_seq + 1 }
bump_slot epoch app e =
    if leb 3 epoch
    then record e {
      app_send_seq = e.app_send_seq + 1;
      app_send_record_count = e.app_send_record_count + 1;
      needs_key_update =
          if leb e.aead_encryption_threshold (e.app_send_record_count + 1)
          then true
          else e.needs_key_update;
    }
    else record e { app_send_seq = e.app_send_seq + 1 }

-- `Nonce::xor`: the IV with its last 8 bytes XORed with the number.
abbrev pub xor_bytes : Bytes → Bytes → Bytes
xor_bytes [] ys = []
xor_bytes (x ∷ xs) [] = x ∷ xs
xor_bytes (x ∷ xs) (y ∷ ys) = bit_xor x y ∷ xor_bytes xs ys

unfoldable pub nonce_xor : Bytes → ℕ → Bytes
nonce_xor iv seq = take 4 iv ++ xor_bytes (drop 4 iv) (u64_bytes seq)

-- The unified header, which is the additional data: flags, 16 bits of the number, and the length.
unfoldable pub unified_header : ℕ → ℕ → ℕ → Bytes
unified_header epoch seq ciphertext_len =
    unified_flags epoch ∷ (u16_bytes (seq % 65536) ++ u16_bytes (ciphertext_len % 65536))

-- `suite.encrypt_sn` on the first 16 bytes, and no mask for a shorter ciphertext.
unfoldable pub sn_mask : Engine → ℕ → EpochKeys → Bytes → Bytes
sn_mask e suite keys ciphertext =
    if leb 16 (length ciphertext)
    then e.config.provider.encrypt_sn suite keys.sn_key (take 16 ciphertext)
    else replicate 16 0

-- Bytes 1 and 2 of a record XORed with the mask.
abbrev pub mask_number : Bytes → Bytes → Bytes
mask_number mask wire = take 1 wire ++ (xor_bytes (slice 1 3 wire) (take 2 mask) ++ drop 3 wire)

unfoldable pub ciphertext_tail : ℕ → Slot → ℕ → Bytes → Bytes → M (Unit {0})
ciphertext_tail epoch slot seq ciphertext mask e =
    let append = can_append e (5 + length ciphertext) in
    if not append && leb e.config.max_queue_tx (length e.queue_tx)
    then (e, err transmit_queue_full)
    else if leb max_sequence_number (slot_seq e slot)
    then (e, err (send_sequence_number_exhausted epoch))
    else (let wire =
          serialize
            (record {
              content_type = application_data;
              sequence = record { epoch = epoch; sequence_number = seq };
              length = length ciphertext % 65536;
              fragment_start = 0;
              fragment_end = length ciphertext;
            })
            ciphertext in
        (enqueue append (mask_number mask wire) (bump_slot epoch slot e), ok tt))

-- The record behind the encryption, which may have failed.
abbrev pub seal : ℕ → ℕ → ℕ → EpochKeys → Option Bytes → M (Unit {0})
seal epoch seq suite keys none e = (e, err crypto_failed)
seal epoch seq suite keys (some ciphertext) e =
    ciphertext_tail epoch (slot_of e epoch) seq ciphertext (sn_mask e suite keys ciphertext) e

-- `suite_provider()` unwraps the negotiated suite.
abbrev pub protect_with : ContentType → ℕ → ℕ → Bytes → Option ℕ → Option EpochKeys → M (Unit {0})
protect_with content_type epoch seq fragment none keys e = (e, err panicked)
protect_with content_type epoch seq fragment (some suite) none e =
    (e, err (send_keys_not_available epoch))
protect_with content_type epoch seq fragment (some suite) (some keys) e =
    let inner = fragment ++ (content_type ∷ []) in
    let header = unified_header epoch seq (length inner + e.config.provider.tag_len suite) in
    seal epoch seq suite keys
      (e.config.provider.encrypt keys.cipher header (nonce_xor keys.iv seq) inner) e

unfoldable pub protect : ContentType → ℕ → Bytes → M (Unit {0})
protect content_type epoch fragment e =
    let slot = slot_of e epoch in
    protect_with content_type epoch (slot_seq e slot) fragment e.cipher_suite (slot_keys e slot) e

unfoldable pub create_ciphertext_record : ContentType → ℕ → Bool → Bytes → M (Unit {0})
create_ciphertext_record content_type epoch save_fragment fragment e =
    if save_fragment
    then (do
      save_record (record {
        content_type = content_type;
        epoch = epoch;
        send_seq = slot_seq e (slot_of e epoch);
        fragment = fragment;
        acked = false;
      })
      protect content_type epoch fragment)
        e
    else protect content_type epoch fragment e
