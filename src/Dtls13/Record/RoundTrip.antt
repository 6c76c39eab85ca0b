-- ===== src/Dtls13/Record/RoundTrip.antt =====
-- A record that was written is read back, with what follows it.
use dimpl.Base.{
  ℕ, zero, suc, ◌+◌, ◌%◌, ◌^◌, ◌<◌, ◌≡◌, ◌≢◌, ◌⊎◌, bit_and, bit_or, true, ◌++◌, ◌∷◌, ok, Bytes,
  length, arith, refl, ap,
}
use dimpl.Base.Bits.{bit_and-mask}
use dimpl.Wire.{
  alert, handshake, ack, application_data, be_u16, u48_bytes, u16_bytes, take_bytes, be_u8,
}
use dimpl.Wire.Numbers.{be_u16-u16_bytes, be_u48-u48_bytes, take_bytes-append}
use dimpl.Dtls13.Record.{
  Dtls13Record, is_ciphertext_header, parse, parse_plaintext, parse_ciphertext, fragment, serialize,
}

-- What the sender gives: the length field is the fragment's, and the numbers fit their fields.
pub record Fits (r : Dtls13Record) (buf : Bytes) : Type 0 where
  pub exact : length (fragment r buf) ≡ r.length
  pub len : r.length < 2 ^ 16
  pub sequence_number : r.sequence.sequence_number < 2 ^ 48

flags_table :
    (e : ℕ)
    → e < 4
    → (is_ciphertext_header (bit_or 0x2c e) ≡ true)
      × (bit_and (bit_or 0x2c e) 0x10 ≡ 0)
      × (bit_and (bit_or 0x2c e) 0x08 ≡ 8)
      × (bit_and (bit_or 0x2c e) 0x04 ≡ 4)
      × (bit_and (bit_or 0x2c e) 0x03 ≡ e)
unfolding is_ciphertext_header
flags_table zero h = (refl, refl, refl, refl, refl)
flags_table (suc zero) h = (refl, refl, refl, refl, refl)
flags_table (suc (suc zero)) h = (refl, refl, refl, refl, refl)
flags_table (suc (suc (suc zero))) h = (refl, refl, refl, refl, refl)
flags_table (suc (suc (suc (suc e)))) h = absurd (omega arith)

be_u16_version : (rest : Bytes) → be_u16 (0xfe ∷ 0xfd ∷ rest) ≡ ok (rest, 0xfefd)
unfolding be_u16
be_u16_version rest = refl

be_u8_lem : (b : ℕ) (rest : Bytes) → be_u8 (b ∷ rest) ≡ ok (rest, b)
unfolding be_u8
be_u8_lem b rest = refl

module _ (sn len : ℕ) (frag rest : Bytes) (base : ℕ) where
  abbrev plaintext_tail : Bytes
  plaintext_tail = u48_bytes sn ++ (u16_bytes len ++ (frag ++ rest))

  parse_plaintext_lem :
      (ct : ℕ)
      → (ct ≡ alert) ⊎ (ct ≡ handshake) ⊎ (ct ≡ ack)
      → sn < 2 ^ 48
      → len < 2 ^ 16
      → length frag ≡ len
      → parse_plaintext (ct ∷ 0xfe ∷ 0xfd ∷ 0 ∷ 0 ∷ plaintext_tail) base
        ≡ ok (
          rest,
          record {
            content_type = ct;
            sequence = record { epoch = 0; sequence_number = sn };
            length = len;
            fragment_start = base + 13;
            fragment_end = base + 13 + len;
          },
        )
  unfolding parse_plaintext be_u8
  parse_plaintext_lem ct kind hs hl exact = ground (
    arith,
    be_u16_version (0 ∷ 0 ∷ plaintext_tail),
    be_u16-u16_bytes 0 plaintext_tail,
    be_u48-u48_bytes sn (u16_bytes len ++ (frag ++ rest)),
    be_u16-u16_bytes len (frag ++ rest),
    take_bytes-append frag rest,
    ap (λ n. take_bytes n (frag ++ rest)) exact,
  )

  abbrev ciphertext_tail : Bytes
  ciphertext_tail = u16_bytes sn ++ (u16_bytes len ++ (frag ++ rest))

  parse_ciphertext_lem :
      (e : ℕ)
      → e < 4
      → sn < 2 ^ 16
      → len < 2 ^ 16
      → length frag ≡ len
      → parse_ciphertext (bit_or 0x2c e ∷ ciphertext_tail) base
        ≡ ok (
          rest,
          record {
            content_type = application_data;
            sequence = record { epoch = e; sequence_number = sn };
            length = len;
            fragment_start = base + 5;
            fragment_end = base + 5 + len;
          },
        )
  unfolding parse_ciphertext be_u8
  parse_ciphertext_lem e small hs hl exact = ground (
    arith,
    flags_table e small,
    be_u16-u16_bytes sn (u16_bytes len ++ (frag ++ rest)),
    be_u16-u16_bytes len (frag ++ rest),
    take_bytes-append frag rest,
    ap (λ n. take_bytes n (frag ++ rest)) exact,
  )

-- An alert, handshake or ACK record of epoch 0 is read back as it was written, whatever follows it;
-- its fragment stands behind the 13 bytes of the header.
pub parse-serialize_plaintext :
    (r : Dtls13Record) (buf rest : Bytes) (base : ℕ)
    → Fits r buf
    → r.sequence.epoch ≡ 0
    → (r.content_type ≡ alert) ⊎ (r.content_type ≡ handshake) ⊎ (r.content_type ≡ ack)
    → parse (serialize r buf ++ rest) base
      ≡ ok (rest, record r { fragment_start = base + 13; fragment_end = base + 13 + r.length })
unfolding parse serialize
parse-serialize_plaintext r buf rest base h epoch kind = ground (
  arith,
  parse_plaintext_lem r.sequence.sequence_number r.length (fragment r buf) rest base r.content_type
      kind,
  h.exact,
  h.len,
  h.sequence_number,
)

-- A protected record is read back with the low 2 bits of its epoch and the low 16 bits of its
-- sequence number, as application data; its fragment stands behind the 5 bytes of the header.
pub parse-serialize_ciphertext :
    (r : Dtls13Record) (buf rest : Bytes) (base : ℕ)
    → Fits r buf
    → r.sequence.epoch ≢ 0
    → parse (serialize r buf ++ rest) base
      ≡ ok (
        rest,
        record {
          content_type = application_data;
          sequence = record {
            epoch = r.sequence.epoch % 4;
            sequence_number = r.sequence.sequence_number % 2 ^ 16;
          };
          length = r.length;
          fragment_start = base + 5;
          fragment_end = base + 5 + r.length;
        },
      )
unfolding parse serialize
parse-serialize_ciphertext r buf rest base h epoch = ground (
  arith,
  parse_ciphertext_lem (r.sequence.sequence_number % 2 ^ 16) r.length (fragment r buf) rest base
      (r.sequence.epoch % 4),
  flags_table (r.sequence.epoch % 4),
  bit_and-mask (r.sequence.epoch % 256) 2,
  h.exact,
  h.len,
)
