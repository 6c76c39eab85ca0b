-- ===== src/Dtls13/Record.antt =====
-- src/dtls13/message/record.rs: DTLSPlaintext and DTLSCiphertext records.
pub mod RoundTrip
use dimpl.Base.{
  ℕ, ◌+◌, ◌-◌, ◌%◌, bit_and, bit_or, Bool, true, false, not, ◌||◌, List, [], ◌∷◌, ◌++◌, ltb, ◌==◌,
  if◌then◌else◌, Result, ok, err, ◌>>=◌, ◌>>◌, fail_if, Bytes, length, slice,
}
use dimpl.Wire.{
  IResult, eof, tag, error, failure, be_u8, be_u16, be_u48, take_bytes, u16_bytes, u48_bytes,
  ContentType, ProtocolVersion, parse_content_type, parse_version, alert, handshake, ack,
  application_data, dtls1_0, dtls1_2, Sequence,
}

-- `fragment_range` is `fragment_start..fragment_end` in the buffer that holds the record.
pub record Dtls13Record : Type 0 where
  pub content_type : ContentType
  pub sequence : Sequence
  pub length : ℕ
  pub fragment_start : ℕ
  pub fragment_end : ℕ

abbrev pub plaintext_header_len : ℕ
plaintext_header_len = 13

unfoldable pub is_ciphertext_header : ℕ → Bool
is_ciphertext_header byte = bit_and byte 0xe0 == 0x20

-- The place of a slice in the original input is the difference of their start pointers: what was
-- read before the slice.
unfoldable pub parse_plaintext : Bytes → ℕ → IResult Dtls13Record
unfolding parse_content_type parse_version
parse_plaintext original_input base_offset = do
  (input, content_type) ← parse_content_type original_input
  (input, version) ← parse_version input
  fail_if (not (content_type == alert || (content_type == handshake || content_type == ack)))
      (failure tag)
  fail_if (not (version == dtls1_0 || version == dtls1_2)) (failure tag)
  (input, epoch) ← be_u16 input
  fail_if (not (epoch == 0)) (failure tag)
  (input, sequence_number) ← be_u48 input
  (input, len) ← be_u16 input
  (rest, fragment) ← take_bytes len input
  let start = base_offset + (length original_input - length input)
  ok (
    rest,
    record {
      content_type = content_type;
      sequence = record { epoch = epoch; sequence_number = sequence_number };
      length = len;
      fragment_start = start;
      fragment_end = start + length fragment;
    },
  )

-- Without the length flag the record takes the rest of the datagram; `input.len() as u16`.
unfoldable pub parse_ciphertext : Bytes → ℕ → IResult Dtls13Record
parse_ciphertext original_input base_offset = do
  (input, flags) ← be_u8 original_input
  fail_if (not (bit_and flags 0x10 == 0)) (failure tag)
  let s_flag = not (bit_and flags 0x08 == 0)
  let l_flag = not (bit_and flags 0x04 == 0)
  let epoch_bits = bit_and flags 0x03
  (input, sequence_number) ← (if s_flag then be_u16 input else be_u8 input)
  (input, len) ← (if l_flag then be_u16 input else ok (input, length input % 65536))
  (rest, fragment) ← take_bytes len input
  let start = base_offset + (length original_input - length input)
  ok (
    rest,
    record {
      content_type = application_data;
      sequence = record { epoch = epoch_bits; sequence_number = sequence_number };
      length = len;
      fragment_start = start;
      fragment_end = start + length fragment;
    },
  )

unfoldable pub parse : Bytes → ℕ → IResult Dtls13Record
unfolding is_ciphertext_header parse_plaintext parse_ciphertext
parse [] base_offset = err (error eof)
parse (first ∷ input) base_offset =
    if is_ciphertext_header first
    then parse_ciphertext (first ∷ input) base_offset
    else parse_plaintext (first ∷ input) base_offset

unfoldable pub fragment : Dtls13Record → Bytes → Bytes
fragment r buf = slice r.fragment_start r.fragment_end buf

-- The serializers give the bytes that they append to `output`.
unfoldable pub serialize_plaintext : Dtls13Record → Bytes → Bytes
unfolding fragment
serialize_plaintext r buf =
    r.content_type
    ∷ (u16_bytes dtls1_2
        ++ (u16_bytes r.sequence.epoch
            ++ (u48_bytes r.sequence.sequence_number ++ (u16_bytes r.length ++ fragment r buf))))

-- `0b0010_0000 | S | L | (epoch as u8 & 0x03)`
abbrev pub unified_flags : ℕ → ℕ
unified_flags epoch = bit_or (bit_or (bit_or 0x20 0x08) 0x04) (bit_and (epoch % 256) 0x03)

unfoldable pub serialize_ciphertext : Dtls13Record → Bytes → Bytes
unfolding fragment
serialize_ciphertext r buf =
    unified_flags r.sequence.epoch
    ∷ (u16_bytes (r.sequence.sequence_number % 65536) ++ (u16_bytes r.length ++ fragment r buf))

unfoldable pub serialize : Dtls13Record → Bytes → Bytes
unfolding serialize_plaintext serialize_ciphertext
serialize r buf =
    if r.sequence.epoch == 0 then serialize_plaintext r buf else serialize_ciphertext r buf
