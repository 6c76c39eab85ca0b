-- ===== src/Dtls13/Message/ServerHello.antt =====
-- src/dtls13/message/server_hello.rs
use dimpl.Base.{
  ℕ, ◌+◌, ◌-◌, ◌%◌, Bool, true, false, not, Option, none, some, List, [], ◌∷◌, ◌++◌, ok, ◌>>=◌,
  ◌>>◌, fail_if, Bytes, ltb, ◌==◌, ◌&&◌, if◌then◌else◌, length, is_empty,
}
use dimpl.Wire.{
  IResult, failure, length_value, eof, ProtocolVersion, be_u8, be_u16, take_bytes, parse_version,
  u16_bytes,
}
use dimpl.Dtls13.Message.{
  Dtls13CipherSuite, CompressionMethod, parse_random, parse_var_array, session_id_max,
}
use dimpl.Dtls13.Message.Extension.{Extension, serialize_all, total_len}
use dimpl.Dtls13.Message.Extension

pub record ServerHello : Type 0 where
  pub legacy_version : ProtocolVersion
  pub random : Bytes
  pub legacy_session_id : Bytes
  pub cipher_suite : Dtls13CipherSuite
  pub legacy_compression_method : CompressionMethod
  pub extensions : Option (List Extension)

abbrev pub extension_capacity : ℕ
extension_capacity = 5

-- The random value of a HelloRetryRequest.
abbrev pub hrr_random : Bytes
hrr_random =
    0xcf ∷ 0x21 ∷ 0xad ∷ 0x74 ∷ 0xe5 ∷ 0x9a ∷ 0x61 ∷ 0x11 ∷ 0xbe ∷ 0x1d ∷ 0x8c ∷ 0x02 ∷ 0x1e ∷ 0x65
    ∷ 0xb8 ∷ 0x91 ∷ 0xc2 ∷ 0xa2 ∷ 0x11 ∷ 0x16 ∷ 0x7a ∷ 0xbb ∷ 0x8c ∷ 0x5e ∷ 0x07 ∷ 0x9e ∷ 0x09
    ∷ 0xe2 ∷ 0xc8 ∷ 0xa8 ∷ 0x33 ∷ 0x9c ∷ []

abbrev pub bytes_eq : Bytes → Bytes → Bool
bytes_eq [] [] = true
bytes_eq [] (b ∷ bs) = false
bytes_eq (a ∷ as') [] = false
bytes_eq (a ∷ as') (b ∷ bs) = a == b && bytes_eq as' bs

unfoldable pub is_hello_retry_request : ServerHello → Bool
is_hello_retry_request hello = bytes_eq hello.random hrr_random

-- `None` where there are no extensions, or none of any length.
unfoldable pub parse_tail : Bytes → ℕ → IResult (Option (List Extension))
parse_tail [] base_offset = ok ([], none)
parse_tail (b ∷ input) base_offset = do
  fail_if (ltb (length (b ∷ input)) 2) (failure eof)
  (input, extensions_len) ← be_u16 (b ∷ input)
  fail_if (ltb (length input) extensions_len) (failure eof)
  (if ltb 0 extensions_len
      then (do
        (rest, input_ext) ← take_bytes extensions_len input
        fail_if (not (is_empty rest)) (failure length_value)
        extensions ← Extension.parse_extensions extension_capacity input_ext (base_offset + 2)
        ok (rest, some extensions))
      else ok (input, none))

unfoldable pub parse : Bytes → ℕ → IResult ServerHello
parse original_input base_offset = do
  (input, legacy_version) ← parse_version original_input
  (input, random) ← parse_random input
  (input, legacy_session_id) ← parse_var_array session_id_max input
  (input, cipher_suite) ← be_u16 input
  (input, legacy_compression_method) ← be_u8 input
  (input, extensions) ← parse_tail input (base_offset + (length original_input - length input))
  ok (
    input,
    record {
      legacy_version = legacy_version;
      random = random;
      legacy_session_id = legacy_session_id;
      cipher_suite = cipher_suite;
      legacy_compression_method = legacy_compression_method;
      extensions = extensions;
    },
  )

unfoldable pub serialize_head : ServerHello → Bytes
serialize_head hello =
    u16_bytes hello.legacy_version
    ++ (hello.random
        ++ ((length hello.legacy_session_id % 256 ∷ hello.legacy_session_id)
            ++ (u16_bytes hello.cipher_suite ++ (hello.legacy_compression_method ∷ []))))

unfoldable pub serialize : ServerHello → Bytes → Bytes
serialize hello source_buf = serialize_head hello ++ elim hello.extensions [
  | none ↦ []
  | some exts ↦ u16_bytes (total_len exts source_buf) ++ serialize_all exts source_buf
]
