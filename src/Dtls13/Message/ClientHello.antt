-- ===== src/Dtls13/Message/ClientHello.antt =====
-- src/dtls13/message/client_hello.rs
use dimpl.Base.{
  ℕ, ◌+◌, ◌-◌, ◌*◌, ◌%◌, Bool, false, not, ◌||◌, List, [], ◌∷◌, ◌++◌, ok, ◌>>=◌, ◌>>◌, fail_if,
  Bytes, ◌==◌, if◌then◌else◌, length, is_empty, contains,
}
use dimpl.Wire.{
  IResult, failure, length_value, ProtocolVersion, be_u8, be_u16, take_bytes, parse_version,
  u16_bytes,
}
use dimpl.Wire.Many.{parse_many0, parse_many1}
use dimpl.Dtls13.Message.{
  Dtls13CipherSuite, CompressionMethod, supported_suites, supported_compression, parse_random,
  parse_var_array, session_id_max, cookie_max,
}
use dimpl.Dtls13.Message.Extension.{Extension, serialize_all, total_len}
use dimpl.Dtls13.Message.Extension

pub record ClientHello : Type 0 where
  pub legacy_version : ProtocolVersion
  pub random : Bytes
  pub legacy_session_id : Bytes
  pub legacy_cookie : Bytes
  pub cipher_suites : List Dtls13CipherSuite
  pub legacy_compression_methods : List CompressionMethod
  pub extensions : List Extension

-- The capacities of the vectors.
abbrev pub suite_capacity : ℕ
suite_capacity = 3

abbrev pub compression_capacity : ℕ
compression_capacity = 1

abbrev pub extension_capacity : ℕ
extension_capacity = 8

unfoldable pub parse_suites : Bool → Bytes → IResult (List Dtls13CipherSuite)
parse_suites allow_unknown_suites input =
    if allow_unknown_suites
    then parse_many0 suite_capacity be_u16 (contains supported_suites) input
    else parse_many1 suite_capacity be_u16 (contains supported_suites) input

unfoldable pub parse_extensions : Bytes → ℕ → IResult (List Extension)
parse_extensions [] base_offset = ok ([], [])
parse_extensions (b ∷ original_input) base_offset = do
  (remaining, extensions_len) ← be_u16 (b ∷ original_input)
  (remaining, extensions_data) ← take_bytes extensions_len remaining
  fail_if (not (is_empty remaining)) (failure length_value)
  extensions ← Extension.parse_extensions extension_capacity extensions_data (base_offset + 2)
  ok (remaining, extensions)

unfoldable pub parse_with_options : Bytes → ℕ → Bool → IResult ClientHello
parse_with_options original_input base_offset allow_unknown_suites = do
  (input, legacy_version) ← parse_version original_input
  (input, random) ← parse_random input
  (input, legacy_session_id) ← parse_var_array session_id_max input
  (input, legacy_cookie) ← parse_var_array cookie_max input
  (input, cipher_suites_len) ← be_u16 input
  fail_if (cipher_suites_len == 0 || not (cipher_suites_len % 2 == 0)) (failure length_value)
  (input, input_cipher) ← take_bytes cipher_suites_len input
  (rest, cipher_suites) ← parse_suites allow_unknown_suites input_cipher
  fail_if (not (is_empty rest)) (failure length_value)
  (input, compression_methods_len) ← be_u8 input
  (input, input_compression) ← take_bytes compression_methods_len input
  (rest, legacy_compression_methods) ←
      parse_many1 compression_capacity be_u8 (contains supported_compression) input_compression
  fail_if (not (is_empty rest)) (failure length_value)
  (remaining_input, extensions) ←
      parse_extensions input (base_offset + (length original_input - length input))
  ok (
    remaining_input,
    record {
      legacy_version = legacy_version;
      random = random;
      legacy_session_id = legacy_session_id;
      legacy_cookie = legacy_cookie;
      cipher_suites = cipher_suites;
      legacy_compression_methods = legacy_compression_methods;
      extensions = extensions;
    },
  )

-- `ClientHello::parse`, and `parse_allow_unknown_suites` with `true` in place of `false`.
unfoldable pub parse : Bytes → ℕ → IResult ClientHello
parse input base_offset = parse_with_options input base_offset false

abbrev pub suite_bytes : List Dtls13CipherSuite → Bytes
suite_bytes [] = []
suite_bytes (suite ∷ suites) = u16_bytes suite ++ suite_bytes suites

-- The number of suites is taken `as u16` before it is doubled; at most three fit in the vector.
unfoldable pub serialize_head : ClientHello → Bytes
serialize_head hello =
    u16_bytes hello.legacy_version
    ++ (hello.random
        ++ ((length hello.legacy_session_id % 256 ∷ hello.legacy_session_id)
            ++ ((length hello.legacy_cookie % 256 ∷ hello.legacy_cookie)
                ++ (u16_bytes (length hello.cipher_suites * 2)
                    ++ (suite_bytes hello.cipher_suites
                        ++ (length hello.legacy_compression_methods % 256
                            ∷ hello.legacy_compression_methods))))))

unfoldable pub serialize : ClientHello → Bytes → Bytes
serialize hello source_buf =
    serialize_head hello
    ++ (if is_empty hello.extensions
        then []
        else u16_bytes (total_len hello.extensions source_buf)
          ++ serialize_all hello.extensions source_buf)
