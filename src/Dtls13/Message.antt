-- ===== src/Dtls13/Message.antt =====
-- src/dtls13/message and the types that messages are made of, src/types.rs: numbers on the wire, known
-- or not, and the vectors of bytes with a length of one byte.
pub mod Extension
pub mod Certificate
pub mod Body
pub mod ServerRoundTrip
pub mod ClientRoundTrip
pub mod Hellos
pub mod Placed
pub mod Extensions
pub mod ClientHello
pub mod ServerHello
use dimpl.Base.{
  ℕ, ◌+◌, ◌%◌, Bool, ◌||◌, List, [], ◌∷◌, ◌++◌, Result, ok, err, ◌>>=◌, ◌>>◌, fail_if, Bytes, ltb,
  ◌==◌, length, contains,
}
use dimpl.Wire.{IResult, Err, failure, length_value, be_u8, be_u16, take_bytes}

-- `NamedGroup`, `Dtls13CipherSuite`, `CompressionMethod` and `SignatureScheme` wrap their numbers, with
-- the lists that `supported()` gives.
abbrev pub NamedGroup : Type 0
NamedGroup = ℕ

abbrev pub supported_groups : List NamedGroup
supported_groups = 29 ∷ 23 ∷ 24 ∷ 25 ∷ []

abbrev pub Dtls13CipherSuite : Type 0
Dtls13CipherSuite = ℕ

abbrev pub supported_suites : List Dtls13CipherSuite
supported_suites = 0x1301 ∷ 0x1302 ∷ 0x1303 ∷ []

abbrev pub CompressionMethod : Type 0
CompressionMethod = ℕ

abbrev pub null_compression : CompressionMethod
null_compression = 0

abbrev pub supported_compression : List CompressionMethod
supported_compression = null_compression ∷ []

abbrev pub SignatureScheme : Type 0
SignatureScheme = ℕ

abbrev pub supported_schemes : List SignatureScheme
supported_schemes = 0x0403 ∷ 0x0503 ∷ []

abbrev pub ExtensionType : Type 0
ExtensionType = ℕ

abbrev pub ext_supported_groups : ExtensionType
ext_supported_groups = 0x000a

abbrev pub ext_signature_algorithms : ExtensionType
ext_signature_algorithms = 0x000d

abbrev pub ext_use_srtp : ExtensionType
ext_use_srtp = 0x000e

abbrev pub ext_supported_versions : ExtensionType
ext_supported_versions = 0x002b

abbrev pub ext_cookie : ExtensionType
ext_cookie = 0x002c

abbrev pub ext_certificate_authorities : ExtensionType
ext_certificate_authorities = 0x002f

abbrev pub ext_key_share : ExtensionType
ext_key_share = 0x0033

-- `ExtensionType::supported`
abbrev pub supported_extensions : List ExtensionType
supported_extensions =
    ext_supported_versions ∷ ext_supported_groups ∷ ext_signature_algorithms ∷ ext_key_share
    ∷ ext_use_srtp ∷ ext_cookie ∷ []

-- `Random::parse`: 32 bytes.
abbrev pub parse_random : Bytes → IResult Bytes
parse_random input = take_bytes 32 input

-- `SessionId::parse` and `Cookie::parse`: at most `max` bytes behind their number.
unfoldable pub parse_var_array : ℕ → Bytes → IResult Bytes
parse_var_array max input = do
  (input, len) ← be_u8 input
  fail_if (ltb max len) (failure length_value)
  take_bytes len input

abbrev pub session_id_max : ℕ
session_id_max = 32

abbrev pub cookie_max : ℕ
cookie_max = 255
