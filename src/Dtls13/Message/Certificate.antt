-- ===== src/Dtls13/Message/Certificate.antt =====
-- src/dtls13/message: Certificate, CertificateVerify, Finished and EncryptedExtensions.
use dimpl.Base.{
  ℕ, zero, suc, ◌+◌, ◌-◌, ◌%◌, none, some, List, [], ◌∷◌, ◌++◌, Result, ok, err, ◌>>=◌, Bytes,
  length, slice,
}
use dimpl.Wire.{
  IResult, Err, failure, length_value, be_u8, be_u16, be_u24, take_bytes, u16_bytes, u24_bytes,
}
use dimpl.Wire.Many.{try_push}
use dimpl.Crypto.Hkdf.{output_len}
use dimpl.Dtls13.Engine.Keys.{hash_algorithm}
use dimpl.Dtls13.Message.{SignatureScheme}
use dimpl.Dtls13.Message.Extension.{Extension, serialize_all, total_len}
use dimpl.Dtls13.Message.Extension

-- `Range<usize>`
abbrev pub Range : Type 0
Range = ℕ × ℕ

abbrev pub bytes_at : Range → Bytes → Bytes
bytes_at (start, end) buf = slice start end buf

pub record CertificateEntry : Type 0 where
  pub cert : Range
  pub extensions : Range

pub record Certificate : Type 0 where
  pub context : Range
  pub certificate_list : List CertificateEntry

abbrev pub certificate_capacity : ℕ
certificate_capacity = 32

-- `Asn1Cert::parse`
unfoldable pub parse_asn1_cert : Bytes → ℕ → IResult Range
parse_asn1_cert original_input base_offset = do
  (input, len) ← be_u24 original_input
  let start = base_offset + (length original_input - length input)
  (input, piece) ← take_bytes len input
  ok (input, (start, start + length piece))

unfoldable pub parse_entry : Bytes → ℕ → IResult CertificateEntry
parse_entry rest entry_base = do
  (r, cert) ← parse_asn1_cert rest entry_base
  (r, ext_len) ← be_u16 r
  let start = entry_base + (length rest - length r)
  (r, piece) ← take_bytes ext_len r
  ok (r, record { cert = cert; extensions = (start, start + length piece) })

-- On as much fuel as there are bytes: an entry takes five at least.
unfoldable pub entries_loop :
    ℕ → Bytes → ℕ → List CertificateEntry → Result Err (List CertificateEntry)
entries_loop zero rest offset acc = ok acc
entries_loop (suc fuel) [] offset acc = ok acc
entries_loop (suc fuel) (b ∷ rest) offset acc = elim (parse_entry (b ∷ rest) offset) [
  | err e ↦ err e
  | ok (r, entry) ↦ elim (try_push certificate_capacity entry acc) [
    | none ↦ err (failure length_value)
    | some acc' ↦ entries_loop fuel r (offset + (suc (length rest) - length r)) acc'
  ]
]

unfoldable pub parse_certificate : Bytes → ℕ → IResult Certificate
parse_certificate original_input base_offset = do
  (input, context_len) ← be_u8 original_input
  (input, context) ← take_bytes context_len input
  (input, total_len) ← be_u24 input
  let certs_base = base_offset + (length original_input - length input)
  (input, certs_data) ← take_bytes total_len input
  certificate_list ← entries_loop (length certs_data) certs_data certs_base []
  ok (
    input,
    record {
      context = (base_offset + 1, base_offset + 1 + length context);
      certificate_list = certificate_list;
    },
  )

abbrev pub entries_len : List CertificateEntry → Bytes → ℕ
entries_len [] buf = 0
entries_len (entry ∷ entries) buf =
    (3 + length (bytes_at entry.cert buf) + 2 + length (bytes_at entry.extensions buf))
    + entries_len entries buf

abbrev pub entries_bytes : List CertificateEntry → Bytes → Bytes
entries_bytes [] buf = []
entries_bytes (entry ∷ entries) buf =
    u24_bytes (length (bytes_at entry.cert buf))
    ++ (bytes_at entry.cert buf
        ++ (u16_bytes (length (bytes_at entry.extensions buf))
            ++ (bytes_at entry.extensions buf ++ entries_bytes entries buf)))

unfoldable pub serialize_certificate : Certificate → Bytes → Bytes
serialize_certificate c buf =
    (length (bytes_at c.context buf) % 256 ∷ bytes_at c.context buf)
    ++ (u24_bytes (entries_len c.certificate_list buf) ++ entries_bytes c.certificate_list buf)

-- `DigitallySigned`, which is all of a CertificateVerify.
pub record DigitallySigned : Type 0 where
  pub scheme : SignatureScheme
  pub signature : Range

unfoldable pub parse_signed : Bytes → ℕ → IResult DigitallySigned
parse_signed original_input base_offset = do
  (rest, scheme) ← be_u16 original_input
  (rest, signature_len) ← be_u16 rest
  let start = base_offset + (length original_input - length rest)
  (rest, piece) ← take_bytes signature_len rest
  ok (rest, record { scheme = scheme; signature = (start, start + length piece) })

-- `Finished::parse`: as many bytes as the hash of the suite has.
unfoldable pub parse_finished : Bytes → ℕ → IResult Range
parse_finished input cipher_suite = do
  (rest, piece) ← take_bytes (output_len (hash_algorithm cipher_suite)) input
  ok (rest, (0, length piece))

-- `EncryptedExtensions`
abbrev pub extension_capacity : ℕ
extension_capacity = 5

unfoldable pub parse_encrypted_extensions : Bytes → ℕ → IResult (List Extension)
parse_encrypted_extensions input base_offset = do
  (input, extensions_len) ← be_u16 input
  (input, extensions_data) ← take_bytes extensions_len input
  extensions ← Extension.parse_extensions extension_capacity extensions_data (base_offset + 2)
  ok (input, extensions)

unfoldable pub serialize_encrypted_extensions : List Extension → Bytes → Bytes
serialize_encrypted_extensions exts buf = u16_bytes (total_len exts buf) ++ serialize_all exts buf
