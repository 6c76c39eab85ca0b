-- ===== src/Dtls13/Peer/Verify.antt =====
-- src/dtls13/client.rs: which signatures are checked, and with which hash and algorithm. And
-- src/dtls13/engine.rs: the export of keys for SRTP.
use dimpl.Base.{
  ℕ, ◌+◌, ◌*◌, not, Option, none, some, [], ◌∷◌, Result, ok, err, Bytes, ◌==◌, ◌||◌, if◌then◌else◌,
}
use dimpl.Dtls13.Engine.{M, ◌>>=◌}
use dimpl.Dtls13.Engine.Keys.{expand, hash_len, hash_of}
use dimpl.Dtls13.Message.{NamedGroup, SignatureScheme}
use dimpl.Dtls13.Peer.{
  Backend, Failure, security, unsupported_signature_scheme, certificate_curve_mismatch,
  no_certificate_group,
}

-- `SignatureScheme::named_group`
unfoldable pub named_group : SignatureScheme → Option NamedGroup
named_group scheme =
    if scheme == 0x0403 then some 23 else if scheme == 0x0503 then some 24 else none

unfoldable pub verify_scheme_curve : Backend → SignatureScheme → Bytes → Result Failure (Unit {0})
verify_scheme_curve b scheme cert_der = elim (named_group scheme) [
  | none ↦ ok tt
  | some expected ↦ elim (b.cert_named_group cert_der) [
    | none ↦ err no_certificate_group
    | some actual ↦
        if not (expected == actual)
        then err (security (certificate_curve_mismatch scheme))
        else ok tt
  ]
]

-- SHA-256, SHA-384 and SHA-512 are 4, 5 and 6; RSA is 1 and ECDSA is 3.
unfoldable pub signature_scheme_to_components : SignatureScheme → Result Failure (ℕ × ℕ)
signature_scheme_to_components scheme =
    if scheme == 0x0403
    then ok (4, 3)
    else if scheme == 0x0503
    then ok (5, 3)
    else if scheme == 0x0603
    then ok (6, 3)
    else if scheme == 0x0804 || scheme == 0x0809
    then ok (4, 1)
    else if scheme == 0x0805 || scheme == 0x080a
    then ok (5, 1)
    else if scheme == 0x0806 || scheme == 0x080b
    then ok (6, 1)
    else err (security (unsupported_signature_scheme scheme))

-- `SrtpProfile::keying_material_len`
unfoldable pub keying_material_len : ℕ → ℕ
keying_material_len profile =
    if profile == 0x0001
    then 16 * 2 + 14 * 2
    else if profile == 0x0007
    then 16 * 2 + 12 * 2
    else 32 * 2 + 12 * 2

abbrev label_extractor : Bytes
label_extractor =
    b'E' ∷ b'X' ∷ b'T' ∷ b'R' ∷ b'A' ∷ b'C' ∷ b'T' ∷ b'O' ∷ b'R' ∷ b'-' ∷ b'd' ∷ b't' ∷ b'l' ∷ b's'
    ∷ b'_' ∷ b's' ∷ b'r' ∷ b't' ∷ b'p' ∷ []

abbrev label_exporter : Bytes
label_exporter = b'e' ∷ b'x' ∷ b'p' ∷ b'o' ∷ b'r' ∷ b't' ∷ b'e' ∷ b'r' ∷ []

-- `extract_srtp_keying_material`; `none` for its errors, which the callers drop.
unfoldable pub extract_srtp : ℕ → Bytes → M Bytes
extract_srtp profile exp_master = do
  len ← hash_len
  empty_hash ← hash_of []
  derived ← expand exp_master label_extractor empty_hash len
  context_hash ← hash_of []
  expand derived label_exporter context_hash (keying_material_len profile)
