-- ===== src/Dtls13/Peer/Create.antt =====
-- src/dtls13/client.rs and src/dtls13/server.rs: the bodies of the messages that are sent.
use dimpl.Base.{
  ℕ, ◌+◌, ◌*◌, Option, none, some, List, [], ◌∷◌, ◌++◌, Bytes, ◌==◌, ◌&&◌, if◌then◌else◌, length,
  replicate,
}
use dimpl.Wire.{dtls1_2, dtls1_3, u16_bytes}
use dimpl.Dtls13.Engine.{M, ◌>>=◌}
use dimpl.Dtls13.Engine.Keys.{expand, extract, hash_len, hash_of}
use dimpl.Dtls13.Message.{
  NamedGroup, SignatureScheme, Dtls13CipherSuite, ExtensionType, null_compression,
  ext_supported_versions, ext_key_share, ext_cookie, ext_use_srtp, ext_signature_algorithms,
  ext_certificate_authorities, supported_schemes,
}
use dimpl.Dtls13.Message.Extension.{Extension}
use dimpl.Dtls13.Message.Extensions.{KeyShareEntry, serialize_key_share_entry, serialize_use_srtp}
use dimpl.Dtls13.Message.ServerHello.{ServerHello, hrr_random}
use dimpl.Dtls13.Message.ServerHello
use dimpl.Dtls13.Message.Certificate.{serialize_certificate, serialize_encrypted_extensions}

-- `extensions` and `ext_buf`: an extension more, whose data goes to the end of the buffer.
abbrev pub Extensions : Type 0
Extensions = List Extension × Bytes

unfoldable pub push_extension : ExtensionType → Bytes → Extensions → Extensions
push_extension extension_type text (exts, ext_buf) = (
  exts
      ++ (record {
        extension_type = extension_type;
        start = length ext_buf;
        end = length ext_buf + length text;
      }
          ∷ []),
  ext_buf ++ text,
)

abbrev pub no_extensions : Extensions
no_extensions = ([], [])

abbrev push_group : Option NamedGroup → Extensions → Extensions
push_group none exts = exts
push_group (some group) exts = push_extension ext_key_share (u16_bytes group) exts

-- The ServerHello of `send_hello_retry_request`, and the extensions with their buffer.
unfoldable pub hello_retry_extensions : Bytes → Option NamedGroup → Extensions
unfolding push_extension
hello_retry_extensions cookie selected_group =
    push_extension ext_cookie (u16_bytes (length cookie) ++ cookie) (
      push_group selected_group
        (push_extension ext_supported_versions (u16_bytes dtls1_3) no_extensions))

abbrev pub server_hello_of : Bytes → Bytes → Dtls13CipherSuite → List Extension → ServerHello
server_hello_of random session_id suite exts = record {
  legacy_version = dtls1_2;
  random = random;
  legacy_session_id = session_id;
  cipher_suite = suite;
  legacy_compression_method = null_compression;
  extensions = some exts;
}

unfoldable pub hello_retry_body : Bytes → Dtls13CipherSuite → Bytes → Option NamedGroup → Bytes
hello_retry_body session_id suite cookie selected_group =
    let (exts, ext_buf) = hello_retry_extensions cookie selected_group in
    ServerHello.serialize (server_hello_of hrr_random session_id suite exts) ext_buf

-- `handshake_create_server_hello`, once the suite is there.
unfoldable pub server_hello_extensions : KeyShareEntry → Bytes → Extensions
unfolding push_extension
server_hello_extensions entry extension_data =
    push_extension ext_key_share (serialize_key_share_entry entry extension_data)
      (push_extension ext_supported_versions (u16_bytes dtls1_3) no_extensions)

unfoldable pub server_hello_body : Bytes → Bytes → Dtls13CipherSuite → KeyShareEntry → Bytes → Bytes
server_hello_body random session_id suite entry extension_data =
    let (exts, ext_buf) = server_hello_extensions entry extension_data in
    ServerHello.serialize (server_hello_of random session_id suite exts) ext_buf

-- `handshake_create_encrypted_extensions`
unfoldable pub encrypted_extensions_body : Option ℕ → Bytes
unfolding push_extension
encrypted_extensions_body none = serialize_encrypted_extensions [] []
encrypted_extensions_body (some profile) =
    let (exts, ext_buf) =
      push_extension ext_use_srtp
        (serialize_use_srtp (record { profiles = profile ∷ []; mki = [] })) no_extensions in
    serialize_encrypted_extensions exts ext_buf

abbrev pub scheme_bytes : List SignatureScheme → Bytes
scheme_bytes [] = []
scheme_bytes (s ∷ ss) = u16_bytes s ++ scheme_bytes ss

-- `handshake_create_certificate_request`: an empty context, our schemes, and no authorities.
unfoldable pub certificate_request_body : Bytes
unfolding push_extension
certificate_request_body =
    let (exts, ext_buf) = push_extension ext_certificate_authorities (u16_bytes 0) (
      push_extension ext_signature_algorithms
        (u16_bytes (length supported_schemes * 2) ++ scheme_bytes supported_schemes)
        no_extensions) in
    0 ∷ serialize_encrypted_extensions exts ext_buf

-- `handshake_create_certificate`
unfoldable pub certificate_body : Bytes → Bytes → Bytes
certificate_body der context =
    serialize_certificate
      (record {
        context = (0, length context);
        certificate_list =
            record { cert = (length context, length context + length der); extensions = (0, 0) }
            ∷ [];
      })
      (context ++ der)

-- 64 spaces, a text that ends in a zero, and the hash of the transcript.
abbrev pub signed_content : Bytes → Bytes → Bytes
signed_content context_string transcript_hash =
    replicate 64 0x20 ++ (context_string ++ transcript_hash)

-- "TLS 1.3, server CertificateVerify" and "TLS 1.3, client CertificateVerify", with their zero.
abbrev verify_text : Bytes → Bytes
verify_text role =
    b'T' ∷ b'L' ∷ b'S' ∷ b' ' ∷ b'1' ∷ b'.' ∷ b'3' ∷ b',' ∷ b' ' ∷ role
    ++ (b' ' ∷ b'C' ∷ b'e' ∷ b'r' ∷ b't' ∷ b'i' ∷ b'f' ∷ b'i' ∷ b'c' ∷ b'a' ∷ b't' ∷ b'e' ∷ b'V'
        ∷ b'e' ∷ b'r' ∷ b'i' ∷ b'f' ∷ b'y' ∷ 0 ∷ [])

abbrev pub server_context : Bytes
server_context = verify_text (b's' ∷ b'e' ∷ b'r' ∷ b'v' ∷ b'e' ∷ b'r' ∷ [])

abbrev pub client_context : Bytes
client_context = verify_text (b'c' ∷ b'l' ∷ b'i' ∷ b'e' ∷ b'n' ∷ b't' ∷ [])

-- The scheme for ECDSA (3) or RSA (1) with SHA-256 (4) or SHA-384 (5).
unfoldable pub scheme_of : ℕ → ℕ → Option SignatureScheme
scheme_of algorithm hash =
    if algorithm == 3 && hash == 4
    then some 0x0403
    else if algorithm == 3 && hash == 5
    then some 0x0503
    else if algorithm == 1 && hash == 4
    then some 0x0804
    else none

abbrev pub certificate_verify_body : SignatureScheme → Bytes → Bytes
certificate_verify_body scheme signature =
    u16_bytes scheme ++ (u16_bytes (length signature) ++ signature)

abbrev label_finished : Bytes
label_finished = b'f' ∷ b'i' ∷ b'n' ∷ b'i' ∷ b's' ∷ b'h' ∷ b'e' ∷ b'd' ∷ []

-- `compute_verify_data`
unfoldable pub compute_verify_data : Bytes → M Bytes
compute_verify_data traffic_secret start =
    (do
      len ← hash_len
      finished_key ← expand traffic_secret label_finished [] len
      transcript_hash ← hash_of start.transcript
      extract finished_key transcript_hash)
      start
