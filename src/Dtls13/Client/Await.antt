-- ===== src/Dtls13/Client/Await.antt =====
-- src/dtls13/client.rs: the states that wait for the flight of the server.
use dimpl.Base.{
  ℕ, ◌+◌, ◌*◌, Bool, not, Option, none, some, List, [], ◌∷◌, ◌++◌, Result, ok, err, Bytes, ltb,
  ◌==◌, if◌then◌else◌, length, is_empty, contains, map, take, drop,
}
use dimpl.Dtls13.Handshake.{finished}
use dimpl.Dtls13.Message.{supported_schemes, ext_use_srtp}
use dimpl.Dtls13.Message.Extension.{Extension, extension_data}
use dimpl.Dtls13.Message.Extensions.{parse_use_srtp}
use dimpl.Dtls13.Message.Body.{
  encrypted_extensions, certificate, certificate_request, certificate_verify,
}
use dimpl.Dtls13.Message.Certificate.{
  parse_certificate, parse_signed, parse_finished, parse_encrypted_extensions, bytes_at,
}
use dimpl.Dtls13.Message.ServerHello.{bytes_eq}
use dimpl.Dtls13.Engine.Scan.{has_complete_handshake}
use dimpl.Dtls13.Engine.Keys.{hash_of, derive_application_secrets}
use dimpl.Dtls13.Engine.Rotate.{install_application_keys}
use dimpl.Dtls13.Peer.{
  Act, Failure, ◌>>=◌, ◌>>◌, pure, modify, some_or, on_some, branch, result, fail_if, parsed,
  security, panicked, verification_failed, peer_cert, signature_scheme_not_offered,
  signature_too_large, no_server_traffic_secret, no_handshake_secret,
  server_finished_verification_failed, server_certificate_context_must_be_empty,
  no_server_certificate_received, no_server_certificate, certificate_request_context_truncated,
  certificate_request_extensions_truncated,
}
use dimpl.Dtls13.Peer.Create.{signed_content, server_context, compute_verify_data}
use dimpl.Dtls13.Peer.Verify.{verify_scheme_curve, signature_scheme_to_components}
use dimpl.Dtls13.Client.{
  Client, State, await_encrypted_extensions, await_certificate_request, await_certificate,
  await_certificate_verify, await_finished, send_certificate, send_finished, on_engine,
  next_message, advance_peer,
}

abbrev first? : List ℕ → Option ℕ
first? [] = none
first? (p ∷ ps) = some p

abbrev pub set_profile : List ℕ → Client → Client
set_profile profiles c = elim (first? profiles) [
  | none ↦ c
  | some profile ↦ record c { negotiated_srtp_profile = some profile }
]

-- The first profile of use_srtp is the one that the server has selected.
unfoldable pub read_srtp_extension : Bytes → Extension → Act Client (Unit {0})
read_srtp_extension buf ext =
    branch (ext.extension_type == ext_use_srtp)
      (do
        use_srtp ← parsed (parse_use_srtp (extension_data ext buf))
        modify (set_profile use_srtp.1.profiles))
      (pure tt)

unfoldable pub read_srtp : Bytes → List Extension → Act Client (Unit {0})
read_srtp buf [] = pure tt
read_srtp buf (ext ∷ exts) = do read_srtp_extension buf ext; read_srtp buf exts

unfoldable pub on_await_encrypted_extensions : Act Client State
on_await_encrypted_extensions = do
  message ← next_message encrypted_extensions Bool.true
  on_some message (pure await_encrypted_extensions) (λ buf. do
    exts ← parsed (parse_encrypted_extensions buf 0)
    read_srtp buf exts.1
    advance_peer
    pure await_certificate_request)

abbrev be_number : Bytes → ℕ
be_number [] = 0
be_number (a ∷ []) = a
be_number (a ∷ b ∷ rest) = a * 256 + b

-- The extensions behind the context. The loop over them keeps nothing.
abbrev check_extensions : Option Bytes → Bytes → Result Failure (Option Bytes)
check_extensions context rest =
    if ltb (length rest) 2
    then ok context
    else if ltb (length rest) (2 + be_number rest)
    then err certificate_request_extensions_truncated
    else ok context

-- `parse_certificate_request`: the context of the request, if it has one.
unfoldable pub parse_certificate_request : Bytes → Result Failure (Option Bytes)
parse_certificate_request [] = ok none
parse_certificate_request (context_len ∷ rest) =
    if context_len == 0
    then check_extensions none rest
    else if ltb (length rest) context_len
    then err certificate_request_context_truncated
    else check_extensions (some (take context_len rest)) (drop context_len rest)

abbrev pub keep_context : Option Bytes → Client → Client
keep_context none c = c
keep_context (some context) c = record c { cert_request_context = some context }

unfoldable pub process_certificate_request : Bytes → Act Client State
process_certificate_request buf = do
  context ← result (parse_certificate_request buf)
  modify (λ t. record (keep_context context t) { client_auth_requested = Bool.true })
  advance_peer
  pure await_certificate

-- A CertificateRequest may be left out: its place is then taken by the Certificate.
unfoldable pub on_await_certificate_request : Act Client State
on_await_certificate_request c =
    branch (has_complete_handshake c.engine certificate) (pure await_certificate)
      (do
        message ← next_message certificate_request Bool.true
        on_some message (pure await_certificate_request) process_certificate_request)
      c

unfoldable pub process_certificate : Bytes → Act Client State
process_certificate buf = do
  cert ← parsed (parse_certificate buf 0)
  fail_if (ltb (cert.1.context.0) (cert.1.context.1)) server_certificate_context_must_be_empty
  fail_if (is_empty (cert.1.certificate_list)) no_server_certificate_received
  modify (λ t. record t {
    server_certificates =
        t.server_certificates ++ map (λ entry. bytes_at entry.cert buf) (cert.1.certificate_list);
    local_events = t.local_events ++ (peer_cert ∷ []);
  })
  advance_peer
  pure await_certificate_verify

unfoldable pub on_await_certificate : Act Client State
on_await_certificate = do
  message ← next_message certificate Bool.true
  on_some message (pure await_certificate) process_certificate

abbrev signature_capacity : ℕ
signature_capacity = 512

abbrev pub first_certificate : List Bytes → Option Bytes
first_certificate [] = none
first_certificate (cert ∷ certs) = some cert

unfoldable pub process_certificate_verify : Bytes → Bytes → Act Client State
process_certificate_verify transcript_hash buf c =
    (do
      cv ← parsed (parse_signed buf 0)
      fail_if (not (contains supported_schemes (cv.1.scheme)))
          (security (signature_scheme_not_offered (cv.1.scheme)))
      fail_if (ltb signature_capacity (length (bytes_at (cv.1.signature) buf)))
          (security signature_too_large)
      cert_der ← some_or no_server_certificate (first_certificate c.server_certificates)
      curve ← result (verify_scheme_curve c.backend (cv.1.scheme) cert_der)
      components ← result (signature_scheme_to_components (cv.1.scheme))
      fail_if
          (not (
            c.backend.verify_signature cert_der (signed_content server_context transcript_hash)
              (bytes_at (cv.1.signature) buf) components.0 components.1))
          verification_failed
      advance_peer
      pure await_finished)
      c

-- The hash covers the messages before the CertificateVerify.
unfoldable pub on_await_certificate_verify : Act Client State
on_await_certificate_verify c =
    (do
      transcript_hash ← on_engine (hash_of c.engine.transcript)
      message ← next_message certificate_verify Bool.true
      on_some message (pure await_certificate_verify) (process_certificate_verify transcript_hash))
      c

unfoldable pub process_finished : Bytes → Bytes → Act Client State
process_finished expected buf c =
    (do
      suite ← some_or panicked c.engine.cipher_suite
      range ← parsed (parse_finished buf suite)
      fail_if (not (bytes_eq (bytes_at range.1 buf) expected))
          (security server_finished_verification_failed)
      advance_peer
      handshake_secret ← some_or no_handshake_secret c.handshake_secret
      secrets ← on_engine (derive_application_secrets handshake_secret)
      on_engine (install_application_keys secrets.0 secrets.1)
      branch c.client_auth_requested (pure send_certificate) (pure send_finished))
      c

-- The expected data covers the messages before the Finished.
unfoldable pub on_await_finished : Act Client State
on_await_finished c =
    (do
      server_hs_secret ← some_or no_server_traffic_secret c.server_hs_traffic_secret
      expected ← on_engine (compute_verify_data server_hs_secret)
      message ← next_message finished Bool.true
      on_some message (pure await_finished) (process_finished expected))
      c
