-- ===== src/Dtls13/Server/Await.antt =====
-- src/dtls13/server.rs: the states that wait for the flight of the client, and those that follow.
use dimpl.Base.{
  ℕ, true, false, not, Option, none, some, List, [], ◌∷◌, ◌++◌, ok, err, Bytes, ltb, length,
  is_empty, contains, map,
}
use dimpl.Dtls13.Handshake.{finished}
use dimpl.Dtls13.Message.{supported_schemes}
use dimpl.Dtls13.Message.Body.{certificate, certificate_verify}
use dimpl.Dtls13.Message.Certificate.{parse_certificate, parse_signed, parse_finished, bytes_at}
use dimpl.Dtls13.Message.ServerHello.{bytes_eq}
use dimpl.Dtls13.Engine.Flight.{flight_stop_resend_timers, send_ack}
use dimpl.Dtls13.Engine.Keys.{hash_of}
use dimpl.Dtls13.Engine.Rotate.{release_application_data}
use dimpl.Dtls13.Peer.{
  Act, LocalEvent, ◌>>=◌, ◌>>◌, pure, modify, some_or, on_some, branch, result, fail_if, parsed,
  security, panicked, verification_failed, no_client_certificate, no_client_traffic_secret,
  peer_cert, connected, keying_material, signature_scheme_not_offered, signature_too_large,
  client_finished_verification_failed,
}
use dimpl.Dtls13.Peer.Create.{signed_content, client_context, compute_verify_data}
use dimpl.Dtls13.Peer.Verify.{verify_scheme_curve, signature_scheme_to_components, extract_srtp}
use dimpl.Dtls13.Server.{
  Server, State, await_certificate, await_certificate_verify, await_finished,
  await_application_data, on_engine, update_engine, next_message, advance_peer,
}

-- The certificates of the client, and the event if there are any.
unfoldable pub accept_certificates : List Bytes → Act Server State
accept_certificates certs = do
  modify (λ t. record t {
    client_certificates = t.client_certificates ++ certs;
    local_events = t.local_events ++ (peer_cert ∷ []);
  })
  modify (update_engine flight_stop_resend_timers)
  advance_peer
  pure await_certificate_verify

-- An empty list is accepted, and the client is then not authenticated.
unfoldable pub process_certificate : Bytes → Act Server State
process_certificate buf = do
  cert ← parsed (parse_certificate buf 0)
  branch (is_empty (cert.1.certificate_list))
      (do advance_peer; modify (update_engine flight_stop_resend_timers); pure await_finished)
      (accept_certificates (map (λ entry. bytes_at entry.cert buf) (cert.1.certificate_list)))

unfoldable pub on_await_certificate : Act Server State
on_await_certificate = do
  message ← next_message certificate false true
  on_some message (pure await_certificate) process_certificate

abbrev pub signature_capacity : ℕ
signature_capacity = 512

abbrev first? : List Bytes → Option Bytes
first? [] = none
first? (x ∷ xs) = some x

unfoldable pub process_certificate_verify : Bytes → Bytes → Act Server State
process_certificate_verify transcript_hash buf s =
    (do
      cv ← parsed (parse_signed buf 0)
      fail_if (not (contains supported_schemes (cv.1.scheme)))
          (security (signature_scheme_not_offered (cv.1.scheme)))
      fail_if (ltb signature_capacity (length (bytes_at (cv.1.signature) buf)))
          (security signature_too_large)
      cert_der ← some_or no_client_certificate (first? s.client_certificates)
      result (verify_scheme_curve s.backend (cv.1.scheme) cert_der)
      components ← result (signature_scheme_to_components (cv.1.scheme))
      fail_if
          (not (
            s.backend.verify_signature cert_der (signed_content client_context transcript_hash)
              (bytes_at (cv.1.signature) buf) components.0 components.1))
          verification_failed
      advance_peer
      pure await_finished)
      s

-- The hash covers the messages before the CertificateVerify.
unfoldable pub on_await_certificate_verify : Act Server State
on_await_certificate_verify s =
    (do
      transcript_hash ← on_engine (hash_of s.engine.transcript)
      message ← next_message certificate_verify false true
      on_some message (pure await_certificate_verify) (process_certificate_verify transcript_hash))
      s

-- Keys for SRTP are exported if a profile was negotiated; an error of the export is dropped.
unfoldable pub srtp_events : Server → List LocalEvent
srtp_events s = elim s.negotiated_srtp_profile [
  | none ↦ []
  | some profile ↦ elim s.engine.exporter_master_secret [
    | none ↦ []
    | some master ↦ elim ((extract_srtp profile master s.engine).1) [
      | err x ↦ []
      | ok material ↦ keying_material material profile ∷ []
    ]
  ]
]

abbrev pub export_srtp : Server → Server
export_srtp s = record s { local_events = s.local_events ++ srtp_events s }

unfoldable pub process_finished : Bytes → Bytes → Act Server State
process_finished expected buf s =
    (do
      suite ← some_or panicked s.engine.cipher_suite
      range ← parsed (parse_finished buf suite)
      fail_if (not (bytes_eq (bytes_at range.1 buf) expected))
          (security client_finished_verification_failed)
      advance_peer
      on_engine send_ack
      modify (update_engine flight_stop_resend_timers)
      modify (λ t. record t { local_events = t.local_events ++ (connected ∷ []) })
      modify export_srtp
      modify (update_engine release_application_data)
      pure await_application_data)
      s

-- The expected data covers the messages before the Finished.
unfoldable pub on_await_finished : Act Server State
on_await_finished s =
    (do
      client_hs_secret ← some_or no_client_traffic_secret s.client_hs_traffic_secret
      expected ← on_engine (compute_verify_data client_hs_secret)
      message ← next_message finished false true
      on_some message (pure await_finished) (process_finished expected))
      s
