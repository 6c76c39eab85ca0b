-- ===== src/Dtls13/Client/Flight.antt =====
-- src/dtls13/client.rs: the states that send the last flight of the client.
use dimpl.Base.{◌%◌, not, none, some, List, [], ◌∷◌, ◌++◌, ok, err, Bytes, length, is_empty}
use dimpl.Dtls13.Handshake.{finished}
use dimpl.Dtls13.Message.Body.{certificate, certificate_verify}
use dimpl.Dtls13.Engine.Fragment.{create_handshake}
use dimpl.Dtls13.Engine.Flight.{flight_begin}
use dimpl.Dtls13.Engine.Keys.{hash_of}
use dimpl.Dtls13.Engine.Rotate.{release_application_data}
use dimpl.Dtls13.Peer.{
  Act, LocalEvent, ◌>>=◌, ◌>>◌, pure, modify, some_or, branch, or_empty, signing_failed,
  unsupported_signature_pair, no_client_traffic_secret, connected, keying_material,
}
use dimpl.Dtls13.Peer.Create.{
  certificate_body, certificate_verify_body, signed_content, client_context, scheme_of,
  compute_verify_data,
}
use dimpl.Dtls13.Peer.Verify.{extract_srtp}
use dimpl.Dtls13.Client.{
  Client, State, send_certificate_verify, send_finished, await_application_data, on_engine,
  update_engine,
}

-- A certificate message without certificates.
abbrev empty_certificate : Bytes → Bytes
empty_certificate context = length context % 256 ∷ (context ++ (0 ∷ 0 ∷ 0 ∷ []))

unfoldable pub on_send_certificate : Act Client State
on_send_certificate c =
    (do
      modify (update_engine flight_begin)
      branch (not (is_empty c.backend.certificate_der))
          (do
            on_engine (
                create_handshake certificate
                  (certificate_body c.backend.certificate_der (or_empty c.cert_request_context)))
            pure send_certificate_verify)
          (do
            on_engine
                (create_handshake certificate (empty_certificate (or_empty c.cert_request_context)))
            pure send_finished))
      c

unfoldable pub on_send_certificate_verify : Act Client State
on_send_certificate_verify c =
    (do
      transcript_hash ← on_engine (hash_of c.engine.transcript)
      signature ←
          some_or signing_failed (c.backend.sign (signed_content client_context transcript_hash))
      scheme ←
          some_or unsupported_signature_pair
            (scheme_of c.backend.signing_algorithm c.backend.signing_hash)
      on_engine (create_handshake certificate_verify (certificate_verify_body scheme signature))
      pure send_finished)
      c

-- Keys for SRTP are exported if a profile was negotiated; an error of the export is dropped.
unfoldable pub srtp_events : Client → List LocalEvent
srtp_events c = elim c.negotiated_srtp_profile [
  | none ↦ []
  | some profile ↦ elim c.engine.exporter_master_secret [
    | none ↦ []
    | some master ↦ elim ((extract_srtp profile master c.engine).1) [
      | err x ↦ []
      | ok material ↦ keying_material material profile ∷ []
    ]
  ]
]

abbrev export_srtp : Client → Client
export_srtp c = record c { local_events = c.local_events ++ srtp_events c }

-- A new flight, unless the certificate has begun it.
unfoldable pub on_send_finished : Act Client State
on_send_finished c =
    (do
      branch c.client_auth_requested (pure tt) (modify (update_engine flight_begin))
      client_hs_secret ← some_or no_client_traffic_secret c.client_hs_traffic_secret
      verify_data ← on_engine (compute_verify_data client_hs_secret)
      on_engine (create_handshake finished verify_data)
      modify (λ t. record t { local_events = t.local_events ++ (connected ∷ []) })
      modify export_srtp
      modify (update_engine release_application_data)
      pure await_application_data)
      c
