-- ===== src/Dtls13/Server/Flight.antt =====
-- src/dtls13/server.rs: the states that send the flight of the server.
use dimpl.Base.{ℕ, ◌+◌, ◌-◌, ◌*◌, Bool, none, some, [], ◌∷◌, Bytes, ltb, length, take, drop}
use dimpl.Dtls13.Handshake.{server_hello, finished}
use dimpl.Dtls13.Message.Body.{
  encrypted_extensions, certificate, certificate_request, certificate_verify, parse_body,
}
use dimpl.Dtls13.Message.Extensions.{KeyShareEntry}
use dimpl.Dtls13.Engine.Fragment.{create_handshake}
use dimpl.Dtls13.Engine.Flight.{flight_begin}
use dimpl.Dtls13.Engine.Keys.{derive_handshake_secrets, derive_application_secrets, hash_of}
use dimpl.Dtls13.Engine.Rotate.{install_handshake_keys, install_application_keys}
use dimpl.Dtls13.Queue.{enable_peer_encryption}
use dimpl.Dtls13.Peer.{
  Act, ◌>>=◌, ◌>>◌, pure, modify, some_or, branch, fail_if, panicked, signing_failed,
  unsupported_signature_pair, no_shared_secret, no_handshake_secret, no_server_traffic_secret,
}
use dimpl.Dtls13.Peer.Create.{
  server_hello_body, encrypted_extensions_body, certificate_request_body, certificate_body,
  certificate_verify_body, signed_content, server_context, scheme_of, compute_verify_data,
}
use dimpl.Dtls13.Server.{
  Server, State, send_encrypted_extensions, send_certificate_request, send_certificate,
  send_certificate_verify, send_finished, await_certificate, await_finished, on_engine,
  update_engine,
}
use dimpl.Dtls13.Peer.{or_empty}

-- Big-endian numbers of two and of four bytes.
abbrev number : Bytes → ℕ
number bytes = elim bytes [
  | [] ↦ 0
  | a ∷ [] ↦ a
  | a ∷ b ∷ [] ↦ a * 256 + b
  | a ∷ b ∷ c ∷ [] ↦ (a * 256 + b) * 256 + c
  | a ∷ b ∷ c ∷ d ∷ rest ↦ ((a * 256 + b) * 256 + c) * 256 + d
]

-- The group and the range that stand behind the public key.
abbrev pub stored_entry : Bytes → KeyShareEntry
stored_entry meta = record {
  group = number (take 2 meta);
  start = number (take 4 (drop 2 meta));
  end = number (take 4 (drop 6 meta));
}

abbrev pub metadata_len : ℕ
metadata_len = 10

-- The random value is there, since `handle_timeout` sets it, and so are the stored key and the suite:
-- their absence is a panic.
unfoldable pub on_send_server_hello : Act Server State
on_send_server_hello s =
    let meta_start = length s.extension_data - metadata_len in
    let key = take meta_start s.extension_data in
    let entry = stored_entry (drop meta_start s.extension_data) in
    (do
      random ← some_or panicked s.random
      fail_if (ltb (length s.extension_data) metadata_len) panicked
      modify (λ t. record (update_engine flight_begin t) { extension_data = key })
      suite ← some_or panicked s.engine.cipher_suite
      on_engine (
          create_handshake server_hello
            (server_hello_body random (or_empty s.client_session_id) suite entry key))
      modify (λ t. record t { shared_secret = none })
      shared ← some_or no_shared_secret s.shared_secret
      secrets ← on_engine (derive_handshake_secrets shared)
      modify (λ t. record t {
        handshake_secret = some secrets.2;
        server_hs_traffic_secret = some secrets.1;
        client_hs_traffic_secret = some secrets.0;
      })
      on_engine (install_handshake_keys secrets.0 secrets.1)
      pure send_encrypted_extensions)
      s

unfoldable pub on_send_encrypted_extensions : Act Server State
on_send_encrypted_extensions s =
    (do
      on_engine (
          create_handshake encrypted_extensions
            (encrypted_extensions_body s.negotiated_srtp_profile))
      branch s.backend.require_client_certificate (pure send_certificate_request)
          (pure send_certificate))
      s

unfoldable pub on_send_certificate_request : Act Server State
on_send_certificate_request = do
  on_engine (create_handshake certificate_request certificate_request_body)
  modify (λ t. record t { client_auth_requested = Bool.true })
  pure send_certificate

unfoldable pub on_send_certificate : Act Server State
on_send_certificate s =
    (do
      on_engine (create_handshake certificate (certificate_body s.backend.certificate_der []))
      pure send_certificate_verify)
      s

unfoldable pub on_send_certificate_verify : Act Server State
on_send_certificate_verify s =
    (do
      transcript_hash ← on_engine (hash_of s.engine.transcript)
      signature ←
          some_or signing_failed (s.backend.sign (signed_content server_context transcript_hash))
      scheme ←
          some_or unsupported_signature_pair
            (scheme_of s.backend.signing_algorithm s.backend.signing_hash)
      on_engine (create_handshake certificate_verify (certificate_verify_body scheme signature))
      pure send_finished)
      s

unfoldable pub on_send_finished : Act Server State
on_send_finished s =
    (do
      server_hs_secret ← some_or no_server_traffic_secret s.server_hs_traffic_secret
      verify_data ← on_engine (compute_verify_data server_hs_secret)
      on_engine (create_handshake finished verify_data)
      handshake_secret ← some_or no_handshake_secret s.handshake_secret
      secrets ← on_engine (derive_application_secrets handshake_secret)
      on_engine (install_application_keys secrets.0 secrets.1)
      (λ t. on_engine (enable_peer_encryption (parse_body t.engine.cipher_suite Bool.false)) t)
      branch s.client_auth_requested (pure await_certificate) (pure await_finished))
      s
