-- ===== src/Examples/Connecting.antt =====
-- The client on the engine of the fixture, with the CertificateVerify of a server in its queue.
use dimpl.Base.{◌≡◌, ◌≢◌, refl, ap, true, false, some, none, [], ◌∷◌, ok, err, replicate, arith}
use dimpl.Dtls13.Message.Body.{certificate_verify}
use dimpl.Dtls13.Engine.{Incoming}
use dimpl.Dtls13.Peer.{no_end}
use dimpl.Dtls13.Client.{Client, State, await_certificate_verify, await_finished, next_message}
use dimpl.Dtls13.Client.Await.{on_await_certificate_verify}
use dimpl.Dtls13.Client.Progress.{make_progress}
use dimpl.Dtls13.Client.Authenticated.{Authenticated, on_await_certificate_verify-Authenticated}
use dimpl.Dtls13.Client.Forward.{Reaches, make_progress_goes_forward}
use dimpl.Dtls13.Peer.Create.{hello_retry_body, server_hello_body}
use dimpl.Dtls13.Client.Selected.{Selects, server_hello_body-Selects}
use dimpl.Dtls13.Client.Followed.{Follows, hello_retry_body-Follows}
use dimpl.Examples.Fixture
use dimpl.Examples.Serving

abbrev waits : State → Incoming → Client
waits state message = record {
  backend = Serving.used;
  state = state;
  engine = record Fixture.server {
    queue_rx = message ∷ [];
    transcript = 70 ∷ 71 ∷ [];
    is_client = true;
  };
  random = none;
  session_id = none;
  extension_data = [];
  negotiated_srtp_profile = none;
  server_certificates = (48 ∷ []) ∷ [];
  client_auth_requested = false;
  cert_request_context = none;
  saved_cookie = none;
  last_now = 0;
  local_events = [];
  queued_data = [];
  pending_key_update_response = false;
  active_key_exchange = none;
  hello_retry = true;
  hrr_selected_group = none;
  handshake_secret = none;
  client_hs_traffic_secret = none;
  server_hs_traffic_secret = some (replicate 32 1);
}

-- A signature of two bytes by ECDSA with SHA-256.
abbrev convinced : Client
convinced =
    waits await_certificate_verify (Serving.arrived certificate_verify (4 ∷ 3 ∷ 0 ∷ 2 ∷ 6 ∷ 6 ∷ []))

verified_run : (on_await_certificate_verify convinced).1 ≡ ok await_finished
unfolding on_await_certificate_verify dimpl.Dtls13.Client.on_engine dimpl.Dtls13.Engine.Keys.hash_of
    next_message dimpl.Dtls13.Engine.Scan.next_handshake
    dimpl.Dtls13.Engine.Scan.has_complete_handshake dimpl.Dtls13.Engine.Scan.has_complete_with_seq
    dimpl.Dtls13.Engine.Scan.pending dimpl.Dtls13.Engine.Scan.is_handled
    dimpl.Dtls13.Engine.Scan.scan_loop dimpl.Dtls13.Engine.Scan.pending_items
    dimpl.Dtls13.Handshake.defragment dimpl.Dtls13.Handshake.join_loop dimpl.Dtls13.Handshake.finish
    dimpl.Dtls13.Message.Body.parse_body dimpl.Dtls13.Message.Body.body_rest
    dimpl.Dtls13.Message.Certificate.parse_signed dimpl.Wire.be_u16 dimpl.Wire.take_bytes
    dimpl.Dtls13.Client.Await.process_certificate_verify
    dimpl.Dtls13.Peer.Verify.verify_scheme_curve dimpl.Dtls13.Peer.Verify.named_group
    dimpl.Dtls13.Peer.Verify.signature_scheme_to_components dimpl.Dtls13.Client.advance_peer
verified_run = refl

on_await_certificate_verify-Authenticated_example : Authenticated convinced
on_await_certificate_verify-Authenticated_example =
    on_await_certificate_verify-Authenticated convinced (on_await_certificate_verify convinced).0
      (ap (λ r. ((on_await_certificate_verify convinced).0, r)) verified_run)

make_progress_goes_forward_example :
    ((make_progress convinced).1 ≢ err no_end)
    × Reaches await_certificate_verify true (make_progress convinced).0.state
make_progress_goes_forward_example = make_progress_goes_forward convinced

-- A HelloRetryRequest for X25519, with a cookie.
hello_retry_body-Follows_example :
    Follows
      (9 ∷ [])
      0x1301
      (replicate 32 7)
      (some 29)
      (hello_retry_body (9 ∷ []) 0x1301 (replicate 32 7) (some 29))
      convinced
hello_retry_body-Follows_example =
    hello_retry_body-Follows (9 ∷ []) 0x1301 (replicate 32 7) (some 29) convinced (omega arith)
      (omega arith) (omega arith) (omega arith) (omega arith)

-- A ServerHello with a key of two bytes.
server_hello_body-Selects_example :
    Selects
      (replicate 32 5)
      (9 ∷ [])
      0x1301
      29
      (1 ∷ 2 ∷ [])
      (server_hello_body
        (replicate 32 5)
        (9 ∷ [])
        0x1301
        (record { group = 29; start = 0; end = 2 })
        (1 ∷ 2 ∷ []))
      (8 ∷ [])
server_hello_body-Selects_example =
    server_hello_body-Selects (replicate 32 5) (9 ∷ []) 0x1301
      (record { group = 29; start = 0; end = 2 }) (1 ∷ 2 ∷ []) (8 ∷ []) refl (omega arith)
      (omega arith) (omega arith) (omega arith)
