-- ===== src/Examples/Serving.antt =====
-- The server on the engine of the fixture: a ClientHello that is accepted, one that is stale, and a Finished.
use dimpl.Base.{
  ◌≡◌, ◌≢◌, refl, ap, true, false, some, none, [], ◌∷◌, ok, err, Bytes, replicate, length,
}
use dimpl.Wire
use dimpl.Dtls13.Handshake.{Handshake, MessageType, fragment, client_hello, finished}
use dimpl.Dtls13.Message.{ext_supported_versions, ext_supported_groups, ext_key_share}
use dimpl.Dtls13.Message.ClientHello
use dimpl.Dtls13.Engine.{Engine, IncomingRecord, Incoming}
use dimpl.Dtls13.Peer.{Backend, no_end}
use dimpl.Dtls13.Server.{
  Server, State, await_client_hello, send_server_hello, await_finished, await_application_data,
  next_message,
}
use dimpl.Dtls13.Server.Hello.{on_await_client_hello}
use dimpl.Dtls13.Server.Await.{on_await_finished}
use dimpl.Dtls13.Server.Progress.{make_progress}
use dimpl.Dtls13.Server.Accepts.{Accepted, on_await_client_hello-Accepted}
use dimpl.Dtls13.Server.Received.{Took}
use dimpl.Dtls13.Server.Verified.{Verified, on_await_finished-Verified}
use dimpl.Dtls13.Server.Stale.{NoTrace, on_await_client_hello-NoTrace}
use dimpl.Dtls13.Server.Forward.{Reaches, make_progress_ends}
use dimpl.Examples.Fixture
use dimpl.Examples.Hellos

abbrev pub used : Backend
used = record {
  use_server_cookie = true;
  require_client_certificate = false;
  dtls13_cipher_suites = 0x1301 ∷ [];
  kx_groups = 29 ∷ [];
  start_exchange = λ group. some (1 ∷ 2 ∷ [], 3 ∷ []);
  complete = λ ours theirs. some (4 ∷ theirs);
  certificate_der = 48 ∷ [];
  signing_hash = 4;
  signing_algorithm = 3;
  sign = λ text. some (replicate 64 6);
  verify_signature = λ cert text signature hash algorithm. true;
  cert_named_group = λ cert. some 23;
  random = λ drawn. replicate 32 drawn;
}

-- A message in one fragment, alone in a record, alone in the queue.
abbrev pub arrived : MessageType → Bytes → Incoming
arrived t body = record {
  first = record {
    buffer = body;
    parsed = record {
      content_type = Wire.handshake;
      sequence = record { epoch = 0; sequence_number = 0 };
      length = length body;
      fragment_start = 0;
      fragment_end = length body;
    };
    handshakes =
        (record {
          header = record {
            msg_type = t;
            length = length body;
            message_seq = 0;
            fragment_offset = 0;
            fragment_length = length body;
          };
          body = fragment 0 (length body);
          handled = false;
        })
        ∷ [];
    handled = false;
  };
  others = [];
}

abbrev waits : State → Incoming → Server
waits state message = record {
  backend = used;
  state = state;
  engine = record Fixture.server { queue_rx = message ∷ []; transcript = 70 ∷ 71 ∷ [] };
  random = none;
  client_session_id = none;
  extension_data = [];
  negotiated_srtp_profile = none;
  client_certificates = [];
  last_now = 0;
  local_events = [];
  queued_data = [];
  shared_secret = none;
  handshake_secret = none;
  client_hs_traffic_secret = some (replicate 32 1);
  server_hs_traffic_secret = none;
  client_auth_requested = false;
  hello_retry = true;
  cookie_secret = replicate 32 2;
  pending_key_update_response = false;
  auto_mode = false;
  retained_hello = [];
}

-- With the cookie that the server has given out.
abbrev greeted : Server
greeted =
    waits await_client_hello
      (arrived client_hello (ClientHello.serialize Hellos.client_hello Hellos.offered))

make_progress_ends_example :
    ((make_progress greeted).1 ≢ err no_end)
    × Reaches await_client_hello (make_progress greeted).0.state
make_progress_ends_example = make_progress_ends greeted

accepted_run : (on_await_client_hello greeted).1 ≡ ok send_server_hello
unfolding on_await_client_hello next_message dimpl.Dtls13.Server.on_engine
    dimpl.Dtls13.Engine.Scan.next_handshake dimpl.Dtls13.Engine.Scan.has_complete_handshake
    dimpl.Dtls13.Engine.Scan.has_complete_with_seq dimpl.Dtls13.Engine.Scan.pending
    dimpl.Dtls13.Engine.Scan.is_handled dimpl.Dtls13.Engine.Scan.scan_loop ClientHello.serialize
    ClientHello.serialize_head dimpl.Dtls13.Message.Extension.serialize
    dimpl.Dtls13.Engine.Scan.pending_items dimpl.Dtls13.Handshake.defragment
    dimpl.Dtls13.Handshake.join_loop dimpl.Dtls13.Handshake.finish
    dimpl.Dtls13.Message.Body.parse_body dimpl.Dtls13.Message.Body.body_rest
    ClientHello.parse_with_options Wire.parse_version Wire.be_u16 Wire.take_bytes
    dimpl.Dtls13.Message.parse_var_array Wire.be_u8 ClientHello.parse_suites
    dimpl.Wire.Many.parse_many1 dimpl.Wire.Many.many_loop ClientHello.parse_extensions
    dimpl.Dtls13.Message.Extension.parse_extensions dimpl.Dtls13.Message.Extension.parse
    dimpl.Dtls13.Message.Extension.accept dimpl.Dtls13.Server.Hello.process_client_hello
    dimpl.Dtls13.Server.Hello.validate dimpl.Dtls13.Server.Offer.read_offer
    dimpl.Dtls13.Message.Extensions.parse_supported_versions
    dimpl.Dtls13.Message.Extensions.numbers_loop
    dimpl.Dtls13.Message.Extensions.parse_supported_groups
    dimpl.Dtls13.Message.Extensions.parse_key_shares dimpl.Dtls13.Message.Extensions.entries_loop
    dimpl.Dtls13.Message.Extensions.parse_key_share_entry
    dimpl.Dtls13.Message.Extensions.parse_cookie dimpl.Dtls13.Server.Hello.negotiate
    dimpl.Dtls13.Server.Hello.check_cookie dimpl.Dtls13.Server.Hello.compute_cookie
    dimpl.Dtls13.Server.Hello.select_group dimpl.Dtls13.Server.Offer.matching_entry
    dimpl.Dtls13.Server.Hello.complete_exchange dimpl.Dtls13.Server.advance_peer
accepted_run = refl

on_await_client_hello-Accepted_example :
    (buf : Bytes) × (t : Server) × (next_message client_hello false true greeted
      ≡ (t, ok (some buf)))
    × Took greeted t
    × Accepted buf t (on_await_client_hello greeted).0
on_await_client_hello-Accepted_example =
    on_await_client_hello-Accepted greeted (on_await_client_hello greeted).0
      (ap (λ r. ((on_await_client_hello greeted).0, r)) accepted_run)

-- Without the cookie, in answer to nothing new.
abbrev belated : Server
belated = waits await_client_hello (
    arrived client_hello (
      ClientHello.serialize
        (record Hellos.client_hello {
          extensions =
              Hellos.extension ext_supported_versions 0 3
              ∷ Hellos.extension ext_supported_groups 3 7
              ∷ Hellos.extension ext_key_share 7 15
              ∷ [];
        })
        Hellos.offered))

stale_run : (on_await_client_hello belated).1 ≡ ok await_client_hello
unfolding on_await_client_hello next_message dimpl.Dtls13.Server.on_engine
    dimpl.Dtls13.Engine.Scan.next_handshake dimpl.Dtls13.Engine.Scan.has_complete_handshake
    dimpl.Dtls13.Engine.Scan.has_complete_with_seq dimpl.Dtls13.Engine.Scan.pending
    dimpl.Dtls13.Engine.Scan.is_handled dimpl.Dtls13.Engine.Scan.scan_loop ClientHello.serialize
    ClientHello.serialize_head dimpl.Dtls13.Message.Extension.serialize
    dimpl.Dtls13.Engine.Scan.pending_items dimpl.Dtls13.Handshake.defragment
    dimpl.Dtls13.Handshake.join_loop dimpl.Dtls13.Handshake.finish
    dimpl.Dtls13.Message.Body.parse_body dimpl.Dtls13.Message.Body.body_rest
    ClientHello.parse_with_options Wire.parse_version Wire.be_u16 Wire.take_bytes
    dimpl.Dtls13.Message.parse_var_array Wire.be_u8 ClientHello.parse_suites
    dimpl.Wire.Many.parse_many1 dimpl.Wire.Many.many_loop ClientHello.parse_extensions
    dimpl.Dtls13.Message.Extension.parse_extensions dimpl.Dtls13.Message.Extension.parse
    dimpl.Dtls13.Message.Extension.accept dimpl.Dtls13.Server.Hello.process_client_hello
    dimpl.Dtls13.Server.Hello.validate dimpl.Dtls13.Server.Offer.read_offer
    dimpl.Dtls13.Message.Extensions.parse_supported_versions
    dimpl.Dtls13.Message.Extensions.numbers_loop
    dimpl.Dtls13.Message.Extensions.parse_supported_groups
    dimpl.Dtls13.Message.Extensions.parse_key_shares dimpl.Dtls13.Message.Extensions.entries_loop
    dimpl.Dtls13.Message.Extensions.parse_key_share_entry
    dimpl.Dtls13.Message.Extensions.parse_cookie dimpl.Dtls13.Server.Hello.negotiate
    dimpl.Dtls13.Server.Hello.check_cookie dimpl.Dtls13.Server.Hello.compute_cookie
    dimpl.Dtls13.Server.Hello.select_group dimpl.Dtls13.Server.Offer.matching_entry
    dimpl.Dtls13.Server.Hello.complete_exchange dimpl.Dtls13.Server.advance_peer
    dimpl.Dtls13.Server.Hello.discard_stale on_await_finished
    dimpl.Dtls13.Peer.Create.compute_verify_data dimpl.Dtls13.Engine.Keys.expand
    dimpl.Crypto.Hkdf.hkdf_expand_label_dtls13 dimpl.Crypto.Hkdf.output_len
    dimpl.Dtls13.Engine.Keys.hash_algorithm dimpl.Dtls13.Engine.Keys.hash_of
    dimpl.Dtls13.Engine.Keys.extract dimpl.Crypto.Hkdf.hkdf_extract
    dimpl.Dtls13.Message.Certificate.parse_finished dimpl.Dtls13.Server.Await.process_finished
    dimpl.Dtls13.Engine.Flight.send_ack dimpl.Dtls13.Engine.Scan.advance_peer_handshake_seq
stale_run = refl

on_await_client_hello-NoTrace_example : NoTrace belated (on_await_client_hello belated).0
on_await_client_hello-NoTrace_example =
    on_await_client_hello-NoTrace belated (on_await_client_hello belated).0 refl
      (ap (λ r. ((on_await_client_hello belated).0, r)) stale_run)

-- The backend of the fixture has one value for each HMAC.
abbrev finishing : Server
finishing = waits await_finished (arrived finished (replicate 32 7))

finished_run : (on_await_finished finishing).1 ≡ ok await_application_data
unfolding on_await_finished next_message dimpl.Dtls13.Server.on_engine
    dimpl.Dtls13.Engine.Scan.next_handshake dimpl.Dtls13.Engine.Scan.has_complete_handshake
    dimpl.Dtls13.Engine.Scan.has_complete_with_seq dimpl.Dtls13.Engine.Scan.pending
    dimpl.Dtls13.Engine.Scan.is_handled dimpl.Dtls13.Engine.Scan.scan_loop
    dimpl.Dtls13.Message.Extension.serialize dimpl.Dtls13.Engine.Scan.pending_items
    dimpl.Dtls13.Handshake.defragment dimpl.Dtls13.Handshake.join_loop dimpl.Dtls13.Handshake.finish
    dimpl.Dtls13.Message.Body.parse_body dimpl.Dtls13.Message.Body.body_rest Wire.parse_version
    Wire.be_u16 Wire.take_bytes dimpl.Dtls13.Message.parse_var_array Wire.be_u8
    dimpl.Wire.Many.parse_many1 dimpl.Wire.Many.many_loop
    dimpl.Dtls13.Message.Extension.parse_extensions dimpl.Dtls13.Message.Extension.parse
    dimpl.Dtls13.Message.Extension.accept dimpl.Dtls13.Server.Offer.read_offer
    dimpl.Dtls13.Message.Extensions.parse_supported_versions
    dimpl.Dtls13.Message.Extensions.numbers_loop
    dimpl.Dtls13.Message.Extensions.parse_supported_groups
    dimpl.Dtls13.Message.Extensions.parse_key_shares dimpl.Dtls13.Message.Extensions.entries_loop
    dimpl.Dtls13.Message.Extensions.parse_key_share_entry
    dimpl.Dtls13.Message.Extensions.parse_cookie dimpl.Dtls13.Server.Offer.matching_entry
    dimpl.Dtls13.Server.advance_peer dimpl.Dtls13.Peer.Create.compute_verify_data
    dimpl.Dtls13.Engine.Keys.expand dimpl.Crypto.Hkdf.hkdf_expand_label_dtls13
    dimpl.Crypto.Hkdf.output_len dimpl.Dtls13.Engine.Keys.hash_algorithm
    dimpl.Dtls13.Engine.Keys.hash_of dimpl.Dtls13.Engine.Keys.extract dimpl.Crypto.Hkdf.hkdf_extract
    dimpl.Dtls13.Message.Certificate.parse_finished dimpl.Dtls13.Server.Await.process_finished
    dimpl.Dtls13.Engine.Flight.send_ack dimpl.Dtls13.Engine.Scan.advance_peer_handshake_seq
finished_run = refl

on_await_finished-Verified_example : Verified finishing (on_await_finished finishing).0
on_await_finished-Verified_example =
    on_await_finished-Verified finishing (on_await_finished finishing).0
      (ap (λ r. ((on_await_finished finishing).0, r)) finished_run)
