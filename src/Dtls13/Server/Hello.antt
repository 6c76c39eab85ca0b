-- ===== src/Dtls13/Server/Hello.antt =====
-- src/dtls13/server.rs, `await_client_hello`: a ClientHello is answered by a HelloRetryRequest, refused,
-- or accepted.
use dimpl.Base.{
  ℕ, ◌/◌, ◌%◌, ◌^◌, true, not, Option, some, [], ◌∷◌, ◌++◌, ok, Bytes, ◌==◌, length, contains, find,
}
use dimpl.Wire.{dtls1_2, u16_bytes}
use dimpl.Dtls13.Handshake.{client_hello, server_hello}
use dimpl.Dtls13.Message.{Dtls13CipherSuite, NamedGroup, null_compression}
use dimpl.Dtls13.Message.ClientHello.{ClientHello, parse_with_options}
use dimpl.Dtls13.Message.ServerHello.{bytes_eq}
use dimpl.Dtls13.Message.Extensions.{KeyShareEntry, key_exchange}
use dimpl.Dtls13.Engine.Fragment.{create_handshake}
use dimpl.Dtls13.Engine.Flight.{flight_begin}
use dimpl.Dtls13.Engine.Rotate.{replace_transcript_with_message_hash, reset_for_hello_retry}
use dimpl.Dtls13.Peer.{set_suite, or_empty, resize}
use dimpl.Dtls13.Peer.{
  Act, ◌>>=◌, ◌>>◌, pure, fail, modify, some_or, on_some, branch, result, fail_if, parsed, security,
  dtls12_fallback, key_exchange_failed, key_exchange_group_not_found, panicked,
  client_hello_legacy_version_not_dtls12, client_hello_must_offer_null_compression,
  client_hello_missing_dtls13_supported_versions, no_common_cipher_suite,
  no_common_key_exchange_group, invalid_cookie_in_client_hello,
  cannot_send_second_hello_retry_request,
}
use dimpl.Dtls13.Peer.Create.{hello_retry_body}
use dimpl.Dtls13.Server.{
  Server, State, await_client_hello, send_server_hello, on_engine, update_engine, next_message,
  advance_peer,
}
use dimpl.Dtls13.Server.Offer.{
  Offer, no_offer, read_offer, matching_entry, common_group, hrr_group, select_profile,
}

-- `compute_cookie`: HMAC-SHA256 of the random value of the client; 4 is SHA-256. `none` is the panic of
-- its `unwrap`.
unfoldable pub compute_cookie : Server → Bytes → Option Bytes
compute_cookie s client_random = s.engine.config.provider.hmac 4 s.cookie_secret client_random

-- `send_hello_retry_request`
unfoldable pub send_hello_retry_request :
    Dtls13CipherSuite → Bytes → Option NamedGroup → Act Server (Unit {0})
send_hello_retry_request suite cookie group s =
    on_engine
      (create_handshake server_hello
        (hello_retry_body (or_empty s.client_session_id) suite cookie group))
      (update_engine flight_begin s)

-- The answer of both places that ask for another ClientHello.
unfoldable pub retry : Dtls13CipherSuite → Bytes → Option NamedGroup → Act Server State
retry suite cookie group s =
    (do
      modify (update_engine (set_suite suite))
      on_engine (replace_transcript_with_message_hash (length s.engine.transcript))
      send_hello_retry_request suite cookie group
      advance_peer
      modify (update_engine reset_for_hello_retry)
      modify (λ t. record t { hello_retry = true })
      pure await_client_hello)
      s

abbrev u32_bytes : ℕ → Bytes
u32_bytes n = n / 2 ^ 24 % 256 ∷ n / 2 ^ 16 % 256 ∷ n / 2 ^ 8 % 256 ∷ n % 256 ∷ []

-- The public key, then its group and its range, for `send_server_hello`.
unfoldable pub stored_key : Bytes → NamedGroup → Bytes
stored_key pub_key group =
    pub_key ++ (u16_bytes group ++ (u32_bytes 0 ++ u32_bytes (length pub_key)))

-- The key exchange, and what is kept of it.
unfoldable pub complete_exchange :
    Dtls13CipherSuite → Bytes → Offer → KeyShareEntry → Act Server State
complete_exchange suite buf offer entry s =
    (do
      fail_if (not (contains s.backend.kx_groups entry.group))
          (key_exchange_group_not_found entry.group)
      exchange ← some_or key_exchange_failed (s.backend.start_exchange entry.group)
      modify (λ t. record t { extension_data = exchange.0 })
      secret ← some_or key_exchange_failed (s.backend.complete exchange.1 (key_exchange entry buf))
      modify (λ t. record (update_engine (set_suite suite) t) {
        shared_secret = some secret;
        negotiated_srtp_profile = select_profile t.negotiated_srtp_profile offer;
        extension_data = stored_key exchange.0 entry.group;
      })
      advance_peer
      pure send_server_hello)
      s

-- Without a matching key share, a common group is asked for, once.
unfoldable pub select_group : Dtls13CipherSuite → Bytes → Bytes → Offer → Act Server State
select_group suite client_random buf offer s =
    on_some (matching_entry s.backend.kx_groups offer)
      (on_some (common_group s.backend.kx_groups offer)
        (fail (security no_common_key_exchange_group))
        (λ group. branch s.hello_retry (fail (security cannot_send_second_hello_retry_request)) (do
          cookie ← some_or panicked (compute_cookie s client_random)
          retry suite cookie (some group))))
      (complete_exchange suite buf offer) s

-- A ClientHello without a cookie after a HelloRetryRequest is stale: the transcript is rolled back.
unfoldable pub discard_stale : ℕ → Act Server State
discard_stale transcript_len s = (
  update_engine (λ e. record e { transcript = resize transcript_len e.transcript }) s,
  ok await_client_hello,
)

unfoldable pub check_cookie : ℕ → Dtls13CipherSuite → Bytes → Bytes → Offer → Act Server State
check_cookie transcript_len suite client_random buf offer s =
    on_some offer.cookie_data
      (branch s.backend.use_server_cookie
        (do
          expected ← some_or panicked (compute_cookie s client_random)
          branch s.hello_retry (discard_stale transcript_len)
              (retry suite expected (hrr_group s.backend.kx_groups offer)))
        (select_group suite client_random buf offer))
      (λ cookie. do
        expected ← some_or panicked (compute_cookie s client_random)
        fail_if (not (bytes_eq cookie expected)) (security invalid_cookie_in_client_hello)
        select_group suite client_random buf offer)
      s

-- Version and suite, once the offer is read.
unfoldable pub negotiate : ℕ → Bytes → ClientHello → Offer → Act Server State
negotiate transcript_len buf hello offer s =
    (do
      branch s.auto_mode (fail_if (not offer.supported_versions_ok) dtls12_fallback) (
          fail_if (not offer.supported_versions_ok)
            (security client_hello_missing_dtls13_supported_versions))
      suite ←
          some_or (security no_common_cipher_suite)
            (find (contains s.backend.dtls13_cipher_suites) hello.cipher_suites)
      modify (λ t. record t { client_session_id = some hello.legacy_session_id })
      check_cookie transcript_len suite hello.random buf offer)
      s

unfoldable pub validate : ℕ → Bytes → ClientHello → Act Server State
validate transcript_len buf hello = do
  fail_if (not (hello.legacy_version == dtls1_2)) (security client_hello_legacy_version_not_dtls12)
  fail_if (not (contains hello.legacy_compression_methods null_compression))
      (security client_hello_must_offer_null_compression)
  offer ← result (read_offer buf hello.extensions no_offer)
  negotiate transcript_len buf hello offer

unfoldable pub process_client_hello : ℕ → Bytes → Act Server State
process_client_hello transcript_len buf s =
    (do hello ← parsed (parse_with_options buf 0 s.auto_mode); validate transcript_len buf hello.1)
      s

unfoldable pub on_await_client_hello : Act Server State
on_await_client_hello s =
    (do
      message ← next_message client_hello s.auto_mode true
      on_some message (pure await_client_hello) (process_client_hello (length s.engine.transcript)))
      s
