-- ===== src/Dtls13/Client/Hello.antt =====
-- src/dtls13/client.rs: the ClientHello is sent, and a ServerHello or a HelloRetryRequest is handled.
use dimpl.Base.{
  ℕ, ◌+◌, Bool, not, ◌||◌, Option, none, some, List, [], ◌∷◌, ◌++◌, ok, err, Bytes, leb, ◌==◌, ◌&&◌,
  if◌then◌else◌, length, contains,
}
use dimpl.Wire.{dtls1_2}
use dimpl.Dtls13.Handshake.{client_hello, server_hello}
use dimpl.Dtls13.Message.{
  NamedGroup, Dtls13CipherSuite, null_compression, ext_supported_versions, ext_key_share,
}
use dimpl.Dtls13.Message.Extension.{Extension, extension_data}
use dimpl.Dtls13.Message.Extensions.{key_exchange, parse_key_share}
use dimpl.Dtls13.Message.ServerHello.{ServerHello, is_hello_retry_request}
use dimpl.Dtls13.Message.ServerHello
use dimpl.Dtls13.Message.Body.{parse_body}
use dimpl.Dtls13.Message.Certificate.{Range, bytes_at}
use dimpl.Dtls13.Engine.Fragment.{create_handshake}
use dimpl.Dtls13.Engine.Flight.{flight_begin}
use dimpl.Dtls13.Engine.Keys.{derive_handshake_secrets}
use dimpl.Dtls13.Engine.Rotate.{install_handshake_keys}
use dimpl.Dtls13.Queue.{enable_peer_encryption}
use dimpl.Dtls13.Peer.{
  Act, ◌>>=◌, ◌>>◌, pure, modify, some_or, on_some, branch, fail_if, parsed, security, panicked,
  set_suite, or_empty, key_exchange_failed, key_exchange_group_not_found,
  no_supported_key_exchange_groups, no_active_key_exchange, incomplete_server_hello,
  server_hello_legacy_version_not_dtls12, server_hello_compression_must_be_null,
  server_selected_unknown_cipher_suite, server_selected_disallowed_dtls13_cipher_suite,
  server_did_not_negotiate_dtls13, server_missing_key_share, server_key_share_group_mismatch,
}
use dimpl.Dtls13.Client.{
  Client, State, await_server_hello, await_encrypted_extensions, on_engine, update_engine,
  next_message, advance_peer,
}
use dimpl.Dtls13.Client.Offer.{client_hello_body}
use dimpl.Dtls13.Client.Retry.{selects_dtls13, handle_retry, discard_stale_retry}

abbrev first? : List NamedGroup → Option NamedGroup
first? [] = none
first? (g ∷ gs) = some g

-- The group that a HelloRetryRequest has selected, or the first of ours.
abbrev chosen_group : Client → Option NamedGroup
chosen_group c = elim c.hrr_selected_group [
  | none ↦ first? c.backend.kx_groups
  | some group ↦ some group
]

unfoldable pub on_send_client_hello : Act Client State
on_send_client_hello c =
    (do
      random ← some_or panicked c.random
      modify (update_engine flight_begin)
      group ← some_or no_supported_key_exchange_groups (chosen_group c)
      fail_if (not (contains c.backend.kx_groups group)) (key_exchange_group_not_found group)
      exchange ← some_or key_exchange_failed (c.backend.start_exchange group)
      modify (λ t. record t {
        active_key_exchange = some (group, exchange.1);
        extension_data = exchange.0 ++ or_empty c.saved_cookie;
      })
      on_engine (
          create_handshake client_hello (
            client_hello_body c.backend c.engine.config.mtu random
              (record { group = group; start = 0; end = length exchange.0 }) c.saved_cookie
              (exchange.0 ++ or_empty c.saved_cookie)))
      pure await_server_hello)
      c

-- What the extensions of a ServerHello select; the key is kept behind what `extension_data` holds.
pub record Selection : Type 0 where
  pub supported_version_ok : Bool
  pub server_key_share : Option (NamedGroup × Range)
  pub extension_data : Bytes

abbrev pub append_key : Bytes → Selection → Selection
append_key text sel = elim (parse_key_share text 0) [
  | err e ↦ sel
  | ok (rest, entry) ↦ record sel {
    server_key_share = some (
      entry.group,
      (length sel.extension_data, length sel.extension_data + length (key_exchange entry text)),
    );
    extension_data = sel.extension_data ++ key_exchange entry text;
  }
]

unfoldable pub read_selection : Bytes → List Extension → Selection → Selection
read_selection buf [] sel = sel
read_selection buf (ext ∷ exts) sel = read_selection buf exts (
    if ext.extension_type == ext_supported_versions
    then record sel {
      supported_version_ok =
          sel.supported_version_ok || selects_dtls13 (extension_data ext buf) Bool.false;
    }
    else if ext.extension_type == ext_key_share
    then append_key (extension_data ext buf) sel
    else sel)

-- The key exchange is completed, and the handshake keys are derived and installed.
unfoldable pub complete_exchange : NamedGroup → Range → Act Client State
complete_exchange server_group range c =
    (do
      active ← some_or no_active_key_exchange c.active_key_exchange
      modify (λ t. record t { active_key_exchange = none })
      fail_if (not (active.0 == server_group))
          (security (server_key_share_group_mismatch active.0 server_group))
      shared_secret ←
          some_or key_exchange_failed
            (c.backend.complete active.1 (bytes_at range c.extension_data))
      secrets ← on_engine (derive_handshake_secrets shared_secret)
      modify (λ t. record t {
        handshake_secret = some secrets.2;
        server_hs_traffic_secret = some secrets.1;
        client_hs_traffic_secret = some secrets.0;
      })
      on_engine (install_handshake_keys secrets.0 secrets.1)
      (λ t. on_engine (enable_peer_encryption (parse_body t.engine.cipher_suite Bool.false)) t)
      advance_peer
      pure await_encrypted_extensions)
      c

abbrev is_unknown : Dtls13CipherSuite → Bool
is_unknown suite = not (leb 0x1301 suite && leb suite 0x1305)

unfoldable pub accept_selection : Selection → Act Client State
accept_selection sel = do
  modify (λ t. record t { extension_data = sel.extension_data })
  fail_if (not sel.supported_version_ok) (security server_did_not_negotiate_dtls13)
  share ← some_or (security server_missing_key_share) sel.server_key_share
  complete_exchange share.0 share.1

unfoldable pub handle_server_hello : Bytes → ServerHello → Act Client State
handle_server_hello buf hello c =
    (do
      fail_if (not (hello.legacy_version == dtls1_2))
          (security server_hello_legacy_version_not_dtls12)
      fail_if (not (hello.legacy_compression_method == null_compression))
          (security server_hello_compression_must_be_null)
      fail_if (is_unknown hello.cipher_suite) (security server_selected_unknown_cipher_suite)
      fail_if (not (contains c.backend.dtls13_cipher_suites hello.cipher_suite))
          (security (server_selected_disallowed_dtls13_cipher_suite hello.cipher_suite))
      modify (λ t. record (update_engine (set_suite hello.cipher_suite) t) {
        session_id = some hello.legacy_session_id;
      })
      exts ← some_or incomplete_server_hello hello.extensions
      accept_selection (
          read_selection buf exts (record {
            supported_version_ok = Bool.false;
            server_key_share = none;
            extension_data = c.extension_data;
          })))
      c

unfoldable pub process_server_hello : ℕ → Bytes → Act Client State
process_server_hello transcript_len buf c =
    (do
      hello ← parsed (ServerHello.parse buf 0)
      branch (is_hello_retry_request hello.1)
          (branch c.hello_retry (discard_stale_retry transcript_len)
            (handle_retry transcript_len buf hello.1))
          (handle_server_hello buf hello.1))
      c

unfoldable pub on_await_server_hello : Act Client State
on_await_server_hello c =
    (do
      message ← next_message server_hello Bool.true
      on_some message (pure await_server_hello) (process_server_hello (length c.engine.transcript)))
      c
