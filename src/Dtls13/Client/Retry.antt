-- ===== src/Dtls13/Client/Retry.antt =====
-- src/dtls13/client.rs, `await_server_hello`: a HelloRetryRequest is followed, or is stale.
use dimpl.Base.{
  ℕ, Bool, not, none, some, List, [], ◌∷◌, ok, err, Bytes, ◌==◌, if◌then◌else◌, contains,
}
use dimpl.Wire.{dtls1_3}
use dimpl.Dtls13.Message.{ext_supported_versions, ext_key_share, ext_cookie}
use dimpl.Dtls13.Message.Extension.{Extension, extension_data}
use dimpl.Dtls13.Message.Extensions.{parse_selected_version, parse_selected_group, parse_cookie}
use dimpl.Dtls13.Message.ServerHello.{ServerHello}
use dimpl.Dtls13.Engine.Rotate.{replace_transcript_with_message_hash, reset_for_hello_retry}
use dimpl.Dtls13.Peer.{
  Act, ◌>>=◌, ◌>>◌, pure, modify, branch, fail_if, parsed, security, set_suite, resize,
  hrr_selected_disallowed_cipher_suite, hrr_did_not_select_dtls13,
}
use dimpl.Dtls13.Client.{
  Client, State, send_client_hello, await_server_hello, on_engine, update_engine, advance_peer,
}

-- A selected group that does not parse is passed over.
abbrev pub select_retry_group : Bytes → Client → Client
select_retry_group text c = elim (parse_selected_group text) [
  | err e ↦ c
  | ok (rest, group) ↦ record c { hrr_selected_group = some group }
]

-- One round of the loop over the extensions of a HelloRetryRequest. The cookie is kept with its length.
unfoldable pub read_retry_extension : Bytes → Extension → Act Client (Unit {0})
read_retry_extension buf ext =
    branch (ext.extension_type == ext_key_share)
      (modify (select_retry_group (extension_data ext buf)))
      (branch (ext.extension_type == ext_cookie)
        (do
          cookie ← parsed (parse_cookie (extension_data ext buf))
          modify (λ t. record t { saved_cookie = some (extension_data ext buf) }))
        (pure tt))

unfoldable pub read_retry_extensions : Bytes → List Extension → Act Client (Unit {0})
read_retry_extensions buf [] = pure tt
read_retry_extensions buf (ext ∷ exts) = do
  read_retry_extension buf ext
  read_retry_extensions buf exts

abbrev pub selects_dtls13 : Bytes → Bool → Bool
selects_dtls13 text before = elim (parse_selected_version text) [
  | err e ↦ before
  | ok (rest, version) ↦ version == dtls1_3
]

-- `hrr_version_ok`: what the last readable supported_versions says.
unfoldable pub retry_version_ok : Bytes → List Extension → Bool → Bool
retry_version_ok buf [] before = before
retry_version_ok buf (ext ∷ exts) before = retry_version_ok buf exts (
    if ext.extension_type == ext_supported_versions
    then selects_dtls13 (extension_data ext buf) before
    else before)

abbrev pub extensions_of : ServerHello → List Extension
extensions_of hello = elim hello.extensions [ none ↦ [] | some exts ↦ exts ]

unfoldable pub handle_retry : ℕ → Bytes → ServerHello → Act Client State
handle_retry transcript_len buf hello c =
    (do
      read_retry_extensions buf (extensions_of hello)
      fail_if (not (contains c.backend.dtls13_cipher_suites hello.cipher_suite))
          (security hrr_selected_disallowed_cipher_suite)
      modify (update_engine (set_suite hello.cipher_suite))
      fail_if (not (retry_version_ok buf (extensions_of hello) Bool.false))
          (security hrr_did_not_select_dtls13)
      on_engine (replace_transcript_with_message_hash transcript_len)
      advance_peer
      modify (update_engine reset_for_hello_retry)
      modify (λ t. record t { hello_retry = Bool.true; active_key_exchange = none })
      pure send_client_hello)
      c

-- A second HelloRetryRequest is stale: the transcript is rolled back.
unfoldable pub discard_stale_retry : ℕ → Act Client State
discard_stale_retry transcript_len c = (
  update_engine (λ e. record e { transcript = resize transcript_len e.transcript }) c,
  ok await_server_hello,
)
