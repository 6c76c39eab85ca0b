-- ===== src/Dtls13/Peer.antt =====
-- src/dtls13/client.rs and src/dtls13/server.rs: what the two ends share. Their errors and events, the
-- operations of the backend that they use, and functions on their state.
pub mod Create
pub mod Verify
pub mod VerifyData
pub mod Inverse
pub mod Ends
use dimpl.Base.{
  ℕ, Bool, true, false, Option, none, some, List, Result, ok, err, Bytes, ◌-◌, [], ◌++◌, length,
  take, replicate,
}
use dimpl.Wire.{Err}
use dimpl.Dtls13.Handshake.{Handshake, message, fragment}
use dimpl.Dtls13.Engine.{Engine, Error, parse_incomplete, too_many_records, parse_failed}
use dimpl.Dtls13.Message.{NamedGroup, SignatureScheme, Dtls13CipherSuite}

pub data SecurityError : Type 0 where
  client_hello_legacy_version_not_dtls12 : SecurityError
  client_hello_must_offer_null_compression : SecurityError
  client_hello_missing_dtls13_supported_versions : SecurityError
  no_common_cipher_suite no_common_key_exchange_group : SecurityError
  invalid_cookie_in_client_hello : SecurityError
  cannot_send_second_hello_retry_request : SecurityError
  signature_scheme_not_offered : SignatureScheme → SecurityError
  unsupported_signature_scheme : SignatureScheme → SecurityError
  certificate_curve_mismatch : SignatureScheme → SecurityError
  signature_too_large : SecurityError
  client_finished_verification_failed server_finished_verification_failed : SecurityError
  hrr_selected_disallowed_cipher_suite hrr_did_not_select_dtls13 : SecurityError
  server_hello_legacy_version_not_dtls12 server_hello_compression_must_be_null : SecurityError
  server_selected_unknown_cipher_suite : SecurityError
  server_selected_disallowed_dtls13_cipher_suite : Dtls13CipherSuite → SecurityError
  server_did_not_negotiate_dtls13 server_missing_key_share : SecurityError
  server_key_share_group_mismatch : NamedGroup → NamedGroup → SecurityError

-- `InternalError`: the errors of the engine and those of the state machines. `panicked` and `no_end`
-- stand for a panic and for a loop that has not ended when its fuel is used up.
pub data Failure : Type 0 where
  engine_error : Error → Failure
  malformed : Err → Failure
  security : SecurityError → Failure
  dtls12_fallback connection_closed too_many_client_hello_fragments : Failure
  key_exchange_failed : Failure
  key_exchange_group_not_found : NamedGroup → Failure
  signing_failed verification_failed unsupported_signature_pair : Failure
  no_shared_secret no_handshake_secret : Failure
  no_client_traffic_secret no_server_traffic_secret : Failure
  no_client_certificate no_certificate_group : Failure
  no_supported_key_exchange_groups no_active_key_exchange incomplete_server_hello : Failure
  server_certificate_context_must_be_empty no_server_certificate_received no_server_certificate :
      Failure
  certificate_request_context_truncated certificate_request_extensions_truncated : Failure
  panicked no_end : Failure

-- `InternalError::Transient`, which `into_public_error` drops.
abbrev pub is_transient_error : Error → Bool
is_transient_error parse_incomplete = true
is_transient_error too_many_records = true
is_transient_error (parse_failed e) = true
is_transient_error e = false

unfoldable pub is_transient : Failure → Bool
is_transient (malformed e) = true
is_transient (engine_error e) = is_transient_error e
is_transient f = false

-- `SrtpProfile` by the number of its `SrtpProfileId`, to which it converts and back.
pub data LocalEvent : Type 0 where
  peer_cert connected : LocalEvent
  keying_material : Bytes → ℕ → LocalEvent

-- The values of `Config` and the operations of the backend that the ends use, with the certificate of
-- this end. `start_exchange` gives the public key and what `complete` takes with the key of the peer.
pub record Backend : Type 0 where
  pub use_server_cookie : Bool
  pub require_client_certificate : Bool
  pub dtls13_cipher_suites : List Dtls13CipherSuite
  pub kx_groups : List NamedGroup
  pub start_exchange : NamedGroup → Option (Bytes × Bytes)
  pub complete : Bytes → Bytes → Option Bytes
  pub certificate_der : Bytes
  pub signing_hash : ℕ
  pub signing_algorithm : ℕ
  pub sign : Bytes → Option Bytes
  pub verify_signature : Bytes → Bytes → Bytes → ℕ → ℕ → Bool
  pub cert_named_group : Bytes → Option NamedGroup
  pub random : ℕ → Bytes

-- A method on `&mut self` of an end, whose state is `S`.
abbrev pub Act : Type 0 → Type 0 → Type 0
Act S A = S → S × Result Failure A

abbrev pub engine_result : {A : Type 0} → Result Error A → Result Failure A
engine_result (ok a) = ok a
engine_result (err x) = err (engine_error x)

-- The body of the next message of a type, if all of it is there.
abbrev pub body_of : Option Handshake → Option (Option Bytes)
body_of none = none
body_of (some h) = elim h.body [ message t bytes ↦ some (some bytes) | fragment a b ↦ some none ]

abbrev pub set_suite : Dtls13CipherSuite → Engine → Engine
set_suite suite e = record e { cipher_suite = some suite }

abbrev pub or_empty : Option Bytes → Bytes
or_empty none = []
or_empty (some bytes) = bytes

-- `Buf::resize` with zeros
abbrev pub resize : ℕ → Bytes → Bytes
resize n bytes = take n bytes ++ replicate (n - length bytes) 0

module _ {S : Type 0} where
  abbrev pub continue_with :
      {A B : Type 0} → S × Result Failure A → (A → Act S B) → S × Result Failure B
  continue_with (s, ok a) f = f a s
  continue_with (s, err x) f = (s, err x)

  infixl 5 ◌>>=◌ ◌>>◌
  abbrev pub ◌>>=◌ : {A B : Type 0} → Act S A → (A → Act S B) → Act S B
  ◌>>=◌ m f s = continue_with (m s) f

  abbrev pub ◌>>◌ : {B : Type 0} → Act S (Unit {0}) → Act S B → Act S B
  m >> k = m >>= λ _. k

  abbrev pub pure : {A : Type 0} → A → Act S A
  pure a s = (s, ok a)

  abbrev pub fail : {A : Type 0} → Failure → Act S A
  fail x s = (s, err x)

  abbrev pub result : {A : Type 0} → Result Failure A → Act S A
  result r s = (s, r)

  abbrev pub modify : (S → S) → Act S (Unit {0})
  modify f s = (f s, ok tt)

  -- `o.ok_or(x)?`
  abbrev pub some_or : {A : Type 0} → Failure → Option A → Act S A
  some_or x none s = (s, err x)
  some_or x (some a) s = (s, ok a)

  -- `let Some(a) = o else { d }`
  abbrev pub on_some : {A B : Type 0} → Option A → Act S B → (A → Act S B) → Act S B
  on_some none d f s = d s
  on_some (some a) d f s = f a s

  -- `if`, with actions as its branches.
  abbrev pub branch : {B : Type 0} → Bool → Act S B → Act S B → Act S B
  branch true m n s = m s
  branch false m n s = n s

  abbrev pub fail_if : Bool → Failure → Act S (Unit {0})
  fail_if true x s = (s, err x)
  fail_if false x s = (s, ok tt)

  -- `nom` errors become `InternalError::parse`.
  abbrev pub parsed : {A : Type 0} → Result Err A → Act S A
  parsed (ok a) s = (s, ok a)
  parsed (err x) s = (s, err (malformed x))

  -- A body that is no whole message does not come from the defragmenter: `unreachable!`.
  abbrev pub deliver : Option (Option Bytes) → Act S (Option Bytes)
  deliver none s = (s, ok none)
  deliver (some none) s = (s, err panicked)
  deliver (some (some bytes)) s = (s, ok (some bytes))
