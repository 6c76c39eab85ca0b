-- ===== src/Dtls13/Message/Body.antt =====
-- src/dtls13/message/handshake.rs, `Body::parse`: which bytes are the body of a message. A body is kept
-- as its bytes; who handles it reads them by the parser that has accepted them here.
use dimpl.Base.{
  ℕ, Bool, not, Option, none, some, [], Result, ok, err, ◌>>=◌, ◌>>◌, fail_if, Bytes, ◌==◌,
  if◌then◌else◌, is_empty,
}
use dimpl.Wire.{IResult, Err, failure, fail, length_value, be_u8}
use dimpl.Dtls13.Message.Certificate.{
  parse_certificate, parse_signed, parse_finished, parse_encrypted_extensions,
}
use dimpl.Dtls13.Message.ClientHello
use dimpl.Dtls13.Message.ServerHello
use dimpl.Dtls13.Handshake.{
  MessageType, BodyParser, client_hello, server_hello, finished, key_update, message,
}
use dimpl.Dtls13.Engine.Rotate.{KeyUpdateRequest, update_not_requested, update_requested}

abbrev pub encrypted_extensions : MessageType
encrypted_extensions = 8

abbrev pub certificate : MessageType
certificate = 11

abbrev pub certificate_request : MessageType
certificate_request = 13

abbrev pub certificate_verify : MessageType
certificate_verify = 15

-- `KeyUpdateRequest::from_u8`
unfoldable pub request_of : ℕ → Option KeyUpdateRequest
request_of value =
    if value == 0
    then some update_not_requested
    else if value == 1
    then some update_requested
    else none

unfoldable pub parse_key_update : Bytes → IResult KeyUpdateRequest
parse_key_update input = do
  (input, byte) ← be_u8 input
  fail_if (not (is_empty input)) (failure length_value)
  elim (request_of byte) [ none ↦ err (failure fail) | some request ↦ ok (input, request) ]

abbrev pub rest_of {ℓ} : {A : Type ℓ} → IResult A → Result Err Bytes
rest_of (ok (rest, value)) = ok rest
rest_of (err e) = err e

-- What the parser of a type of message leaves. A CertificateRequest is taken whole.
unfoldable pub body_rest : Option ℕ → Bool → MessageType → Bytes → ℕ → Result Err Bytes
body_rest cipher_suite allow_unknown_suites m input base_offset =
    if m == client_hello
    then rest_of (ClientHello.parse_with_options input base_offset allow_unknown_suites)
    else if m == server_hello
    then rest_of (ServerHello.parse input base_offset)
    else if m == encrypted_extensions
    then rest_of (parse_encrypted_extensions input base_offset)
    else if m == certificate
    then rest_of (parse_certificate input base_offset)
    else if m == certificate_request
    then ok []
    else if m == certificate_verify
    then rest_of (parse_signed input base_offset)
    else if m == finished
    then elim cipher_suite [
      | none ↦ err (failure fail)
      | some suite ↦ rest_of (parse_finished input suite)
    ]
    else if m == key_update
    then rest_of (parse_key_update input)
    else ok input

unfoldable pub parse_body : Option ℕ → Bool → BodyParser
parse_body cipher_suite allow_unknown_suites m input base_offset = do
  rest ← body_rest cipher_suite allow_unknown_suites m input base_offset
  ok (rest, message m input)
