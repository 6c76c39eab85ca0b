-- ===== src/Dtls13/Client/Edges.antt =====
-- src/dtls13/client.rs: the diagram of the states.
use dimpl.Base.{◌≡◌, Bool, true, false}
use dimpl.Dtls13.Client.{
  State, send_client_hello, await_server_hello, await_encrypted_extensions,
  await_certificate_request, await_certificate, await_certificate_verify, await_finished,
  send_certificate, send_certificate_verify, send_finished, await_application_data,
  half_closed_local, closed,
}

-- What may follow a state within `make_progress`, without a HelloRetryRequest.
pub data Line : State → State → Type 0 where
  stay : {st : State} → Line st st
  greet : Line send_client_hello await_server_hello
  agree : Line await_server_hello await_encrypted_extensions
  extend : Line await_encrypted_extensions await_certificate_request
  request : Line await_certificate_request await_certificate
  certify : Line await_certificate await_certificate_verify
  verify : Line await_certificate_verify await_finished
  present : Line await_finished send_certificate
  anonymous : Line await_finished send_finished
  prove : Line send_certificate send_certificate_verify
  decline : Line send_certificate send_finished
  finish : Line send_certificate_verify send_finished
  connect : Line send_finished await_application_data
  close : Line half_closed_local closed

-- With one: it leads back if none was received before. The flags say so for before and after.
pub data Edge : State → Bool → Bool → State → Type 0 where
  line : {s t : State} {b flag : Bool} → Line s t → flag ≡ b → Edge s b flag t
  again : Edge await_server_hello false true send_client_hello

pub ruleset edges = (
  line, again, stay, greet, agree, extend, request, certify, verify, present, anonymous, prove,
  decline, finish, connect, close,
)
