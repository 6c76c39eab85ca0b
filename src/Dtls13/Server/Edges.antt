-- ===== src/Dtls13/Server/Edges.antt =====
-- src/dtls13/server.rs: the diagram of the states.
use dimpl.Dtls13.Server.{
  State, await_client_hello, send_server_hello, send_encrypted_extensions, send_certificate_request,
  send_certificate, send_certificate_verify, send_finished, await_certificate,
  await_certificate_verify, await_finished, await_application_data, half_closed_local, closed,
}

-- What may follow a state within `make_progress`.
pub data Edge : State → State → Type 0 where
  stay : {st : State} → Edge st st
  accept : Edge await_client_hello send_server_hello
  hello : Edge send_server_hello send_encrypted_extensions
  ask : Edge send_encrypted_extensions send_certificate_request
  ask_not : Edge send_encrypted_extensions send_certificate
  asked : Edge send_certificate_request send_certificate
  present : Edge send_certificate send_certificate_verify
  prove : Edge send_certificate_verify send_finished
  await_client : Edge send_finished await_certificate
  await_end : Edge send_finished await_finished
  certificates : Edge await_certificate await_certificate_verify
  anonymous : Edge await_certificate await_finished
  verified : Edge await_certificate_verify await_finished
  connect : Edge await_finished await_application_data
  close : Edge half_closed_local closed

pub ruleset edges = (
  stay, accept, hello, ask, ask_not, asked, present, prove, await_client, await_end, certificates,
  anonymous, verified, connect, close,
)
