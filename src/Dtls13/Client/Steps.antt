-- ===== src/Dtls13/Client/Steps.antt =====
-- src/dtls13/client.rs, `State::make_progress`: every state goes by the diagram.
use dimpl.Base.{◌≡◌, refl, Bool}
use dimpl.Dtls13.Client.{
  Client, State, send_client_hello, await_server_hello, await_encrypted_extensions,
  await_certificate_request, await_certificate, await_certificate_verify, await_finished,
  send_certificate, send_certificate_verify, send_finished, await_application_data,
  half_closed_local, closed,
}
use dimpl.Dtls13.Client.Moves.{Moves, moves, moved}
use dimpl.Dtls13.Client.Edges.{Edge, edges, line, stay}
use dimpl.Dtls13.Client.Agreement.{on_await_server_hello-Moves}
use dimpl.Dtls13.Client.Diagram.{
  receive_key_update-Moves, initiate_if_needed-Moves, send_queued-Moves, respond_if_pending-Moves,
  drain_key_update-Moves, on_send_client_hello-Moves, on_await_encrypted_extensions-Moves,
  process_certificate_request-Moves, process_certificate-Moves, process_certificate_verify-Moves,
  process_finished-Moves, on_send_certificate-Moves, on_send_certificate_verify-Moves,
  on_send_finished-Moves,
}
use dimpl.Dtls13.Client.Await.{
  on_await_certificate_request, on_await_certificate, on_await_certificate_verify,
  on_await_finished,
}
use dimpl.Dtls13.Client.Application.{on_await_application_data, on_half_closed_local}
use dimpl.Dtls13.Client.Progress.{state_progress}

module _ {b : Bool} (c : Client) (u : c.hello_retry ≡ b) where
  on_await_certificate_request-Moves :
      c.state ≡ await_certificate_request
      → Moves await_certificate_request b
          (Edge await_certificate_request b)
          (on_await_certificate_request c)
  unfolding on_await_certificate_request
  on_await_certificate_request-Moves h =
      search (moves, edges, process_certificate_request-Moves) depth 30

  on_await_certificate-Moves :
      c.state ≡ await_certificate
      → Moves await_certificate b (Edge await_certificate b) (on_await_certificate c)
  unfolding on_await_certificate
  on_await_certificate-Moves h = search (moves, edges, process_certificate-Moves) depth 30

  on_await_certificate_verify-Moves :
      c.state ≡ await_certificate_verify
      → Moves await_certificate_verify b
          (Edge await_certificate_verify b)
          (on_await_certificate_verify c)
  unfolding on_await_certificate_verify
  on_await_certificate_verify-Moves h =
      search (moves, edges, process_certificate_verify-Moves) depth 30

  on_await_finished-Moves :
      c.state ≡ await_finished
      → Moves await_finished b (Edge await_finished b) (on_await_finished c)
  unfolding on_await_finished
  on_await_finished-Moves h = search (moves, edges, process_finished-Moves) depth 30

  on_await_application_data-Moves :
      c.state ≡ await_application_data
      → Moves await_application_data b (Edge await_application_data b) (on_await_application_data c)
  unfolding on_await_application_data
  on_await_application_data-Moves h =
      search
        (
          moves, edges, initiate_if_needed-Moves, send_queued-Moves, respond_if_pending-Moves,
          receive_key_update-Moves,
        )
        depth 30

  on_half_closed_local-Moves :
      c.state ≡ half_closed_local
      → Moves half_closed_local b (Edge half_closed_local b) (on_half_closed_local c)
  unfolding on_half_closed_local
  on_half_closed_local-Moves h = search (moves, edges, drain_key_update-Moves) depth 30

pub state_progress-Moves :
    (st : State) (c : Client)
    → c.state ≡ st
    → Moves st c.hello_retry (Edge st c.hello_retry) (state_progress st c)
unfolding state_progress
state_progress-Moves send_client_hello c h = on_send_client_hello-Moves c refl h
state_progress-Moves await_server_hello c h = on_await_server_hello-Moves c h refl
state_progress-Moves await_encrypted_extensions c h = on_await_encrypted_extensions-Moves c refl h
state_progress-Moves await_certificate_request c h = on_await_certificate_request-Moves c refl h
state_progress-Moves await_certificate c h = on_await_certificate-Moves c refl h
state_progress-Moves await_certificate_verify c h = on_await_certificate_verify-Moves c refl h
state_progress-Moves await_finished c h = on_await_finished-Moves c refl h
state_progress-Moves send_certificate c h = on_send_certificate-Moves c refl h
state_progress-Moves send_certificate_verify c h = on_send_certificate_verify-Moves c refl h
state_progress-Moves send_finished c h = on_send_finished-Moves c refl h
state_progress-Moves await_application_data c h = on_await_application_data-Moves c refl h
state_progress-Moves half_closed_local c h = on_half_closed_local-Moves c refl h
state_progress-Moves closed c h = moved h (line stay refl)
