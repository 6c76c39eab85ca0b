-- ===== src/Dtls13/Server/Diagram.antt =====
-- src/dtls13/server.rs: the diagram of the states.
use dimpl.Base.{ℕ, ◌≡◌, List, Bytes}
use dimpl.Dtls13.Server.{
  Server, State, await_client_hello, send_server_hello, send_encrypted_extensions,
  send_certificate_request, send_certificate, send_certificate_verify, send_finished,
  await_certificate, await_certificate_verify, await_finished, await_application_data,
  half_closed_local, closed,
}
use dimpl.Dtls13.Server.Progress.{state_progress}
use dimpl.Dtls13.Server.Moves.{Moves, moves, moved}
use dimpl.Dtls13.Server.Hello.{negotiate, validate, process_client_hello, on_await_client_hello}
use dimpl.Dtls13.Server.Await.{
  accept_certificates, process_certificate, on_await_certificate, process_certificate_verify,
  on_await_certificate_verify, process_finished, on_await_finished,
}
use dimpl.Dtls13.Server.Flight.{
  on_send_server_hello, on_send_encrypted_extensions, on_send_certificate_request,
  on_send_certificate, on_send_certificate_verify, on_send_finished,
}
use dimpl.Dtls13.Peer.Ends.{verify_scheme_curve-Ends, signature_scheme_to_components-Ends}
use dimpl.Dtls13.Server.Edges.{Edge, edges, stay}
use dimpl.Dtls13.Server.Greeting.{check_cookie-Moves}
use dimpl.Dtls13.Server.Refusals.{read_offer-Ends}
use dimpl.Dtls13.Server.Connected.{on_await_application_data-Moves, on_half_closed_local-Moves}

on_send_server_hello-Moves :
    (s : Server)
    → s.state ≡ send_server_hello
    → Moves send_server_hello (Edge send_server_hello) (on_send_server_hello s)
unfolding on_send_server_hello
on_send_server_hello-Moves s h = search (moves, edges) depth 30

on_send_encrypted_extensions-Moves :
    (s : Server)
    → s.state ≡ send_encrypted_extensions
    → Moves send_encrypted_extensions
        (Edge send_encrypted_extensions)
        (on_send_encrypted_extensions s)
unfolding on_send_encrypted_extensions
on_send_encrypted_extensions-Moves s h = search (moves, edges) depth 30

on_send_certificate_request-Moves :
    (s : Server)
    → s.state ≡ send_certificate_request
    → Moves send_certificate_request (Edge send_certificate_request) (on_send_certificate_request s)
unfolding on_send_certificate_request
on_send_certificate_request-Moves s h = search (moves, edges) depth 30

on_send_certificate-Moves :
    (s : Server)
    → s.state ≡ send_certificate
    → Moves send_certificate (Edge send_certificate) (on_send_certificate s)
unfolding on_send_certificate
on_send_certificate-Moves s h = search (moves, edges) depth 30

on_send_certificate_verify-Moves :
    (s : Server)
    → s.state ≡ send_certificate_verify
    → Moves send_certificate_verify (Edge send_certificate_verify) (on_send_certificate_verify s)
unfolding on_send_certificate_verify
on_send_certificate_verify-Moves s h = search (moves, edges) depth 30

on_send_finished-Moves :
    (s : Server)
    → s.state ≡ send_finished
    → Moves send_finished (Edge send_finished) (on_send_finished s)
unfolding on_send_finished
on_send_finished-Moves s h = search (moves, edges) depth 30

accept_certificates-Moves :
    (certs : List Bytes) (s : Server)
    → s.state ≡ await_certificate
    → Moves await_certificate (Edge await_certificate) (accept_certificates certs s)
unfolding accept_certificates
accept_certificates-Moves certs s h = search (moves, edges) depth 30

process_certificate-Moves :
    (buf : Bytes) (s : Server)
    → s.state ≡ await_certificate
    → Moves await_certificate (Edge await_certificate) (process_certificate buf s)
unfolding process_certificate
process_certificate-Moves buf s h = search (moves, edges, accept_certificates-Moves) depth 30

on_await_certificate-Moves :
    (s : Server)
    → s.state ≡ await_certificate
    → Moves await_certificate (Edge await_certificate) (on_await_certificate s)
unfolding on_await_certificate
on_await_certificate-Moves s h = search (moves, edges, process_certificate-Moves) depth 30

process_client_hello-Moves :
    (len : ℕ) (buf : Bytes) (s : Server)
    → s.state ≡ await_client_hello
    → Moves await_client_hello (Edge await_client_hello) (process_client_hello len buf s)
unfolding process_client_hello validate negotiate
process_client_hello-Moves len buf s h =
    search (moves, edges, check_cookie-Moves, read_offer-Ends) depth 30

on_await_client_hello-Moves :
    (s : Server)
    → s.state ≡ await_client_hello
    → Moves await_client_hello (Edge await_client_hello) (on_await_client_hello s)
unfolding on_await_client_hello
on_await_client_hello-Moves s h = search (moves, edges, process_client_hello-Moves) depth 30

process_certificate_verify-Moves :
    (hash buf : Bytes) (s : Server)
    → s.state ≡ await_certificate_verify
    → Moves await_certificate_verify
        (Edge await_certificate_verify)
        (process_certificate_verify hash buf s)
unfolding process_certificate_verify
process_certificate_verify-Moves hash buf s h =
    search (moves, edges, verify_scheme_curve-Ends, signature_scheme_to_components-Ends) depth 30

on_await_certificate_verify-Moves :
    (s : Server)
    → s.state ≡ await_certificate_verify
    → Moves await_certificate_verify (Edge await_certificate_verify) (on_await_certificate_verify s)
unfolding on_await_certificate_verify
on_await_certificate_verify-Moves s h =
    search (moves, edges, process_certificate_verify-Moves) depth 30

process_finished-Moves :
    (expected buf : Bytes) (s : Server)
    → s.state ≡ await_finished
    → Moves await_finished (Edge await_finished) (process_finished expected buf s)
unfolding process_finished
process_finished-Moves expected buf s h = search (moves, edges) depth 30

on_await_finished-Moves :
    (s : Server)
    → s.state ≡ await_finished
    → Moves await_finished (Edge await_finished) (on_await_finished s)
unfolding on_await_finished
on_await_finished-Moves s h = search (moves, edges, process_finished-Moves) depth 30

pub state_progress-Moves :
    (st : State) (s : Server) → s.state ≡ st → Moves st (Edge st) (state_progress st s)
unfolding state_progress
state_progress-Moves await_client_hello s h = on_await_client_hello-Moves s h
state_progress-Moves send_server_hello s h = on_send_server_hello-Moves s h
state_progress-Moves send_encrypted_extensions s h = on_send_encrypted_extensions-Moves s h
state_progress-Moves send_certificate_request s h = on_send_certificate_request-Moves s h
state_progress-Moves send_certificate s h = on_send_certificate-Moves s h
state_progress-Moves send_certificate_verify s h = on_send_certificate_verify-Moves s h
state_progress-Moves send_finished s h = on_send_finished-Moves s h
state_progress-Moves await_certificate s h = on_await_certificate-Moves s h
state_progress-Moves await_certificate_verify s h = on_await_certificate_verify-Moves s h
state_progress-Moves await_finished s h = on_await_finished-Moves s h
state_progress-Moves await_application_data s h = on_await_application_data-Moves s h
state_progress-Moves half_closed_local s h = on_half_closed_local-Moves s h
state_progress-Moves closed s h = moved h stay
