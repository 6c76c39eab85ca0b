-- ===== src/Dtls13/Client/Diagram.antt =====
-- src/dtls13/client.rs: the steps of the states, and the states that send, go by the diagram.
use dimpl.Base.{ℕ, ◌≡◌, arith, Bool, Option, List, [], ◌∷◌, Bytes}
use dimpl.Dtls13.Message.Extension.{Extension}
use dimpl.Dtls13.Peer.Ends.{Ends, verify_scheme_curve-Ends, signature_scheme_to_components-Ends}
use dimpl.Dtls13.Client.{
  Client, State, send_client_hello, await_encrypted_extensions, await_certificate_request,
  await_certificate, await_certificate_verify, await_finished, send_certificate,
  send_certificate_verify, send_finished,
}
use dimpl.Dtls13.Client.Moves.{Moves, moves, moved, Same, then_moves, engine_moves}
use dimpl.Dtls13.Client.Edges.{Edge, edges}
use dimpl.Dtls13.Client.Hello.{on_send_client_hello}
use dimpl.Dtls13.Client.Await.{
  set_profile, keep_context, read_srtp_extension, read_srtp, on_await_encrypted_extensions,
  parse_certificate_request, process_certificate_request, process_certificate,
  process_certificate_verify, process_finished,
}
use dimpl.Dtls13.Client.Flight.{on_send_certificate, on_send_certificate_verify, on_send_finished}
use dimpl.Dtls13.Client.Application.{
  initiate_if_needed, drain_queued, send_queued, respond_if_pending, answer_key_update,
  receive_key_update, drain_key_update,
}

set_profile-state : (ps : List ℕ) (c : Client) → (set_profile ps c).state ≡ c.state
set_profile-state ps c = ground arith

set_profile-flag : (ps : List ℕ) (c : Client) → (set_profile ps c).hello_retry ≡ c.hello_retry
set_profile-flag ps c = ground arith

keep_context-state : (o : Option Bytes) (c : Client) → (keep_context o c).state ≡ c.state
keep_context-state o c = ground arith

keep_context-flag : (o : Option Bytes) (c : Client) → (keep_context o c).hello_retry ≡ c.hello_retry
keep_context-flag o c = ground arith

parse_certificate_request-Ends : (text : Bytes) → Ends (parse_certificate_request text)
unfolding parse_certificate_request
parse_certificate_request-Ends [] = tt
parse_certificate_request-Ends (len ∷ rest) = ground arith

module _ {st : State} {b : Bool} where
  drain_queued-Moves :
      (epoch : ℕ) (queued : List Bytes) (c : Client)
      → c.state ≡ st
      → c.hello_retry ≡ b
      → Moves st b (Same b) (drain_queued epoch queued c)
  unfolding drain_queued
  drain_queued-Moves epoch [] c h u = moved h u
  drain_queued-Moves epoch (text ∷ queued) c h u =
      then_moves (engine_moves _ c h u) (λ a t ht ut. drain_queued-Moves epoch queued t ht ut)

  read_srtp_extension-Moves :
      (buf : Bytes) (ext : Extension) (c : Client)
      → c.state ≡ st
      → c.hello_retry ≡ b
      → Moves st b (Same b) (read_srtp_extension buf ext c)
  unfolding read_srtp_extension
  read_srtp_extension-Moves buf ext c h u =
      search (moves, set_profile-state, set_profile-flag) depth 30

  read_srtp-Moves :
      (buf : Bytes) (exts : List Extension) (c : Client)
      → c.state ≡ st
      → c.hello_retry ≡ b
      → Moves st b (Same b) (read_srtp buf exts c)
  unfolding read_srtp
  read_srtp-Moves buf [] c h u = moved h u
  read_srtp-Moves buf (ext ∷ exts) c h u =
      then_moves (read_srtp_extension-Moves buf ext c h u)
        (λ a t ht ut. read_srtp-Moves buf exts t ht ut)

  module _ (c : Client) (h : c.state ≡ st) (u : c.hello_retry ≡ b) where
    pub initiate_if_needed-Moves : Moves st b (Same b) (initiate_if_needed c)
    unfolding initiate_if_needed
    initiate_if_needed-Moves = search moves depth 30

    pub send_queued-Moves : Moves st b (Same b) (send_queued c)
    unfolding send_queued
    send_queued-Moves = search (moves, drain_queued-Moves) depth 30

    pub respond_if_pending-Moves : Moves st b (Same b) (respond_if_pending c)
    unfolding respond_if_pending
    respond_if_pending-Moves = search moves depth 30

    answer_key_update-Moves : (buf : Bytes) → Moves st b (Same b) (answer_key_update buf c)
    unfolding answer_key_update
    answer_key_update-Moves buf = search moves depth 30

    pub drain_key_update-Moves : Moves st b (Same b) (drain_key_update c)
    unfolding drain_key_update
    drain_key_update-Moves = search moves depth 30

  pub receive_key_update-Moves :
      (c : Client) → c.state ≡ st → c.hello_retry ≡ b → Moves st b (Same b) (receive_key_update c)
  unfolding receive_key_update
  receive_key_update-Moves c h u = search (moves, answer_key_update-Moves) depth 30

module _ {b : Bool} (c : Client) (u : c.hello_retry ≡ b) where
  pub on_send_client_hello-Moves :
      c.state ≡ send_client_hello
      → Moves send_client_hello b (Edge send_client_hello b) (on_send_client_hello c)
  unfolding on_send_client_hello
  on_send_client_hello-Moves h = search (moves, edges) depth 30

  pub on_await_encrypted_extensions-Moves :
      c.state ≡ await_encrypted_extensions
      → Moves await_encrypted_extensions b
          (Edge await_encrypted_extensions b)
          (on_await_encrypted_extensions c)
  unfolding on_await_encrypted_extensions
  on_await_encrypted_extensions-Moves h = search (moves, edges, read_srtp-Moves) depth 30

  pub process_certificate_request-Moves :
      (buf : Bytes)
      → c.state ≡ await_certificate_request
      → Moves await_certificate_request b
          (Edge await_certificate_request b)
          (process_certificate_request buf c)
  unfolding process_certificate_request
  process_certificate_request-Moves buf h =
      search (moves, edges, parse_certificate_request-Ends, keep_context-state, keep_context-flag)
        depth 30

  pub process_certificate-Moves :
      (buf : Bytes)
      → c.state ≡ await_certificate
      → Moves await_certificate b (Edge await_certificate b) (process_certificate buf c)
  unfolding process_certificate
  process_certificate-Moves buf h = search (moves, edges) depth 30

  pub process_certificate_verify-Moves :
      (hash buf : Bytes)
      → c.state ≡ await_certificate_verify
      → Moves await_certificate_verify b
          (Edge await_certificate_verify b)
          (process_certificate_verify hash buf c)
  unfolding process_certificate_verify
  process_certificate_verify-Moves hash buf h =
      search (moves, edges, verify_scheme_curve-Ends, signature_scheme_to_components-Ends) depth 30

  pub process_finished-Moves :
      (expected buf : Bytes)
      → c.state ≡ await_finished
      → Moves await_finished b (Edge await_finished b) (process_finished expected buf c)
  unfolding process_finished
  process_finished-Moves expected buf h = search (moves, edges) depth 30

  pub on_send_certificate-Moves :
      c.state ≡ send_certificate
      → Moves send_certificate b (Edge send_certificate b) (on_send_certificate c)
  unfolding on_send_certificate
  on_send_certificate-Moves h = search (moves, edges) depth 30

  pub on_send_certificate_verify-Moves :
      c.state ≡ send_certificate_verify
      → Moves send_certificate_verify b
          (Edge send_certificate_verify b)
          (on_send_certificate_verify c)
  unfolding on_send_certificate_verify
  on_send_certificate_verify-Moves h = search (moves, edges) depth 30

  pub on_send_finished-Moves :
      c.state ≡ send_finished → Moves send_finished b (Edge send_finished b) (on_send_finished c)
  unfolding on_send_finished
  on_send_finished-Moves h = search (moves, edges) depth 30
