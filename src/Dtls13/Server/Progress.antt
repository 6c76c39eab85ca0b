-- ===== src/Dtls13/Server/Progress.antt =====
-- src/dtls13/server.rs: `make_progress`, and the methods that the application calls.
use dimpl.Base.{
  ℕ, zero, suc, ◌+◌, Bool, false, not, ◌&&◌, ◌||◌, none, some, [], ◌∷◌, ◌++◌, Result, ok, err,
  Bytes, leb, ◌==◌, if◌then◌else◌, length,
}
use dimpl.Wire
use dimpl.Dtls13.Engine.Send.{create_ciphertext_record}
use dimpl.Dtls13.Engine.Flight.{abort, cancel_flights}
use dimpl.Dtls13.Engine.Timers
use dimpl.Dtls13.Queue.{parse_packet}
use dimpl.Dtls13.Message.Body.{parse_body}
use dimpl.Dtls13.Peer.{
  Act, Failure, ◌>>◌, pure, fail, modify, is_transient, no_end, connection_closed,
  too_many_client_hello_fragments, LocalEvent,
}
use dimpl.Dtls13.Server.{
  State, Server, await_client_hello, send_server_hello, send_encrypted_extensions,
  send_certificate_request, send_certificate, send_certificate_verify, send_finished,
  await_certificate, await_certificate_verify, await_finished, await_application_data,
  half_closed_local, closed, on_engine, update_engine,
}
use dimpl.Dtls13.Server.Hello.{on_await_client_hello}
use dimpl.Dtls13.Server.Flight.{
  on_send_server_hello, on_send_encrypted_extensions, on_send_certificate_request,
  on_send_certificate, on_send_certificate_verify, on_send_finished,
}
use dimpl.Dtls13.Server.Await.{on_await_certificate, on_await_certificate_verify, on_await_finished}
use dimpl.Dtls13.Server.Application.{on_await_application_data, on_half_closed_local}

-- `State::make_progress`
unfoldable pub state_progress : State → Act Server State
state_progress await_client_hello = on_await_client_hello
state_progress send_server_hello = on_send_server_hello
state_progress send_encrypted_extensions = on_send_encrypted_extensions
state_progress send_certificate_request = on_send_certificate_request
state_progress send_certificate = on_send_certificate
state_progress send_certificate_verify = on_send_certificate_verify
state_progress send_finished = on_send_finished
state_progress await_certificate = on_await_certificate
state_progress await_certificate_verify = on_await_certificate_verify
state_progress await_finished = on_await_finished
state_progress await_application_data = on_await_application_data
state_progress half_closed_local = on_half_closed_local
state_progress closed = pure closed

-- The place of a state in the handshake.
abbrev pub rank : State → ℕ
rank await_client_hello = 0
rank send_server_hello = 1
rank send_encrypted_extensions = 2
rank send_certificate_request = 3
rank send_certificate = 4
rank send_certificate_verify = 5
rank send_finished = 6
rank await_certificate = 7
rank await_certificate_verify = 8
rank await_finished = 9
rank await_application_data = 10
rank half_closed_local = 11
rank closed = 12

-- `==` on states.
abbrev pub same_state : State → State → Bool
same_state a b = rank a == rank b

-- What a round does with the state that it gets: it goes on by `k` if the state is another.
abbrev pub go_on :
    State
    → (Server → Server × Result Failure (Unit {0}))
    → Server × Result Failure State
    → Server × Result Failure (Unit {0})
go_on prev_state k (s, err x) = (s, err x)
go_on prev_state k (s, ok new_state) =
    if same_state prev_state new_state then (s, ok tt) else k (record s { state = new_state })

-- `Server::make_progress`, on fuel.
unfoldable pub progress_loop : ℕ → Act Server (Unit {0})
progress_loop zero s = fail no_end s
progress_loop (suc fuel) s = go_on s.state (progress_loop fuel) (state_progress s.state s)

-- A round that goes on moves forward, and there are 13 states.
unfoldable pub make_progress : Act Server (Unit {0})
make_progress = progress_loop 13

-- `into_public_error`: transient errors are dropped.
abbrev pub public_result : Server × Result Failure (Unit {0}) → Server × Result Failure (Unit {0})
public_result (s, ok a) = (s, ok tt)
public_result (s, err x) = if is_transient x then (s, ok tt) else (s, err x)

-- Packets are retained until the version is settled, 64 at most.
abbrev pub max_retained_client_hello : ℕ
max_retained_client_hello = 64

abbrev pub retains : Server → Bool
retains s = s.auto_mode && same_state s.state await_client_hello

-- Past the ClientHello the version is settled.
abbrev pub settle_version : Server → Server
settle_version s =
    if s.auto_mode && not (same_state s.state await_client_hello)
    then record s { retained_hello = []; auto_mode = false }
    else s

abbrev pub settle_if_ok : Server × Result Failure (Unit {0}) → Server × Result Failure (Unit {0})
settle_if_ok (s, ok a) = (settle_version s, ok a)
settle_if_ok (s, err x) = if is_transient x then (s, ok tt) else (s, err x)

unfoldable pub process_packet : Bytes → Act Server (Unit {0})
process_packet packet s =
    settle_if_ok (
      (do on_engine (parse_packet (parse_body s.engine.cipher_suite false) packet); make_progress)
        s)

unfoldable pub handle_packet : Bytes → Act Server (Unit {0})
handle_packet packet s =
    if retains s
    then (if leb max_retained_client_hello (length s.retained_hello)
        then fail too_many_client_hello_fragments s
        else process_packet packet
            (record s { retained_hello = s.retained_hello ++ (packet ∷ []) }))
    else process_packet packet s

-- `Random::new`, drawn from the generator of the engine.
abbrev pub set_random : Server → Server
set_random s = elim s.random [
  | some r ↦ s
  | none ↦
      record (update_engine (λ e. record e { rng = record e.rng { drawn = e.rng.drawn + 1 } }) s) {
        random = some (s.backend.random s.engine.rng.drawn);
      }
]

unfoldable pub handle_timeout : ℕ → Act Server (Unit {0})
handle_timeout now s =
    (do
      modify (λ t. set_random (record t { last_now = now }))
      on_engine (Timers.handle_timeout now)
      (λ t. public_result (make_progress t)))
      s

unfoldable pub send_application_data : Bytes → Act Server (Unit {0})
send_application_data text s =
    if same_state s.state closed || same_state s.state half_closed_local
    then fail connection_closed s
    else if not (same_state s.state await_application_data)
    then (record s { queued_data = s.queued_data ++ (text ∷ []) }, ok tt)
    else on_engine
        (create_ciphertext_record Wire.application_data s.engine.app_send_epoch false text) s

-- A close_notify is sent once the handshake is over; before, all is dropped.
unfoldable pub close : Act Server (Unit {0})
close s =
    if same_state s.state closed || same_state s.state half_closed_local
    then (s, ok tt)
    else if not (same_state s.state await_application_data)
    then (record (update_engine abort s) { state = closed }, ok tt)
    else (do
      on_engine (create_ciphertext_record Wire.alert s.engine.app_send_epoch false (1 ∷ 0 ∷ []))
      modify (update_engine cancel_flights)
      modify (λ t. record t { state = half_closed_local }))
        s

-- Events of this end come before the output of the engine.
pub data Output : Type 0 where
  event : LocalEvent → Output
  engine_output : Timers.Output → Output

unfoldable pub poll_output : ℕ → Server → Server × Output
poll_output buf_len s = elim s.local_events [
  | e ∷ events ↦ (record s { local_events = events }, event e)
  | [] ↦
      let (e', out) = Timers.poll_output buf_len s.last_now s.engine in
      (record s { engine = e' }, engine_output out)
]
