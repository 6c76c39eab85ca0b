-- ===== src/Dtls13/Client/Progress.antt =====
-- src/dtls13/client.rs: `make_progress`, and the methods that the application calls.
use dimpl.Base.{
  ℕ, zero, suc, ◌+◌, Bool, false, not, ◌||◌, none, some, [], ◌∷◌, ◌++◌, Result, ok, err, Bytes,
  ◌==◌, if◌then◌else◌,
}
use dimpl.Wire
use dimpl.Dtls13.Engine.Send.{create_ciphertext_record}
use dimpl.Dtls13.Engine.Flight.{abort, cancel_flights}
use dimpl.Dtls13.Engine.Timers
use dimpl.Dtls13.Queue.{parse_packet}
use dimpl.Dtls13.Message.Body.{parse_body}
use dimpl.Dtls13.Peer.{
  Act, Failure, ◌>>◌, pure, fail, modify, is_transient, no_end, connection_closed, LocalEvent,
}
use dimpl.Dtls13.Client.{
  State, Client, send_client_hello, await_server_hello, await_encrypted_extensions,
  await_certificate_request, await_certificate, await_certificate_verify, await_finished,
  send_certificate, send_certificate_verify, send_finished, await_application_data,
  half_closed_local, closed, on_engine, update_engine,
}
use dimpl.Dtls13.Client.Hello.{on_send_client_hello, on_await_server_hello}
use dimpl.Dtls13.Client.Await.{
  on_await_encrypted_extensions, on_await_certificate_request, on_await_certificate,
  on_await_certificate_verify, on_await_finished,
}
use dimpl.Dtls13.Client.Flight.{on_send_certificate, on_send_certificate_verify, on_send_finished}
use dimpl.Dtls13.Client.Application.{on_await_application_data, on_half_closed_local}

-- `State::make_progress`
unfoldable pub state_progress : State → Act Client State
state_progress send_client_hello = on_send_client_hello
state_progress await_server_hello = on_await_server_hello
state_progress await_encrypted_extensions = on_await_encrypted_extensions
state_progress await_certificate_request = on_await_certificate_request
state_progress await_certificate = on_await_certificate
state_progress await_certificate_verify = on_await_certificate_verify
state_progress await_finished = on_await_finished
state_progress send_certificate = on_send_certificate
state_progress send_certificate_verify = on_send_certificate_verify
state_progress send_finished = on_send_finished
state_progress await_application_data = on_await_application_data
state_progress half_closed_local = on_half_closed_local
state_progress closed = pure closed

-- The place of a state in the handshake.
abbrev pub rank : State → ℕ
rank send_client_hello = 0
rank await_server_hello = 1
rank await_encrypted_extensions = 2
rank await_certificate_request = 3
rank await_certificate = 4
rank await_certificate_verify = 5
rank await_finished = 6
rank send_certificate = 7
rank send_certificate_verify = 8
rank send_finished = 9
rank await_application_data = 10
rank half_closed_local = 11
rank closed = 12

-- `==` on states.
abbrev pub same_state : State → State → Bool
same_state a b = rank a == rank b

-- What a round does with the state that it gets: it goes on by `k` if the state is another.
abbrev pub go_on :
    State
    → (Client → Client × Result Failure (Unit {0}))
    → Client × Result Failure State
    → Client × Result Failure (Unit {0})
go_on prev_state k (c, err x) = (c, err x)
go_on prev_state k (c, ok new_state) =
    if same_state prev_state new_state then (c, ok tt) else k (record c { state = new_state })

-- `Client::make_progress`, on fuel.
unfoldable pub progress_loop : ℕ → Act Client (Unit {0})
progress_loop zero c = fail no_end c
progress_loop (suc fuel) c = go_on c.state (progress_loop fuel) (state_progress c.state c)

-- A round that goes on moves forward among 13 states, but for one HelloRetryRequest, which leads back
-- by one state.
unfoldable pub make_progress : Act Client (Unit {0})
make_progress = progress_loop 15

-- `into_public_error`: transient errors are dropped.
abbrev pub public_result : Client × Result Failure (Unit {0}) → Client × Result Failure (Unit {0})
public_result (c, ok a) = (c, ok tt)
public_result (c, err x) = if is_transient x then (c, ok tt) else (c, err x)

unfoldable pub handle_packet : Bytes → Act Client (Unit {0})
handle_packet packet c =
    public_result (
      (do on_engine (parse_packet (parse_body c.engine.cipher_suite false) packet); make_progress)
        c)

-- `Random::new`, drawn from the generator of the engine.
abbrev pub set_random : Client → Client
set_random c = elim c.random [
  | some r ↦ c
  | none ↦
      record (update_engine (λ e. record e { rng = record e.rng { drawn = e.rng.drawn + 1 } }) c) {
        random = some (c.backend.random c.engine.rng.drawn);
      }
]

unfoldable pub handle_timeout : ℕ → Act Client (Unit {0})
handle_timeout now c =
    (do
      modify (λ t. set_random (record t { last_now = now }))
      on_engine (Timers.handle_timeout now)
      (λ t. public_result (make_progress t)))
      c

unfoldable pub send_application_data : Bytes → Act Client (Unit {0})
send_application_data text c =
    if same_state c.state closed || same_state c.state half_closed_local
    then fail connection_closed c
    else if not (same_state c.state await_application_data)
    then (record c { queued_data = c.queued_data ++ (text ∷ []) }, ok tt)
    else on_engine
        (create_ciphertext_record Wire.application_data c.engine.app_send_epoch false text) c

-- A close_notify is sent once the handshake is over; before, all is dropped.
unfoldable pub close : Act Client (Unit {0})
close c =
    if same_state c.state closed || same_state c.state half_closed_local
    then (c, ok tt)
    else if not (same_state c.state await_application_data)
    then (record (update_engine abort c) { state = closed }, ok tt)
    else (do
      on_engine (create_ciphertext_record Wire.alert c.engine.app_send_epoch false (1 ∷ 0 ∷ []))
      modify (update_engine cancel_flights)
      modify (λ t. record t { state = half_closed_local }))
        c

-- Events of this end come before the output of the engine.
pub data Output : Type 0 where
  event : LocalEvent → Output
  engine_output : Timers.Output → Output

unfoldable pub poll_output : ℕ → Client → Client × Output
poll_output buf_len c = elim c.local_events [
  | e ∷ events ↦ (record c { local_events = events }, event e)
  | [] ↦
      let (e', out) = Timers.poll_output buf_len c.last_now c.engine in
      (record c { engine = e' }, engine_output out)
]
