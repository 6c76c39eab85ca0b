-- ===== src/Dtls13/Server.antt =====
-- src/dtls13/server.rs: the state of the server and its states, with the engine inside.
pub mod Offer
pub mod Hello
pub mod Flight
pub mod Await
pub mod Application
pub mod Progress
pub mod Moves
pub mod Edges
pub mod Refusals
pub mod Greeting
pub mod Connected
pub mod Diagram
pub mod Forward
pub mod Received
pub mod Taken
pub mod Chosen
pub mod CookieHolds
pub mod Accepts
pub mod Verified
pub mod Stale
use dimpl.Base.{ℕ, Bool, Option, none, some, List, Result, ok, err, Bytes, ◌==◌}
use dimpl.Dtls13.Handshake.{Handshake, MessageType, message, fragment}
use dimpl.Dtls13.Engine.{Engine, Error, M}
use dimpl.Dtls13.Engine.Scan.{next_handshake, advance_peer_handshake_seq}
use dimpl.Dtls13.Message.Body.{parse_body}
use dimpl.Dtls13.Peer.{
  Backend, LocalEvent, Failure, Act, engine_result, ◌>>=◌, pure, fail, panicked, body_of, deliver,
}

pub data State : Type 0 where
  await_client_hello send_server_hello send_encrypted_extensions : State
  send_certificate_request send_certificate send_certificate_verify send_finished : State
  await_certificate await_certificate_verify await_finished : State
  await_application_data half_closed_local closed : State

-- `active_key_exchange` is always `None` between calls, and `defragment_buffer` holds the message that
-- is being handled: neither is part of the state.
pub record Server : Type 0 where
  pub backend : Backend
  pub state : State
  pub engine : Engine
  pub random : Option Bytes
  pub client_session_id : Option Bytes
  pub extension_data : Bytes
  pub negotiated_srtp_profile : Option ℕ
  pub client_certificates : List Bytes
  pub last_now : ℕ
  pub local_events : List LocalEvent
  pub queued_data : List Bytes
  pub shared_secret : Option Bytes
  pub handshake_secret : Option Bytes
  pub client_hs_traffic_secret : Option Bytes
  pub server_hs_traffic_secret : Option Bytes
  pub client_auth_requested : Bool
  pub hello_retry : Bool
  pub cookie_secret : Bytes
  pub pending_key_update_response : Bool
  pub auto_mode : Bool
  pub retained_hello : List Bytes

abbrev pub with_engine : {A : Type 0} → Server → Engine × Result Error A → Server × Result Failure A
with_engine s (e, r) = (record s { engine = e }, engine_result r)

-- A method of the engine.
unfoldable pub on_engine : {A : Type 0} → M A → Act Server A
on_engine m s = with_engine s (m s.engine)

abbrev pub update_engine : (Engine → Engine) → Server → Server
update_engine f s = record s { engine = f s.engine }

unfoldable pub next_message : MessageType → Bool → Bool → Act Server (Option Bytes)
next_message wanted allow_unknown_suites with_transcript s =
    (do
      h ← on_engine (
          next_handshake (parse_body s.engine.cipher_suite allow_unknown_suites) wanted
            with_transcript)
      deliver (body_of h))
      s

unfoldable pub advance_peer : Act Server (Unit {0})
advance_peer s = (update_engine advance_peer_handshake_seq s, ok tt)
