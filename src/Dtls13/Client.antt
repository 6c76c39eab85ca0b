-- ===== src/Dtls13/Client.antt =====
-- src/dtls13/client.rs: the state of the client and its states, with the engine inside.
pub mod Offer
pub mod Retry
pub mod Hello
pub mod Await
pub mod Flight
pub mod Application
pub mod Progress
pub mod Authenticated
pub mod Moves
pub mod Edges
pub mod Agreement
pub mod Diagram
pub mod Steps
pub mod Forward
pub mod RetryContents
pub mod Followed
pub mod Selected
use dimpl.Base.{ℕ, Bool, Option, none, some, List, Result, ok, err, Bytes}
use dimpl.Dtls13.Handshake.{MessageType}
use dimpl.Dtls13.Message.{NamedGroup}
use dimpl.Dtls13.Engine.{Engine, Error, M}
use dimpl.Dtls13.Engine.Scan.{next_handshake, advance_peer_handshake_seq}
use dimpl.Dtls13.Message.Body.{parse_body}
use dimpl.Dtls13.Peer.{Backend, LocalEvent, Failure, Act, engine_result, ◌>>=◌, body_of, deliver}

pub data State : Type 0 where
  send_client_hello await_server_hello await_encrypted_extensions await_certificate_request : State
  await_certificate await_certificate_verify await_finished : State
  send_certificate send_certificate_verify send_finished : State
  await_application_data half_closed_local closed : State

-- `active_key_exchange` is its group and what `complete` takes; `defragment_buffer` holds the message
-- that is being handled and is not part of the state.
pub record Client : Type 0 where
  pub backend : Backend
  pub state : State
  pub engine : Engine
  pub random : Option Bytes
  pub session_id : Option Bytes
  pub extension_data : Bytes
  pub negotiated_srtp_profile : Option ℕ
  pub server_certificates : List Bytes
  pub client_auth_requested : Bool
  pub cert_request_context : Option Bytes
  pub saved_cookie : Option Bytes
  pub last_now : ℕ
  pub local_events : List LocalEvent
  pub queued_data : List Bytes
  pub pending_key_update_response : Bool
  pub active_key_exchange : Option (NamedGroup × Bytes)
  pub hello_retry : Bool
  pub hrr_selected_group : Option NamedGroup
  pub handshake_secret : Option Bytes
  pub client_hs_traffic_secret : Option Bytes
  pub server_hs_traffic_secret : Option Bytes

abbrev pub with_engine : {A : Type 0} → Client → Engine × Result Error A → Client × Result Failure A
with_engine c (e, r) = (record c { engine = e }, engine_result r)

-- A method of the engine.
unfoldable pub on_engine : {A : Type 0} → M A → Act Client A
on_engine m c = with_engine c (m c.engine)

abbrev pub update_engine : (Engine → Engine) → Client → Client
update_engine f c = record c { engine = f c.engine }

unfoldable pub next_message : MessageType → Bool → Act Client (Option Bytes)
next_message wanted with_transcript c =
    (do
      h ←
          on_engine
            (next_handshake (parse_body c.engine.cipher_suite Bool.false) wanted with_transcript)
      deliver (body_of h))
      c

unfoldable pub advance_peer : Act Client (Unit {0})
advance_peer c = (update_engine advance_peer_handshake_seq c, ok tt)
