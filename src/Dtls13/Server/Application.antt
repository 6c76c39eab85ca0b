-- ===== src/Dtls13/Server/Application.antt =====
-- src/dtls13/server.rs: application data and key updates, and the end after close_notify.
use dimpl.Base.{ℕ, Bool, true, false, not, ◌&&◌, ◌||◌, List, [], ◌∷◌, Bytes}
use dimpl.Wire
use dimpl.Dtls13.Handshake.{key_update}
use dimpl.Dtls13.Message.Body.{parse_key_update}
use dimpl.Dtls13.Engine.Send.{create_ciphertext_record, is_some}
use dimpl.Dtls13.Engine.Scan.{has_complete_handshake}
use dimpl.Dtls13.Engine.Flight.{send_ack}
use dimpl.Dtls13.Engine.Rotate.{
  create_key_update, update_recv_keys, update_requested, update_not_requested,
  poll_needs_key_update, KeyUpdateRequest,
}
use dimpl.Dtls13.Peer.{Act, ◌>>=◌, ◌>>◌, pure, modify, on_some, branch, parsed}
use dimpl.Dtls13.Server.{
  Server, State, await_application_data, half_closed_local, closed, on_engine, update_engine,
  next_message, advance_peer,
}

-- A KeyUpdate of our own, when the limit of the key is reached and none is on its way.
unfoldable pub initiate_if_needed : Act Server (Unit {0})
initiate_if_needed s =
    (do
      modify (update_engine (λ e. (poll_needs_key_update e).0))
      branch (s.engine.needs_key_update && not (is_some s.engine.prev_app_send_keys))
          (on_engine (create_key_update update_requested)) (pure tt))
      s

-- `queued_data.drain(..)`: an error drops the rest.
unfoldable pub drain_queued : ℕ → List Bytes → Act Server (Unit {0})
drain_queued epoch [] = pure tt
drain_queued epoch (text ∷ queued) = do
  on_engine (create_ciphertext_record Wire.application_data epoch false text)
  drain_queued epoch queued

unfoldable pub send_queued : Act Server (Unit {0})
send_queued s =
    (do
      modify (λ t. record t { queued_data = [] })
      drain_queued s.engine.app_send_epoch s.queued_data)
      s

unfoldable pub respond_if_pending : Act Server (Unit {0})
respond_if_pending s =
    branch s.pending_key_update_response
      (do
        on_engine (create_key_update update_not_requested)
        modify (λ t. record t { pending_key_update_response = false }))
      (pure tt) s

abbrev is_requested : KeyUpdateRequest → Bool
is_requested update_requested = true
is_requested update_not_requested = false

-- A KeyUpdate of the client: new keys to receive with, an acknowledgement, and our own if it asks.
unfoldable pub answer_key_update : Bytes → Act Server (Unit {0})
answer_key_update buf = do
  request ← parsed (parse_key_update buf)
  epoch ← on_engine update_recv_keys
  on_engine send_ack
  modify (λ t. record t {
    pending_key_update_response = t.pending_key_update_response || is_requested request.1;
  })
  advance_peer

unfoldable pub receive_key_update : Act Server (Unit {0})
receive_key_update s =
    branch (has_complete_handshake s.engine key_update)
      (do
        message ← next_message key_update false false
        on_some message (pure tt) answer_key_update)
      (pure tt) s

unfoldable pub on_await_application_data : Act Server State
on_await_application_data = do
  initiate_if_needed
  send_queued
  respond_if_pending
  receive_key_update
  pure await_application_data

-- Receive keys are kept in step, and nothing is answered.
unfoldable pub drain_key_update : Act Server (Unit {0})
drain_key_update s =
    branch (has_complete_handshake s.engine key_update)
      (do
        message ← next_message key_update false false
        on_some message (pure tt) (λ buf. do epoch ← on_engine update_recv_keys; advance_peer))
      (pure tt) s

unfoldable pub on_half_closed_local : Act Server State
on_half_closed_local = do
  drain_key_update
  (λ t. branch (is_some t.engine.close_notify_sequence) (pure closed) (pure half_closed_local) t)
