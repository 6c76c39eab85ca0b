-- ===== src/Dtls13/Server/Connected.antt =====
-- src/dtls13/server.rs: the moves of the server behind its handshake.
use dimpl.Base.{ℕ, ◌≡◌, List, [], ◌∷◌, Bytes}
use dimpl.Dtls13.Server.{Server, State, await_application_data, half_closed_local}
use dimpl.Dtls13.Server.Moves.{Moves, moves, moved, Any, then_moves, engine_moves}
use dimpl.Dtls13.Server.Application.{
  on_await_application_data, on_half_closed_local, drain_queued, initiate_if_needed, send_queued,
  respond_if_pending, answer_key_update, receive_key_update, drain_key_update,
}
use dimpl.Dtls13.Server.Edges.{Edge, edges}
use dimpl.Dtls13.Server.Edges.{Edge, edges}

drain_queued-Moves :
    {st : State} (epoch : ℕ) (queued : List Bytes) (s : Server)
    → s.state ≡ st
    → Moves st Any (drain_queued epoch queued s)
unfolding drain_queued
drain_queued-Moves epoch [] s h = moved h tt
drain_queued-Moves epoch (text ∷ queued) s h =
    then_moves (engine_moves _ s h) (λ a t ht. drain_queued-Moves epoch queued t ht)

module _ {st : State} (s : Server) (h : s.state ≡ st) where
  initiate_if_needed-Moves : Moves st Any (initiate_if_needed s)
  unfolding initiate_if_needed
  initiate_if_needed-Moves = search moves depth 30

  send_queued-Moves : Moves st Any (send_queued s)
  unfolding send_queued
  send_queued-Moves = search (moves, drain_queued-Moves) depth 30

  respond_if_pending-Moves : Moves st Any (respond_if_pending s)
  unfolding respond_if_pending
  respond_if_pending-Moves = search moves depth 30

  answer_key_update-Moves : (buf : Bytes) → Moves st Any (answer_key_update buf s)
  unfolding answer_key_update
  answer_key_update-Moves buf = search moves depth 30

receive_key_update-Moves :
    {st : State} (s : Server) → s.state ≡ st → Moves st Any (receive_key_update s)
unfolding receive_key_update
receive_key_update-Moves s h = search (moves, answer_key_update-Moves) depth 30

drain_key_update-Moves :
    {st : State} (s : Server) → s.state ≡ st → Moves st Any (drain_key_update s)
unfolding drain_key_update
drain_key_update-Moves s h = search moves depth 30

pub on_await_application_data-Moves :
    (s : Server)
    → s.state ≡ await_application_data
    → Moves await_application_data (Edge await_application_data) (on_await_application_data s)
unfolding on_await_application_data
on_await_application_data-Moves s h =
    search
      (
        moves, edges, initiate_if_needed-Moves, send_queued-Moves, respond_if_pending-Moves,
        receive_key_update-Moves,
      )
      depth 30

pub on_half_closed_local-Moves :
    (s : Server)
    → s.state ≡ half_closed_local
    → Moves half_closed_local (Edge half_closed_local) (on_half_closed_local s)
unfolding on_half_closed_local
on_half_closed_local-Moves s h = search (moves, edges, drain_key_update-Moves) depth 30
