-- ===== src/Dtls13/Server/Greeting.antt =====
-- src/dtls13/server.rs: the moves of the server on a ClientHello.
use dimpl.Base.{ℕ, ◌≡◌, Option, Bytes}
use dimpl.Dtls13.Server.{Server, await_client_hello}
use dimpl.Dtls13.Server.Moves.{Moves, moves}
use dimpl.Dtls13.Message.Extensions.{KeyShareEntry}
use dimpl.Dtls13.Server.Offer.{Offer}
use dimpl.Dtls13.Server.Hello.{
  send_hello_retry_request, retry, complete_exchange, select_group, discard_stale, check_cookie,
}
use dimpl.Dtls13.Server.Edges.{Edge, edges}
use dimpl.Dtls13.Server.Edges.{Edge, edges}

retry-Moves :
    (suite : ℕ) (cookie : Bytes) (group : Option ℕ) (s : Server)
    → s.state ≡ await_client_hello
    → Moves await_client_hello (Edge await_client_hello) (retry suite cookie group s)
unfolding retry send_hello_retry_request
retry-Moves suite cookie group s h = search (moves, edges) depth 30

complete_exchange-Moves :
    (suite : ℕ) (buf : Bytes) (offer : Offer) (entry : KeyShareEntry) (s : Server)
    → s.state ≡ await_client_hello
    → Moves await_client_hello (Edge await_client_hello) (complete_exchange suite buf offer entry s)
unfolding complete_exchange
complete_exchange-Moves suite buf offer entry s h = search (moves, edges) depth 30

select_group-Moves :
    (suite : ℕ) (random buf : Bytes) (offer : Offer) (s : Server)
    → s.state ≡ await_client_hello
    → Moves await_client_hello (Edge await_client_hello) (select_group suite random buf offer s)
unfolding select_group
select_group-Moves suite random buf offer s h =
    search (moves, edges, retry-Moves, complete_exchange-Moves) depth 30

pub check_cookie-Moves :
    (len suite : ℕ) (random buf : Bytes) (offer : Offer) (s : Server)
    → s.state ≡ await_client_hello
    → Moves await_client_hello (Edge await_client_hello) (check_cookie len suite random buf offer s)
unfolding check_cookie discard_stale
check_cookie-Moves len suite random buf offer s h =
    search (moves, edges, retry-Moves, select_group-Moves) depth 30
