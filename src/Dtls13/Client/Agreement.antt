-- ===== src/Dtls13/Client/Agreement.antt =====
-- src/dtls13/client.rs: the moves of the client on a ServerHello or a HelloRetryRequest.
use dimpl.Base.{ℕ, ◌≡◌, sym, subst, ◌∙◌, arith, Bool, true, false, List, [], ◌∷◌, Bytes}
use dimpl.Dtls13.Message.Extension.{Extension}
use dimpl.Dtls13.Message.Certificate.{Range}
use dimpl.Dtls13.Message.ServerHello.{ServerHello}
use dimpl.Dtls13.Peer.{branch}
use dimpl.Dtls13.Client.{Client, State, await_server_hello}
use dimpl.Dtls13.Client.Moves.{Moves, moves, moved, Same, then_moves}
use dimpl.Dtls13.Client.Edges.{Edge, edges}
use dimpl.Dtls13.Client.Hello.{
  Selection, complete_exchange, accept_selection, handle_server_hello, process_server_hello,
  on_await_server_hello,
}
use dimpl.Dtls13.Client.Retry.{
  read_retry_extension, read_retry_extensions, handle_retry, discard_stale_retry,
  select_retry_group,
}

select_retry_group-state : (text : Bytes) (c : Client) → (select_retry_group text c).state ≡ c.state
select_retry_group-state text c = ground arith

select_retry_group-flag :
    (text : Bytes) (c : Client) → (select_retry_group text c).hello_retry ≡ c.hello_retry
select_retry_group-flag text c = ground arith

module _ {st : State} {b : Bool} where
  read_retry_extension-Moves :
      (buf : Bytes) (ext : Extension) (c : Client)
      → c.state ≡ st
      → c.hello_retry ≡ b
      → Moves st b (Same b) (read_retry_extension buf ext c)
  unfolding read_retry_extension
  read_retry_extension-Moves buf ext c h u =
      search (moves, edges, select_retry_group-state, select_retry_group-flag) depth 30

  read_retry_extensions-Moves :
      (buf : Bytes) (exts : List Extension) (c : Client)
      → c.state ≡ st
      → c.hello_retry ≡ b
      → Moves st b (Same b) (read_retry_extensions buf exts c)
  unfolding read_retry_extensions
  read_retry_extensions-Moves buf [] c h u = moved h u
  read_retry_extensions-Moves buf (ext ∷ exts) c h u =
      then_moves (read_retry_extension-Moves buf ext c h u)
        (λ a t ht ut. read_retry_extensions-Moves buf exts t ht ut)

handle_retry-Moves :
    (len : ℕ) (buf : Bytes) (hello : ServerHello) (c : Client)
    → c.state ≡ await_server_hello
    → c.hello_retry ≡ false
    → Moves await_server_hello false (Edge await_server_hello false) (handle_retry len buf hello c)
unfolding handle_retry
handle_retry-Moves len buf hello c h u = search (moves, edges, read_retry_extensions-Moves) depth 40

module _ {b : Bool} (c : Client) (h : c.state ≡ await_server_hello) (u : c.hello_retry ≡ b) where
  complete_exchange-Moves :
      (group : ℕ) (range : Range)
      → Moves await_server_hello b (Edge await_server_hello b) (complete_exchange group range c)
  unfolding complete_exchange
  complete_exchange-Moves group range = search (moves, edges) depth 40

accept_selection-Moves :
    {b : Bool} (sel : Selection) (c : Client)
    → c.state ≡ await_server_hello
    → c.hello_retry ≡ b
    → Moves await_server_hello b (Edge await_server_hello b) (accept_selection sel c)
unfolding accept_selection
accept_selection-Moves sel c h u = search (moves, edges, complete_exchange-Moves) depth 30

handle_server_hello-Moves :
    {b : Bool} (buf : Bytes) (hello : ServerHello) (c : Client)
    → c.state ≡ await_server_hello
    → c.hello_retry ≡ b
    → Moves await_server_hello b (Edge await_server_hello b) (handle_server_hello buf hello c)
unfolding handle_server_hello
handle_server_hello-Moves buf hello c h u = search (moves, edges, accept_selection-Moves) depth 40

discard_stale_retry-Moves :
    {b : Bool} (len : ℕ) (c : Client)
    → c.state ≡ await_server_hello
    → c.hello_retry ≡ b
    → Moves await_server_hello b (Edge await_server_hello b) (discard_stale_retry len c)
unfolding discard_stale_retry
discard_stale_retry-Moves len c h u = search (moves, edges) depth 10

-- A second HelloRetryRequest does not lead back.
retry-Moves :
    {b : Bool} (flag : Bool) (len : ℕ) (buf : Bytes) (hello : ServerHello) (c : Client)
    → c.state ≡ await_server_hello
    → c.hello_retry ≡ b
    → flag ≡ b
    → Moves await_server_hello b
        (Edge await_server_hello b)
        (branch flag (discard_stale_retry len) (handle_retry len buf hello) c)
retry-Moves true len buf hello c h u e = discard_stale_retry-Moves len c h u
retry-Moves false len buf hello c h u e =
    subst
      (λ x. Moves await_server_hello x (Edge await_server_hello x) (handle_retry len buf hello c)) e
      (handle_retry-Moves len buf hello c h (u ∙ sym e))

process_server_hello-Moves :
    {b : Bool} (len : ℕ) (buf : Bytes) (c : Client)
    → c.state ≡ await_server_hello
    → c.hello_retry ≡ b
    → Moves await_server_hello b (Edge await_server_hello b) (process_server_hello len buf c)
unfolding process_server_hello
process_server_hello-Moves len buf c h u =
    search (moves, edges, retry-Moves, handle_server_hello-Moves) depth 30

pub on_await_server_hello-Moves :
    {b : Bool} (c : Client)
    → c.state ≡ await_server_hello
    → c.hello_retry ≡ b
    → Moves await_server_hello b (Edge await_server_hello b) (on_await_server_hello c)
unfolding on_await_server_hello
on_await_server_hello-Moves c h u = search (moves, edges, process_server_hello-Moves) depth 30
