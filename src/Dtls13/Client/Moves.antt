-- ===== src/Dtls13/Client/Moves.antt =====
-- src/dtls13/client.rs: what every step of the client keeps, its state field, which only `make_progress`
-- and `close` change, and whether a HelloRetryRequest was received; and rules that say so of the chains
-- of steps.
use dimpl.Base.{◌≡◌, refl, Bool, true, false, Option, none, some, Result, ok, err, Bytes}
use dimpl.Wire.{Err}
use dimpl.Dtls13.Handshake.{MessageType}
use dimpl.Dtls13.Engine.{Engine, M, Error}
use dimpl.Dtls13.Peer.Ends.{is_no_end, Ends}
use dimpl.Dtls13.Peer.{
  Failure, Act, continue_with, some_or, on_some, branch, fail_if, parsed, result, body_of, deliver,
}
use dimpl.Dtls13.Client.{Client, State, on_engine, with_engine, next_message, advance_peer}

-- The state is still `st`, from a client whose flag for a HelloRetryRequest was `b`; a result satisfies
-- `P`, with the flag as it is now, and an error is no lack of fuel.
pub data Moves {A : Type 0} (st : State) (b : Bool) (P : Bool → A → Type 0)
    : Client × Result Failure A → Type 0 where
  moved : {c : Client} {a : A} → c.state ≡ st → P c.hello_retry a → Moves st b P (c, ok a)
  refused :
      {c : Client} {x : Failure} → c.state ≡ st → is_no_end x ≡ false → Moves st b P (c, err x)

-- Any result, with the flag as it was.
abbrev pub Same : {A : Type 0} → Bool → Bool → A → Type 0
Same b flag a = flag ≡ b

module _ {st : State} {b : Bool} where
  pub then_moves :
      {A B : Type 0} {P : Bool → B → Type 0} {r : Client × Result Failure A} {f : A → Act Client B}
      → Moves st b (Same b) r
      → ((a : A) (t : Client) → t.state ≡ st → t.hello_retry ≡ b → Moves st b P (f a t))
      → Moves st b P (continue_with r f)
  then_moves (moved {c} {a} h u) k = k a c h u
  then_moves (refused h n) k = refused h n

  pub engine_moves :
      {A : Type 0} (m : M A) (c : Client)
      → c.state ≡ st
      → c.hello_retry ≡ b
      → Moves st b (Same b) (on_engine m c)
  unfolding on_engine
  engine_moves {A} m c h u = go (m c.engine)
    where
      go : (r : Engine × Result Error A) → Moves st b (Same b) (with_engine c r)
      go (e, ok a) = moved h u
      go (e, err x) = refused h refl

  pub some_or_moves :
      {A : Type 0} (x : Failure) (o : Option A) (c : Client)
      → c.state ≡ st
      → c.hello_retry ≡ b
      → is_no_end x ≡ false
      → Moves st b (Same b) (some_or x o c)
  some_or_moves x none c h u n = refused h n
  some_or_moves x (some a) c h u n = moved h u

  pub fail_if_moves :
      (test : Bool) (x : Failure) (c : Client)
      → c.state ≡ st
      → c.hello_retry ≡ b
      → is_no_end x ≡ false
      → Moves st b (Same b) (fail_if test x c)
  fail_if_moves true x c h u n = refused h n
  fail_if_moves false x c h u n = moved h u

  pub parsed_moves :
      {A : Type 0} (r : Result Err A) (c : Client)
      → c.state ≡ st
      → c.hello_retry ≡ b
      → Moves st b (Same b) (parsed r c)
  parsed_moves (ok a) c h u = moved h u
  parsed_moves (err x) c h u = refused h refl

  deliver_moves :
      (r : Option (Option Bytes)) (c : Client)
      → c.state ≡ st
      → c.hello_retry ≡ b
      → Moves st b (Same b) (deliver r c)
  deliver_moves none c h u = moved h u
  deliver_moves (some none) c h u = refused h refl
  deliver_moves (some (some bytes)) c h u = moved h u

  pub message_moves :
      (wanted : MessageType) (with_transcript : Bool) (c : Client)
      → c.state ≡ st
      → c.hello_retry ≡ b
      → Moves st b (Same b) (next_message wanted with_transcript c)
  unfolding next_message
  message_moves wanted with_transcript c h u =
      then_moves (engine_moves _ c h u) (λ r t ht ut. deliver_moves (body_of r) t ht ut)

  pub advance_moves :
      (c : Client) → c.state ≡ st → c.hello_retry ≡ b → Moves st b (Same b) (advance_peer c)
  unfolding advance_peer
  advance_moves c h u = moved h u

  -- A result whose error is no lack of fuel.
  pub result_moves :
      {A : Type 0} (r : Result Failure A) (c : Client)
      → c.state ≡ st
      → c.hello_retry ≡ b
      → Ends r
      → Moves st b (Same b) (result r c)
  result_moves (ok a) c h u n = moved h u
  result_moves (err x) c h u n = refused h n

module _ {st : State} {b : Bool} {B : Type 0} {P : Bool → B → Type 0} where
  pub some_moves :
      {A : Type 0} (o : Option A) (d : Act Client B) (f : A → Act Client B) (c : Client)
      → Moves st b P (d c)
      → ((a : A) → Moves st b P (f a c))
      → Moves st b P (on_some o d f c)
  some_moves none d f c h k = h
  some_moves (some a) d f c h k = k a

  pub branch_moves :
      (test : Bool) (m n : Act Client B) (c : Client)
      → Moves st b P (m c)
      → Moves st b P (n c)
      → Moves st b P (branch test m n c)
  branch_moves true m n c h k = h
  branch_moves false m n c h k = k

pub ruleset moves = (
  moved, refused, then_moves, engine_moves, some_or_moves, fail_if_moves, parsed_moves, some_moves,
  branch_moves, message_moves, advance_moves, result_moves,
)
