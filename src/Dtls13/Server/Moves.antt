-- ===== src/Dtls13/Server/Moves.antt =====
-- src/dtls13/server.rs: what every step of the server keeps, its state field, which only `make_progress`
-- and `close` change; and rules that say so of the chains of steps.
use dimpl.Base.{◌≡◌, refl, Bool, true, false, Option, none, some, Result, ok, err, Bytes}
use dimpl.Wire.{Err}
use dimpl.Dtls13.Handshake.{MessageType}
use dimpl.Dtls13.Engine.{Engine, M, Error}
use dimpl.Dtls13.Peer.Ends.{is_no_end, Ends}
use dimpl.Dtls13.Peer.{
  Failure, Act, continue_with, some_or, on_some, branch, fail_if, parsed, result,
}
use dimpl.Dtls13.Server.{Server, State, on_engine, with_engine, next_message, advance_peer}
use dimpl.Dtls13.Peer.{body_of, deliver}

-- The state is still `st`; a result satisfies `P`, and an error is no lack of fuel.
pub data Moves {A : Type 0} (st : State) (P : A → Type 0) : Server × Result Failure A → Type 0 where
  moved : {s : Server} {a : A} → s.state ≡ st → P a → Moves st P (s, ok a)
  refused : {s : Server} {x : Failure} → s.state ≡ st → is_no_end x ≡ false → Moves st P (s, err x)

abbrev pub Any : {A : Type 0} → A → Type 0
Any a = Unit {0}

module _ {st : State} where
  pub then_moves :
      {A B : Type 0} {P : B → Type 0} {r : Server × Result Failure A} {f : A → Act Server B}
      → Moves st Any r
      → ((a : A) (t : Server) → t.state ≡ st → Moves st P (f a t))
      → Moves st P (continue_with r f)
  then_moves (moved {s} {a} h u) k = k a s h
  then_moves (refused h n) k = refused h n

  pub engine_moves :
      {A : Type 0} (m : M A) (s : Server) → s.state ≡ st → Moves st Any (on_engine m s)
  unfolding on_engine
  engine_moves {A} m s h = go (m s.engine)
    where
      go : (r : Engine × Result Error A) → Moves st Any (with_engine s r)
      go (e, ok a) = moved h tt
      go (e, err x) = refused h refl

  pub some_or_moves :
      {A : Type 0} (x : Failure) (o : Option A) (s : Server)
      → s.state ≡ st
      → is_no_end x ≡ false
      → Moves st Any (some_or x o s)
  some_or_moves x none s h n = refused h n
  some_or_moves x (some a) s h n = moved h tt

  pub fail_if_moves :
      (b : Bool) (x : Failure) (s : Server)
      → s.state ≡ st
      → is_no_end x ≡ false
      → Moves st Any (fail_if b x s)
  fail_if_moves true x s h n = refused h n
  fail_if_moves false x s h n = moved h tt

  pub parsed_moves :
      {A : Type 0} (r : Result Err A) (s : Server) → s.state ≡ st → Moves st Any (parsed r s)
  parsed_moves (ok a) s h = moved h tt
  parsed_moves (err x) s h = refused h refl

  pub some_moves :
      {A B : Type 0} {P : B → Type 0} (o : Option A) (d : Act Server B) (f : A → Act Server B)
      (s : Server)
      → Moves st P (d s)
      → ((a : A) → Moves st P (f a s))
      → Moves st P (on_some o d f s)
  some_moves none d f s h k = h
  some_moves (some a) d f s h k = k a

  pub branch_moves :
      {B : Type 0} {P : B → Type 0} (b : Bool) (m n : Act Server B) (s : Server)
      → Moves st P (m s)
      → Moves st P (n s)
      → Moves st P (branch b m n s)
  branch_moves true m n s h k = h
  branch_moves false m n s h k = k

  deliver_moves :
      (r : Option (Option Bytes)) (s : Server) → s.state ≡ st → Moves st Any (deliver r s)
  deliver_moves none s h = moved h tt
  deliver_moves (some none) s h = refused h refl
  deliver_moves (some (some bytes)) s h = moved h tt

  pub message_moves :
      (wanted : MessageType) (allow with_transcript : Bool) (s : Server)
      → s.state ≡ st
      → Moves st Any (next_message wanted allow with_transcript s)
  unfolding next_message
  message_moves wanted allow with_transcript s h =
      then_moves (engine_moves _ s h) (λ r t ht. deliver_moves (body_of r) t ht)

  pub advance_moves : (s : Server) → s.state ≡ st → Moves st Any (advance_peer s)
  unfolding advance_peer
  advance_moves s h = moved h tt

-- A result whose error is no lack of fuel, and a change that keeps the state.
pub result_moves :
    {st : State} {A : Type 0} (r : Result Failure A) (s : Server)
    → s.state ≡ st
    → Ends r
    → Moves st Any (result r s)
result_moves (ok a) s h n = moved h tt
result_moves (err x) s h n = refused h n

pub ruleset moves = (
  moved, refused, then_moves, engine_moves, some_or_moves, fail_if_moves, parsed_moves, some_moves,
  branch_moves, message_moves, advance_moves, result_moves,
)
