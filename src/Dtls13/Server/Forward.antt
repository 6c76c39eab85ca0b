-- ===== src/Dtls13/Server/Forward.antt =====
-- src/dtls13/server.rs, `make_progress`: the loop ends, and goes by the diagram of the states.
use dimpl.Base.{
  ℕ, zero, suc, ◌+◌, ◌≤◌, ◌<◌, ◌≡◌, ◌≢◌, refl, sym, subst, true, false, Result, ok, err, arith, inl,
  inr, Bool-cases,
}
use dimpl.Dtls13.Peer.{Failure, no_end}
use dimpl.Dtls13.Server.{Server, State}
use dimpl.Dtls13.Server.Moves.{Moves, moved, refused}
use dimpl.Dtls13.Peer.Ends.{is_no_end}
use dimpl.Dtls13.Server.Diagram.{state_progress-Moves}
use dimpl.Dtls13.Server.Edges.{
  Edge, stay, accept, hello, ask, ask_not, asked, present, prove, await_client, await_end,
  certificates, anonymous, verified, connect, close,
}
use dimpl.Dtls13.Server.Progress.{
  state_progress, rank, same_state, go_on, progress_loop, make_progress,
}

-- Some edges, one after the other.
pub data Reaches : State → State → Type 0 where
  here : {st : State} → Reaches st st
  next : {a b c : State} → Edge a b → Reaches b c → Reaches a c

same_self : (st : State) → same_state st st ≡ true
same_self st = ground arith

forward : {a b : State} → Edge a b → same_state a b ≡ false → rank a < rank b
forward (stay {st}) h = cc (same_self st)
forward accept h = omega arith
forward hello h = omega arith
forward ask h = omega arith
forward ask_not h = omega arith
forward asked h = omega arith
forward present h = omega arith
forward prove h = omega arith
forward await_client h = omega arith
forward await_end h = omega arith
forward certificates h = omega arith
forward anonymous h = omega arith
forward verified h = omega arith
forward connect h = omega arith
forward close h = omega arith

rank_lt : (st : State) → rank st < 13
rank_lt st = ground arith

-- What the loop promises: it has ended, in a state that the diagram allows.
abbrev Promise : State → Server × Result Failure (Unit {0}) → Type 0
Promise st (s, r) = (r ≢ err no_end) × Reaches st s.state

ends :
    (x : Failure) → is_no_end x ≡ false → ◌≢◌ {A = Result Failure (Unit {0})} (err x) (err no_end)
ends x h e = cc

go_on-Promise :
    (st : State) (k : Server → Server × Result Failure (Unit {0}))
    (r : Server × Result Failure State)
    → Moves st (Edge st) r
    → ((t : Server) → rank st < rank t.state → Promise t.state (k t))
    → Promise st (go_on st k r)
go_on-Promise st k (s, ok new) (moved h e) keep = elim (Bool-cases (same_state st new)) [
  | inl same ↦ rw same (λ eq. cc, subst (Reaches st) (sym h) here)
  | inr other ↦
      let p = keep (record s { state = new }) (forward e other) in rw other (p.0, next e p.1)
]
go_on-Promise st k (s, err x) (refused h n) keep = (ends x n, subst (Reaches st) (sym h) here)

loop-Promise :
    (fuel : ℕ) (s : Server) → 13 ≤ fuel + rank s.state → Promise s.state (progress_loop fuel s)
unfolding progress_loop
loop-Promise zero s h = absurd (omega (arith, rank_lt s.state))
loop-Promise (suc fuel) s h =
    go_on-Promise s.state (progress_loop fuel) (state_progress s.state s)
      (state_progress-Moves s.state s refl) (λ t lt. loop-Promise fuel t (omega arith))

-- Whatever the server and its queue hold, and as far as the engine's methods end, `make_progress` ends
-- within its thirteen rounds, with or without an error, and the state it ends in is reached from the
-- one it began in along the edges of the handshake diagram.
pub make_progress_ends :
    (s : Server) → ((make_progress s).1 ≢ err no_end) × Reaches s.state (make_progress s).0.state
unfolding make_progress
make_progress_ends s = loop-Promise 13 s (omega arith)
