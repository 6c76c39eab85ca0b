-- ===== src/Dtls13/Client/Forward.antt =====
-- src/dtls13/client.rs, `make_progress`: the loop ends, and goes by the diagram of the states.
use dimpl.Base.{
  ℕ, zero, suc, ◌+◌, ◌≤◌, ◌<◌, ◌≡◌, ◌≢◌, refl, sym, subst, Bool, true, false, Result, ok, err,
  arith, inl, inr, Bool-cases, if◌then◌else◌,
}
use dimpl.Dtls13.Peer.{Failure, no_end}
use dimpl.Dtls13.Peer.Ends.{is_no_end}
use dimpl.Dtls13.Client.{Client, State}
use dimpl.Dtls13.Client.Moves.{Moves, moved, refused}
use dimpl.Dtls13.Client.Steps.{state_progress-Moves}
use dimpl.Dtls13.Client.Edges.{
  Edge, line, again, Line, stay, greet, agree, extend, request, certify, verify, present, anonymous,
  prove, decline, finish, connect, close,
}
use dimpl.Dtls13.Client.Progress.{
  state_progress, rank, same_state, go_on, progress_loop, make_progress,
}

-- Some edges, one after the other, each with what the one before has left of the flag.
pub data Reaches : State → Bool → State → Type 0 where
  here : {st : State} {b : Bool} → Reaches st b st
  next : {s t u : State} {b flag : Bool} → Edge s b flag t → Reaches t flag u → Reaches s b u

-- A HelloRetryRequest leads back by one state and is taken once.
abbrev weight : State → Bool → ℕ
weight st flag = rank st + (if flag then 2 else 0)

same_self : (st : State) → same_state st st ≡ true
same_self st = ground arith

line_forward : {s t : State} → Line s t → same_state s t ≡ false → rank s < rank t
line_forward (stay {st}) h = cc (same_self st)
line_forward greet h = omega arith
line_forward agree h = omega arith
line_forward extend h = omega arith
line_forward request h = omega arith
line_forward certify h = omega arith
line_forward verify h = omega arith
line_forward present h = omega arith
line_forward anonymous h = omega arith
line_forward prove h = omega arith
line_forward decline h = omega arith
line_forward finish h = omega arith
line_forward connect h = omega arith
line_forward close h = omega arith

same_weight :
    (s t : State) (b flag : Bool) → rank s < rank t → flag ≡ b → weight s b < weight t flag
same_weight s t b flag h e = subst (λ x. weight s b < weight t x) (sym e) (omega arith)

forward :
    {s t : State} {b flag : Bool}
    → Edge s b flag t
    → same_state s t ≡ false
    → weight s b < weight t flag
forward (line {s} {t} {b} {flag} l e) h = same_weight s t b flag (line_forward l h) e
forward again h = omega arith

weight_lt : (st : State) (b : Bool) → weight st b < 15
weight_lt st b = ground arith

-- What the loop promises: it has ended, in a state that the diagram allows.
abbrev Promise : State → Bool → Client × Result Failure (Unit {0}) → Type 0
Promise st b (c, r) = (r ≢ err no_end) × Reaches st b c.state

ends :
    (x : Failure) → is_no_end x ≡ false → ◌≢◌ {A = Result Failure (Unit {0})} (err x) (err no_end)
ends x h e = cc

go_on-Promise :
    (st : State) (b : Bool) (k : Client → Client × Result Failure (Unit {0}))
    (r : Client × Result Failure State)
    → Moves st b (Edge st b) r
    → ((t : Client)
        → weight st b < weight t.state t.hello_retry
        → Promise t.state t.hello_retry (k t))
    → Promise st b (go_on st k r)
go_on-Promise st b k (c, ok new) (moved h e) keep = elim (Bool-cases (same_state st new)) [
  | inl same ↦ rw same (λ eq. cc, subst (Reaches st b) (sym h) here)
  | inr other ↦
      let p = keep (record c { state = new }) (forward e other) in rw other (p.0, next e p.1)
]
go_on-Promise st b k (c, err x) (refused h n) keep = (ends x n, subst (Reaches st b) (sym h) here)

loop-Promise :
    (fuel : ℕ) (c : Client)
    → 15 ≤ fuel + weight c.state c.hello_retry
    → Promise c.state c.hello_retry (progress_loop fuel c)
unfolding progress_loop
loop-Promise zero c h = absurd (omega (arith, weight_lt c.state c.hello_retry))
loop-Promise (suc fuel) c h =
    go_on-Promise c.state c.hello_retry (progress_loop fuel) (state_progress c.state c)
      (state_progress-Moves c.state c refl) (λ t lt. loop-Promise fuel t (omega arith))

-- Whatever the client and its queue hold, and as far as the engine's methods end, `make_progress` ends
-- within fifteen rounds, with or without an error, and the state it ends in is reached from the one it
-- began in along the edges of the handshake diagram, of which the one back to a new ClientHello is taken
-- only if no HelloRetryRequest was received before.
pub make_progress_goes_forward :
    (c : Client)
    → ((make_progress c).1 ≢ err no_end) × Reaches c.state c.hello_retry (make_progress c).0.state
unfolding make_progress
make_progress_goes_forward c = loop-Promise 15 c (omega arith)
