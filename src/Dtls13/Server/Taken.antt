-- ===== src/Dtls13/Server/Taken.antt =====
-- src/dtls13/engine.rs, `next_handshake`: what a message that is taken adds to the transcript.
use dimpl.Base.{
  ◌≡◌, refl, sym, ap, ◌∙◌, Bool, Option, none, some, [], ◌∷◌, ◌++◌, Result, ok, err, Bytes, arith,
  append-nil, if◌then◌else◌,
}
use dimpl.Dtls13.Handshake.{BodyParser, MessageType, Handshake, Body, defragment, message, fragment}
use dimpl.Dtls13.Message.Body.{parse_body}
use dimpl.Dtls13.Peer.Inverse.{inverse, final, final_value}
use dimpl.Dtls13.Server.{Server, next_message, on_engine, with_engine}
use dimpl.Dtls13.Peer.{deliver, body_of}
use dimpl.Dtls13.Engine.{Engine, Error}
use dimpl.Dtls13.Engine.Scan.{next_handshake, has_complete_handshake, pending_items}
use dimpl.Dtls13.Server.Received.{delivered}

-- What the message that is taken adds to the transcript.
pub gain : BodyParser → MessageType → Bool → Engine → Bytes
gain parse_body wanted b e =
    if has_complete_handshake e wanted
    then elim (pending_items e.queue_rx) [
      | [] ↦ []
      | first ∷ items ↦ (defragment parse_body b first items).written
    ]
    else []

pub next_handshake-transcript :
    (parse_body : BodyParser) (wanted : MessageType) (b : Bool) (e : Engine)
    → (next_handshake parse_body wanted b e).0.transcript
      ≡ e.transcript ++ gain parse_body wanted b e
unfolding next_handshake gain
next_handshake-transcript parse_body wanted b e = ground (arith, append-nil e.transcript)

pub next_handshake-queue_tx :
    (parse_body : BodyParser) (wanted : MessageType) (b : Bool) (e : Engine)
    → (next_handshake parse_body wanted b e).0.queue_tx ≡ e.queue_tx
unfolding next_handshake
next_handshake-queue_tx parse_body wanted b e = ground arith

pub next_handshake-none :
    (parse_body : BodyParser) (wanted : MessageType) (b : Bool) (e : Engine)
    → (next_handshake parse_body wanted b e).1 ≡ ok none
    → (next_handshake parse_body wanted b e).0.transcript ≡ e.transcript
unfolding next_handshake
next_handshake-none parse_body wanted b e h = ground arith

-- How a step that asks for a message comes by it.
pub record Asked (wanted : MessageType) (allow b : Bool) (s t : Server) (found : Option Bytes)
    : Type 0 where
  pub same_engine :
      t.engine ≡ (next_handshake (parse_body s.engine.cipher_suite allow) wanted b s.engine).0
  pub same_flag : t.hello_retry ≡ s.hello_retry
  pub nothing :
      found ≡ none
      → (next_handshake (parse_body s.engine.cipher_suite allow) wanted b s.engine).1 ≡ ok none

engine_taken :
    (s u : Server) (r : Engine × Result Error (Option Handshake)) (h : Option Handshake)
    → with_engine s r ≡ (u, ok h)
    → (u.engine ≡ r.0) × (u.hello_retry ≡ s.hello_retry) × (r.1 ≡ ok h)
engine_taken s u (e, ok a) h eq =
    let p = final (record s { engine = e }) u a h eq in
    (
      sym (ap (λ x. x.engine) p),
      sym (ap (λ x. x.hello_retry) p),
      ap ok (final_value (record s { engine = e }) u a h eq),
    )
engine_taken s u (e, err x) h eq = cc

nothing_taken :
    (taken : Option Handshake) (u t : Server) (found : Option Bytes)
    → deliver (body_of taken) u ≡ (t, ok found)
    → found ≡ none
    → taken ≡ none
nothing_taken none u t found h e = refl
nothing_taken (some hs) u t found h e = some_body (hs.body) h
  where
    some_body :
        (body : Body)
        → deliver
            (elim body as (λ _. Option (Option Bytes)) [
              | message m bytes ↦ some (some bytes)
              | fragment a b ↦ some none
            ])
            u
          ≡ (t, ok found)
        → some hs ≡ none
    some_body (message m bytes) k = absurd (unlike bytes (final_value u t (some bytes) found k ∙ e))
      where
        unlike : (bytes : Bytes) → some bytes ≡ none → ⊥
        unlike bytes p = cc
    some_body (fragment a b) k = cc

pub next_message-Asked :
    (wanted : MessageType) (a b : Bool) (s t : Server) (found : Option Bytes)
    → next_message wanted a b s ≡ (t, ok found)
    → Asked wanted a b s t found
unfolding next_message on_engine
next_message-Asked wanted a b s t found h =
    let pb = parse_body s.engine.cipher_suite a in
    let (taken, u, first, h1) =
      inverse (with_engine s (next_handshake pb wanted b s.engine)) _ t found h in
    let facts = engine_taken s u (next_handshake pb wanted b s.engine) taken first in
    let same = delivered (body_of taken) u t found h1 in
    record {
      same_engine = sym (ap (λ x. x.engine) same) ∙ facts.0;
      same_flag = sym (ap (λ x. x.hello_retry) same) ∙ facts.1;
      nothing = λ e. facts.2 ∙ ap ok (nothing_taken taken u t found h1 e);
    }
