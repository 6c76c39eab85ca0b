-- ===== src/Dtls13/Server/Received.antt =====
-- src/dtls13/server.rs, the messages of the client: taking one changes the engine alone.
use dimpl.Base.{◌≡◌, sym, ap, subst, ◌∙◌, Bool, Option, none, some, Result, ok, err, arith, Bytes}
use dimpl.Dtls13.Engine.{Engine, Error}
use dimpl.Dtls13.Engine.Scan.{next_handshake}
use dimpl.Dtls13.Message.Body.{parse_body}
use dimpl.Dtls13.Handshake.{Handshake, MessageType, BodyParser}
use dimpl.Dtls13.Peer.Inverse.{inverse, final}
use dimpl.Dtls13.Server.{Server, next_message, on_engine, with_engine}
use dimpl.Dtls13.Peer.{deliver, body_of}

-- Taking a message changes the engine, and of it not the configuration.
pub record Took (s t : Server) : Type 0 where
  pub rest_kept : t ≡ record s { engine = t.engine }
  pub config_kept : t.engine.config ≡ s.engine.config

Took-update :
    (s t : Server) (e : Engine)
    → e.config ≡ s.engine.config
    → record s { engine = e } ≡ t
    → Took s t
Took-update s t e h p = record {
  rest_kept = sym p ∙ ap (λ u. record s { engine = u.engine }) p;
  config_kept = sym (ap (λ u. u.engine.config) p) ∙ h;
}

next_handshake-config :
    (parse_body : BodyParser) (wanted : MessageType) (b : Bool) (e : Engine)
    → (next_handshake parse_body wanted b e).0.config ≡ e.config
unfolding next_handshake
next_handshake-config parse_body wanted b e = ground arith

with_engine-Took :
    (s t : Server) (r : Engine × Result Error (Option Handshake)) (h : Option Handshake)
    → r.0.config ≡ s.engine.config
    → with_engine s r ≡ (t, ok h)
    → Took s t
with_engine-Took s t (e, ok a) h c eq =
    Took-update s t e c (final (record s { engine = e }) t a h eq)
with_engine-Took s t (e, err x) h c eq = cc

pub delivered :
    (r : Option (Option Bytes)) (s t : Server) (found : Option Bytes)
    → deliver r s ≡ (t, ok found)
    → s ≡ t
delivered none s t found e = final s t none found e
delivered (some none) s t found e = cc
delivered (some (some bytes)) s t found e = final s t (some bytes) found e

pub next_message-Took :
    (wanted : MessageType) (a b : Bool) (s t : Server) (found : Option Bytes)
    → next_message wanted a b s ≡ (t, ok found)
    → Took s t
unfolding next_message on_engine
next_message-Took wanted a b s t found h =
    let (taken, u, first, h1) =
      inverse
        (with_engine s (next_handshake (parse_body s.engine.cipher_suite a) wanted b s.engine)) _ t
        found h in
    subst (Took s) (delivered (body_of taken) u t found h1) (
      with_engine-Took s u (next_handshake (parse_body s.engine.cipher_suite a) wanted b s.engine)
        taken (next_handshake-config (parse_body s.engine.cipher_suite a) wanted b s.engine) first)
