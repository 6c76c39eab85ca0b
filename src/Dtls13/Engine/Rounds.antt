-- ===== src/Dtls13/Engine/Rounds.antt =====
-- src/dtls13/engine.rs, `create_handshake`: a round of the loop over fragments, from the point where the
-- fragment was sent or refused.
use dimpl.Base.{ℕ, ◌+◌, true, false, Result, ok, err, Bytes, length, ◌==◌}
use dimpl.Dtls13.Handshake.{MessageType}
use dimpl.Dtls13.Engine.{Engine, Error}
use dimpl.Dtls13.Engine.Fragment.{fragment_loop}

abbrev pub after_fragment :
    ℕ
    → MessageType
    → ℕ
    → ℕ
    → ℕ
    → Bytes
    → ℕ
    → ℕ
    → Engine
    → Result Error (Unit {0})
    → Engine × Result Error (Unit {0})
after_fragment fuel msg_type seq epoch protection body offset chunk e r = elim r [
  | err x ↦ (e, err x)
  | ok _ ↦ elim (length body == 0) [
    | true ↦ (e, ok tt)
    | false ↦ fragment_loop fuel msg_type seq epoch protection body (offset + chunk) e
  ]
]
