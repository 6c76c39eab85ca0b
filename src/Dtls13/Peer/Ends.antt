-- ===== src/Dtls13/Peer/Ends.antt =====
-- src/dtls13/client.rs and src/dtls13/server.rs: failures that are no lack of fuel.
use dimpl.Base.{ℕ, ◌≡◌, Bool, true, false, Result, ok, err, Bytes, arith}
use dimpl.Dtls13.Peer.{Failure, Backend, no_end}
use dimpl.Dtls13.Peer.Verify.{verify_scheme_curve, signature_scheme_to_components}

abbrev pub is_no_end : Failure → Bool
is_no_end no_end = true
is_no_end x = false

-- A result that is no lack of fuel.
abbrev pub Ends : {A : Type 0} → Result Failure A → Type 0
Ends (ok a) = Unit {0}
Ends (err x) = is_no_end x ≡ false

pub verify_scheme_curve-Ends :
    (b : Backend) (scheme : ℕ) (cert : Bytes) → Ends (verify_scheme_curve b scheme cert)
unfolding verify_scheme_curve
verify_scheme_curve-Ends b scheme cert = ground arith

pub signature_scheme_to_components-Ends :
    (scheme : ℕ) → Ends (signature_scheme_to_components scheme)
unfolding signature_scheme_to_components
signature_scheme_to_components-Ends scheme = ground arith
