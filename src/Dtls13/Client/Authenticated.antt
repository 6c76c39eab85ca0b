-- ===== src/Dtls13/Client/Authenticated.antt =====
-- src/dtls13/client.rs, `await_certificate_verify`: the client goes on only when the server has proved that
-- it holds the key of its certificate.
use dimpl.Base.{ℕ, ◌≡◌, ap, ◌∙◌, true, not, some, ok, Bytes, inl, inr, contains, length, ltb}
use dimpl.Dtls13.Message.{supported_schemes}
use dimpl.Dtls13.Message.Body.{certificate_verify}
use dimpl.Dtls13.Message.Certificate.{DigitallySigned, parse_signed, bytes_at}
use dimpl.Dtls13.Engine.Keys.{hash_of}
use dimpl.Dtls13.Peer.Create.{signed_content, server_context}
use dimpl.Dtls13.Peer.Verify.{verify_scheme_curve, signature_scheme_to_components}
use dimpl.Dtls13.Peer.Inverse.{
  true_or_not, inverse, passed, present, read, resulted, chosen, final_value,
}
use dimpl.Dtls13.Client.{Client, await_certificate_verify, await_finished, on_engine, next_message}
use dimpl.Dtls13.Client.Await.{
  process_certificate_verify, first_certificate, on_await_certificate_verify,
}

-- A CertificateVerify read from `buf` holds for the client in state `c`.
pub record Proves (transcript_hash buf : Bytes) (c : Client) : Type 0 where
  pub signed : DigitallySigned
  pub rest : Bytes
  pub cert_der : Bytes
  pub components : ℕ × ℕ
  pub parsed : parse_signed buf 0 ≡ ok (rest, signed)
  pub offered : contains supported_schemes signed.scheme ≡ true
  pub first : first_certificate c.server_certificates ≡ some cert_der
  pub curve : verify_scheme_curve c.backend signed.scheme cert_der ≡ ok tt
  pub algorithms : signature_scheme_to_components signed.scheme ≡ ok components
  pub holds :
      c.backend.verify_signature cert_der
        (signed_content server_context transcript_hash)
        (bytes_at signed.signature buf)
        components.0
        components.1
      ≡ true

process_certificate_verify-Proves :
    (transcript_hash buf : Bytes) (c c' : Client)
    → process_certificate_verify transcript_hash buf c ≡ (c', ok await_finished)
    → Proves transcript_hash buf c
unfolding process_certificate_verify
process_certificate_verify-Proves transcript_hash buf c c' h =
    let ((rest, cv), parses, h1) = read (parse_signed buf 0) _ c c' await_finished h in
    let (offered, h2) =
      passed (not (contains supported_schemes cv.scheme)) _ _ c c' await_finished h1 in
    let (small, h3) =
      passed (ltb 512 (length (bytes_at cv.signature buf))) _ _ c c' await_finished h2 in
    let (cert_der, first, h4) =
      present _ (first_certificate c.server_certificates) _ c c' await_finished h3 in
    let (u, curve, h5) =
      resulted (verify_scheme_curve c.backend cv.scheme cert_der) _ c c' await_finished h4 in
    let (components, algorithms, h6) =
      resulted (signature_scheme_to_components cv.scheme) _ c c' await_finished h5 in
    let (holds, h7) =
      passed
        (not (
          c.backend.verify_signature cert_der (signed_content server_context transcript_hash)
            (bytes_at cv.signature buf) components.0 components.1))
        _ _ c c' await_finished h6 in
    record {
      signed = cv;
      rest = rest;
      cert_der = cert_der;
      components = components;
      parsed = parses;
      offered = true_or_not _ offered;
      first = first;
      curve = curve;
      algorithms = algorithms;
      holds = true_or_not _ holds;
    }

apart : ¬ (await_certificate_verify ≡ await_finished)
apart e = cc

-- What is true when the client in state `c` goes on to wait for the Finished.
pub record Authenticated (c : Client) : Type 0 where
  pub transcript_hash : Bytes
  pub buf : Bytes
  pub before : Client
  pub after : Client
  pub hashed : on_engine (hash_of c.engine.transcript) c ≡ (before, ok transcript_hash)
  pub received : next_message certificate_verify true before ≡ (after, ok (some buf))
  pub proves : Proves transcript_hash buf after

-- The client goes on from the CertificateVerify to the Finished only after a message whose scheme it has
-- offered, for the curve of the first certificate of the server, and whose signature the backend has
-- verified with the key of that certificate over the server's context and the hash of the transcript
-- before the message.
pub on_await_certificate_verify-Authenticated :
    (c c' : Client) → on_await_certificate_verify c ≡ (c', ok await_finished) → Authenticated c
unfolding on_await_certificate_verify
on_await_certificate_verify-Authenticated c c' h =
    let (transcript_hash, before, hashed, h1) =
      inverse (on_engine (hash_of c.engine.transcript) c) _ c' await_finished h in
    let (found, after, received, h2) =
      inverse (next_message certificate_verify true before) _ c' await_finished h1 in
    elim (chosen found _ _ after c' await_finished h2) [
      | inl (missing, h3) ↦
          absurd (apart (final_value after c' await_certificate_verify await_finished h3))
      | inr (buf, is, h3) ↦ record {
        transcript_hash = transcript_hash;
        buf = buf;
        before = before;
        after = after;
        hashed = hashed;
        received = received ∙ ap (λ o. (after, ok o)) is;
        proves = process_certificate_verify-Proves transcript_hash buf after c' h3;
      }
    ]
