-- ===== src/Dtls13/Server/Stale.antt =====
-- src/dtls13/server.rs, `await_client_hello`: after a HelloRetryRequest a ClientHello that brings nothing
-- new leaves no trace.
use dimpl.Base.{
  ℕ, ◌-◌, ◌≡◌, refl, sym, ap, ap₂, subst, ◌∙◌, Bool, true, false, not, Option, none, some, ◌++◌, ok,
  Bytes, inl, inr, arith, append-nil, length, take, replicate, take-length-append, length-append,
  contains, find, ◌==◌,
}
use dimpl.Dtls13.Handshake.{client_hello}
use dimpl.Dtls13.Message.Body.{parse_body}
use dimpl.Dtls13.Peer.Inverse.{
  inverse, passed, passed_either, present, read, resulted, branched, chosen, final, final_value,
}
use dimpl.Dtls13.Server.{Server, await_client_hello, send_server_hello, next_message, advance_peer}
use dimpl.Wire.{dtls1_2}
use dimpl.Dtls13.Message.{null_compression}
use dimpl.Dtls13.Message.ClientHello.{parse_with_options}
use dimpl.Dtls13.Message.ServerHello.{bytes_eq}
use dimpl.Dtls13.Message.Extensions.{KeyShareEntry, key_exchange}
use dimpl.Dtls13.Server.Offer.{Offer, no_offer, read_offer, matching_entry, common_group}
use dimpl.Dtls13.Server.Hello.{
  compute_cookie, complete_exchange, select_group, check_cookie, discard_stale, negotiate, validate,
  process_client_hello, on_await_client_hello,
}
use dimpl.Dtls13.Server.Taken.{
  gain, next_handshake-transcript, next_handshake-queue_tx, next_handshake-none, Asked,
  next_message-Asked,
}

apart : ¬ (send_server_hello ≡ await_client_hello)
apart e = cc

no_exchange :
    (suite : ℕ) (buf : Bytes) (offer : Offer) (entry : KeyShareEntry) (s s' : Server)
    → ¬ (complete_exchange suite buf offer entry s ≡ (s', ok await_client_hello))
unfolding complete_exchange advance_peer
no_exchange suite buf offer entry s s' h =
    let (known, h1) =
      passed (not (contains s.backend.kx_groups entry.group)) _ _ s s' await_client_hello h in
    let (key, started, h2) =
      present _ (s.backend.start_exchange entry.group) _ s s' await_client_hello h1 in
    let (secret, completed, h3) =
      present _ (s.backend.complete key.1 (key_exchange entry buf)) _
        (record s { extension_data = key.0 }) s' await_client_hello h2 in
    apart (final_value _ s' send_server_hello await_client_hello h3)

no_group :
    (suite : ℕ) (random buf : Bytes) (offer : Offer) (s s' : Server)
    → s.hello_retry ≡ true
    → ¬ (select_group suite random buf offer s ≡ (s', ok await_client_hello))
unfolding select_group
no_group suite random buf offer s s' again h =
    elim (chosen (matching_entry s.backend.kx_groups offer) _ _ s s' await_client_hello h) [
      | inr (entry, matching, done) ↦ no_exchange suite buf offer entry s s' done
      | inl (missing, asked) ↦
          elim (chosen (common_group s.backend.kx_groups offer) _ _ s s' await_client_hello asked) [
            | inl (no_common, h1) ↦ cc
            | inr (group, common, h1) ↦
                elim (branched s.hello_retry _ _ s s' await_client_hello h1) [
                  | inl (again', h2) ↦ cc
                  | inr (first, h2) ↦ not_both s.hello_retry again first
                ]
          ]
    ]
  where
    not_both : (b : Bool) → b ≡ true → b ≡ false → ⊥
    not_both b p q = cc

check_cookie-stays :
    (len suite : ℕ) (random buf : Bytes) (offer : Offer) (s s' : Server)
    → s.hello_retry ≡ true
    → check_cookie len suite random buf offer s ≡ (s', ok await_client_hello)
    → discard_stale len s ≡ (s', ok await_client_hello)
unfolding check_cookie
check_cookie-stays len suite random buf offer s s' again h =
    elim (chosen offer.cookie_data _ _ s s' await_client_hello h) [
      | inr (cookie, given, h1) ↦
          let (expected, computed, h2) =
            present _ (compute_cookie s random) _ s s' await_client_hello h1 in
          let (equal, h3) =
            passed (not (bytes_eq cookie expected)) _ _ s s' await_client_hello h2 in
          absurd (no_group suite random buf offer s s' again h3)
      | inl (missing, h1) ↦
          elim (branched s.backend.use_server_cookie _ _ s s' await_client_hello h1) [
            | inr (unused, h2) ↦ absurd (no_group suite random buf offer s s' again h2)
            | inl (used, h2) ↦
                let (expected, computed, h3) =
                  present _ (compute_cookie s random) _ s s' await_client_hello h2 in
                elim (branched s.hello_retry _ _ s s' await_client_hello h3) [
                  | inl (stale, h4) ↦ h4
                  | inr (fresh, h4) ↦ absurd (not_both s.hello_retry again fresh)
                ]
          ]
    ]
  where
    not_both : (b : Bool) → b ≡ true → b ≡ false → ⊥
    not_both b p q = cc

process_client_hello-stays :
    (len : ℕ) (buf : Bytes) (s s' : Server)
    → s.hello_retry ≡ true
    → process_client_hello len buf s ≡ (s', ok await_client_hello)
    → (sid : Option Bytes) × (discard_stale len (record s { client_session_id = sid })
        ≡ (s', ok await_client_hello))
unfolding process_client_hello validate negotiate
process_client_hello-stays len buf s s' again h =
    let ((rest, hello), parses, h1) =
      read (parse_with_options buf 0 s.auto_mode) _ s s' await_client_hello h in
    let (version, h2) =
      passed (not (hello.legacy_version == dtls1_2)) _ _ s s' await_client_hello h1 in
    let (compression, h3) =
      passed (not (contains hello.legacy_compression_methods null_compression)) _ _ s s'
        await_client_hello h2 in
    let (offer, offered, h4) =
      resulted (read_offer buf hello.extensions no_offer) _ s s' await_client_hello h3 in
    let (versions, h5) =
      passed_either s.auto_mode (not offer.supported_versions_ok) _ _ _ s s' await_client_hello
        h4 in
    let (suite, first, h6) =
      present _ (find (contains s.backend.dtls13_cipher_suites) hello.cipher_suites) _ s s'
        await_client_hello h5 in
    (
      some hello.legacy_session_id,
      check_cookie-stays len suite hello.random buf offer
          (record s { client_session_id = some hello.legacy_session_id }) s' again h6,
    )

-- What a discarded ClientHello leaves behind, besides a message that is marked as handled.
pub record NoTrace (s s' : Server) : Type 0 where
  pub sent_nothing : s'.engine.queue_tx ≡ s.engine.queue_tx
  pub transcript_kept : s'.engine.transcript ≡ s.engine.transcript
  pub still_retried : s'.hello_retry ≡ true

rolled_back :
    (t w : Bytes) → take (length t) (t ++ w) ++ replicate (length t - length (t ++ w)) 0 ≡ t
rolled_back t w =
    let none_missing : length t - length (t ++ w) ≡ 0 = omega (arith, length-append t w) in
    ap₂ (λ a n. a ++ replicate n 0) (take-length-append t w) none_missing ∙ append-nil t

stale-NoTrace :
    (s t s' : Server) (sid : Option Bytes) (found : Option Bytes)
    → s.hello_retry ≡ true
    → Asked client_hello s.auto_mode true s t found
    → discard_stale (length s.engine.transcript) (record t { client_session_id = sid })
      ≡ (s', ok await_client_hello)
    → NoTrace s s'
unfolding discard_stale
stale-NoTrace s t s' sid found again asked h =
    let pb = parse_body s.engine.cipher_suite s.auto_mode in
    let p = final _ s' await_client_hello await_client_hello h in
    let grown : t.engine.transcript ≡ s.engine.transcript ++ gain pb client_hello true s.engine =
      ap (λ e. e.transcript) asked.same_engine
      ∙ next_handshake-transcript pb client_hello true s.engine in
    record {
      sent_nothing =
          sym (ap (λ x. x.engine.queue_tx) p)
          ∙ ap (λ e. e.queue_tx) asked.same_engine
          ∙ next_handshake-queue_tx pb client_hello true s.engine;
      transcript_kept =
          sym (ap (λ x. x.engine.transcript) p)
          ∙ ap
              (λ t.
                take (length s.engine.transcript) t
                ++ replicate (length s.engine.transcript - length t) 0)
              grown
          ∙ rolled_back s.engine.transcript (gain pb client_hello true s.engine);
      still_retried = sym (ap (λ x. x.hello_retry) p) ∙ asked.same_flag ∙ again;
    }

waiting-NoTrace :
    (s t s' : Server)
    → s.hello_retry ≡ true
    → Asked client_hello s.auto_mode true s t none
    → t ≡ s'
    → NoTrace s s'
waiting-NoTrace s t s' again asked p =
    let pb = parse_body s.engine.cipher_suite s.auto_mode in
    record {
      sent_nothing =
          sym (ap (λ x. x.engine.queue_tx) p)
          ∙ ap (λ e. e.queue_tx) asked.same_engine
          ∙ next_handshake-queue_tx pb client_hello true s.engine;
      transcript_kept =
          sym (ap (λ x. x.engine.transcript) p)
          ∙ ap (λ e. e.transcript) asked.same_engine
          ∙ next_handshake-none pb client_hello true s.engine (asked.nothing refl);
      still_retried = sym (ap (λ x. x.hello_retry) p) ∙ asked.same_flag ∙ again;
    }

-- A server that has sent a HelloRetryRequest, and still waits for a ClientHello after it has looked for
-- one, has sent nothing and has the transcript that it had: no second HelloRetryRequest goes out, and a
-- stale ClientHello is rolled back.
pub on_await_client_hello-NoTrace :
    (s s' : Server)
    → s.hello_retry ≡ true
    → on_await_client_hello s ≡ (s', ok await_client_hello)
    → NoTrace s s'
unfolding on_await_client_hello
on_await_client_hello-NoTrace s s' again h =
    let (found, t, received, h1) =
      inverse (next_message client_hello s.auto_mode true s) _ s' await_client_hello h in
    let asked = next_message-Asked client_hello s.auto_mode true s t found received in
    elim (chosen found _ _ t s' await_client_hello h1) [
      | inl (missing, h2) ↦
          waiting-NoTrace s t s' again
            (subst (Asked client_hello s.auto_mode true s t) missing asked)
            (final t s' await_client_hello await_client_hello h2)
      | inr (buf, there, h2) ↦
          let (sid, stale) =
            process_client_hello-stays (length s.engine.transcript) buf t s'
              (asked.same_flag ∙ again) h2 in
          stale-NoTrace s t s' sid found again asked stale
    ]
