-- ===== src/Dtls13/Server/Accepts.antt =====
-- src/dtls13/server.rs, `await_client_hello`: what is true of a ClientHello that is accepted.
use dimpl.Base.{
  ℕ, ◌≡◌, ap, ◌∙◌, true, not, Option, some, ok, ◌==◌, inl, inr, Bytes, contains, find, length,
}
use dimpl.Wire.{dtls1_2}
use dimpl.Dtls13.Handshake.{client_hello}
use dimpl.Dtls13.Message.{null_compression, Dtls13CipherSuite}
use dimpl.Dtls13.Message.ClientHello.{ClientHello, parse_with_options}
use dimpl.Dtls13.Message.Extensions.{KeyShareEntry, key_exchange}
use dimpl.Dtls13.Peer.Inverse.{
  true_or_not, inverse, passed, passed_either, present, read, resulted, chosen, final_value,
}
use dimpl.Dtls13.Server.{Server, await_client_hello, send_server_hello, next_message}
use dimpl.Dtls13.Server.Offer.{Offer, no_offer, read_offer, matching_entry}
use dimpl.Dtls13.Server.Hello.{
  compute_cookie, negotiate, validate, process_client_hello, on_await_client_hello,
}
use dimpl.Dtls13.Server.Chosen.{Selected}
use dimpl.Dtls13.Server.CookieHolds.{CookieHolds, apart, check_cookie-Checked}
use dimpl.Dtls13.Server.Received.{Took, next_message-Took}

-- What is true of a ClientHello, read from `buf`, that the server in state `s` accepts.
pub record Accepted (buf : Bytes) (s s' : Server) : Type 0 where
  pub hello : ClientHello
  pub rest : Bytes
  pub offer : Offer
  pub suite : Dtls13CipherSuite
  pub entry : KeyShareEntry
  pub key : Bytes × Bytes
  pub secret : Bytes
  pub parsed : parse_with_options buf 0 s.auto_mode ≡ ok (rest, hello)
  pub legacy_version : (hello.legacy_version == dtls1_2) ≡ true
  pub compression : contains hello.legacy_compression_methods null_compression ≡ true
  pub offered : read_offer buf hello.extensions no_offer ≡ ok offer
  pub supports_dtls13 : offer.supported_versions_ok ≡ true
  pub first_suite : find (contains s.backend.dtls13_cipher_suites) hello.cipher_suites ≡ some suite
  pub cookie_ours :
      (cookie : Bytes)
      → offer.cookie_data ≡ some cookie
      → compute_cookie s hello.random ≡ some cookie
  pub cookie_there :
      s.backend.use_server_cookie ≡ true → (cookie : Bytes) × (offer.cookie_data ≡ some cookie)
  pub first_share : matching_entry s.backend.kx_groups offer ≡ some entry
  pub started : s.backend.start_exchange entry.group ≡ some key
  pub completed : s.backend.complete key.1 (key_exchange entry buf) ≡ some secret
  pub secret_kept : s'.shared_secret ≡ some secret
  pub suite_kept : s'.engine.cipher_suite ≡ some suite

record Negotiated (buf : Bytes) (hello : ClientHello) (offer : Offer) (s s' : Server) : Type 0 where
  pub suite : Dtls13CipherSuite
  pub supports_dtls13 : offer.supported_versions_ok ≡ true
  pub first_suite : find (contains s.backend.dtls13_cipher_suites) hello.cipher_suites ≡ some suite
  pub cookie : CookieHolds hello.random offer s
  pub selected :
      Selected suite buf offer (record s { client_session_id = some hello.legacy_session_id }) s'

same_cookie :
    (random : Bytes) (offer : Offer) (s : Server) (sid : Option Bytes)
    → CookieHolds random offer (record s { client_session_id = sid })
    → CookieHolds random offer s
unfolding compute_cookie
same_cookie random offer s sid h = record { ours = h.ours; there = h.there }

negotiate-Negotiated :
    (len : ℕ) (buf : Bytes) (hello : ClientHello) (offer : Offer) (s s' : Server)
    → negotiate len buf hello offer s ≡ (s', ok send_server_hello)
    → Negotiated buf hello offer s s'
unfolding negotiate
negotiate-Negotiated len buf hello offer s s' h =
    let (versions, h1) =
      passed_either s.auto_mode (not offer.supported_versions_ok) _ _ _ s s' send_server_hello h in
    let (suite, first, h2) =
      present _ (find (contains s.backend.dtls13_cipher_suites) hello.cipher_suites) _ s s'
        send_server_hello h1 in
    let done =
      check_cookie-Checked len suite hello.random buf offer
        (record s { client_session_id = some hello.legacy_session_id }) s' h2 in
    record {
      suite = suite;
      supports_dtls13 = true_or_not offer.supported_versions_ok versions;
      first_suite = first;
      cookie = same_cookie hello.random offer s (some hello.legacy_session_id) done.0;
      selected = done.1;
    }

record Validated (buf : Bytes) (hello : ClientHello) (s s' : Server) : Type 0 where
  pub offer : Offer
  pub legacy_version : (hello.legacy_version == dtls1_2) ≡ true
  pub compression : contains hello.legacy_compression_methods null_compression ≡ true
  pub offered : read_offer buf hello.extensions no_offer ≡ ok offer
  pub negotiated : Negotiated buf hello offer s s'

validate-Validated :
    (len : ℕ) (buf : Bytes) (hello : ClientHello) (s s' : Server)
    → validate len buf hello s ≡ (s', ok send_server_hello)
    → Validated buf hello s s'
unfolding validate
validate-Validated len buf hello s s' h =
    let (version, h1) =
      passed (not (hello.legacy_version == dtls1_2)) _ _ s s' send_server_hello h in
    let (compression, h2) =
      passed (not (contains hello.legacy_compression_methods null_compression)) _ _ s s'
        send_server_hello h1 in
    let (offer, offered, h3) =
      resulted (read_offer buf hello.extensions no_offer) _ s s' send_server_hello h2 in
    record {
      offer = offer;
      legacy_version = true_or_not _ version;
      compression = true_or_not _ compression;
      offered = offered;
      negotiated = negotiate-Negotiated len buf hello offer s s' h3;
    }

gathered :
    (buf rest : Bytes) (hello : ClientHello) (s s' : Server)
    → parse_with_options buf 0 s.auto_mode ≡ ok (rest, hello)
    → Validated buf hello s s'
    → Accepted buf s s'
gathered buf rest hello s s' parses v =
    let n = v.negotiated in
    let x = n.selected.exchanged in
    record {
      hello = hello;
      rest = rest;
      offer = v.offer;
      suite = n.suite;
      entry = n.selected.entry;
      key = x.key;
      secret = x.secret;
      parsed = parses;
      legacy_version = v.legacy_version;
      compression = v.compression;
      offered = v.offered;
      supports_dtls13 = n.supports_dtls13;
      first_suite = n.first_suite;
      cookie_ours = n.cookie.ours;
      cookie_there = n.cookie.there;
      first_share = n.selected.matching;
      started = x.started;
      completed = x.completed;
      secret_kept = x.kept;
      suite_kept = x.suite_set;
    }

process_client_hello-Accepted :
    (len : ℕ) (buf : Bytes) (s s' : Server)
    → process_client_hello len buf s ≡ (s', ok send_server_hello)
    → Accepted buf s s'
unfolding process_client_hello
process_client_hello-Accepted len buf s s' h =
    let ((rest, hello), parses, h1) =
      read (parse_with_options buf 0 s.auto_mode) _ s s' send_server_hello h in
    gathered buf rest hello s s' parses (validate-Validated len buf hello s s' h1)

-- When the server goes on to its ServerHello, a ClientHello was there, all of it, taken with no change but
-- to the engine and none to its configuration, and: it says DTLS 1.2 as its legacy version, offers null compression, and DTLS 1.3 in supported_versions; the suite that is
-- kept is the first of the client that the server allows; a cookie, if there is one, is the HMAC of the
-- client's random value under the server's secret, and where the server uses cookies there is one; the
-- secret that is kept comes from the first key share in a group of the server and our key for it.
pub on_await_client_hello-Accepted :
    (s s' : Server)
    → on_await_client_hello s ≡ (s', ok send_server_hello)
    → (buf : Bytes) × (t : Server) × (next_message client_hello s.auto_mode true s
        ≡ (t, ok (some buf)))
      × Took s t
      × Accepted buf t s'
unfolding on_await_client_hello
on_await_client_hello-Accepted s s' h =
    let (found, t, received, h1) =
      inverse (next_message client_hello s.auto_mode true s) _ s' send_server_hello h in
    elim (chosen found _ _ t s' send_server_hello h1) [
      | inl (missing, h2) ↦
          absurd (apart (final_value t s' await_client_hello send_server_hello h2))
      | inr (buf, there, h2) ↦ (
        buf,
        t,
        received ∙ ap (λ o. (t, ok o)) there,
        next_message-Took client_hello s.auto_mode true s t found received,
        process_client_hello-Accepted (length s.engine.transcript) buf t s' h2,
      )
    ]
