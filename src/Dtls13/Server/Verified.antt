-- ===== src/Dtls13/Server/Verified.antt =====
-- src/dtls13/server.rs, `await_finished`: the handshake is over only when the client's Finished holds.
use dimpl.Base.{
  ℕ, ◌≡◌, sym, ap, ◌∙◌, true, false, not, none, some, List, [], ◌∷◌, ◌++◌, Result, ok, err, Bytes,
  inl, inr,
}
use dimpl.Dtls13.Handshake.{finished}
use dimpl.Dtls13.Message.ServerHello.{bytes_eq}
use dimpl.Dtls13.Message.Certificate.{Range, parse_finished, bytes_at}
use dimpl.Dtls13.Engine.{M, Engine, Error}
use dimpl.Dtls13.Engine.Flight.{send_ack, flight_stop_resend_timers}
use dimpl.Dtls13.Engine.Rotate.{release_application_data}
use dimpl.Dtls13.Peer.{LocalEvent, connected, Failure}
use dimpl.Dtls13.Peer.Create.{compute_verify_data}
use dimpl.Dtls13.Peer.VerifyData.{IsVerifyData, compute_verify_data-IsVerifyData}
use dimpl.Dtls13.Peer.Inverse.{
  true_or_not, inverse, passed, present, read, chosen, final, final_value,
}
use dimpl.Dtls13.Server.{
  Server, await_finished, await_application_data, on_engine, next_message, advance_peer,
  update_engine, with_engine,
}
use dimpl.Dtls13.Server.CookieHolds.{bytes_eq→eq}
use dimpl.Dtls13.Server.Await.{process_finished, on_await_finished, srtp_events}

-- A Finished read from `buf` in state `s` holds against the expected data, and what follows from it.
pub record Finishes (expected buf : Bytes) (s s' : Server) : Type 0 where
  pub suite : ℕ
  pub range : Range
  pub rest : Bytes
  pub suite_there : s.engine.cipher_suite ≡ some suite
  pub parsed : parse_finished buf suite ≡ ok (rest, range)
  pub holds : bytes_at range buf ≡ expected
  pub released : s'.engine.release_app_data ≡ true
  pub receive_keys_dropped : s'.engine.hs_recv_keys ≡ none
  pub more : List LocalEvent
  pub events : s'.local_events ≡ (s.local_events ++ (connected ∷ [])) ++ more

advance_peer-events :
    (s t : Server) (u : Unit {0}) → advance_peer s ≡ (t, ok u) → t.local_events ≡ s.local_events
unfolding advance_peer
advance_peer-events s t u h = sym (ap (λ x. x.local_events) (final _ t tt u h))

on_engine-events :
    {A : Type 0} (m : M A) (s t : Server) (a : A)
    → on_engine m s ≡ (t, ok a)
    → t.local_events ≡ s.local_events
unfolding on_engine
on_engine-events m s t a h = sym (ap (λ x. x.0.local_events) h)

engine_answer :
    {A : Type 0} (p : Engine × Result Error A) (s t : Server) (a : A)
    → with_engine s p ≡ (t, ok a)
    → p ≡ (t.engine, ok a)
engine_answer {A} (e, ok b) s t a h =
    let same : e ≡ t.engine = ap (λ (x : Server × Result Failure A). x.0.engine) h in
    let value : b ≡ a = final_value (record s { engine = e }) t b a h in λ i. (same i, ok (value i))
engine_answer (e, err x) s t a h = cc

on_engine-value :
    {A : Type 0} (m : M A) (s t : Server) (a : A)
    → on_engine m s ≡ (t, ok a)
    → m s.engine ≡ (t.engine, ok a)
unfolding on_engine
on_engine-value m s t a h = engine_answer (m s.engine) s t a h

-- The server as it is when keys for SRTP are exported.
abbrev connected_server : Server → Server
connected_server w = record (update_engine flight_stop_resend_timers w) {
  local_events = w.local_events ++ (connected ∷ []);
}

process_finished-Finishes :
    (expected buf : Bytes) (s s' : Server)
    → process_finished expected buf s ≡ (s', ok await_application_data)
    → Finishes expected buf s s'
unfolding process_finished release_application_data
process_finished-Finishes expected buf s s' h =
    let (suite, there, h1) = present _ s.engine.cipher_suite _ s s' await_application_data h in
    let ((rest, range), parses, h2) =
      read (parse_finished buf suite) _ s s' await_application_data h1 in
    let (equal, h3) =
      passed (not (bytes_eq (bytes_at range buf) expected)) _ _ s s' await_application_data h2 in
    let (u, t, advanced, h4) = inverse (advance_peer s) _ s' await_application_data h3 in
    let (v, w, sent, h5) = inverse (on_engine send_ack t) _ s' await_application_data h4 in
    let last = final _ s' await_application_data await_application_data h5 in
    record {
      suite = suite;
      range = range;
      rest = rest;
      suite_there = there;
      parsed = parses;
      holds = bytes_eq→eq (bytes_at range buf) expected (true_or_not _ equal);
      released = sym (ap (λ x. x.engine.release_app_data) last);
      more = srtp_events (connected_server w);
      events =
          sym (ap (λ x. x.local_events) last)
          ∙ ap (λ es. (es ++ (connected ∷ [])) ++ srtp_events (connected_server w))
              (on_engine-events send_ack t w v sent ∙ advance_peer-events s t u advanced);
      receive_keys_dropped = sym (ap (λ x. x.engine.hs_recv_keys) last);
    }

apart : ¬ (await_finished ≡ await_application_data)
apart e = cc

-- What is true when the server in state `s` goes on to application data.
pub record Verified (s s' : Server) : Type 0 where
  pub secret : Bytes
  pub expected : Bytes
  pub buf : Bytes
  pub before : Server
  pub after : Server
  pub secret_there : s.client_hs_traffic_secret ≡ some secret
  pub verify_data : IsVerifyData s.engine secret expected
  pub computed : on_engine (compute_verify_data secret) s ≡ (before, ok expected)
  pub received : next_message finished false true before ≡ (after, ok (some buf))
  pub finishes : Finishes expected buf after s'

-- The server goes on to application data only after a Finished whose data is the HMAC, under the
-- "finished" key of the client's handshake secret, of the hash of the whole transcript before it, all
-- with the hash of the negotiated suite. Then Connected is an event, behind those that were waiting and
-- before the keys for SRTP; the application's data is released; and the keys that open records of the
-- handshake epoch are dropped.
pub on_await_finished-Verified :
    (s s' : Server) → on_await_finished s ≡ (s', ok await_application_data) → Verified s s'
unfolding on_await_finished
on_await_finished-Verified s s' h =
    let (secret, there, h1) =
      present _ s.client_hs_traffic_secret _ s s' await_application_data h in
    let (expected, before, computed, h2) =
      inverse (on_engine (compute_verify_data secret) s) _ s' await_application_data h1 in
    let (found, after, received, h3) =
      inverse (next_message finished false true before) _ s' await_application_data h2 in
    elim (chosen found _ _ after s' await_application_data h3) [
      | inl (missing, h4) ↦
          absurd (apart (final_value after s' await_finished await_application_data h4))
      | inr (buf, is, h4) ↦ record {
        secret = secret;
        expected = expected;
        buf = buf;
        before = before;
        after = after;
        secret_there = there;
        verify_data =
            compute_verify_data-IsVerifyData secret expected s.engine before.engine
              (on_engine-value (compute_verify_data secret) s before expected computed);
        computed = computed;
        received = received ∙ ap (λ o. (after, ok o)) is;
        finishes = process_finished-Finishes expected buf after s' h4;
      }
    ]
