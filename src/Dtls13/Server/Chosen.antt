-- ===== src/Dtls13/Server/Chosen.antt =====
-- src/dtls13/server.rs, `select_group`: the key share that is taken, and the exchange with it.
use dimpl.Base.{
  ℕ, ◌≡◌, sym, ap, not, Option, none, some, Result, ok, err, inl, inr, Bytes, contains,
}
use dimpl.Dtls13.Message.Extensions.{KeyShareEntry, key_exchange}
use dimpl.Dtls13.Peer.{
  Failure, Act, continue_with, some_or, fail, on_some, branch, security, panicked,
  cannot_send_second_hello_retry_request, no_common_key_exchange_group,
}
use dimpl.Dtls13.Engine.Scan.{advance_peer_handshake_seq}
use dimpl.Dtls13.Peer.Inverse.{passed, present, branched, chosen, final}
use dimpl.Dtls13.Server.{Server, State, await_client_hello, send_server_hello, advance_peer}
use dimpl.Dtls13.Server.Offer.{Offer, matching_entry, common_group}
use dimpl.Dtls13.Server.Moves.{Moves, moves, moved, refused}
use dimpl.Dtls13.Server.Hello.{
  compute_cookie, retry, send_hello_retry_request, complete_exchange, select_group,
}

pub retry-stays :
    (suite : ℕ) (cookie : Bytes) (group : Option ℕ) (s : Server)
    → Moves s.state (λ st. st ≡ await_client_hello) (retry suite cookie group s)
unfolding retry send_hello_retry_request
retry-stays suite cookie group s = search moves depth 30

pub no_accept :
    (st : State) (r : Server × Result Failure State) (s' : Server)
    → Moves st (λ st. st ≡ await_client_hello) r
    → r ≡ (s', ok send_server_hello)
    → ⊥
no_accept st (t, ok a) s' (moved h p) e = cc
no_accept st (t, err x) s' (refused h p) e = cc

-- What the exchange leaves: the suite, and the secret of our key and the key of the client.
pub record Exchanged (suite : ℕ) (buf : Bytes) (entry : KeyShareEntry) (s s' : Server)
    : Type 0 where
  pub key : Bytes × Bytes
  pub secret : Bytes
  pub started : s.backend.start_exchange entry.group ≡ some key
  pub completed : s.backend.complete key.1 (key_exchange entry buf) ≡ some secret
  pub kept : s'.shared_secret ≡ some secret
  pub suite_set : s'.engine.cipher_suite ≡ some suite

complete_exchange-Exchanged :
    (suite : ℕ) (buf : Bytes) (offer : Offer) (entry : KeyShareEntry) (s s' : Server)
    → complete_exchange suite buf offer entry s ≡ (s', ok send_server_hello)
    → Exchanged suite buf entry s s'
unfolding complete_exchange advance_peer advance_peer_handshake_seq
complete_exchange-Exchanged suite buf offer entry s s' h =
    let (known, h1) =
      passed (not (contains s.backend.kx_groups entry.group)) _ _ s s' send_server_hello h in
    let (key, started, h2) =
      present _ (s.backend.start_exchange entry.group) _ s s' send_server_hello h1 in
    let (secret, completed, h3) =
      present _ (s.backend.complete key.1 (key_exchange entry buf)) _
        (record s { extension_data = key.0 }) s' send_server_hello h2 in
    let last = final _ s' send_server_hello send_server_hello h3 in
    record {
      key = key;
      secret = secret;
      started = started;
      completed = completed;
      kept = sym (ap (λ t. t.shared_secret) last);
      suite_set = sym (ap (λ t. t.engine.cipher_suite) last);
    }

-- The key share that was taken, and what the exchange with it leaves.
pub record Selected (suite : ℕ) (buf : Bytes) (offer : Offer) (s s' : Server) : Type 0 where
  pub entry : KeyShareEntry
  pub matching : matching_entry s.backend.kx_groups offer ≡ some entry
  pub exchanged : Exchanged suite buf entry s s'

pub select_group-Selected :
    (suite : ℕ) (random buf : Bytes) (offer : Offer) (s s' : Server)
    → select_group suite random buf offer s ≡ (s', ok send_server_hello)
    → Selected suite buf offer s s'
unfolding select_group
select_group-Selected suite random buf offer s s' h =
    elim (chosen (matching_entry s.backend.kx_groups offer) _ _ s s' send_server_hello h) [
      | inr (entry, matching, done) ↦ record {
        entry = entry;
        matching = matching;
        exchanged = complete_exchange-Exchanged suite buf offer entry s s' done;
      }
      | inl (missing, asked) ↦ absurd (no_retry (common_group s.backend.kx_groups offer) asked)
    ]
  where
    ask : ℕ → Act Server State
    ask group = branch s.hello_retry (fail (security cannot_send_second_hello_retry_request)) (λ t.
        continue_with (some_or panicked (compute_cookie s random) t)
          (λ cookie. retry suite cookie (some group)))

    refuse : (group : ℕ) → ask group s ≡ (s', ok send_server_hello) → ⊥
    refuse group e = elim (branched s.hello_retry _ _ s s' send_server_hello e) [
      | inl (again, e1) ↦ cc
      | inr (first, e1) ↦
          let (cookie, there, e2) =
            present _ (compute_cookie s random) _ s s' send_server_hello e1 in
          no_accept s.state (retry suite cookie (some group) s) s'
            (retry-stays suite cookie (some group) s) e2
    ]

    no_retry :
        (o : Option ℕ)
        → on_some o (fail (security no_common_key_exchange_group)) ask s
          ≡ (s', ok send_server_hello)
        → ⊥
    no_retry none e = cc
    no_retry (some group) e = refuse group e
