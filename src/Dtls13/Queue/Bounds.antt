-- ===== src/Dtls13/Queue/Bounds.antt =====
-- src/dtls13/engine.rs, `insert_incoming`: the receive queue does not outgrow its limit.
use dimpl.Base.{
  ℕ, zero, suc, ◌+◌, ◌≤◌, ◌≡◌, refl, ap, ◌∙◌, inl, inr, true, Option, none, some, List, [], ◌∷◌,
  Result, ok, err, length, ltb, leb, ◌==◌, arith, Bool-cases, Option-cases, Result-cases,
}
use dimpl.Dtls13.Handshake.{Handshake}
use dimpl.Dtls13.Engine.{Engine, Config, Entry, Error, Incoming, continue_with}
use dimpl.Dtls13.Engine.Send.{
  create_plaintext_record, create_ciphertext_record, plaintext_tail, protect,
}
use dimpl.Dtls13.Engine.Flight.{resend_entry, resend_loop, flight_resend}
use dimpl.Dtls13.Engine.Saved.{plaintext_tail-Keeps, protect-Keeps}
use dimpl.Dtls13.Queue.{
  insert_incoming, insert_incoming_handshake, insert_incoming_non_handshake, enqueue_handshake,
  accept_handshake, resend_if_old, insert_at, replace_at, replaceable, first_handshake, dupe_number,
  key_of, key_of_handshake, compare_keys,
}
use dimpl.Dtls13.Search.{search}
use dimpl.Wire.{cmp}
use dimpl.Dtls13.Engine.Scan.{records}
use dimpl.Dtls13.Queue.Sorted.{Found-cases}

-- What the bound is about.
abbrev pub queue_of : Engine → Config × List Incoming
queue_of e = (e.config, e.queue_rx)

built :
    (entry : Entry) (p : Engine × Result Error (Unit {0}))
    → queue_of (continue_with p (λ x e'. (e', ok entry))).0 ≡ queue_of p.0
built entry (e, ok x) = refl
built entry (e, err x) = refl

resend_entry-queue : (entry : Entry) (e : Engine) → queue_of (resend_entry entry e).0 ≡ queue_of e
unfolding resend_entry create_plaintext_record create_ciphertext_record
resend_entry-queue entry e = elim (Bool-cases entry.acked) [
  | inl a ↦ rw a refl
  | inr a ↦ elim (Bool-cases (entry.epoch == 0)) [
    | inl z ↦
        rw (a, z)
          (built _ (plaintext_tail entry.content_type entry.fragment e)
            ∙ ap (λ k. (k.0, k.4)) (plaintext_tail-Keeps entry.content_type entry.fragment e).0)
    | inr z ↦
        rw (a, z)
          (built _ (protect entry.content_type entry.epoch entry.fragment e)
            ∙ ap (λ k. (k.0, k.4))
                (protect-Keeps entry.content_type entry.epoch entry.fragment e).0)
  ]
]

resend_loop-queue :
    (entries : List Entry) (e : Engine) → queue_of (resend_loop entries e).0 ≡ queue_of e
unfolding resend_loop
resend_loop-queue [] e = refl
resend_loop-queue (entry ∷ entries) e =
    let e1 = (resend_entry entry e).0 in
    elim (Result-cases (resend_entry entry e).1) [
      | inr (x, failed) ↦ rw (failed, resend_loop) (resend_entry-queue entry e)
      | inl (entry', sent) ↦
          let both : queue_of (resend_loop entries e1).0 ≡ queue_of e =
            resend_loop-queue entries e1 ∙ resend_entry-queue entry e in
          elim (Result-cases (resend_loop entries e1).1) [
            | inr (x, failed) ↦ rw (sent, failed, resend_loop) both
            | inl (rest, done) ↦ rw (sent, done, resend_loop) both
          ]
    ]

kept_back :
    (p : Engine × Result Error (List Entry))
    → queue_of
        (continue_with p (λ entries e'. (record e' { flight_saved_records = entries }, ok tt))).0
      ≡ queue_of p.0
kept_back (e, ok entries) = refl
kept_back (e, err x) = refl

flight_resend-queue : (e : Engine) → queue_of (flight_resend e).0 ≡ queue_of e
unfolding flight_resend
flight_resend-queue e =
    let emptied = record e { flight_saved_records = []; datagram_sealed = true } in
    kept_back (resend_loop e.flight_saved_records emptied)
    ∙ resend_loop-queue e.flight_saved_records emptied

resend_if_old-queue : (n : Option ℕ) (e : Engine) → queue_of (resend_if_old n e).0 ≡ queue_of e
resend_if_old-queue none e = refl
resend_if_old-queue (some n) e = elim (Bool-cases (ltb n e.peer_handshake_seq_no)) [
  | inl t ↦ rw (t, resend_if_old) (flight_resend-queue e)
  | inr t ↦ rw (t, resend_if_old) refl
]

length-insert_at {ℓ} :
    {A : Type ℓ} (i : ℕ) (a : A) (xs : List A) → length (insert_at i a xs) ≡ suc (length xs)
length-insert_at zero a xs = refl
length-insert_at (suc i) a [] = refl
length-insert_at (suc i) a (x ∷ xs) = omega (arith, length-insert_at i a xs)

length-replace_at {ℓ} :
    {A : Type ℓ} (i : ℕ) (a : A) (xs : List A) → length (replace_at i a xs) ≡ length xs
length-replace_at i a [] = refl
length-replace_at zero a (x ∷ xs) = refl
length-replace_at (suc i) a (x ∷ xs) = omega (arith, length-replace_at i a xs)

-- One datagram more at most.
enqueue_handshake-grows :
    (h : Handshake) (incoming : Incoming) (e : Engine)
    → length (enqueue_handshake h incoming e).queue_rx ≤ suc (length e.queue_rx)
unfolding enqueue_handshake
enqueue_handshake-grows h incoming e =
    elim (Found-cases (search (λ i. compare_keys (key_of i) (key_of_handshake h)) e.queue_rx)) [
      | inr (i, s) ↦
          rw (s, enqueue_handshake) (omega (arith, length-insert_at i incoming e.queue_rx))
      | inl (i, s) ↦ elim (Bool-cases (replaceable i incoming e.queue_rx)) [
        | inl r ↦
            rw (s, r, enqueue_handshake) (omega (arith, length-replace_at i incoming e.queue_rx))
        | inr r ↦ rw (s, r, enqueue_handshake) (omega arith)
      ]
    ]

accept_handshake-grows :
    (h : Handshake) (incoming : Incoming) (e : Engine)
    → length (accept_handshake h incoming e).0.queue_rx ≤ suc (length e.queue_rx)
unfolding accept_handshake
accept_handshake-grows h incoming e = ground (arith, enqueue_handshake-grows h incoming e)

insert_incoming_non_handshake-grows :
    (incoming : Incoming) (e : Engine)
    → length (insert_incoming_non_handshake incoming e).0.queue_rx ≤ suc (length e.queue_rx)
unfolding insert_incoming_non_handshake
insert_incoming_non_handshake-grows incoming e =
    elim (Found-cases
      (search (λ i. cmp i.first.parsed.sequence incoming.first.parsed.sequence) e.queue_rx)) [
        | inr (i, s) ↦
            rw (s, insert_incoming_non_handshake)
              (omega (arith, length-insert_at i incoming e.queue_rx))
        | inl (i, s) ↦ rw (s, insert_incoming_non_handshake) (omega arith)
      ]

after_resend :
    (h : Handshake) (incoming : Incoming) (p : Engine × Result Error (Unit {0}))
    → length (continue_with p (λ x. accept_handshake h incoming)).0.queue_rx
      ≤ suc (length p.0.queue_rx)
after_resend h incoming (e, ok x) = accept_handshake-grows h incoming e
after_resend h incoming (e, err x) = omega arith

insert_incoming_handshake-grows :
    (h : Handshake) (incoming : Incoming) (e : Engine)
    → length (insert_incoming_handshake h incoming e).0.queue_rx ≤ suc (length e.queue_rx)
unfolding insert_incoming_handshake
insert_incoming_handshake-grows h incoming e =
    let p = resend_if_old (dupe_number (records incoming)) e in
    let same : length p.0.queue_rx ≡ length e.queue_rx =
      ap (λ k. length k.1) (resend_if_old-queue (dupe_number (records incoming)) e) in
    omega (arith, after_resend h incoming p, same)

-- Inserting a datagram, even one that makes the engine resend its flight, leaves the receive queue
-- within its configured limit, and with one datagram more at most.
pub insert_incoming-bounded :
    (incoming : Incoming) (e : Engine)
    → length e.queue_rx ≤ e.config.max_queue_rx
    → (length (insert_incoming incoming e).0.queue_rx ≤ e.config.max_queue_rx)
      × (length (insert_incoming incoming e).0.queue_rx ≤ length e.queue_rx + 1)
unfolding insert_incoming
insert_incoming-bounded incoming e h =
    elim (Bool-cases (leb e.config.max_queue_rx (length e.queue_rx))) [
      | inl full ↦ (rw (full, insert_incoming) h, rw (full, insert_incoming) (omega arith))
      | inr room ↦ elim (Option-cases (first_handshake incoming.first)) [
        | inl n ↦
            let more = insert_incoming_non_handshake-grows incoming e in
            (
              rw (room, n, insert_incoming) (ground (arith, more, room)),
              rw (room, n, insert_incoming) (omega (arith, more)),
            )
        | inr (hs, n) ↦
            let more = insert_incoming_handshake-grows hs incoming e in
            (
              rw (room, n, insert_incoming) (ground (arith, more, room)),
              rw (room, n, insert_incoming) (omega (arith, more)),
            )
      ]
    ]
