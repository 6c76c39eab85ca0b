-- ===== src/Dtls13/Queue.antt =====
-- src/dtls13/engine.rs: parsing a datagram into the receive queue. The queue is a
-- ring in one piece: where the source's wraps around, the search of the standard library first chooses
-- between the two pieces, which makes no difference for a queue sorted by the key without equal keys.
pub mod Sorted
pub mod Bounds
use Prim.Native.Nat.{compare, Ordering}
use dimpl.Base.{
  ℕ, zero, suc, ◌+◌, ◌^◌, ◌-◌, Bool, true, false, not, ◌&&◌, ◌||◌, Option, none, some, List, [],
  ◌∷◌, ◌++◌, Result, ok, err, Bytes, ltb, leb, ◌==◌, if◌then◌else◌, length, take, drop, any, retain,
}
use dimpl.Wire.{Sequence, cmp}
use dimpl.Dtls13.Handshake.{Handshake, Header, BodyParser, dupe_triggers_resend, key_update}
use dimpl.Dtls13.Engine.{
  Engine, M, ◌>>=◌, ◌>>◌, IncomingRecord, Incoming, receive_queue_full, renegotiation_attempt,
  ack_capacity,
}
use dimpl.Dtls13.Engine.Scan.{records, flat_records, is_handled}
use dimpl.Dtls13.Engine.Flight.{flight_resend}
use dimpl.Dtls13.Engine.Timers.{push_number}
use dimpl.Dtls13.Search.{Found, at, absent_at, search}
use dimpl.Dtls13.Incoming.{parse_incoming}

abbrev pub insert_at {ℓ} : {A : Type ℓ} → ℕ → A → List A → List A
insert_at zero a xs = a ∷ xs
insert_at (suc i) a [] = a ∷ []
insert_at (suc i) a (x ∷ xs) = x ∷ insert_at i a xs

abbrev pub replace_at {ℓ} : {A : Type ℓ} → ℕ → A → List A → List A
replace_at i a [] = []
replace_at zero a (x ∷ xs) = a ∷ xs
replace_at (suc i) a (x ∷ xs) = x ∷ replace_at i a xs

abbrev pub first_handshake : IncomingRecord → Option Handshake
first_handshake r = elim r.handshakes [ [] ↦ none | h ∷ hs ↦ some h ]

abbrev pub Key : Type 0
Key = ℕ × ℕ

-- The order of tuples.
unfoldable pub compare_keys : Key → Key → Ordering
compare_keys (a, b) (c, d) = elim (compare a c) [
  | Ordering.lt ↦ Ordering.lt
  | Ordering.gt ↦ Ordering.gt
  | Ordering.eq ↦ compare b d
]

abbrev pub key_of_handshake : Handshake → Key
key_of_handshake h = (h.header.message_seq, h.header.fragment_offset)

-- Records that are no handshakes come last: `(u16::MAX, u32::MAX)`.
unfoldable pub key_of : Incoming → Key
key_of i = elim (first_handshake i.first) [
  | none ↦ (2 ^ 16 - 1, 2 ^ 32 - 1)
  | some h ↦ key_of_handshake h
]

-- Records of the protected epochs are noted for acknowledgement.
abbrev pub note_numbers : List IncomingRecord → List Key → List Key
note_numbers [] ns = ns
note_numbers (r ∷ rs) ns = note_numbers rs (
    if leb 2 r.parsed.sequence.epoch
    then push_number (r.parsed.sequence.epoch, r.parsed.sequence.sequence_number) ns
    else ns)

abbrev is_whole : Incoming → Bool
is_whole i = elim (first_handshake i.first) [
  | none ↦ false
  | some h ↦ h.header.length == h.header.fragment_length
]

abbrev is_partial : Incoming → Bool
is_partial i = elim (first_handshake i.first) [
  | none ↦ false
  | some h ↦ not (h.header.length == h.header.fragment_length)
]

-- A handled entry makes way, and a partial one for a whole one.
unfoldable pub should_replace : Incoming → Incoming → Bool
should_replace existing incoming =
    is_handled existing.first || (is_partial existing && is_whole incoming)

abbrev pub replaceable : ℕ → Incoming → List Incoming → Bool
replaceable i incoming [] = false
replaceable zero incoming (x ∷ xs) = should_replace x incoming
replaceable (suc i) incoming (x ∷ xs) = replaceable i incoming xs

abbrev pub noted : Incoming → Engine → Engine
noted i e = record e {
  received_record_numbers = note_numbers (records i) e.received_record_numbers;
}

unfoldable pub enqueue_handshake : Handshake → Incoming → Engine → Engine
enqueue_handshake h incoming e =
    elim (search (λ i. compare_keys (key_of i) (key_of_handshake h)) e.queue_rx) [
      | absent_at i ↦ record (noted incoming e) { queue_rx = insert_at i incoming e.queue_rx }
      | at i ↦
          if replaceable i incoming e.queue_rx
          then record (noted incoming e) { queue_rx = replace_at i incoming e.queue_rx }
          else e
    ]

-- The number of the first handshake in the datagram that asks for a resend.
abbrev pub dupe_number : List IncomingRecord → Option ℕ
dupe_number [] = none
dupe_number (r ∷ rs) = elim (first_handshake r) [
  | none ↦ dupe_number rs
  | some h ↦ elim (dupe_triggers_resend h) [ none ↦ dupe_number rs | some n ↦ some n ]
]

abbrev pub resend_if_old : Option ℕ → M (Unit {0})
resend_if_old none e = (e, ok tt)
resend_if_old (some n) e = if ltb n e.peer_handshake_seq_no then flight_resend e else (e, ok tt)

unfoldable pub accept_handshake : Handshake → Incoming → M (Unit {0})
accept_handshake h incoming e =
    if ltb h.header.message_seq e.peer_handshake_seq_no
    then (e, ok tt)
    else if e.release_app_data && not (h.header.msg_type == key_update)
    then (e, err renegotiation_attempt)
    else (enqueue_handshake h incoming e, ok tt)

unfoldable pub insert_incoming_handshake : Handshake → Incoming → M (Unit {0})
insert_incoming_handshake h incoming = do
  resend_if_old (dupe_number (records incoming))
  accept_handshake h incoming

unfoldable pub insert_incoming_non_handshake : Incoming → M (Unit {0})
insert_incoming_non_handshake incoming e =
    elim (search (λ i. cmp i.first.parsed.sequence incoming.first.parsed.sequence) e.queue_rx) [
      | absent_at i ↦ (record e { queue_rx = insert_at i incoming e.queue_rx }, ok tt)
      | at i ↦ (e, ok tt)
    ]

unfoldable pub insert_incoming : Incoming → M (Unit {0})
insert_incoming incoming e =
    if leb e.config.max_queue_rx (length e.queue_rx)
    then (e, err receive_queue_full)
    else elim (first_handshake incoming.first) [
      | some h ↦ insert_incoming_handshake h incoming e
      | none ↦ insert_incoming_non_handshake incoming e
    ]

abbrev insert_if_some : Option Incoming → M (Unit {0})
insert_if_some none e = (e, ok tt)
insert_if_some (some i) e = insert_incoming i e

unfoldable pub parse_packet : BodyParser → Bytes → M (Unit {0})
parse_packet parse_body packet = do
  incoming ← parse_incoming parse_body packet
  insert_if_some incoming

-- `enable_peer_encryption`: from the first datagram with a record of a protected epoch on, the queue
-- is taken out and its unhandled records are parsed again.
abbrev has_protected : Incoming → Bool
has_protected i = any (λ r. leb 2 r.parsed.sequence.epoch) (records i)

abbrev pub before_protected : List Incoming → List Incoming
before_protected [] = []
before_protected (i ∷ q) = if has_protected i then [] else i ∷ before_protected q

abbrev pub from_protected : List Incoming → List Incoming
from_protected [] = []
from_protected (i ∷ q) = if has_protected i then i ∷ q else from_protected q

unfoldable pub reparse : BodyParser → List IncomingRecord → M (Unit {0})
reparse parse_body [] e = (e, ok tt)
reparse parse_body (r ∷ rs) e =
    let (e', done) = parse_packet parse_body r.buffer e in
    elim done [ err x ↦ (e', err x) | ok _ ↦ reparse parse_body rs e' ]

unfoldable pub enable_peer_encryption : BodyParser → M (Unit {0})
enable_peer_encryption parse_body start =
    let e = record start {
      peer_encryption_enabled = true;
      queue_rx = before_protected start.queue_rx;
    } in
    reparse parse_body
      (retain (λ r. not (is_handled r)) (flat_records (from_protected start.queue_rx))) e
