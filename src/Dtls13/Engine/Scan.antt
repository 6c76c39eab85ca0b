-- ===== src/Dtls13/Engine/Scan.antt =====
-- src/dtls13/engine.rs: what the receive queue holds of the expected handshake message, and how
-- messages and application data are taken from it.
use dimpl.Base.{
  ℕ, zero, suc, ◌+◌, ◌%◌, ◌^◌, Bool, true, false, not, Option, none, some, List, [], ◌∷◌, ◌++◌, ok,
  err, Bytes, ltb, ◌==◌, if◌then◌else◌, take, all, skip_while, is_empty,
}
use dimpl.Dtls13.Handshake.{
  MessageType, Header, Handshake, Item, BodyParser, joined, parse_incomplete, parse_failed,
  defragment,
}
use dimpl.Dtls13.Engine.{Engine, Error, M, IncomingRecord, Incoming, max_defragment_packets}

-- `Incoming::records`
abbrev pub records : Incoming → List IncomingRecord
records i = i.first ∷ i.others

abbrev pub flat_records : List Incoming → List IncomingRecord
flat_records [] = []
flat_records (i ∷ q) = records i ++ flat_records q

-- `Record::is_handled`: by its handshakes if it has any.
unfoldable pub is_handled : IncomingRecord → Bool
is_handled r = if is_empty r.handshakes then r.handled else all (λ h. h.handled) r.handshakes

abbrev pub flat_handshakes : List IncomingRecord → List Handshake
flat_handshakes [] = []
flat_handshakes (r ∷ rs) = r.handshakes ++ flat_handshakes rs

abbrev pub items_of : Bytes → List Handshake → List Item
items_of buffer [] = []
items_of buffer (h ∷ hs) = (h, buffer) ∷ items_of buffer hs

abbrev pub flat_items : List IncomingRecord → List Item
flat_items [] = []
flat_items (r ∷ rs) = items_of r.buffer r.handshakes ++ flat_items rs

-- The handshakes that the scans look at: those of at most 50 records behind the handled ones.
unfoldable pub pending : List Incoming → List Handshake
pending q =
    skip_while (λ h. h.handled)
      (flat_handshakes (take max_defragment_packets (skip_while is_handled (flat_records q))))

abbrev pub fragment_end_of : Header → ℕ
fragment_end_of h = h.fragment_offset + h.fragment_length

abbrev pub advance_end : ℕ → Header → ℕ
advance_end last_end h = if ltb last_end (fragment_end_of h) then fragment_end_of h else last_end

-- One pass over the fragments of the message `wanted_seq`: a gap, its end, or neither. The three
-- scans of the engine differ in what they answer.
pub data Scanned : Type 0 where
  gap complete open_end : Scanned

unfoldable pub scan_loop : ℕ → ℕ → ℕ → List Handshake → Scanned
scan_loop wanted_seq wanted_length last_end [] = open_end
scan_loop wanted_seq wanted_length last_end (h ∷ hs) =
    let next = advance_end last_end h.header in
    let skipped = scan_loop wanted_seq wanted_length last_end hs in
    let rest = scan_loop wanted_seq wanted_length next hs in
    if not (wanted_seq == h.header.message_seq)
    then skipped
    else if ltb last_end h.header.fragment_offset
    then gap
    else if next == wanted_length
    then complete
    else rest

unfoldable pub has_complete_with_seq : List Incoming → MessageType → ℕ → Bool
has_complete_with_seq q wanted expected_seq = elim (pending q) [
  | [] ↦ false
  | first ∷ hs ↦
      if not (first.header.message_seq == expected_seq)
      then false
      else if not (first.header.msg_type == wanted)
      then false
      else elim (scan_loop first.header.message_seq first.header.length 0 (first ∷ hs)) [
        | gap ↦ false
        | complete ↦ true
        | open_end ↦ false
      ]
]

unfoldable pub has_complete_handshake : Engine → MessageType → Bool
has_complete_handshake e wanted = has_complete_with_seq e.queue_rx wanted e.peer_handshake_seq_no

unfoldable pub handshake_ack_help_needed : Engine → Bool
handshake_ack_help_needed e = elim (pending e.queue_rx) [
  | [] ↦ false
  | first ∷ hs ↦
      if not (first.header.message_seq == e.peer_handshake_seq_no)
      then true
      else elim (scan_loop first.header.message_seq first.header.length 0 (first ∷ hs)) [
        | gap ↦ true
        | complete ↦ false
        | open_end ↦ true
      ]
]

unfoldable pub has_gap_in_incoming_handshake : Engine → Bool
has_gap_in_incoming_handshake e = elim (pending e.queue_rx) [
  | [] ↦ false
  | first ∷ hs ↦
      if not (first.header.message_seq == e.peer_handshake_seq_no)
      then true
      else elim (scan_loop first.header.message_seq first.header.length 0 (first ∷ hs)) [
        | gap ↦ true
        | complete ↦ false
        | open_end ↦ false
      ]
]

-- Marking the first `n` handshakes of the queue as handled, with the number left over.
abbrev mark_handshakes : ℕ → List Handshake → ℕ × List Handshake
mark_handshakes n [] = (n, [])
mark_handshakes zero (h ∷ hs) = (zero, h ∷ hs)
mark_handshakes (suc n) (h ∷ hs) =
    let rest = mark_handshakes n hs in (rest.0, record h { handled = true } ∷ rest.1)

abbrev mark_records : ℕ → List IncomingRecord → ℕ × List IncomingRecord
mark_records n [] = (n, [])
mark_records n (r ∷ rs) =
    let marked = mark_handshakes n r.handshakes in
    let rest = mark_records marked.0 rs in (rest.0, record r { handshakes = marked.1 } ∷ rest.1)

abbrev pub mark_queue : ℕ → List Incoming → List Incoming
mark_queue n [] = []
mark_queue n (i ∷ q) =
    let first = mark_handshakes n i.first.handshakes in
    let others = mark_records first.0 i.others in
    record { first = record i.first { handshakes = first.1 }; others = others.1 }
    ∷ mark_queue others.0 q

abbrev pub leading_handled : List Handshake → ℕ
leading_handled [] = 0
leading_handled (h ∷ hs) = if h.handled then suc (leading_handled hs) else 0

-- What the defragmenter iterates over: no limit on the number of records here.
unfoldable pub pending_items : List Incoming → List Item
pending_items q =
    skip_while (λ (h, source). h.handled) (flat_items (skip_while is_handled (flat_records q)))

-- `next_handshake_with_options`, and `next_handshake_no_transcript` without the transcript. The items
-- that `defragment` marks stand behind the handled ones.
unfoldable pub next_handshake : BodyParser → MessageType → Bool → M (Option Handshake)
next_handshake parse_body wanted with_transcript e =
    if not (has_complete_handshake e wanted)
    then (e, ok none)
    else elim (pending_items e.queue_rx) [
      | [] ↦ (e, err Error.panicked)
      | first ∷ items ↦
          let d = defragment parse_body with_transcript first items in
          let seen = leading_handled (flat_handshakes (flat_records e.queue_rx)) in
          let e' = record e {
            transcript = e.transcript ++ d.written;
            queue_rx = mark_queue (seen + d.marked) e.queue_rx;
          } in
          elim d.outcome [
            | joined h ↦ (e', ok (some h))
            | parse_incomplete ↦ (e', err Error.parse_incomplete)
            | parse_failed x ↦ (e', err (Error.parse_failed x))
            | _ ↦ (e', err Error.panicked)
          ]
    ]

-- The message number is a u16.
unfoldable pub advance_peer_handshake_seq : Engine → Engine
advance_peer_handshake_seq e = record e {
  peer_handshake_seq_no = (e.peer_handshake_seq_no + 1) % 2 ^ 16;
}
