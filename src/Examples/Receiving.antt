-- ===== src/Examples/Receiving.antt =====
-- Receiving on the engine of the fixture.
use dimpl.Base.{
  ℕ, ◌+◌, ◌≡◌, ◌≢◌, refl, ◌⊎◌, inr, true, false, List, [], ◌∷◌, ◌++◌, err, Bytes, replicate, arith,
  ◌%◌, some, length, ◌≤◌, none, ok, last?,
}
use dimpl.Wire
use dimpl.Wire.{Sequence}
use dimpl.Dtls13.Record.{Dtls13Record}
use dimpl.Dtls13.Handshake.{Handshake, Item, fragment, finish, defragment, finished}
use dimpl.Dtls13.Handshake.Defragment.{IsPiece}
use dimpl.Dtls13.Handshake.Joined.{Exactly, defragment_exact, defragment_complete}
use dimpl.Dtls13.Engine.{Engine, IncomingRecord, Incoming, no_end, RecvEpochEntry}
use dimpl.Dtls13.Engine.Scan.{scan_loop}
use dimpl.Dtls13.Engine.Receive.{replay_check, replay_update, resolve_epoch}
use dimpl.Dtls13.Incoming.{
  open_record, records_loop, recover_inner_content_type, classify_all, with_handshakes,
}
use dimpl.Dtls13.Incoming.Safety.{Untouched, Accepted, open_record_safe, replay_check-replay_update}
use dimpl.Dtls13.Incoming.Ends.{records_loop-ne-no_end}
use dimpl.Dtls13.Queue.{enqueue_handshake, key_of, insert_incoming}
use dimpl.Dtls13.Queue.Sorted.{IsSorted, enqueue_handshake-IsSorted}
use dimpl.Dtls13.Incoming.Inner.{recover_inner_content_type-padded}
use dimpl.Dtls13.Engine.Send.{unified_header}
use dimpl.Dtls13.Engine.Close.{Delivers, classify_all-Delivers}
use dimpl.Dtls13.Queue.Bounds.{insert_incoming-bounded}
use dimpl.Dtls13.Incoming.Opened.{Agree, header_read as parsed_header, opened, open_record-opened}
use dimpl.Dtls13.Engine.Rotate.{add_recv_epoch, fresh_entry}
use dimpl.Dtls13.Engine.Retained.{Consecutive, resolve_epoch-exact, add_recv_epoch-Consecutive}
use dimpl.Window
use dimpl.Examples.Fixture.{keys, server, parse_body}

-- A protected record with 20 bytes of ciphertext, as the parser of headers leaves it.
abbrev datagram : Bytes
datagram = 0x2e ∷ 0 ∷ 7 ∷ 0 ∷ 20 ∷ (1 ∷ 2 ∷ 3 ∷ 22 ∷ replicate 16 0)

abbrev header_read : Dtls13Record
header_read = record {
  content_type = Wire.application_data;
  sequence = record { epoch = 2; sequence_number = 7 };
  length = 20;
  fragment_start = 5;
  fragment_end = 25;
}

open_record_safe_example :
    Untouched server (open_record parse_body 0x2e datagram header_read server)
    ⊎ Accepted 0x2e datagram header_read server
        (open_record parse_body 0x2e datagram header_read server)
open_record_safe_example = open_record_safe parse_body 0x2e datagram header_read server

abbrev seventh : Sequence
seventh = record { epoch = 2; sequence_number = 7 }

replay_check-replay_update_example : replay_check (replay_update seventh server) seventh ≡ false
replay_check-replay_update_example = replay_check-replay_update seventh server

records_loop-ne-no_end_example : (records_loop 25 parse_body datagram [] server).1 ≢ err no_end
records_loop-ne-no_end_example =
    records_loop-ne-no_end 25 parse_body datagram [] server (omega arith)

-- A message of 6 bytes in two fragments that overlap in one byte.
abbrev whole : Bytes
whole = 10 ∷ 11 ∷ 12 ∷ 13 ∷ 14 ∷ 15 ∷ []

abbrev part : ℕ → ℕ → Handshake
part offset len = record {
  header = record {
    msg_type = finished;
    length = 6;
    message_seq = 3;
    fragment_offset = offset;
    fragment_length = len;
  };
  body = fragment offset (offset + len);
  handled = false;
}

abbrev items : List Item
items = (part 3 3, whole) ∷ []

first-IsPiece : IsPiece finished 3 whole (part 0 4, whole)
first-IsPiece = record {
  same_type = refl;
  same_seq = refl;
  same_length = refl;
  inside = omega arith;
  bytes = refl;
}

second-IsPiece : IsPiece finished 3 whole (part 3 3, whole)
second-IsPiece = record {
  same_type = refl;
  same_seq = refl;
  same_length = refl;
  inside = omega arith;
  bytes = refl;
}

defragment_exact_example :
    Exactly finished whole 2 true
      (finish parse_body (part 0 4).header whole)
      (defragment parse_body true (part 0 4, whole) (items ++ []))
defragment_exact_example =
    defragment_exact finished 3 whole (part 0 4) whole items [] first-IsPiece (second-IsPiece, tt)
      tt parse_body true

scanned : scan_loop 3 6 0 (part 0 4 ∷ part 3 3 ∷ []) ≡ dimpl.Dtls13.Engine.Scan.complete
unfolding scan_loop
scanned = refl

defragment_complete_example :
    ((defragment parse_body true (part 0 4, whole) (items ++ [])).buffer ≡ whole)
    × ((defragment parse_body true (part 0 4, whole) (items ++ [])).outcome
        ≡ finish parse_body (part 0 4).header whole)
defragment_complete_example =
    defragment_complete finished 3 whole (part 0 4) whole items [] first-IsPiece
      (second-IsPiece, tt) tt parse_body true scanned

-- Datagrams that hold one fragment each.
abbrev holding : Handshake → Incoming
holding h = record {
  first = record {
    buffer = whole;
    parsed = record header_read { content_type = Wire.handshake };
    handshakes = h ∷ [];
    handled = false;
  };
  others = [];
}

abbrev waiting : Engine
waiting = record server { queue_rx = holding (part 0 2) ∷ holding (part 4 2) ∷ [] }

waiting-IsSorted : IsSorted waiting.queue_rx
unfolding key_of
waiting-IsSorted = ((inr (refl, omega arith), tt), (tt, tt))

enqueue_handshake-IsSorted_example :
    IsSorted (enqueue_handshake (part 2 2) (holding (part 2 2)) waiting).queue_rx
enqueue_handshake-IsSorted_example =
    enqueue_handshake-IsSorted (part 2 2) (holding (part 2 2)) waiting refl waiting-IsSorted

recover_inner_content_type-padded_example :
    recover_inner_content_type ((0 ∷ 5 ∷ 0 ∷ []) ++ (22 ∷ replicate 4 0)) ≡ some (22, 3)
recover_inner_content_type-padded_example =
    recover_inner_content_type-padded (0 ∷ 5 ∷ 0 ∷ []) 22 4 (omega arith)

-- The peer closed with number 7 of epoch 2.
abbrev closed : Engine
closed = record server { close_notify_sequence = some seventh }

classify_all-Delivers_example :
    Delivers seventh
      (classify_all ((holding (part 0 2)).first ∷ (holding (part 2 2)).first ∷ []) closed).1
classify_all-Delivers_example =
    classify_all-Delivers ((holding (part 0 2)).first ∷ (holding (part 2 2)).first ∷ []) closed
      seventh refl

insert_incoming-bounded_example :
    (length (insert_incoming (holding (part 2 2)) waiting).0.queue_rx ≤ 30)
    × (length (insert_incoming (holding (part 2 2)) waiting).0.queue_rx ≤ 2 + 1)
insert_incoming-bounded_example = insert_incoming-bounded (holding (part 2 2)) waiting (omega arith)

-- Three bytes of a handshake message under number 7.
abbrev content : List ℕ
content = 1 ∷ 2 ∷ 3 ∷ []

abbrev sealed : List ℕ
sealed = content ++ (22 ∷ replicate 16 0)

sealed-Agree : Agree server 0x1301 keys 2 7 (unified_header 2 7 20) (content ++ (22 ∷ [])) sealed
unfolding unified_header resolve_epoch replay_check Window.check
sealed-Agree = record {
  suite_known = refl;
  keys_known = refl;
  epoch_known = refl;
  in_range = omega arith;
  not_above = omega arith;
  not_below = omega arith;
  fresh = refl;
  long = omega arith;
  authentic = refl;
}

open_record-opened_example :
    open_record parse_body 0x2e (unified_header 2 7 20 ++ sealed) (parsed_header 2 7 20) server ≡ (
      replay_update seventh server,
      ok (
          some (
            with_handshakes parse_body
              (opened 22 2 7 content)
              (unified_header 2 7 20 ++ (content ++ (22 ∷ []))))),
    )
open_record-opened_example =
    open_record-opened parse_body server 0x1301 keys 0x2e 2 7 20 22 content sealed refl
      (omega arith) sealed-Agree

-- The receive keys of epochs 3, 4, 5 and 6, once the handshake is over.
abbrev retained : List RecvEpochEntry
retained = fresh_entry 3 keys ∷ fresh_entry 4 keys ∷ fresh_entry 5 keys ∷ fresh_entry 6 keys ∷ []

retained-Consecutive : Consecutive 3 retained
retained-Consecutive = (refl, (refl, (refl, (refl, tt))))

resolve_epoch-exact_example :
    resolve_epoch (record server { hs_recv_keys = none; app_recv_keys = retained }) ((3 + 3) % 4)
    ≡ 6
resolve_epoch-exact_example =
    resolve_epoch-exact (record server { hs_recv_keys = none; app_recv_keys = retained }) 3 3 refl
      retained-Consecutive (omega arith) (omega arith)

add_recv_epoch-Consecutive_example :
    (length (add_recv_epoch (fresh_entry 7 keys) retained) ≤ 4)
    × Consecutive 4 (add_recv_epoch (fresh_entry 7 keys) retained)
    × (last? (add_recv_epoch (fresh_entry 7 keys) retained) ≡ some (fresh_entry 7 keys))
add_recv_epoch-Consecutive_example =
    add_recv_epoch-Consecutive (fresh_entry 7 keys) retained 3 retained-Consecutive (omega arith)
      refl
