-- ===== src/Examples/Sending.antt =====
-- Sending on the engine of the fixture.
use dimpl.Base.{
  ℕ, ◌^◌, ◌<◌, ◌≡◌, ◌≢◌, refl, true, false, List, [], ◌∷◌, ◌++◌, ok, err, arith, is_empty, ◌⊎◌, ◌*◌,
  ◌-◌, ◌≤◌, Bytes, some, replicate, length-append,
}
use dimpl.Wire
use dimpl.Dtls13.Record
use dimpl.Dtls13.Handshake
use dimpl.Dtls13.Handshake.{Header, client_hello}
use dimpl.Dtls13.Engine.{Engine, Entry, no_end}
use dimpl.Dtls13.Engine.Send.{
  create_ciphertext_record, protect, save_record, slot_of, ciphertext_tail, can_append, enqueue,
  bump_slot, slot_keys, sn_mask, plaintext_tail, create_plaintext_record,
}
use dimpl.Dtls13.Engine.Fragment.{
  create_handshake, fragment_loop, send_fragment, chunk_len, fragment_wire, begin_message,
  epoch_for_message,
}
use dimpl.Dtls13.Engine.Numbers.{Numbered, create_ciphertext_record-Numbered}
use dimpl.Dtls13.Engine.Sealed.{Sealed}
use dimpl.Dtls13.Engine.Nonce.{done, send, nonces_differ}
use dimpl.Dtls13.Engine.Cover.{Covers, create_handshake-Covers}
use dimpl.Dtls13.Engine.Pieces.{Sendable}
use dimpl.Dtls13.Engine.Rejoin.{Rejoined, received, create_handshake-defragment}
use dimpl.Dtls13.Engine.AckRoundTrip.{parse_ack-ack_bytes}
use dimpl.Dtls13.Engine.Mtu.{FitsMtu}
use dimpl.Dtls13.Engine.Datagrams.{
  TagSized, create_plaintext_record-FitsMtu, create_ciphertext_record-FitsMtu,
}
use dimpl.Dtls13.Engine.Flights.{create_handshake-FitsMtu}
use dimpl.Dtls13.Engine.Capacity.{create_handshake-capacity}
use dimpl.Dtls13.Engine.Settle.{Settled, marked, process_ack-ack_bytes}
use dimpl.Dtls13.Engine.Flight.{process_ack, parse_ack, ack_bytes}
use dimpl.Examples.Fixture.{backend, server, keys, parse_body, hello}

parse_ack-ack_bytes_example :
    parse_ack (ack_bytes ((2, 7) ∷ (3, 2 ^ 47) ∷ [])) ≡ (2, 7) ∷ (3, 2 ^ 47) ∷ []
parse_ack-ack_bytes_example =
    parse_ack-ack_bytes ((2, 7) ∷ (3, 2 ^ 47) ∷ []) (omega arith)
      ((omega arith, omega arith), ((omega arith, omega arith), tt))

abbrev seven : ℕ
seven = 7

-- One protected record after another in epoch 2.
abbrev first_sent : Engine
first_sent = (create_ciphertext_record Wire.handshake 2 true (1 ∷ 2 ∷ []) server).0

abbrev then_sent : Engine
then_sent = (create_ciphertext_record Wire.ack 2 false (3 ∷ []) first_sent).0

abbrev last_sent : Engine
last_sent = (create_ciphertext_record Wire.handshake 2 true (4 ∷ []) then_sent).0

sent_1 : create_ciphertext_record Wire.handshake 2 true (1 ∷ 2 ∷ []) server ≡ (first_sent, ok tt)
unfolding create_ciphertext_record protect save_record slot_of ciphertext_tail can_append enqueue
sent_1 = refl

sent_2 : create_ciphertext_record Wire.ack 2 false (3 ∷ []) first_sent ≡ (then_sent, ok tt)
unfolding create_ciphertext_record protect save_record slot_of ciphertext_tail can_append enqueue
    bump_slot Record.serialize sn_mask
sent_2 = refl

sent_3 : create_ciphertext_record Wire.handshake 2 true (4 ∷ []) then_sent ≡ (last_sent, ok tt)
unfolding create_ciphertext_record protect save_record slot_of ciphertext_tail can_append enqueue
    bump_slot Record.serialize sn_mask
sent_3 = refl

same_slot : slot_of then_sent 2 ≡ slot_of server 2
unfolding slot_of
same_slot = refl

keyed : slot_keys server (slot_of server 2) ≡ some keys
unfolding slot_of
keyed = refl

keyed_then : slot_keys then_sent (slot_of then_sent 2) ≡ some keys
unfolding slot_of create_ciphertext_record protect save_record ciphertext_tail can_append enqueue
    bump_slot Record.serialize sn_mask
keyed_then = refl

nonces_differ_example :
    (nonce nonce' : Bytes) × Sealed Wire.handshake 2 (1 ∷ 2 ∷ []) server first_sent keys nonce
    × Sealed Wire.handshake 2 (4 ∷ []) then_sent last_sent keys nonce'
    × (nonce ≢ nonce')
nonces_differ_example =
    nonces_differ Wire.handshake Wire.handshake 2 2 true true (1 ∷ 2 ∷ []) (4 ∷ []) keys server
      first_sent then_sent last_sent refl keyed keyed_then sent_1
      (send Wire.ack 2 false (3 ∷ []) first_sent then_sent then_sent sent_2 (done then_sent)) sent_3
      same_slot

create_ciphertext_record-Numbered_example :
    Numbered server
      (slot_of server 2)
      (create_ciphertext_record Wire.handshake 2 true (1 ∷ 2 ∷ []) server)
create_ciphertext_record-Numbered_example =
    create_ciphertext_record-Numbered Wire.handshake 2 true (1 ∷ 2 ∷ []) server

hello_room : 25 < 40
hello_room = omega arith

create_handshake-Covers_example :
    ((create_handshake client_hello hello server).1 ≢ err no_end)
    × ((create_handshake client_hello hello server).1 ≡ ok tt
        → (entries : List Entry) × ((create_handshake client_hello hello
              server).0.flight_saved_records
            ≡ [] ++ entries)
          × Covers client_hello 1 0 hello 0 entries
          × (is_empty entries ≡ false))
unfolding epoch_for_message
create_handshake-Covers_example =
    create_handshake-Covers client_hello hello server 0 refl hello_room

hello-Sendable : Sendable client_hello 1 hello
hello-Sendable = record {
  small_type = omega arith;
  small_seq = omega arith;
  small_body = omega arith;
}

hello_sent : (create_handshake client_hello hello server).1 ≡ ok tt
unfolding create_handshake fragment_loop send_fragment chunk_len fragment_wire begin_message
    epoch_for_message create_plaintext_record plaintext_tail save_record can_append enqueue
    Record.serialize Handshake.serialize Handshake.serialize_header
hello_sent = refl

create_handshake-defragment_example :
    Rejoined client_hello 1 hello parse_body true
      (received parse_body (create_handshake client_hello hello server).0.flight_saved_records)
unfolding epoch_for_message
create_handshake-defragment_example =
    create_handshake-defragment parse_body true client_hello hello server 0 refl hello_room
      hello-Sendable refl hello_sent

abbrev wide : Engine
wide = record server { config = record server.config { mtu = 100 } }

create_plaintext_record-FitsMtu_example :
    FitsMtu (create_plaintext_record Wire.handshake true hello server).0
create_plaintext_record-FitsMtu_example =
    create_plaintext_record-FitsMtu Wire.handshake true hello server refl (omega arith) tt

backend-TagSized : TagSized backend (some 0x1301)
backend-TagSized key aad nonce text ciphertext made =
    ground (arith, made, length-append text (replicate 16 0))

create_ciphertext_record-FitsMtu_example :
    FitsMtu (create_ciphertext_record Wire.handshake 2 true hello wide).0
create_ciphertext_record-FitsMtu_example =
    create_ciphertext_record-FitsMtu Wire.handshake 2 true hello wide (omega arith) backend-TagSized
      (omega arith) tt

create_handshake-FitsMtu_example : FitsMtu (create_handshake client_hello hello server).0
unfolding epoch_for_message
create_handshake-FitsMtu_example =
    create_handshake-FitsMtu client_hello hello server 0 refl hello_room refl backend-TagSized tt

create_handshake-capacity_example : 20 ≤ 12 * (40 - 25)
unfolding epoch_for_message
create_handshake-capacity_example =
    create_handshake-capacity client_hello hello server 0 refl refl hello_sent

-- An acknowledgement of one of two records.
abbrev flying : Engine
flying = record server {
  flight_saved_records =
      record {
        content_type = Wire.handshake;
        epoch = 2;
        send_seq = 3;
        fragment = hello;
        acked = false;
      }
      ∷ record {
        content_type = Wire.handshake;
        epoch = 2;
        send_seq = 4;
        fragment = hello;
        acked = false;
      }
      ∷ [];
}

process_ack-ack_bytes_example :
    ((process_ack (ack_bytes ((2, 4) ∷ [])) flying).flight_saved_records
      ≡ marked ((2, 4) ∷ []) flying.flight_saved_records)
    ⊎ (((process_ack (ack_bytes ((2, 4) ∷ [])) flying).flight_saved_records ≡ [])
        × Settled (marked ((2, 4) ∷ []) flying.flight_saved_records))
process_ack-ack_bytes_example =
    process_ack-ack_bytes ((2, 4) ∷ []) flying (omega arith) ((omega arith, omega arith), tt)
