-- ===== src/Dtls13/Engine/Rotate.antt =====
-- src/dtls13/engine.rs: the installation and renewal of traffic keys.
use dimpl.Base.{
  ℕ, ◌+◌, ◌/◌, ◌%◌, ◌^◌, Bool, true, false, not, none, some, List, [], ◌∷◌, ◌++◌, ok, err, Bytes,
  leb, ◌==◌, if◌then◌else◌, length, take, drop, last?, retain,
}
use dimpl.Wire.{u16_bytes, u24_bytes}
use dimpl.Wire
use dimpl.Window
use dimpl.Dtls13.Handshake.{key_update}
use dimpl.Dtls13.Engine.{
  Engine, EpochKeys, RecvEpochEntry, M, ◌>>=◌, ◌>>◌, pure, modify, panicked,
  no_current_app_send_keys, no_current_app_recv_keys, recv_epoch_capacity, next_word, advance,
  jittered_aead_threshold,
}
use dimpl.Dtls13.Engine.Send.{create_ciphertext_record}
use dimpl.Dtls13.Engine.Flight.{flight_begin}
use dimpl.Dtls13.Engine.Scan.{is_handled}
use dimpl.Dtls13.Engine.Keys.{hash_of, derive_epoch_keys, derive_next_traffic_secret}

-- The sending and the receiving secret of this side.
abbrev pub own : Engine → Bytes → Bytes → Bytes
own e client server = if e.is_client then client else server

unfoldable pub install_handshake_keys : Bytes → Bytes → M (Unit {0})
install_handshake_keys client server e =
    (do
      send ← derive_epoch_keys (own e client server)
      modify (λ e'. record e' { hs_send_keys = some send })
      recv ← derive_epoch_keys (own e server client)
      modify (λ e'. record e' { hs_recv_keys = some recv; hs_send_seq = 0 }))
      e

abbrev pub fresh_entry : ℕ → EpochKeys → RecvEpochEntry
fresh_entry epoch keys = record {
  epoch = epoch;
  keys = keys;
  expected_recv_seq = 0;
  replay = Window.new;
}

-- `app_recv_keys.push`: a full vector panics.
unfoldable pub push_recv : RecvEpochEntry → M (Unit {0})
push_recv entry e =
    if leb recv_epoch_capacity (length e.app_recv_keys)
    then (e, err panicked)
    else (record e { app_recv_keys = e.app_recv_keys ++ (entry ∷ []) }, ok tt)

unfoldable pub install_application_keys : Bytes → Bytes → M (Unit {0})
install_application_keys client server e =
    (do
      send ← derive_epoch_keys (own e client server)
      modify (λ e'. record e' { app_send_keys = some send })
      recv ← derive_epoch_keys (own e server client)
      push_recv (fresh_entry 3 recv)
      modify (λ e'. record e' { app_send_epoch = 3; app_send_seq = 0 }))
      e

-- The old keys are kept for retransmission; the new ones start at number 0. An epoch is a u16.
unfoldable pub rotate_send : EpochKeys → EpochKeys → Engine → Engine
rotate_send current new_keys e = record e {
  prev_app_send_keys = some current;
  prev_app_send_epoch = e.app_send_epoch;
  prev_app_send_seq = e.app_send_seq;
  app_send_keys = some new_keys;
  app_send_epoch = (e.app_send_epoch + 1) % 2 ^ 16;
  app_send_seq = 0;
  app_send_record_count = 0;
  aead_encryption_threshold = jittered_aead_threshold e.config.aead_encryption_limit (next_word e);
  rng = if e.config.aead_encryption_limit / 4 == 0 then e.rng else advance e.rng;
  needs_key_update = false;
}

-- The current keys are taken out first: an error of the derivation loses them.
unfoldable pub update_send_keys : M (Unit {0})
update_send_keys e = elim e.app_send_keys [
  | none ↦ (e, err no_current_app_send_keys)
  | some current ↦
      (do
        next ← derive_next_traffic_secret current.traffic_secret
        new_keys ← derive_epoch_keys next
        modify (rotate_send current new_keys))
        (record e { app_send_keys = none })
]

-- The oldest of four receive epochs makes room for a new one.
unfoldable pub add_recv_epoch : RecvEpochEntry → List RecvEpochEntry → List RecvEpochEntry
add_recv_epoch entry entries =
    (if leb recv_epoch_capacity (length entries) then drop 1 entries else entries) ++ (entry ∷ [])

unfoldable pub update_recv_keys : M ℕ
update_recv_keys e = elim (last? e.app_recv_keys) [
  | none ↦ (e, err no_current_app_recv_keys)
  | some latest ↦
      (do
        next ← derive_next_traffic_secret latest.keys.traffic_secret
        new_keys ← derive_epoch_keys next
        let new_epoch = (latest.epoch + 1) % 2 ^ 16
        modify (λ e'. record e' {
          app_recv_keys = add_recv_epoch (fresh_entry new_epoch new_keys) e'.app_recv_keys;
        })
        pure new_epoch)
        e
]

-- `KeyUpdateRequest`
pub data KeyUpdateRequest : Type 0 where
  update_not_requested update_requested : KeyUpdateRequest

abbrev pub request_byte : KeyUpdateRequest → ℕ
request_byte update_not_requested = 0
request_byte update_requested = 1

abbrev pub key_update_bytes : ℕ → KeyUpdateRequest → Bytes
key_update_bytes msg_seq request =
    key_update
    ∷ (u24_bytes 1
        ++ (u16_bytes msg_seq ++ (u24_bytes 0 ++ (u24_bytes 1 ++ (request_byte request ∷ [])))))

unfoldable pub create_key_update : KeyUpdateRequest → M (Unit {0})
create_key_update request start =
    let e = flight_begin start in
    let msg_seq = e.next_handshake_seq_no in
    (do
      modify (λ e'. record e' { next_handshake_seq_no = (msg_seq + 1) % 2 ^ 16 })
      create_ciphertext_record Wire.handshake e.app_send_epoch true
          (key_update_bytes msg_seq request)
      update_send_keys)
      e

-- `needs_key_update`, which clears the flag that it reports.
unfoldable pub poll_needs_key_update : Engine → Engine × Bool
poll_needs_key_update e = (record e { needs_key_update = false }, e.needs_key_update)

unfoldable pub reset_for_hello_retry : Engine → Engine
reset_for_hello_retry e = record e {
  hs_send_seq = 0;
  handshake_ack_deadline = none;
  queue_rx = retain (λ i. not (is_handled i.first)) e.queue_rx;
}

-- `replace_transcript_with_message_hash`: message_hash(CH1) and the tail.
unfoldable pub replace_transcript_with_message_hash : ℕ → M (Unit {0})
replace_transcript_with_message_hash split_at e =
    (do
      h ← hash_of (take split_at e.transcript)
      modify (λ e'. record e' {
        transcript = 0xfe ∷ (u24_bytes (length h) ++ (h ++ drop split_at e.transcript));
      }))
      e

unfoldable pub release_application_data : Engine → Engine
release_application_data e = record e { release_app_data = true; hs_recv_keys = none }
