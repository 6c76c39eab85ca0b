-- ===== src/Dtls13/Engine/Receive.antt =====
-- src/dtls13/engine.rs: the `RecordHandler` that the parser of datagrams asks, and the receive queue.
use dimpl.Base.{
  ℕ, ◌+◌, ◌%◌, Bool, false, ◌&&◌, ◌||◌, Option, none, some, List, [], ◌∷◌, Result, ok, err, Bytes,
  ltb, ◌==◌, if◌then◌else◌, find, get_elem?,
}
use dimpl.Wire.{Sequence, is_after, ack, alert, change_cipher_spec}
use dimpl.Window.{check, update}
use dimpl.Dtls13.Record
use dimpl.Dtls13.Reconstruct.{reconstruct_sequence, sequence_bits}
use dimpl.Dtls13.Engine.{
  Engine, EpochKeys, RecvEpochEntry, Error, M, IncomingRecord, fatal_alert, recv_keys_not_available,
  crypto_failed,
}
use dimpl.Dtls13.Engine.Send.{is_some, nonce_xor, xor_bytes}
use dimpl.Dtls13.Engine.Flight.{process_ack}

-- The newest application epoch with these two bits, from the front of the list to its end.
abbrev pub newest_match : ℕ → Option ℕ → List RecvEpochEntry → Option ℕ
newest_match bits best [] = best
newest_match bits best (r ∷ rs) =
    newest_match bits (if r.epoch % 4 == bits then some r.epoch else best) rs

-- `epoch & 0x03` is the remainder by 4.
unfoldable pub resolve_epoch : Engine → ℕ → ℕ
resolve_epoch e epoch_bits =
    if is_some e.hs_recv_keys && 2 % 4 == epoch_bits
    then 2
    else elim (newest_match epoch_bits none e.app_recv_keys) [
      | some epoch ↦ epoch
      | none ↦ epoch_bits
    ]

abbrev pub entry_of : Engine → ℕ → Option RecvEpochEntry
entry_of e epoch = find (λ r. r.epoch == epoch) e.app_recv_keys

unfoldable pub resolve_sequence : Engine → ℕ → ℕ → Bool → ℕ
resolve_sequence e epoch seq_bits s_flag =
    let expected : ℕ =
      if epoch == 2
      then e.hs_expected_recv_seq
      else elim (entry_of e epoch) [ none ↦ 0 | some r ↦ r.expected_recv_seq ] in
    reconstruct_sequence seq_bits expected (sequence_bits s_flag)

-- Without keys for the epoch nothing is accepted.
unfoldable pub replay_check : Engine → Sequence → Bool
replay_check e seq =
    if seq.epoch == 2
    then check e.hs_replay seq.sequence_number
    else elim (entry_of e seq.epoch) [ none ↦ false | some r ↦ check r.replay seq.sequence_number ]

abbrev pub raise : ℕ → ℕ → ℕ
raise expected next = if ltb expected next then next else expected

-- The first entry of the epoch takes the number, in its window and as the next expected one.
unfoldable pub update_entry : Sequence → List RecvEpochEntry → List RecvEpochEntry
update_entry seq [] = []
update_entry seq (r ∷ rs) =
    if r.epoch == seq.epoch
    then record r {
      replay = update r.replay seq.sequence_number;
      expected_recv_seq = raise r.expected_recv_seq (seq.sequence_number + 1);
    }
      ∷ rs
    else r ∷ update_entry seq rs

unfoldable pub replay_update : Sequence → Engine → Engine
replay_update seq e =
    if seq.epoch == 2
    then record e {
      hs_replay = update e.hs_replay seq.sequence_number;
      hs_expected_recv_seq = raise e.hs_expected_recv_seq (seq.sequence_number + 1);
    }
    else record e { app_recv_keys = update_entry seq e.app_recv_keys }

abbrev pub recv_keys : Engine → ℕ → Option EpochKeys
recv_keys e epoch =
    if epoch == 2
    then e.hs_recv_keys
    else elim (entry_of e epoch) [ none ↦ none | some r ↦ some r.keys ]

-- The plaintext, or the error that the caller answers by dropping the record.
unfoldable pub decrypt_record : Engine → Bytes → Sequence → Bytes → Result Error Bytes
decrypt_record e header seq ciphertext = elim (recv_keys e seq.epoch) [
  | none ↦ err (recv_keys_not_available seq.epoch)
  | some keys ↦
      elim (e.config.provider.decrypt keys.cipher header (nonce_xor keys.iv seq.sequence_number)
        ciphertext) [ none ↦ err crypto_failed | some text ↦ ok text ]
]

-- Without keys the bytes stay as they are; `none` is the panic of a missing suite.
unfoldable pub decrypt_sequence_number : Engine → ℕ → Bytes → Bytes → Option Bytes
decrypt_sequence_number e epoch seq_bytes sample = elim (recv_keys e epoch) [
  | none ↦ some seq_bytes
  | some keys ↦ elim e.cipher_suite [
    | none ↦ none
    | some suite ↦
        some (xor_bytes seq_bytes (e.config.provider.encrypt_sn suite keys.sn_key sample))
  ]
]

abbrev alert_description : IncomingRecord → Option ℕ
alert_description r = get_elem? (Record.fragment r.parsed r.buffer) 1

-- close_notify is 0 and user_canceled is 90; any other description is fatal.
unfoldable pub classify_alert : IncomingRecord → M (Option IncomingRecord)
classify_alert r e = elim (alert_description r) [
  | none ↦ (e, ok none)
  | some description ↦
      if description == 0
      then (
        record e {
          close_notify_sequence =
              if is_some e.close_notify_sequence
              then e.close_notify_sequence
              else some r.parsed.sequence;
        },
        ok none,
      )
      else if description == 90
      then (e, ok none)
      else (e, err (fatal_alert description))
]

abbrev after_close : Engine → Sequence → Bool
after_close e seq = elim e.close_notify_sequence [ none ↦ false | some cn ↦ is_after seq cn ]

unfoldable pub classify_record : IncomingRecord → M (Option IncomingRecord)
classify_record r e =
    if after_close e r.parsed.sequence
    then (e, ok none)
    else if r.parsed.sequence.epoch == 0
        && (e.peer_encryption_enabled
            && (r.parsed.content_type == ack || r.parsed.content_type == alert))
    then (e, ok none)
    else if r.parsed.content_type == ack
    then (process_ack (Record.fragment r.parsed r.buffer) e, ok none)
    else if r.parsed.content_type == alert
    then classify_alert r e
    else if r.parsed.content_type == change_cipher_spec
    then (e, ok none)
    else (e, ok (some r))
