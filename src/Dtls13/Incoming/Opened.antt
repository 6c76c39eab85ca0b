-- ===== src/Dtls13/Incoming/Opened.antt =====
-- src/dtls13/engine.rs and src/dtls13/incoming.rs: a record that the sender protected is opened by the
-- receiver.
use dimpl.Base.{
  ℕ, ◌+◌, ◌-◌, ◌/◌, ◌%◌, ◌^◌, ◌≤◌, ◌<◌, ◌≡◌, ◌≢◌, refl, ap, true, false, none, some, [], ◌∷◌, ◌++◌,
  ok, Bytes, length, ltb, ◌==◌, if◌then◌else◌, arith,
}
use dimpl.Wire
use dimpl.Wire.{ContentType, Sequence}
use dimpl.Dtls13.Record.{Dtls13Record}
use dimpl.Dtls13.Handshake.{BodyParser}
use dimpl.Dtls13.Reconstruct.{reconstruct_near}
use dimpl.Dtls13.Engine.{Engine, EpochKeys, max_sequence_number}
use dimpl.Dtls13.Engine.Send.{unified_header, nonce_xor}
use dimpl.Dtls13.Engine.Receive.{
  resolve_epoch, resolve_sequence, replay_check, replay_update, recv_keys, decrypt_record, entry_of,
}
use dimpl.Dtls13.Incoming.{open_record, with_handshakes, recover_inner_content_type, s_flag}
use dimpl.Dtls13.Incoming.Inner.{recover_inner_content_type-padded}

-- The number that the receiver expects next in an epoch.
abbrev pub expected_seq : Engine → ℕ → ℕ
expected_seq e epoch =
    if epoch == 2
    then e.hs_expected_recv_seq
    else elim (entry_of e epoch) [ none ↦ 0 | some r ↦ r.expected_recv_seq ]

-- The header as the parser reads it: two bits of the epoch and 16 of the number.
abbrev pub header_read : ℕ → ℕ → ℕ → Dtls13Record
header_read epoch seq len = record {
  content_type = Wire.application_data;
  sequence = record { epoch = epoch % 4; sequence_number = seq % 2 ^ 16 };
  length = len;
  fragment_start = 5;
  fragment_end = 5 + len;
}

-- The record that comes out.
abbrev pub opened : ContentType → ℕ → ℕ → Bytes → Dtls13Record
opened content_type epoch seq content = record {
  content_type = content_type;
  sequence = record { epoch = epoch; sequence_number = seq };
  length = length content % 65536;
  fragment_start = 5;
  fragment_end = 5 + length content;
}

-- What sender and receiver have in common, and what the receiver has seen, for one record.
pub record Agree (f : Engine) (suite : ℕ) (keys : EpochKeys) (epoch seq : ℕ)
    (header text ciphertext : Bytes) : Type 0 where
  pub suite_known : f.cipher_suite ≡ some suite
  pub keys_known : recv_keys f epoch ≡ some keys
  pub epoch_known : resolve_epoch f (epoch % 4 % 256) ≡ epoch
  pub in_range : seq ≤ max_sequence_number
  pub not_above : seq < expected_seq f epoch + 2 ^ 16 / 2
  pub not_below : expected_seq f epoch < seq + 2 ^ 16 / 2
  pub fresh : replay_check f (record { epoch = epoch; sequence_number = seq }) ≡ true
  pub long : f.config.provider.min_protected_fragment_len suite ≤ length ciphertext
  pub authentic :
      f.config.provider.decrypt keys.cipher header (nonce_xor keys.iv seq) ciphertext ≡ some text

resolve_sequence-near :
    (f : Engine) (epoch seq : ℕ)
    → seq ≤ max_sequence_number
    → seq < expected_seq f epoch + 2 ^ 16 / 2
    → expected_seq f epoch < seq + 2 ^ 16 / 2
    → resolve_sequence f epoch (seq % 2 ^ 16) true ≡ seq
unfolding resolve_sequence
resolve_sequence-near f epoch seq range above below =
    reconstruct_near true seq (expected_seq f epoch) (omega arith) (omega arith) above below

decrypt_record-Agree :
    (f : Engine) (suite : ℕ) (keys : EpochKeys) (epoch seq : ℕ) (header text ciphertext : Bytes)
    → Agree f suite keys epoch seq header text ciphertext
    → decrypt_record f header (record { epoch = epoch; sequence_number = seq }) ciphertext ≡ ok text
unfolding decrypt_record
decrypt_record-Agree f suite keys epoch seq header text ciphertext a =
    rw (a.keys_known, a.authentic, decrypt_record) refl

-- Let the receiver have the suite and the keys of an epoch, resolve the two bits of the header to this
-- epoch, expect a number less than half a window away from the record's, which has 48 bits, and not have
-- seen that number; and let the ciphertext have the length that the suite asks for, and decrypt, under
-- the header and the number, to the content with its type, not 0, behind it. Then the record is opened:
-- the state records the number, and the content is delivered with its type and its full number.
pub open_record-opened :
    (parse_body : BodyParser) (f : Engine) (suite : ℕ) (keys : EpochKeys) (flags epoch seq len : ℕ)
    (content_type : ContentType) (content ciphertext : Bytes)
    → s_flag flags ≡ true
    → content_type ≢ 0
    → Agree f suite keys epoch seq
        (unified_header epoch seq len)
        (content ++ (content_type ∷ []))
        ciphertext
    → open_record parse_body flags
        (unified_header epoch seq len ++ ciphertext)
        (header_read epoch seq len)
        f
      ≡ (
        replay_update (record { epoch = epoch; sequence_number = seq }) f,
        ok (
            some (
              with_handshakes parse_body
                (opened content_type epoch seq content)
                (unified_header epoch seq len ++ (content ++ (content_type ∷ []))))),
      )
unfolding open_record unified_header
open_record-opened parse_body f suite keys flags epoch seq len content_type content ciphertext
      sixteen typed a =
    let header = unified_header epoch seq len in
    let number : Sequence = record { epoch = epoch; sequence_number = seq } in
    let long_enough : ltb (length (header ++ ciphertext) - 5)
          (f.config.provider.min_protected_fragment_len suite)
        ≡ false =
      ground (arith, a.long) in
    let text : decrypt_record f header number ciphertext ≡ ok (content ++ (content_type ∷ [])) =
      decrypt_record-Agree f suite keys epoch seq header (content ++ (content_type ∷ [])) ciphertext
        a in
    let inner : recover_inner_content_type (content ++ (content_type ∷ []))
        ≡ some (content_type, length content) =
      recover_inner_content_type-padded content content_type 0 typed in
    ground (
      arith,
      a.epoch_known,
      sixteen,
      resolve_sequence-near f epoch seq a.in_range a.not_above a.not_below,
      ap (resolve_sequence f epoch (seq % 2 ^ 16)) sixteen,
      a.fresh,
      a.suite_known,
      long_enough,
      text,
      inner,
    )
