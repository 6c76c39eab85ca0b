-- ===== src/Dtls13/Engine/Fragment.antt =====
-- src/dtls13/engine.rs, `create_handshake`: a message is cut into fragments that fit the datagrams.
use dimpl.Base.{
  ℕ, zero, suc, ◌+◌, ◌-◌, ◌%◌, ◌^◌, min, true, false, ◌&&◌, ◌||◌, Option, none, some, ◌∷◌, ◌++◌, ok,
  err, Bytes, ltb, leb, ◌==◌, if◌then◌else◌, length, last?, take,
}
use dimpl.Wire.{u24_bytes}
use dimpl.Wire
use dimpl.Dtls13.Record.{plaintext_header_len}
use dimpl.Dtls13.Handshake.{MessageType, Header, fragment, client_hello, server_hello, serialize}
use dimpl.Dtls13.Engine.{Engine, M, panicked, no_end}
use dimpl.Dtls13.Engine.Send.{create_plaintext_record, create_ciphertext_record}

-- `epoch_for_message`
unfoldable pub epoch_for_message : MessageType → ℕ
epoch_for_message msg_type = if msg_type == client_hello || msg_type == server_hello then 0 else 2

abbrev pub handshake_header_len : ℕ
handshake_header_len = 12

-- The tag and the byte of the inner content type; the suite must be there for a protected epoch.
abbrev pub protection_overhead : Engine → ℕ → Option ℕ
protection_overhead e epoch =
    if leb 2 epoch
    then elim e.cipher_suite [
      | none ↦ none
      | some suite ↦ some (e.config.provider.tag_len suite + 1)
    ]
    else some 0

abbrev pub fixed_overhead : ℕ → ℕ → ℕ
fixed_overhead epoch protection =
    (if epoch == 0 then plaintext_header_len else 5) + handshake_header_len + protection

-- How many bytes of the body the next fragment takes.
unfoldable pub chunk_len : Engine → ℕ → ℕ → ℕ → ℕ → ℕ
chunk_len e epoch protection total offset =
    let used : ℕ = elim (last? e.queue_tx) [ none ↦ 0 | some b ↦ length b ] in
    let available = e.config.mtu - used in
    let overhead = fixed_overhead epoch protection in
    let for_body =
      if ltb overhead available then available - overhead else e.config.mtu - overhead in
    if total == 0 then 0 else min (total - offset) for_body

abbrev pub fragment_header : MessageType → ℕ → ℕ → ℕ → ℕ → Header
fragment_header msg_type total message_seq offset chunk = record {
  msg_type = msg_type;
  length = total;
  message_seq = message_seq;
  fragment_offset = offset;
  fragment_length = chunk;
}

-- The bytes of a fragment; an empty one has the range 0..0.
unfoldable pub fragment_wire : MessageType → ℕ → Bytes → ℕ → ℕ → Bytes
fragment_wire msg_type message_seq body offset chunk =
    serialize
      (record {
        header = fragment_header msg_type (length body) message_seq offset chunk;
        body = if chunk == 0 then fragment 0 0 else fragment offset (offset + chunk);
        handled = false;
      })
      body

unfoldable pub send_fragment : ℕ → Bytes → M (Unit {0})
send_fragment epoch bytes =
    if epoch == 0
    then create_plaintext_record Wire.handshake true bytes
    else create_ciphertext_record Wire.handshake epoch true bytes

-- The `while` loop. Each round takes a byte of the body at least, where the MTU leaves room, so that
-- one round more than the body has bytes is enough.
unfoldable pub fragment_loop : ℕ → MessageType → ℕ → ℕ → ℕ → Bytes → ℕ → M (Unit {0})
fragment_loop zero msg_type message_seq epoch protection body offset e = (e, err no_end)
fragment_loop (suc fuel) msg_type message_seq epoch protection body offset e =
    let total = length body in
    elim (ltb offset total || (total == 0 && offset == 0)) [
      | false ↦ (e, ok tt)
      | true ↦
          let chunk = chunk_len e epoch protection total offset in
          let (e', sent) =
            send_fragment epoch (fragment_wire msg_type message_seq body offset chunk) e in
          elim sent [
            | err x ↦ (e', err x)
            | ok _ ↦ elim (total == 0) [
              | true ↦ (e', ok tt)
              | false ↦
                  fragment_loop fuel msg_type message_seq epoch protection body (offset + chunk) e'
            ]
          ]
    ]

-- The transcript gets type, length and body; the message number is a u16.
unfoldable pub begin_message : MessageType → Bytes → Engine → Engine
begin_message msg_type body e = record e {
  transcript = e.transcript ++ (msg_type ∷ (u24_bytes (length body) ++ take (length body) body));
  next_handshake_seq_no = (e.next_handshake_seq_no + 1) % 2 ^ 16;
}

-- `f` writes the body and may change the engine before: here the body that it wrote.
unfoldable pub create_handshake : MessageType → Bytes → M (Unit {0})
create_handshake msg_type body e =
    let e' = begin_message msg_type body e in
    let epoch = epoch_for_message msg_type in
    elim (protection_overhead e' epoch) [
      | none ↦ (e', err panicked)
      | some protection ↦
          fragment_loop (suc (length body)) msg_type e.next_handshake_seq_no epoch protection body 0
            e'
    ]
