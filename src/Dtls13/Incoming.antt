-- ===== src/Dtls13/Incoming.antt =====
-- src/dtls13/incoming.rs: a datagram is split into records, which are unmasked, checked against the
-- replay window, decrypted and classified.
pub mod Ends
pub mod Safety
pub mod Inner
pub mod Opened
use dimpl.Base.{
  ℕ, zero, suc, ◌+◌, ◌-◌, ◌*◌, ◌%◌, bit_and, Bool, true, false, not, ◌&&◌, ◌||◌, Option, none, some,
  List, [], ◌∷◌, ◌++◌, Result, ok, err, Bytes, ltb, leb, ◌==◌, if◌then◌else◌, length, take, drop,
  slice, get_elem?, is_empty,
}
use dimpl.Wire.{Sequence, u16_bytes}
use dimpl.Wire
use dimpl.Dtls13.Record.{Dtls13Record, is_ciphertext_header, plaintext_header_len}
use dimpl.Dtls13.Record
use dimpl.Dtls13.Handshake.{Handshake, BodyParser}
use dimpl.Dtls13.Handshake
use dimpl.Dtls13.Engine.{
  Engine, Error, M, ◌>>=◌, ◌>>◌, IncomingRecord, Incoming, panicked, no_end, parse_incomplete,
  too_many_records,
}
use dimpl.Dtls13.Engine.Receive.{
  resolve_epoch, resolve_sequence, replay_check, replay_update, decrypt_record,
  decrypt_sequence_number, classify_record,
}

-- `ArrayVec<Handshake, 8>` and `ArrayVec<Record, 16>`
abbrev pub handshake_capacity : ℕ
handshake_capacity = 8

abbrev pub record_capacity : ℕ
record_capacity = 16

-- The fragments in a handshake record, up to the first that does not parse; a ninth is read and
-- dropped. A header has 12 bytes, so that fuel for the length of the input is enough.
unfoldable pub parse_handshakes : ℕ → ℕ → BodyParser → Bytes → ℕ → List Handshake
parse_handshakes zero room parse_body input base_offset = []
parse_handshakes (suc fuel) room parse_body input base_offset =
    elim (Handshake.parse parse_body input base_offset true) [
      | err e ↦ []
      | ok (remaining, h) ↦
          let len = length input - length remaining in
          let more = parse_handshakes fuel (room - 1) parse_body remaining (base_offset + len) in
          if room == 0 then [] else h ∷ more
    ]

abbrev pub with_handshakes : BodyParser → Dtls13Record → Bytes → IncomingRecord
with_handshakes parse_body r buffer = record {
  buffer = buffer;
  parsed = r;
  handshakes =
      (let fragment = Record.fragment r buffer in
        if r.content_type == Wire.handshake
        then parse_handshakes (length fragment) handshake_capacity parse_body fragment
            r.fragment_start
        else []);
  handled = false;
}

-- The last byte that is not zero is the content type; what stands before it is the content.
unfoldable pub recover_loop : Bytes → ℕ → Option (ℕ × ℕ)
recover_loop decrypted zero = none
recover_loop decrypted (suc i) = elim (get_elem? decrypted i) [
  | none ↦ none
  | some byte ↦ let rest = recover_loop decrypted i in if byte == 0 then rest else some (byte, i)
]

unfoldable pub recover_inner_content_type : Bytes → Option (ℕ × ℕ)
recover_inner_content_type decrypted = recover_loop decrypted (length decrypted)

abbrev pub s_flag : ℕ → Bool
s_flag flags = not (bit_and flags 0x08 == 0)

abbrev pub l_flag : ℕ → Bool
l_flag flags = not (bit_and flags 0x04 == 0)

abbrev pub seq_len : ℕ → ℕ
seq_len flags = if s_flag flags then 2 else 1

abbrev pub header_len : ℕ → ℕ
header_len flags = 1 + seq_len flags + (if l_flag flags then 2 else 0)

-- The number bytes are unmasked in place where a sample of 16 bytes follows the header.
unfoldable pub unmask : Engine → Bytes → Option Bytes
unmask e [] = none
unmask e (flags ∷ bytes) =
    let buffer = flags ∷ bytes in
    let n = 1 + seq_len flags in
    if leb (header_len flags + 16) (length buffer)
    then elim (decrypt_sequence_number e (resolve_epoch e (bit_and flags 0x03)) (slice 1 n buffer)
        (slice (header_len flags) (header_len flags + 16) buffer)) [
          | none ↦ none
          | some seq ↦ some (flags ∷ (seq ++ drop n buffer))
        ]
    else some buffer

-- The steps on a protected record behind its parsed header: number, replay window, length, decryption,
-- and only then the update of the window.
unfoldable pub open_record : BodyParser → ℕ → Bytes → Dtls13Record → M (Option IncomingRecord)
open_record parse_body flags buffer r e =
    let epoch = resolve_epoch e (r.sequence.epoch % 256) in
    let full : Sequence = record {
      epoch = epoch;
      sequence_number = resolve_sequence e epoch r.sequence.sequence_number (s_flag flags);
    } in
    let header_end = r.fragment_start in
    elim (replay_check e full) [
      | false ↦ (e, ok none)
      | true ↦ elim e.cipher_suite [
        | none ↦ (e, err panicked)
        | some suite ↦
            if ltb (length buffer - header_end) (e.config.provider.min_protected_fragment_len suite)
            then (e, ok none)
            else elim (decrypt_record e (take header_end buffer) full (drop header_end buffer)) [
              | err x ↦ (e, ok none)
              | ok text ↦
                  let e' = replay_update full e in
                  elim (recover_inner_content_type text) [
                    | none ↦ (e', ok none)
                    | some (content_type, content_len) ↦ (
                      e',
                      ok (
                          some (
                            with_handshakes parse_body
                              (record {
                                content_type = content_type;
                                sequence = full;
                                length = content_len % 65536;
                                fragment_start = header_end;
                                fragment_end = header_end + content_len;
                              })
                              (take header_end buffer ++ text))),
                    )
                  ]
            ]
      ]
    ]

-- `Record::parse`. A record that does not parse is dropped.
unfoldable pub parse_record : BodyParser → Bytes → M (Option IncomingRecord)
parse_record parse_body [] e = (e, err panicked)
parse_record parse_body (flags ∷ bytes) e =
    let slice_ = flags ∷ bytes in
    let protected = is_ciphertext_header flags && e.peer_encryption_enabled in
    elim (if protected then unmask e slice_ else some slice_) [
      | none ↦ (e, err panicked)
      | some buffer ↦ elim (Record.parse buffer 0) [
        | err x ↦ (e, ok none)
        | ok (rest, r) ↦
            if protected
            then open_record parse_body flags buffer r e
            else (e, ok (some (with_handshakes parse_body r buffer)))
      ]
    ]

-- Where the next record ends: nowhere for a record with a connection id, which ends the datagram.
pub data Boundary : Type 0 where
  stop incomplete : Boundary
  until : ℕ → Boundary

abbrev be16 : Bytes → ℕ → Option ℕ
be16 bytes i = elim (slice i (i + 2) bytes) [
  | [] ↦ none
  | a ∷ r ↦ elim r [ [] ↦ none | b ∷ _ ↦ some (a * 256 + b) ]
]

abbrev until_length : ℕ → Option ℕ → Boundary
until_length n none = incomplete
until_length n (some len) = until (n + len)

unfoldable pub record_end : Bytes → Boundary
record_end [] = stop
record_end (flags ∷ bytes) =
    let packet = flags ∷ bytes in
    if is_ciphertext_header flags
    then if not (bit_and flags 0x10 == 0)
      then stop
      else if ltb (length packet) 2
      then incomplete
      else if ltb (length packet) (header_len flags)
      then incomplete
      else if l_flag flags
      then until_length (header_len flags) (be16 packet (1 + seq_len flags))
      else until (length packet)
    else if ltb (length packet) plaintext_header_len
    then incomplete
    else until_length plaintext_header_len (be16 packet 11)

abbrev push_record : List IncomingRecord → Option IncomingRecord → Option (List IncomingRecord)
push_record parsed none = some parsed
push_record parsed (some r) =
    if leb record_capacity (length parsed) then none else some (parsed ++ (r ∷ []))

-- The loop over the records of a datagram; each takes a byte at least.
unfoldable pub records_loop : ℕ → BodyParser → Bytes → List IncomingRecord → M (List IncomingRecord)
records_loop fuel parse_body [] parsed e = (e, ok parsed)
records_loop zero parse_body (b ∷ packet) parsed e = (e, err no_end)
records_loop (suc fuel) parse_body (b ∷ packet) parsed e = elim (record_end (b ∷ packet)) [
  | stop ↦ (e, ok parsed)
  | incomplete ↦ (e, err parse_incomplete)
  | until n ↦
      if ltb (length (b ∷ packet)) n
      then (e, err parse_incomplete)
      else (let (e', r) = parse_record parse_body (take n (b ∷ packet)) e in
          let next = records_loop fuel parse_body (drop n (b ∷ packet)) in
          elim r [
            | err x ↦ (e', err x)
            | ok o ↦ elim (push_record parsed o) [
              | none ↦ (e', err too_many_records)
              | some parsed' ↦ next parsed' e'
            ]
          ])
]

unfoldable pub classify_all : List IncomingRecord → M (List IncomingRecord)
classify_all [] e = (e, ok [])
classify_all (r ∷ rs) e =
    let (e1, kept) = classify_record r e in
    elim kept [
      | err x ↦ (e1, err x)
      | ok o ↦
          let (e2, more) = classify_all rs e1 in
          elim more [
            | err x ↦ (e2, err x)
            | ok rs' ↦ (e2, ok (elim o [ none ↦ rs' | some r' ↦ r' ∷ rs' ]))
          ]
    ]

-- `Incoming::parse_packet`: a datagram without a record to keep gives nothing.
unfoldable pub parse_incoming : BodyParser → Bytes → M (Option Incoming)
parse_incoming parse_body packet = do
  parsed ← records_loop (length packet) parse_body packet []
  kept ← classify_all parsed
  λ e. (e, ok (elim kept [ [] ↦ none | r ∷ rs ↦ some (record { first = r; others = rs }) ]))
