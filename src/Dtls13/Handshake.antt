-- ===== src/Dtls13/Handshake.antt =====
-- src/dtls13/message/handshake.rs: handshake messages, their fragments, and how fragments are joined.
pub mod Defragment
pub mod RoundTrip
pub mod Joined
use dimpl.Base.{
  ℕ, zero, suc, ◌+◌, ◌-◌, ◌%◌, Bool, true, false, not, ◌&&◌, ◌||◌, Option, none, some, List, [],
  ◌∷◌, ◌++◌, ltb, leb, ◌==◌, if◌then◌else◌, Result, ok, err, ◌>>=◌, ◌>>◌, fail_if, Bytes, length,
  slice, is_empty, take, drop,
}
use dimpl.Wire.{
  IResult, Err, failure, length_value, be_u8, be_u16, be_u24, take_bytes, u16_bytes, u24_bytes,
}

-- `MessageType` wraps its number, known or not.
abbrev pub MessageType : Type 0
MessageType = ℕ

abbrev pub client_hello : MessageType
client_hello = 1

abbrev pub server_hello : MessageType
server_hello = 2

abbrev pub finished : MessageType
finished = 20

abbrev pub key_update : MessageType
key_update = 24

unfoldable pub parse_message_type : Bytes → IResult MessageType
parse_message_type input = do (input, byte) ← be_u8 input; ok (input, byte)

pub record Header : Type 0 where
  pub msg_type : MessageType
  pub length : ℕ
  pub message_seq : ℕ
  pub fragment_offset : ℕ
  pub fragment_length : ℕ

-- `Fragment` is a range of the buffer; the other bodies are what the parser of their message gives,
-- here the bytes that it was given.
pub data Body : Type 0 where
  fragment : ℕ → ℕ → Body
  message : MessageType → Bytes → Body

pub record Handshake : Type 0 where
  pub header : Header
  pub body : Body
  pub handled : Bool

unfoldable pub parse_header : Bytes → IResult Header
parse_header input = do
  (input, msg_type) ← parse_message_type input
  (input, len) ← be_u24 input
  (input, message_seq) ← be_u16 input
  (input, fragment_offset) ← be_u24 input
  (input, fragment_length) ← be_u24 input
  ok (
    input,
    record {
      msg_type = msg_type;
      length = len;
      message_seq = message_seq;
      fragment_offset = fragment_offset;
      fragment_length = fragment_length;
    },
  )

-- The bytes that `serialize` appends for a header and for the range of a fragment; the bodies of
-- whole messages have serializers of their own.
unfoldable pub serialize_header : Header → Bytes
serialize_header h =
    h.msg_type
    ∷ (u24_bytes h.length
        ++ (u16_bytes h.message_seq
            ++ (u24_bytes h.fragment_offset ++ u24_bytes h.fragment_length)))

abbrev pub body_bytes : Body → Bytes → Bytes
body_bytes (fragment start end) source = slice start end source
body_bytes (message msg_type contents) source = contents

unfoldable pub serialize : Handshake → Bytes → Bytes
serialize h source = serialize_header h.header ++ body_bytes h.body source

-- The parser of bodies is `Body::parse` with a cipher suite: type, contents and base offset.
abbrev pub BodyParser : Type 0
BodyParser = MessageType → Bytes → ℕ → IResult Body

unfoldable pub parse : BodyParser → Bytes → ℕ → Bool → IResult Handshake
parse parse_body original_input base_offset as_fragment = do
  (input, header) ← parse_header original_input
  let is_fragment = ltb 0 header.fragment_offset || ltb header.fragment_length header.length
  fail_if (not as_fragment && is_fragment) (failure length_value)
  let start = base_offset + (length original_input - length input)
  (input, body) ←
      (if as_fragment
        then (do
          (rest, piece) ← take_bytes header.fragment_length input
          ok (rest, fragment start (start + length piece)))
        else (do
          (rest, contents) ← take_bytes header.length input
          (left, body) ← parse_body header.msg_type contents start
          ok (rest, body)))
  ok (input, record { header = header; body = body; handled = false })

-- A fragment as `defragment` meets it: the handshake and the buffer that its range points into.
abbrev pub Item : Type 0
Item = Handshake × Bytes

-- `unreachable!` for a body that is no fragment is `none`.
abbrev pub fragment_of : Item → Option Bytes
fragment_of (h, source) = elim h.body [
  | fragment start end ↦ some (slice start end source)
  | message t b ↦ none
]

-- The loop of `defragment_with_options` over the items after the first: what `buffer` gains and how
-- many items it marks as handled.
unfoldable pub join_loop : MessageType → ℕ → List Item → Option (Bytes × ℕ)
join_loop msg_type assembled_end [] = some ([], 0)
join_loop msg_type assembled_end ((h, source) ∷ items) =
    let end = h.header.fragment_offset + h.header.fragment_length in
    let rest = join_loop msg_type (if ltb assembled_end end then end else assembled_end) items in
    if not (h.header.msg_type == msg_type) then some ([], 0) else elim (fragment_of (h, source)) [
      | none ↦ none
      | some piece ↦
          let skip = assembled_end - h.header.fragment_offset in
          let gain = if ltb skip h.header.fragment_length then drop skip piece else [] in
          elim rest [ none ↦ none | some (bytes, marked) ↦ some (gain ++ bytes, suc marked) ]
    ]

-- What the whole function does to the transcript, what it returns, and how many items of the
-- iterator it marks as handled. The first item is there, as the caller ensures.
pub data Outcome : Type 0 where
  joined : Handshake → Outcome
  parse_incomplete : Outcome
  parse_failed : Err → Outcome
  panicked : Outcome

pub record Defragmented : Type 0 where
  pub outcome : Outcome
  pub buffer : Bytes
  pub written : Bytes
  pub marked : ℕ

-- The TLS 1.3 transcript has the type and the length of a message, and no DTLS framing.
abbrev pub transcript_bytes : MessageType → ℕ → Bytes → Bytes
transcript_bytes msg_type len contents = msg_type ∷ (u24_bytes len ++ take len contents)

unfoldable pub finish : BodyParser → Header → Bytes → Outcome
finish parse_body first buffer = elim (parse_body first.msg_type buffer 0) [
  | err e ↦ parse_failed e
  | ok (rest, body) ↦
      if not (is_empty rest) && first.msg_type == finished
      then parse_incomplete
      else joined (record {
        header = record first { fragment_offset = 0; fragment_length = first.length };
        body = body;
        handled = false;
      })
]

unfoldable pub stopped : Outcome → Bytes → ℕ → Defragmented
stopped o buffer marked = record { outcome = o; buffer = buffer; written = []; marked = marked }

unfoldable pub defragment : BodyParser → Bool → Item → List Item → Defragmented
defragment parse_body with_transcript (first, source) items = elim (fragment_of (first, source)) [
  | none ↦ stopped panicked [] 0
  | some piece ↦
      elim (join_loop first.header.msg_type
        (first.header.fragment_offset + first.header.fragment_length) items) [
          | none ↦ stopped panicked piece 1
          | some (more, marked) ↦
              let buffer = piece ++ more in
              if not (length buffer == first.header.length)
              then stopped parse_incomplete buffer (suc marked)
              else record {
                outcome = finish parse_body first.header buffer;
                buffer = buffer;
                written =
                    if with_transcript
                    then transcript_bytes first.header.msg_type first.header.length buffer
                    else [];
                marked = suc marked;
              }
        ]
]

-- A duplicate of the first fragment of a ClientHello triggers a resend.
unfoldable pub dupe_triggers_resend : Handshake → Option ℕ
dupe_triggers_resend h =
    if not (h.header.fragment_offset == 0)
    then none
    else if h.header.msg_type == client_hello
    then some h.header.message_seq
    else none
