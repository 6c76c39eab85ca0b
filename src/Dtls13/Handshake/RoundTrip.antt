-- ===== src/Dtls13/Handshake/RoundTrip.antt =====
-- src/dtls13/message/handshake.rs: a fragment is read back as it was written.
use dimpl.Base.{◌^◌, ◌<◌, ◌≡◌, ◌++◌, ok, Bytes, arith}
use dimpl.Wire.{be_u8, be_u16, be_u24}
use dimpl.Dtls13.Handshake.{Header, parse_header, parse_message_type, serialize_header}

-- The fields of a header fit in the bytes that they have on the wire.
pub record Fits (h : Header) : Type 0 where
  pub msg_type : h.msg_type < 2 ^ 8
  pub len : h.length < 2 ^ 24
  pub message_seq : h.message_seq < 2 ^ 16
  pub offset : h.fragment_offset < 2 ^ 24
  pub fragment_len : h.fragment_length < 2 ^ 24

-- A header whose fields fit is read back from its 12 bytes, and what follows it is left.
pub parse_header-serialize_header :
    (h : Header) (rest : Bytes) → Fits h → parse_header (serialize_header h ++ rest) ≡ ok (rest, h)
unfolding parse_header serialize_header parse_message_type be_u8 be_u24 be_u16
parse_header-serialize_header h rest f =
    ground (arith, f.len, f.message_seq, f.offset, f.fragment_len)
