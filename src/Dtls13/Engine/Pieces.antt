-- ===== src/Dtls13/Engine/Pieces.antt =====
-- src/dtls13/engine.rs and src/dtls13/message/handshake.rs: a fragment that the sender made, as the
-- receiver parses it.
use dimpl.Base.{
  ℕ, ◌+◌, ◌-◌, ◌^◌, ◌≤◌, ◌<◌, ◌≡◌, refl, sym, ap, ap₂, subst, ◌∙◌, inl, inr, true, false, some, [],
  ◌++◌, ok, Bytes, length, take, drop, slice, arith, Bool-cases, ◌==◌, append-nil, length-append,
  length-slice, drop-length-append, take-length,
}
use dimpl.Wire.{IResult, take_bytes}
use dimpl.Dtls13.Handshake.{
  Header, Handshake, fragment, Item, BodyParser, parse, serialize, serialize_header, fragment_of,
}
use dimpl.Dtls13.Handshake.RoundTrip.{Fits, parse_header-serialize_header}
use dimpl.Dtls13.Handshake.Defragment.{IsPiece}
use dimpl.Dtls13.Engine.Fragment.{fragment_wire, fragment_header}
use dimpl.Wire.Numbers.{take_bytes-append}

module _ (msg_type seq : ℕ) (body : Bytes) where
  -- A message that the wire format can express.
  pub record Sendable : Type 0 where
    pub small_type : msg_type < 2 ^ 8
    pub small_seq : seq < 2 ^ 16
    pub small_body : length body < 2 ^ 24

  -- The fragment of `chunk` bytes at `offset`, as the receiver has it.
  abbrev pub handshake_of : ℕ → ℕ → Handshake
  handshake_of offset chunk = record {
    header = fragment_header msg_type (length body) seq offset chunk;
    body = fragment 12 (12 + chunk);
    handled = false;
  }

  abbrev pub piece_bytes : ℕ → ℕ → Bytes
  piece_bytes offset chunk = slice offset (offset + chunk) body

  abbrev pub header_bytes : ℕ → ℕ → Bytes
  header_bytes offset chunk =
      serialize_header (fragment_header msg_type (length body) seq offset chunk)

  fragment_wire_eq :
      (offset chunk : ℕ)
      → fragment_wire msg_type seq body offset chunk
        ≡ header_bytes offset chunk ++ piece_bytes offset chunk
  unfolding fragment_wire serialize
  fragment_wire_eq offset chunk = elim (Bool-cases (chunk == 0)) [
    | inl t ↦
        let empty : 0 ≡ offset + chunk - offset = ground (arith, t) in
        rw t (ap (λ n. header_bytes offset chunk ++ take n (drop offset body)) empty)
    | inr t ↦ rw t refl
  ]

  length-header_bytes : (offset chunk : ℕ) → length (header_bytes offset chunk) ≡ 12
  unfolding serialize_header
  length-header_bytes offset chunk = refl

  header-Fits :
      Sendable
      → (offset chunk : ℕ) → offset + chunk ≤ length body
      → Fits (fragment_header msg_type (length body) seq offset chunk)
  header-Fits s offset chunk h = record {
    msg_type = s.small_type;
    len = s.small_body;
    message_seq = s.small_seq;
    offset = omega (arith, s.small_body);
    fragment_len = omega (arith, s.small_body);
  }

  length-piece_bytes :
      (offset chunk : ℕ) → offset + chunk ≤ length body → length (piece_bytes offset chunk) ≡ chunk
  length-piece_bytes offset chunk h = omega (arith, length-slice offset (offset + chunk) body h)

  take-piece_bytes :
      (offset chunk : ℕ)
      → offset + chunk ≤ length body
      → take_bytes chunk (piece_bytes offset chunk) ≡ ok ([], piece_bytes offset chunk)
  take-piece_bytes offset chunk h =
      let piece = piece_bytes offset chunk in
      subst (λ xs. take_bytes chunk xs ≡ ok ([], piece)) (append-nil piece)
        (subst (λ n. take_bytes n (piece ++ []) ≡ ok ([], piece))
          (length-piece_bytes offset chunk h) (take_bytes-append piece []))

  abbrev parsed : Header → ℕ → ℕ → IResult Handshake
  parsed header a n =
      ok ([], record { header = header; body = fragment a (a + n); handled = false })

  pub parse-fragment_wire :
      (parse_body : BodyParser) (offset chunk : ℕ)
      → Sendable
      → offset + chunk ≤ length body
      → parse parse_body (fragment_wire msg_type seq body offset chunk) 0 true
        ≡ ok ([], handshake_of offset chunk)
  unfolding parse
  parse-fragment_wire parse_body offset chunk s h =
      let piece = piece_bytes offset chunk in
      let header = fragment_header msg_type (length body) seq offset chunk in
      let start : 0 + (length (header_bytes offset chunk ++ piece) - length piece) ≡ 12 = omega (
        arith,
        length-append (header_bytes offset chunk) piece,
        length-header_bytes offset chunk,
      ) in
      rw
        (
          fragment_wire_eq offset chunk,
          parse_header-serialize_header header piece (header-Fits s offset chunk h),
          take-piece_bytes offset chunk h,
        )
        (ap₂ (λ a n. parsed header a n) start (length-piece_bytes offset chunk h))

  abbrev pub piece_of : ℕ → ℕ → Item
  piece_of offset chunk = (handshake_of offset chunk, fragment_wire msg_type seq body offset chunk)

  fragment_of-piece :
      (offset chunk : ℕ)
      → offset + chunk ≤ length body
      → fragment_of (piece_of offset chunk) ≡ some (piece_bytes offset chunk)
  fragment_of-piece offset chunk h =
      let hb = header_bytes offset chunk in
      let piece = piece_bytes offset chunk in
      let behind : drop 12 (hb ++ piece) ≡ piece =
        ap (λ n. drop n (hb ++ piece)) (sym (length-header_bytes offset chunk))
        ∙ drop-length-append hb piece in
      let same : 12 + chunk - 12 ≡ length piece =
        omega (arith, length-piece_bytes offset chunk h) in
      ap some (
        ap (slice 12 (12 + chunk)) (fragment_wire_eq offset chunk)
        ∙ ap₂ take same behind
        ∙ take-length piece)

  pub piece_of-IsPiece :
      (offset chunk : ℕ)
      → offset + chunk ≤ length body
      → IsPiece msg_type seq body (piece_of offset chunk)
  piece_of-IsPiece offset chunk h = record {
    same_type = refl;
    same_seq = refl;
    same_length = refl;
    inside = h;
    bytes = fragment_of-piece offset chunk h;
  }
