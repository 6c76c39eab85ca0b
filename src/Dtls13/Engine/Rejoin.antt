-- ===== src/Dtls13/Engine/Rejoin.antt =====
-- src/dtls13/engine.rs and src/dtls13/message/handshake.rs: the receiver joins the fragments that
-- the sender made.
use dimpl.Base.{
  ℕ, ◌+◌, ◌≤◌, ◌<◌, ◌≡◌, refl, sym, ap, subst, ◌∙◌, inl, inr, Bool, true, false, some, List, [],
  ◌∷◌, ◌++◌, ok, err, Bytes, length, map, is_empty, arith, All, Bool-cases, ltb, ◌==◌,
  if◌then◌else◌, append-nil,
}
use dimpl.Wire.{IResult}
use dimpl.Dtls13.Handshake.{MessageType, Handshake, Item, BodyParser, parse, defragment, finish}
use dimpl.Dtls13.Handshake.Defragment.{IsPiece}
use dimpl.Dtls13.Handshake.Joined.{defragment_complete}
use dimpl.Dtls13.Engine.{Engine, Entry}
use dimpl.Dtls13.Engine.Scan.{scan_loop, complete}
use dimpl.Dtls13.Engine.Fragment.{
  fragment_wire, fixed_overhead, protection_overhead, epoch_for_message, create_handshake,
}
use dimpl.Dtls13.Engine.Cover.{Covers, create_handshake-Covers}
use dimpl.Dtls13.Engine.Pieces.{
  Sendable, handshake_of, piece_of, parse-fragment_wire, piece_of-IsPiece,
}

-- What a receiver reads from the contents of records; what does not parse is left out.
abbrev pub read_item : Bytes → IResult Handshake → List Item → List Item
read_item bytes (err x) items = items
read_item bytes (ok (rest, h)) items = (h, bytes) ∷ items

abbrev pub received : BodyParser → List Entry → List Item
received parse_body [] = []
received parse_body (entry ∷ entries) =
    read_item entry.fragment (parse parse_body entry.fragment 0 true) (received parse_body entries)

-- The message that an outcome of joining must have.
abbrev pub Joined : BodyParser → Bool → Bytes → Item → List Item → Type 0
Joined parse_body with_transcript body first items =
    ((defragment parse_body with_transcript first items).buffer ≡ body)
    × ((defragment parse_body with_transcript first items).outcome
        ≡ finish parse_body first.0.header body)

-- Items that are the fragments of the one message, and join to it.
abbrev pub Rejoined : MessageType → ℕ → Bytes → BodyParser → Bool → List Item → Type 0
Rejoined msg_type seq body parse_body with_transcript all =
    (first : Item) × (items : List Item) × (all ≡ first ∷ items)
    × (first.0.header.msg_type ≡ msg_type)
    × (first.0.header.message_seq ≡ seq)
    × (first.0.header.length ≡ length body)
    × Joined parse_body with_transcript body first items

module _ (msg_type seq : ℕ) (body : Bytes) where
  -- The scan goes from the start of a piece to its end, and on if there is more.
  scan_piece :
      (offset chunk : ℕ) (hs : List Handshake)
      → offset + chunk ≤ length body
      → (offset + chunk < length body → scan_loop seq (length body) (offset + chunk) hs ≡ complete)
      → scan_loop seq (length body) offset (handshake_of msg_type seq body offset chunk ∷ hs)
        ≡ complete
  unfolding scan_loop
  scan_piece offset chunk hs h more = elim (Bool-cases (offset + chunk == length body)) [
    | inl t ↦ ground (arith, t)
    | inr t ↦ ground (arith, t, more, further)
  ]
    where
      further :
          scan_loop seq
            (length body)
            (if ltb offset (offset + chunk) then offset + chunk else offset)
            hs
          ≡ scan_loop seq (length body) (offset + chunk) hs
      further = ap (λ n. scan_loop seq (length body) n hs) (ground arith)

  module _ (epoch : ℕ) (parse_body : BodyParser) (s : Sendable msg_type seq body) where
    received_cons :
        (offset chunk : ℕ) (entry : Entry) (entries : List Entry)
        → entry.fragment ≡ fragment_wire msg_type seq body offset chunk
        → offset + chunk ≤ length body
        → received parse_body (entry ∷ entries)
          ≡ piece_of msg_type seq body offset chunk ∷ received parse_body entries
    received_cons offset chunk entry entries same h =
        ap (λ b. read_item b (parse parse_body b 0 true) (received parse_body entries)) same
        ∙ ap
            (λ r.
              read_item (fragment_wire msg_type seq body offset chunk) r
                (received parse_body entries))
            (parse-fragment_wire msg_type seq body parse_body offset chunk s h)

    received-IsPiece :
        (offset : ℕ) (entries : List Entry)
        → Covers msg_type seq epoch body offset entries
        → All (IsPiece msg_type seq body) (received parse_body entries)
    received-IsPiece offset [] c = tt
    received-IsPiece offset (entry ∷ entries) c =
        subst (All (IsPiece msg_type seq body))
          (sym (received_cons offset c.0 entry entries c.1 c.4))
          (
            piece_of-IsPiece msg_type seq body offset c.0 c.4,
            received-IsPiece (offset + c.0) entries c.6,
          )

    more_entries :
        (offset : ℕ) (entries : List Entry)
        → Covers msg_type seq epoch body offset entries
        → offset < length body
        → is_empty entries ≡ false
    more_entries offset [] c h = absurd (omega (arith, c))
    more_entries offset (entry ∷ entries) c h = refl

    scan-received :
        (offset : ℕ) (entries : List Entry)
        → Covers msg_type seq epoch body offset entries
        → is_empty entries ≡ false
        → scan_loop seq (length body) offset (map (λ item. item.0) (received parse_body entries))
          ≡ complete
    scan-received offset [] c some_entry = ground (arith, some_entry)
    scan-received offset (entry ∷ entries) c some_entry =
        subst (λ items. scan_loop seq (length body) offset (map (λ item. item.0) items) ≡ complete)
          (sym (received_cons offset c.0 entry entries c.1 c.4))
          (scan_piece offset c.0 (map (λ item. item.0) (received parse_body entries)) c.4 (λ more.
            scan-received (offset + c.0) entries c.6
              (more_entries (offset + c.0) entries c.6 more)))

    -- Records that cover the body from its start are read as a first piece and others, which join.
    joined_again :
        (with_transcript : Bool) (entries : List Entry)
        → Covers msg_type seq epoch body 0 entries
        → is_empty entries ≡ false
        → Rejoined msg_type seq body parse_body with_transcript (received parse_body entries)
    joined_again with_transcript [] c some_entry = ground (arith, some_entry)
    joined_again with_transcript (entry ∷ entries) c some_entry =
        let eq = received_cons 0 c.0 entry entries c.1 c.4 in
        let items = received parse_body entries in
        let done =
          defragment_complete msg_type seq body (handshake_of msg_type seq body 0 c.0)
            (fragment_wire msg_type seq body 0 c.0) items []
            (piece_of-IsPiece msg_type seq body 0 c.0 c.4) (received-IsPiece (0 + c.0) entries c.6)
            tt parse_body with_transcript
            (subst (λ q. scan_loop seq (length body) 0 (map (λ item. item.0) q) ≡ complete) eq
              (scan-received 0 (entry ∷ entries) c refl)) in
        (
          piece_of msg_type seq body 0 c.0,
          items,
          eq,
          refl,
          refl,
          refl,
          subst (λ q. Joined parse_body with_transcript body (piece_of msg_type seq body 0 c.0) q)
              (append-nil items) done,
        )

-- A message that `create_handshake` sent on an empty flight, with room for a byte of its body in a
-- datagram and sizes that the wire format can express, is read from the saved records as a first
-- fragment and others, which `defragment` joins: the buffer is the body, and the outcome is that of
-- parsing it under a header of the message's type, number and length.
pub create_handshake-defragment :
    (parse_body : BodyParser) (with_transcript : Bool) (msg_type : MessageType) (body : Bytes)
    (e : Engine) (protection : ℕ)
    → protection_overhead e (epoch_for_message msg_type) ≡ some protection
    → fixed_overhead (epoch_for_message msg_type) protection < e.config.mtu
    → Sendable msg_type e.next_handshake_seq_no body
    → e.flight_saved_records ≡ []
    → (create_handshake msg_type body e).1 ≡ ok tt
    → Rejoined msg_type e.next_handshake_seq_no body parse_body with_transcript
        (received parse_body (create_handshake msg_type body e).0.flight_saved_records)
create_handshake-defragment parse_body with_transcript msg_type body e protection known room s fresh
      sent =
    let covered = (create_handshake-Covers msg_type body e protection known room).1 sent in
    subst
      (λ q.
        Rejoined msg_type e.next_handshake_seq_no body parse_body with_transcript
          (received parse_body q))
      (sym (covered.1 ∙ ap (λ q. q ++ covered.0) fresh))
      (joined_again msg_type e.next_handshake_seq_no body (epoch_for_message msg_type) parse_body s
        with_transcript covered.0 covered.2 covered.3)
