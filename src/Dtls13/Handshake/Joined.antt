-- ===== src/Dtls13/Handshake/Joined.antt =====
-- src/dtls13/message/handshake.rs: what `defragment` gives for the fragments of one message.
use dimpl.Base.{
  ℕ, suc, ◌+◌, ◌-◌, max, subst, ◌≡◌, refl, sym, ap, ap₂, ◌∙◌, ◌⊎◌, inl, inr, Bool, true, List, [],
  ◌∷◌, ◌++◌, All, Bytes, length, slice, map, ◌==◌, if◌then◌else◌, arith, Bool-cases, slice-append,
  length-slice, length-append, slice-length, take-length,
}
use dimpl.Wire.{u24_bytes}
use dimpl.Dtls13.Handshake.{
  MessageType, Handshake, Item, BodyParser, Defragmented, Outcome, parse_incomplete, defragment,
  finish, stopped, transcript_bytes, join_loop,
}
use dimpl.Dtls13.Handshake.Defragment.{
  IsPiece, Stops, Joins, NoGap, final_end, joins_all, scan_complete,
}
use dimpl.Dtls13.Engine.Scan.{scan_loop, complete}

-- `n` items are marked, and the message is not there yet, or it is there exactly.
abbrev pub Exactly : MessageType → Bytes → ℕ → Bool → Outcome → Defragmented → Type 0
Exactly msg_type whole n with_transcript parsed d =
    (d.marked ≡ n)
    × (((d.outcome ≡ parse_incomplete) × (d.written ≡ []))
        ⊎ ((d.buffer ≡ whole)
            × (d.written
                ≡ (if with_transcript then msg_type ∷ (u24_bytes (length whole) ++ whole) else []))
            × (d.outcome ≡ parsed)))

module _ (msg_type : MessageType) (seq : ℕ) (whole : Bytes) (h : Handshake) (source : Bytes)
    (items tail : List Item) (p : IsPiece msg_type seq whole (h, source))
    (ps : All (IsPiece msg_type seq whole) items) (stop : Stops msg_type tail) where
  abbrev start : ℕ
  start = h.header.fragment_offset

  abbrev end : ℕ
  end = h.header.fragment_offset + h.header.fragment_length

  joins : Joins msg_type seq whole end items tail
  joins = joins_all msg_type seq whole end items tail ps stop p.inside

  abbrev buffer : Bytes
  buffer = slice start end whole ++ joins.more

  length-buffer : length buffer ≡ (end - start) + length joins.more
  length-buffer =
      length-append (slice start end whole) joins.more
      ∙ ap (λ n. n + length joins.more) (length-slice start end whole p.inside)

  buffer_exact :
      start ≡ 0
      → length joins.more ≡ final_end end items - end
      → final_end end items ≡ length whole
      → buffer ≡ whole
  buffer_exact first exact all =
      ap (λ t. slice start end whole ++ t) (joins.exact exact)
      ∙ slice-append start end (final_end end items) whole (omega arith) joins.grows
      ∙ ap₂ (λ a b. slice a b whole) first all
      ∙ slice-length whole

  buffer-full : length buffer ≡ length whole → buffer ≡ whole
  buffer-full full =
      let total : (end - start) + length joins.more ≡ length whole = sym length-buffer ∙ full in
      let first : start ≡ 0 =
        omega (arith, total, joins.at_most, joins.within, joins.grows, p.inside) in
      buffer_exact first (omega (arith, total, first, joins.at_most, joins.within, joins.grows))
        (omega (arith, total, first, joins.at_most, joins.within, joins.grows))

  buffer-complete :
      scan_loop seq (length whole) 0 (map (λ item. item.0) ((h, source) ∷ items)) ≡ complete
      → buffer ≡ whole
  buffer-complete s =
      let scanned = scan_complete msg_type seq whole 0 ((h, source) ∷ items) (p, ps) s in
      let same : max 0 end ≡ end = omega arith in
      let no_gap : NoGap end items = subst (λ n. NoGap n items) same scanned.0.1 in
      let all : final_end end items ≡ length whole =
        ap (λ n. final_end n items) (sym same) ∙ scanned.1 in
      buffer_exact (omega (arith, scanned.0.0)) (joins.tight no_gap) all

  -- The first piece and the loop put together.
  defragment_eq :
      (parse_body : BodyParser) (with_transcript : Bool)
      → defragment parse_body with_transcript (h, source) (items ++ tail) ≡ (
          if length buffer == length whole
          then record {
            outcome = finish parse_body h.header buffer;
            buffer = buffer;
            written =
                if with_transcript then transcript_bytes msg_type (length whole) buffer else [];
            marked = suc (length items);
          }
          else stopped parse_incomplete buffer (suc (length items)))
  unfolding defragment
  defragment_eq parse_body with_transcript = ground (
    arith,
    p.bytes,
    p.same_type,
    p.same_length,
    joins.result,
    ap (λ t. join_loop t end (items ++ tail)) p.same_type,
  )

  -- Let every fragment up to `tail` be a part of the one message `whole`, with that message's type,
  -- number and length, in any order and with any overlap, and let what follows begin with another
  -- type. Then exactly those fragments are marked as handled, and either nothing is joined and nothing
  -- written to the transcript, or the buffer is the message, byte for byte, the transcript gets its
  -- type, its length and its bytes, if it gets any, and the outcome is that of parsing it.
  pub defragment_exact :
      (parse_body : BodyParser) (with_transcript : Bool)
      → Exactly msg_type whole
          (suc (length items))
          with_transcript
          (finish parse_body h.header whole)
          (defragment parse_body with_transcript (h, source) (items ++ tail))
  unfolding stopped
  defragment_exact parse_body with_transcript =
      let eq = defragment_eq parse_body with_transcript in
      elim (Bool-cases (length buffer == length whole)) [
        | inl full ↦
            let same : buffer ≡ whole = buffer-full (ground (arith, full)) in
            (
              rw (eq, full) refl,
              inr (
                rw (eq, full) same,
                rw (eq, full, same, take-length whole) refl,
                rw (eq, full, same) refl,
              ),
            )
        | inr short ↦ (rw (eq, short) refl, inl (rw (eq, short) refl, rw (eq, short) refl))
      ]

  -- If, moreover, the engine's scan over these fragments finds the message complete, then it is joined:
  -- the buffer is the message, and the outcome is that of parsing it.
  pub defragment_complete :
      (parse_body : BodyParser) (with_transcript : Bool)
      → scan_loop seq (length whole) 0 (map (λ item. item.0) ((h, source) ∷ items)) ≡ complete
      → ((defragment parse_body with_transcript (h, source) (items ++ tail)).buffer ≡ whole)
        × ((defragment parse_body with_transcript (h, source) (items ++ tail)).outcome
            ≡ finish parse_body h.header whole)
  defragment_complete parse_body with_transcript s =
      let eq = defragment_eq parse_body with_transcript in
      let same : buffer ≡ whole = buffer-complete s in
      let full : (length buffer == length whole) ≡ true = ground (arith, ap length same) in
      (rw (eq, full) same, rw (eq, full, same) refl)
