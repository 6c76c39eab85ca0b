-- ===== src/Dtls13/Handshake/Defragment.antt =====
-- src/dtls13/message/handshake.rs and src/dtls13/engine.rs: fragments of one message, in any sizes and
-- with any overlaps, are joined to the message, and only to it.
use dimpl.Base.{
  ℕ, suc, ◌+◌, ◌-◌, ◌≤◌, ◌<◌, max, ◌≡◌, refl, sym, ap, ap₂, ◌∙◌, inl, inr, false, some, List, [],
  ◌∷◌, ◌++◌, All, Bytes, length, drop, slice, map, ltb, ◌==◌, if◌then◌else◌, arith, Bool-cases,
  slice-append, drop-slice, length-slice, length-append,
}
use dimpl.Dtls13.Handshake.{MessageType, Header, Handshake, Item, fragment_of, join_loop}
use dimpl.Dtls13.Engine.Scan.{scan_loop, complete}

-- An item carries a part of `whole`, which its header says, as a fragment of the message `seq`.
pub record IsPiece (msg_type : MessageType) (seq : ℕ) (whole : Bytes) (item : Item) : Type 0 where
  pub same_type : item.0.header.msg_type ≡ msg_type
  pub same_seq : item.0.header.message_seq ≡ seq
  pub same_length : item.0.header.length ≡ length whole
  pub inside : item.0.header.fragment_offset + item.0.header.fragment_length ≤ length whole
  pub bytes :
      fragment_of item
      ≡ some (
          slice item.0.header.fragment_offset
            (item.0.header.fragment_offset + item.0.header.fragment_length)
            whole)

-- What follows the pieces begins with another type of message.
abbrev pub Stops : MessageType → List Item → Type 0
Stops msg_type [] = Unit
Stops msg_type (item ∷ items) = (item.0.header.msg_type == msg_type) ≡ false

-- Where the assembled part ends once the items are read.
abbrev pub final_end : ℕ → List Item → ℕ
final_end end [] = end
final_end end ((h, source) ∷ items) =
    final_end (max end (h.header.fragment_offset + h.header.fragment_length)) items

-- No item begins behind what is assembled when it is read.
abbrev pub NoGap : ℕ → List Item → Type 0
NoGap end [] = Unit
NoGap end ((h, source) ∷ items) =
    (h.header.fragment_offset ≤ end)
    × NoGap (max end (h.header.fragment_offset + h.header.fragment_length)) items

module _ (msg_type : MessageType) (seq : ℕ) (whole : Bytes) where
  -- What the loop adds to a buffer that has got to `end`.
  pub record Joins (end : ℕ) (items tail : List Item) : Type 0 where
    pub more : Bytes
    pub result : join_loop msg_type end (items ++ tail) ≡ some (more, length items)
    pub grows : end ≤ final_end end items
    pub within : final_end end items ≤ length whole
    pub tight : NoGap end items → length more ≡ final_end end items - end
    pub at_most : length more ≤ final_end end items - end
    pub exact :
        length more ≡ final_end end items - end → more ≡ slice end (final_end end items) whole

  -- The part of a piece behind `end`.
  abbrev gain : ℕ → Header → Bytes
  gain end h =
      if ltb (end - h.fragment_offset) h.fragment_length
      then drop (end - h.fragment_offset)
          (slice h.fragment_offset (h.fragment_offset + h.fragment_length) whole)
      else []

  abbrev next_end : ℕ → Header → ℕ
  next_end end h = max end (h.fragment_offset + h.fragment_length)

  length-gain :
      (end : ℕ) (h : Header)
      → h.fragment_offset + h.fragment_length ≤ length whole
      → (length (gain end h) ≤ next_end end h - end)
        × (end < h.fragment_offset → length (gain end h) < next_end end h - end)
        × (h.fragment_offset ≤ end → length (gain end h) ≡ next_end end h - end)
  length-gain end h inside =
      let cut =
        drop-slice (end - h.fragment_offset) h.fragment_offset
          (h.fragment_offset + h.fragment_length) whole in
      let size =
        length-slice (h.fragment_offset + (end - h.fragment_offset))
          (h.fragment_offset + h.fragment_length) whole inside in
      (
        ground (arith, ap length cut, size),
        λ k. ground (arith, ap length cut, size),
        λ k. ground (arith, ap length cut, size),
      )

  slice_same : (e : ℕ) → [] ≡ slice e e whole
  slice_same e = rw (self_minus e) refl
    where
      self_minus : (e : ℕ) → e - e ≡ 0
      self_minus e = omega arith

  gain_exact :
      (end : ℕ) (h : Header)
      → h.fragment_offset ≤ end
      → gain end h ≡ slice end (next_end end h) whole
  gain_exact end h low = elim (Bool-cases (ltb (end - h.fragment_offset) h.fragment_length)) [
    | inl t ↦ rw t (
        drop-slice (end - h.fragment_offset) h.fragment_offset
          (h.fragment_offset + h.fragment_length) whole
        ∙ ap₂ (λ a b. slice a b whole) (ground arith) (ground arith))
    | inr t ↦ rw t (slice_same end ∙ ap (λ b. slice end b whole) (ground arith))
  ]

  joins_nil :
      (end : ℕ) (tail : List Item) → end ≤ length whole → Stops msg_type tail → Joins end [] tail
  unfolding join_loop
  joins_nil end [] h stop = record {
    more = [];
    result = refl;
    grows = omega arith;
    within = h;
    at_most = omega arith;
    tight = λ k. omega arith;
    exact = λ k. slice_same end;
  }
  joins_nil end ((a, source) ∷ tail) h stop = record {
    more = [];
    result = rw stop refl;
    grows = omega arith;
    within = h;
    at_most = omega arith;
    tight = λ k. omega arith;
    exact = λ k. slice_same end;
  }

  joins_result :
      (end : ℕ) (h : Handshake) (source : Bytes) (items : List Item) (more : Bytes) (n : ℕ)
      → IsPiece msg_type seq whole (h, source)
      → join_loop msg_type (next_end end h.header) items ≡ some (more, n)
      → join_loop msg_type end ((h, source) ∷ items) ≡ some (gain end h.header ++ more, suc n)
  unfolding join_loop
  joins_result end h source items more n piece rest = ground (
    arith,
    piece.same_type,
    piece.bytes,
    rest,
    assembled end (h.header.fragment_offset + h.header.fragment_length) items,
  )
    where
      assembled :
          (end e : ℕ) (items : List Item)
          → join_loop msg_type (if ltb end e then e else end) items
            ≡ join_loop msg_type (max end e) items
      assembled end e items = ap (λ n. join_loop msg_type n items) (ground arith)

  joins_cons :
      (end : ℕ) (h : Handshake) (source : Bytes) (items tail : List Item)
      → IsPiece msg_type seq whole (h, source)
      → end ≤ length whole
      → Joins (next_end end h.header) items tail
      → Joins end ((h, source) ∷ items) tail
  joins_cons end h source items tail piece inside j =
      let size = length-gain end h.header piece.inside in
      let grows : end ≤ next_end end h.header = omega arith in
      record {
        more = gain end h.header ++ j.more;
        result = joins_result end h source (items ++ tail) j.more (length items) piece j.result;
        grows = omega (arith, j.grows);
        within = j.within;
        tight = λ k.
            omega
              (arith, j.grows, j.tight k.1, size.2 k.0, length-append (gain end h.header) j.more);
        at_most =
            omega (arith, j.at_most, j.grows, size.0, length-append (gain end h.header) j.more);
        exact = λ k.
            let total : length (gain end h.header) + length j.more
                ≡ final_end (next_end end h.header) items - end =
              sym (length-append (gain end h.header) j.more) ∙ k in
            let low : h.header.fragment_offset ≤ end = grind (arith, j.at_most, j.grows, size.1) in
            let rest : length j.more
                ≡ final_end (next_end end h.header) items - next_end end h.header =
              omega (arith, j.at_most, j.grows, size.2 low, total) in
            ap₂ (λ a b. a ++ b) (gain_exact end h.header low) (j.exact rest)
            ∙ slice-append end (next_end end h.header) (final_end (next_end end h.header) items)
                whole grows j.grows;
      }

  pub joins_all :
      (end : ℕ) (items tail : List Item)
      → All (IsPiece msg_type seq whole) items
      → Stops msg_type tail
      → end ≤ length whole
      → Joins end items tail
  joins_all end [] tail ps stop inside = joins_nil end tail inside stop
  joins_all end ((h, source) ∷ items) tail (p, ps) stop inside =
      joins_cons end h source items tail p inside
        (joins_all (next_end end h.header) items tail ps stop (omega (arith, p.inside)))

  -- Behind the whole message there is nothing to add.
  at_whole :
      (items : List Item)
      → All (IsPiece msg_type seq whole) items
      → NoGap (length whole) items × (final_end (length whole) items ≡ length whole)
  at_whole [] ps = (tt, refl)
  at_whole ((h, source) ∷ items) (p, ps) =
      let same : max (length whole) (h.header.fragment_offset + h.header.fragment_length)
          ≡ length whole =
        omega (arith, p.inside) in
      rw same ((omega (arith, p.inside), (at_whole items ps).0), (at_whole items ps).1)

  -- A scan that ends with the whole message has met no gap.
  pub scan_complete :
      (end : ℕ) (items : List Item)
      → All (IsPiece msg_type seq whole) items
      → scan_loop seq (length whole) end (map (λ item. item.0) items) ≡ complete
      → NoGap end items × (final_end end items ≡ length whole)
  unfolding scan_loop
  scan_complete end [] ps s = ground (arith, s)
  scan_complete end ((h, source) ∷ items) (p, ps) s =
      let e = h.header.fragment_offset + h.header.fragment_length in
      elim (Bool-cases (max end e == length whole)) [
        | inl t ↦
            let same : max end e ≡ length whole = ground (arith, t) in
            let low : h.header.fragment_offset ≤ end = ground (arith, s, p.same_seq) in
            rw same ((low, (at_whole items ps).0), (at_whole items ps).1)
        | inr t ↦
            let low : h.header.fragment_offset ≤ end = ground (arith, s, p.same_seq) in
            let later : scan_loop seq (length whole) (max end e) (map (λ item. item.0) items)
                ≡ complete =
              ground (arith, s, t, p.same_seq, assembled end e items) in
            let ih = scan_complete (max end e) items ps later in ((low, ih.0), ih.1)
      ]
    where
      assembled :
          (end e : ℕ) (items : List Item)
          → scan_loop seq (length whole) (if ltb end e then e else end) (map (λ item. item.0) items)
            ≡ scan_loop seq (length whole) (max end e) (map (λ item. item.0) items)
      assembled end e items =
          ap (λ n. scan_loop seq (length whole) n (map (λ item. item.0) items)) (ground arith)
