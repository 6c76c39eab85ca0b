-- ===== src/Dtls13/Message/Placed.antt =====
-- src/dtls13/message/extension.rs: extensions that are written are found again, their data in place.
use dimpl.Base.{
  ℕ, zero, suc, ◌+◌, ◌-◌, ◌^◌, ◌≤◌, ◌<◌, ◌≡◌, refl, ap, sym, ◌∙◌, true, false, List, [], ◌∷◌, ◌++◌,
  ok, Bytes, length, slice, contains, map, arith, length-append, append_assoc, append-nil, subst,
  ap₂, take, drop, drop-drop, drop-length-append, take-length-append, ◌/◌, ◌%◌,
}
use dimpl.Wire.{u16_bytes}
use dimpl.Wire.Numbers.{be_u16-u16_bytes, take_bytes-append}
use dimpl.Dtls13.Message.{ExtensionType, supported_extensions}
use dimpl.Dtls13.Message.Extension.{
  Extension, parse, extension_data, serialize, serialize_all, total_len, types, accept,
  extensions_loop, parse_extensions,
}

-- The extension as it is read at an offset: its data stands behind four bytes.
abbrev pub placed : ℕ → Extension → Bytes → Extension
placed offset ext buf = record {
  extension_type = ext.extension_type;
  start = offset + 4;
  end = offset + 4 + length (extension_data ext buf);
}

abbrev pub placed_all : ℕ → List Extension → Bytes → List Extension
placed_all offset [] buf = []
placed_all offset (ext ∷ exts) buf =
    placed offset ext buf ∷ placed_all (offset + (4 + length (extension_data ext buf))) exts buf

abbrev pub FitsWire : Extension → Bytes → Type 0
FitsWire ext buf = (ext.extension_type < 2 ^ 16) × (length (extension_data ext buf) < 2 ^ 16)

parse_data :
    (t : ℕ) (d rest : Bytes) (offset : ℕ)
    → t < 2 ^ 16
    → length d < 2 ^ 16
    → parse (u16_bytes t ++ (u16_bytes (length d) ++ (d ++ rest))) offset
      ≡ ok (rest, record { extension_type = t; start = offset + 4; end = offset + 4 + length d })
unfolding parse
parse_data t [] rest offset ht hd =
    ground (arith, be_u16-u16_bytes t (u16_bytes 0 ++ rest) ht, be_u16-u16_bytes 0 rest hd)
parse_data t (x ∷ d) rest offset ht hd = ground (
  arith,
  be_u16-u16_bytes t (u16_bytes (length (x ∷ d)) ++ (x ∷ d ++ rest)) ht,
  be_u16-u16_bytes (length (x ∷ d)) (x ∷ d ++ rest) hd,
  take_bytes-append (x ∷ d) rest,
)

serialize-rest :
    (ext : Extension) (buf rest : Bytes)
    → serialize ext buf ++ rest
      ≡ u16_bytes ext.extension_type
        ++ (u16_bytes (length (extension_data ext buf)) ++ (extension_data ext buf ++ rest))
unfolding serialize
serialize-rest ext buf rest = refl

-- What follows an extension stays, and the data is found behind its type and length.
pub parse-serialize :
    (ext : Extension) (buf rest : Bytes) (offset : ℕ)
    → FitsWire ext buf
    → parse (serialize ext buf ++ rest) offset ≡ ok (rest, placed offset ext buf)
parse-serialize ext buf rest offset (ht, hd) =
    rw (serialize-rest ext buf rest)
      (parse_data ext.extension_type (extension_data ext buf) rest offset ht hd)

-- Types that are supported, differ from each other and from those seen before.
abbrev pub Fresh : List ExtensionType → List Extension → Type 0
Fresh seen [] = Unit {0}
Fresh seen (ext ∷ exts) =
    (contains supported_extensions ext.extension_type ≡ true)
    × (contains seen ext.extension_type ≡ false)
    × Fresh (seen ++ (ext.extension_type ∷ [])) exts

abbrev pub AllFit : List Extension → Bytes → Type 0
AllFit [] buf = Unit {0}
AllFit (ext ∷ exts) buf = FitsWire ext buf × AllFit exts buf

accept_fresh :
    (capacity : ℕ) (ext : Extension) (acc : List Extension)
    → contains supported_extensions ext.extension_type ≡ true
    → contains (types acc) ext.extension_type ≡ false
    → length acc < capacity
    → accept capacity ext acc ≡ ok (acc ++ (ext ∷ []))
unfolding accept
accept_fresh capacity ext acc hs hn hl = rw (hs, hn) (ground (arith, hl))

loop_step :
    (fuel capacity : ℕ) (input : Bytes) (offset : ℕ) (acc : List Extension) (rest : Bytes)
    (ext : Extension) (acc' : List Extension)
    → 0 < length input
    → parse input offset ≡ ok (rest, ext)
    → accept capacity ext acc ≡ ok acc'
    → extensions_loop (suc fuel) capacity input offset acc
      ≡ extensions_loop fuel capacity rest (offset + (length input - length rest)) acc'
unfolding extensions_loop
loop_step fuel capacity [] offset acc rest ext acc' hl hp ha = absurd (omega arith)
loop_step fuel capacity (b ∷ input) offset acc rest ext acc' hl hp ha =
    rw (hp, extensions_loop) (rw (ha, extensions_loop) refl)

types-append : (xs ys : List Extension) → types (xs ++ ys) ≡ types xs ++ types ys
types-append [] ys = refl
types-append (x ∷ xs) ys = ap (λ t. x.extension_type ∷ t) (types-append xs ys)

pub length-serialize :
    (ext : Extension) (buf : Bytes)
    → length (serialize ext buf) ≡ 4 + length (extension_data ext buf)
unfolding serialize
length-serialize ext buf = omega arith

pub length-serialize_all :
    (exts : List Extension) (buf : Bytes) → length (serialize_all exts buf) ≡ total_len exts buf
length-serialize_all [] buf = refl
length-serialize_all (ext ∷ exts) buf = omega (
  arith,
  length-append (serialize ext buf) (serialize_all exts buf),
  length-serialize ext buf,
  length-serialize_all exts buf,
)

loop_all :
    (exts : List Extension) (buf : Bytes) (fuel capacity offset : ℕ) (acc : List Extension)
    → AllFit exts buf
    → Fresh (types acc) exts
    → length acc + length exts ≤ capacity
    → length exts ≤ fuel
    → extensions_loop fuel capacity (serialize_all exts buf) offset acc
      ≡ ok (acc ++ placed_all offset exts buf)
loop_all [] buf zero capacity offset acc hf hn hc hl =
    unfold extensions_loop in ap ok (sym (append-nil acc))
loop_all [] buf (suc fuel) capacity offset acc hf hn hc hl =
    unfold extensions_loop in ap ok (sym (append-nil acc))
loop_all (ext ∷ exts) buf zero capacity offset acc hf hn hc hl = absurd (omega arith)
loop_all (ext ∷ exts) buf (suc fuel) capacity offset acc hf hn hc hl =
    let here : Extension = placed offset ext buf in
    let more : Bytes = serialize_all exts buf in
    let len : length (serialize ext buf ++ more)
        ≡ 4 + length (extension_data ext buf) + length more =
      length-append (serialize ext buf) more
      ∙ ap (λ n. n + length more) (length-serialize ext buf) in
    let seen : types (acc ++ (here ∷ [])) ≡ types acc ++ (ext.extension_type ∷ []) =
      types-append acc (here ∷ []) in
    let room : length (acc ++ (here ∷ [])) + length exts ≤ capacity =
      omega (arith, length-append acc (here ∷ [])) in
    loop_step fuel capacity (serialize ext buf ++ more) offset acc more here (acc ++ (here ∷ []))
      (omega arith) (parse-serialize ext buf more offset hf.0)
      (accept_fresh capacity here acc hn.0 hn.1 (omega arith))
    ∙ ap (λ n. extensions_loop fuel capacity more n (acc ++ (here ∷ []))) (omega (arith, len))
    ∙ loop_all exts buf fuel capacity (offset + (4 + length (extension_data ext buf)))
        (acc ++ (here ∷ [])) hf.1 (subst (λ t. Fresh t exts) (sym seen) hn.2) room (omega arith)
    ∙ ap ok (
        append_assoc acc (here ∷ [])
          (placed_all (offset + (4 + length (extension_data ext buf))) exts buf))

length-le-total_len : (exts : List Extension) (buf : Bytes) → length exts ≤ total_len exts buf
length-le-total_len [] buf = omega arith
length-le-total_len (ext ∷ exts) buf = omega (arith, length-le-total_len exts buf)

-- Extensions that fit, of distinct supported types and at most as many as the vector takes, are read
-- back in their order.
pub parse_extensions-serialize_all :
    (exts : List Extension) (buf : Bytes) (capacity offset : ℕ)
    → AllFit exts buf
    → Fresh [] exts
    → length exts ≤ capacity
    → parse_extensions capacity (serialize_all exts buf) offset ≡ ok (placed_all offset exts buf)
unfolding parse_extensions
parse_extensions-serialize_all exts buf capacity offset hf hn hc =
    loop_all exts buf (length (serialize_all exts buf)) capacity offset [] hf hn (omega arith)
      (omega (arith, length-serialize_all exts buf, length-le-total_len exts buf))

-- The bytes of a list of extensions, each with its type.
abbrev pub contents : List Extension → Bytes → List (ExtensionType × Bytes)
contents exts buf = map (λ ext. (ext.extension_type, extension_data ext buf)) exts

slice_here :
    (front d back : Bytes) (a b c e : ℕ)
    → slice
        (length front + 4)
        (length front + 4 + length d)
        (front ++ (a ∷ b ∷ c ∷ e ∷ (d ++ back)))
      ≡ d
slice_here front d back a b c e =
    ap (λ n. take n (drop (length front + 4) (front ++ (a ∷ b ∷ c ∷ e ∷ (d ++ back)))))
      (omega arith)
    ∙ ap (take (length d)) (
        sym (drop-drop (length front) 4 (front ++ (a ∷ b ∷ c ∷ e ∷ (d ++ back))))
        ∙ ap (drop 4) (drop-length-append front (a ∷ b ∷ c ∷ e ∷ (d ++ back))))
    ∙ take-length-append d back

data_placed :
    (ext : Extension) (buf front back : Bytes)
    → extension_data (placed (length front) ext buf) (front ++ (serialize ext buf ++ back))
      ≡ extension_data ext buf
data_placed ext buf front back = rw (serialize-rest ext buf back) (
    slice_here front (extension_data ext buf) back (ext.extension_type / 256 % 256)
      (ext.extension_type % 256) (length (extension_data ext buf) / 256 % 256)
      (length (extension_data ext buf) % 256))

-- What is read back is what was written, in whatever buffer the extensions stand.
pub contents-placed_all :
    (exts : List Extension) (buf front : Bytes)
    → contents (placed_all (length front) exts buf) (front ++ serialize_all exts buf)
      ≡ contents exts buf
contents-placed_all [] buf front = refl
contents-placed_all (ext ∷ exts) buf front =
    let d : Bytes = extension_data ext buf in
    let more : Bytes = serialize_all exts buf in
    let whole : Bytes = front ++ (serialize ext buf ++ more) in
    let shifted : length (front ++ serialize ext buf) ≡ length front + (4 + length d) =
      length-append front (serialize ext buf)
      ∙ ap (λ n. length front + n) (length-serialize ext buf) in
    ap₂ (λ x xs. (ext.extension_type, x) ∷ xs) (data_placed ext buf front more)
      (ap₂ (λ n b. contents (placed_all n exts buf) b) (sym shifted)
          (sym (append_assoc front (serialize ext buf) more))
        ∙ contents-placed_all exts buf (front ++ serialize ext buf))
