-- ===== src/Dtls13/Message/Extension.antt =====
-- src/dtls13/message/extension.rs: extensions, whose data is a range of the buffer of the message, and
-- the loop that the messages with extensions share.
use dimpl.Base.{
  ℕ, zero, suc, ◌+◌, ◌-◌, List, [], ◌∷◌, ◌++◌, Result, ok, err, ◌>>=◌, Bytes, ltb, if◌then◌else◌,
  length, slice, contains, map,
}
use dimpl.Wire.{IResult, Err, failure, length_value, be_u16, take_bytes, u16_bytes}
use dimpl.Dtls13.Message.{ExtensionType, supported_extensions}

pub record Extension : Type 0 where
  pub extension_type : ExtensionType
  pub start : ℕ
  pub end : ℕ

unfoldable pub parse : Bytes → ℕ → IResult Extension
parse original_input base_offset = do
  (input, extension_type) ← be_u16 original_input
  (input, extension_length) ← be_u16 input
  let start = base_offset + (length original_input - length input)
  (input, piece) ←
      (if ltb 0 extension_length then take_bytes extension_length input else ok (input, []))
  ok (input, record { extension_type = extension_type; start = start; end = start + length piece })

abbrev pub extension_data : Extension → Bytes → Bytes
extension_data ext buf = slice ext.start ext.end buf

unfoldable pub serialize : Extension → Bytes → Bytes
serialize ext buf =
    u16_bytes ext.extension_type
    ++ (u16_bytes (length (extension_data ext buf)) ++ extension_data ext buf)

-- The bytes of several extensions, and the length that is written before them.
abbrev pub serialize_all : List Extension → Bytes → Bytes
serialize_all [] buf = []
serialize_all (ext ∷ exts) buf = serialize ext buf ++ serialize_all exts buf

abbrev pub total_len : List Extension → Bytes → ℕ
total_len [] buf = 0
total_len (ext ∷ exts) buf = (4 + length (extension_data ext buf)) + total_len exts buf

abbrev pub types : List Extension → List ExtensionType
types exts = map (λ ext. ext.extension_type) exts

-- An extension that is supported is kept once; a second one, or one too many, is malformed.
unfoldable pub accept : ℕ → Extension → List Extension → Result Err (List Extension)
accept capacity ext acc =
    if contains supported_extensions ext.extension_type
    then if contains (types acc) ext.extension_type
      then err (failure length_value)
      else if ltb (length acc) capacity
      then ok (acc ++ (ext ∷ []))
      else err (failure length_value)
    else ok acc

-- On as much fuel as there are bytes: an extension takes four at least.
unfoldable pub extensions_loop : ℕ → ℕ → Bytes → ℕ → List Extension → Result Err (List Extension)
extensions_loop zero capacity input offset acc = ok acc
extensions_loop (suc fuel) capacity [] offset acc = ok acc
extensions_loop (suc fuel) capacity (b ∷ input) offset acc = elim (parse (b ∷ input) offset) [
  | err e ↦ err e
  | ok (rest, ext) ↦ elim (accept capacity ext acc) [
    | err e ↦ err e
    | ok acc' ↦
        extensions_loop fuel capacity rest (offset + (suc (length input) - length rest)) acc'
  ]
]

unfoldable pub parse_extensions : ℕ → Bytes → ℕ → Result Err (List Extension)
unfolding extensions_loop
parse_extensions capacity input offset = extensions_loop (length input) capacity input offset []
