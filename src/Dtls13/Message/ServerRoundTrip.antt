-- ===== src/Dtls13/Message/ServerRoundTrip.antt =====
-- src/dtls13/message/server_hello.rs: a ServerHello is read back as it was written.
use dimpl.Base.{
  ℕ, suc, ◌+◌, ◌-◌, ◌/◌, ◌%◌, ◌^◌, ◌≤◌, ◌<◌, ◌≡◌, refl, ap, ap₂, sym, subst, ◌∙◌, Option, none,
  some, List, [], ◌∷◌, ◌++◌, ok, Bytes, length, arith, length-append, append_assoc, append-nil,
}
use dimpl.Wire.{take_bytes, u16_bytes, parse_version}
use dimpl.Wire.Numbers.{be_u16-u16_bytes, take_bytes-append}
use dimpl.Dtls13.Message.{session_id_max}
use dimpl.Dtls13.Message.Extension.{Extension, serialize_all, total_len}
use dimpl.Dtls13.Message.Placed.{
  AllFit, Fresh, placed_all, contents, contents-placed_all, parse_extensions-serialize_all,
  length-serialize_all,
}
use dimpl.Dtls13.Message.Hellos.{parse_var_array-append, be_u8_cons}
use dimpl.Dtls13.Message.ServerHello.{
  ServerHello, extension_capacity, parse_tail, parse, serialize_head, serialize,
}

-- Extensions that can be written so that they are read back: none at all, or one at least, that fit, of
-- distinct supported types. (An empty list is read as none.)
abbrev pub ExtensionsFit : Option (List Extension) → Bytes → Type 0
ExtensionsFit none buf = Unit {0}
ExtensionsFit (some []) buf = ⊥
ExtensionsFit (some (ext ∷ exts)) buf =
    AllFit (ext ∷ exts) buf
    × Fresh [] (ext ∷ exts)
    × (suc (length exts) ≤ extension_capacity)
    × (total_len (ext ∷ exts) buf < 2 ^ 16)

pub record Fits (hello : ServerHello) (buf : Bytes) : Type 0 where
  pub version : hello.legacy_version < 2 ^ 16
  pub random : length hello.random ≡ 32
  pub session : length hello.legacy_session_id ≤ session_id_max
  pub suite : hello.cipher_suite < 2 ^ 16
  pub extensions : ExtensionsFit hello.extensions buf

abbrev pub extension_bytes : Option (List Extension) → Bytes → Bytes
extension_bytes none buf = []
extension_bytes (some exts) buf = u16_bytes (total_len exts buf) ++ serialize_all exts buf

abbrev pub moved : ℕ → Option (List Extension) → Bytes → Option (List Extension)
moved offset none buf = none
moved offset (some exts) buf = some (placed_all offset exts buf)

abbrev pub held : Option (List Extension) → Bytes → Option (List (ℕ × Bytes))
held none buf = none
held (some exts) buf = some (contents exts buf)

parse_extension_bytes :
    (exts : Option (List Extension)) (buf : Bytes) (offset : ℕ)
    → ExtensionsFit exts buf
    → parse_tail (extension_bytes exts buf) offset ≡ ok ([], moved (offset + 2) exts buf)
unfolding parse_tail
parse_extension_bytes none buf offset h = refl
parse_extension_bytes (some []) buf offset h = absurd h
parse_extension_bytes (some (ext ∷ exts)) buf offset (hf, hn, hc, ht) =
    let len : ℕ = total_len (ext ∷ exts) buf in
    let all : Bytes = serialize_all (ext ∷ exts) buf in
    let exact : take_bytes len all ≡ ok ([], all) =
      ap₂ take_bytes (sym (length-serialize_all (ext ∷ exts) buf)) (sym (append-nil all))
      ∙ take_bytes-append all [] in
    ground (
      arith,
      be_u16-u16_bytes len all ht,
      exact,
      length-serialize_all (ext ∷ exts) buf,
      parse_extensions-serialize_all (ext ∷ exts) buf extension_capacity (offset + 2) hf hn hc,
    )

module _ (version : ℕ) (random sid : Bytes) (suite compression : ℕ) (tail : Bytes) where
  abbrev from_suite : Bytes
  from_suite = u16_bytes suite ++ (compression ∷ tail)

  abbrev from_session : Bytes
  from_session = length sid % 256 ∷ (sid ++ from_suite)

  abbrev whole : Bytes
  whole = u16_bytes version ++ (random ++ from_session)

  parse-whole :
      (base : ℕ) (exts : Option (List Extension))
      → version < 2 ^ 16
      → length random ≡ 32
      → length sid ≤ session_id_max
      → suite < 2 ^ 16
      → parse_tail tail (base + (length whole - length tail)) ≡ ok ([], exts)
      → parse whole base
        ≡ ok (
          [],
          record {
            legacy_version = version;
            random = random;
            legacy_session_id = sid;
            cipher_suite = suite;
            legacy_compression_method = compression;
            extensions = exts;
          },
        )
  unfolding parse parse_version
  parse-whole base exts hv hr hs hc he = ground (
    arith,
    be_u16-u16_bytes version (random ++ from_session) hv,
    take_bytes-append random from_session,
    ap (λ n. take_bytes n (random ++ from_session)) hr,
    parse_var_array-append session_id_max sid from_suite hs (omega arith),
    be_u16-u16_bytes suite (compression ∷ tail) hc,
    be_u8_cons compression tail,
    he,
  )

serialize_lem :
    (hello : ServerHello) (buf : Bytes)
    → serialize hello buf ≡ serialize_head hello ++ extension_bytes hello.extensions buf
unfolding serialize
serialize_lem hello buf = ground arith

serialize-whole :
    (hello : ServerHello) (tail : Bytes)
    → serialize_head hello ++ tail
      ≡ whole hello.legacy_version hello.random hello.legacy_session_id hello.cipher_suite
          hello.legacy_compression_method tail
unfolding serialize_head
serialize-whole hello tail = simp append_assoc

abbrev pub read_extensions : ServerHello → Bytes → Option (List Extension)
read_extensions hello buf = moved (length (serialize_head hello) + 2) hello.extensions buf

read_back :
    (hello : ServerHello) (buf : Bytes)
    → Fits hello buf
    → parse (serialize hello buf) 0
      ≡ ok ([], record hello { extensions = read_extensions hello buf })
read_back hello buf f =
    let tail : Bytes = extension_bytes hello.extensions buf in
    let same = serialize-whole hello tail in
    let before : length (serialize_head hello)
        ≡ 0 + (length (serialize_head hello ++ tail) - length tail) =
      omega (arith, length-append (serialize_head hello) tail) in
    let found : parse_tail tail (0 + (length (serialize_head hello ++ tail) - length tail))
        ≡ ok ([], read_extensions hello buf) =
      ap (parse_tail tail) (sym before)
      ∙ parse_extension_bytes hello.extensions buf (length (serialize_head hello)) f.extensions in
    ap (λ b. parse b 0) (serialize_lem hello buf ∙ same)
    ∙ parse-whole hello.legacy_version hello.random hello.legacy_session_id hello.cipher_suite
        hello.legacy_compression_method tail 0 (read_extensions hello buf) f.version f.random
        f.session f.suite
        (subst
          (λ b. parse_tail tail (0 + (length b - length tail)) ≡ ok ([], read_extensions hello buf))
          same found)

head_extended :
    (hello : ServerHello) (a b : ℕ)
    → length (serialize_head hello) + 2 ≡ length (serialize_head hello ++ (a ∷ b ∷ []))
head_extended hello a b = omega (arith, length-append (serialize_head hello) (a ∷ b ∷ []))

same_contents :
    (hello : ServerHello) (exts : Option (List Extension)) (buf : Bytes)
    → held
        (moved (length (serialize_head hello) + 2) exts buf)
        (serialize_head hello ++ extension_bytes exts buf)
      ≡ held exts buf
same_contents hello none buf = refl
same_contents hello (some exts) buf =
    let len : ℕ = total_len exts buf in
    ap some (
      ap₂ (λ n b. contents (placed_all n exts buf) b)
        (head_extended hello (len / 256 % 256) (len % 256))
        (sym (append_assoc (serialize_head hello) (u16_bytes len) (serialize_all exts buf)))
      ∙ contents-placed_all exts buf (serialize_head hello ++ u16_bytes len))

-- A ServerHello whose fields fit, with no extensions or with one to five of distinct supported types, is
-- read back from the bytes that are written for it: all of it is read, every field comes back, and the
-- extensions come back in their order, as ranges that hold the same types and data.
pub parse-serialize_server_hello :
    (hello : ServerHello) (buf : Bytes)
    → Fits hello buf
    → (exts : Option (List Extension)) × (parse (serialize hello buf) 0
        ≡ ok ([], record hello { extensions = exts }))
      × (held exts (serialize hello buf) ≡ held hello.extensions buf)
parse-serialize_server_hello hello buf f = (
  read_extensions hello buf,
  read_back hello buf f,
  ap (held (read_extensions hello buf)) (serialize_lem hello buf)
      ∙ same_contents hello hello.extensions buf,
)
