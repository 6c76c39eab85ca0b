-- ===== src/Dtls13/Message/ClientRoundTrip.antt =====
-- src/dtls13/message/client_hello.rs: a ClientHello is read back as it was written.
use dimpl.Base.{
  ℕ, ◌+◌, ◌-◌, ◌/◌, ◌%◌, ◌^◌, ◌≤◌, ◌<◌, ◌≡◌, refl, ap, ap₂, sym, subst, ◌∙◌, Bool, List, [], ◌∷◌,
  ◌++◌, ok, Bytes, length, arith, length-append, append_assoc, append-nil, is_empty, if◌then◌else◌,
}
use dimpl.Wire.{take_bytes, u16_bytes}
use dimpl.Wire.Numbers.{be_u16-u16_bytes, take_bytes-append}
use dimpl.Dtls13.Message.{null_compression, session_id_max, cookie_max}
use dimpl.Dtls13.Message.Extension.{Extension, serialize_all, total_len}
use dimpl.Dtls13.Message.Placed.{
  AllFit, Fresh, placed_all, contents, contents-placed_all, parse_extensions-serialize_all,
  length-serialize_all,
}
use dimpl.Dtls13.Message.Hellos.{AllSupported, parse-whole, whole}
use dimpl.Dtls13.Message.ClientHello.{
  ClientHello, suite_capacity, extension_capacity, parse_extensions, parse_with_options,
  serialize_head, serialize,
}

-- What can be written so that it is read back: fields that fit, suites that are supported, null
-- compression, and extensions that fit, of distinct supported types.
pub record Fits (hello : ClientHello) (buf : Bytes) : Type 0 where
  pub version : hello.legacy_version < 2 ^ 16
  pub random : length hello.random ≡ 32
  pub session : length hello.legacy_session_id ≤ session_id_max
  pub cookie : length hello.legacy_cookie ≤ cookie_max
  pub suites : AllSupported hello.cipher_suites
  pub some_suite : 0 < length hello.cipher_suites
  pub suite_room : length hello.cipher_suites ≤ suite_capacity
  pub compression : hello.legacy_compression_methods ≡ null_compression ∷ []
  pub fit : AllFit hello.extensions buf
  pub fresh : Fresh [] hello.extensions
  pub room : length hello.extensions ≤ extension_capacity
  pub total : total_len hello.extensions buf < 2 ^ 16

abbrev extension_bytes : List Extension → Bytes → Bytes
extension_bytes exts buf =
    if is_empty exts then [] else u16_bytes (total_len exts buf) ++ serialize_all exts buf

parse_extension_bytes :
    (exts : List Extension) (buf : Bytes) (offset : ℕ)
    → AllFit exts buf
    → Fresh [] exts
    → length exts ≤ extension_capacity
    → total_len exts buf < 2 ^ 16
    → parse_extensions (extension_bytes exts buf) offset ≡ ok ([], placed_all (offset + 2) exts buf)
unfolding parse_extensions
parse_extension_bytes [] buf offset hf hn hc ht = refl
parse_extension_bytes (ext ∷ exts) buf offset hf hn hc ht =
    let all : Bytes = serialize_all (ext ∷ exts) buf in
    let exact : take_bytes (total_len (ext ∷ exts) buf) all ≡ ok ([], all) =
      ap₂ take_bytes (sym (length-serialize_all (ext ∷ exts) buf)) (sym (append-nil all))
      ∙ take_bytes-append all [] in
    ground (
      arith,
      be_u16-u16_bytes (total_len (ext ∷ exts) buf) all ht,
      exact,
      parse_extensions-serialize_all (ext ∷ exts) buf extension_capacity (offset + 2) hf hn hc,
    )

serialize-whole :
    (hello : ClientHello) (buf : Bytes) (s : ℕ) (suites : List ℕ)
    → hello.cipher_suites ≡ s ∷ suites
    → hello.legacy_compression_methods ≡ null_compression ∷ []
    → serialize_head hello ++ extension_bytes hello.extensions buf
      ≡ whole hello.legacy_version hello.random hello.legacy_session_id hello.legacy_cookie s suites
          (extension_bytes hello.extensions buf)
unfolding serialize_head
serialize-whole hello buf s suites hs hc = rw (hs, hc) (simp append_assoc)

serialize_lem :
    (hello : ClientHello) (buf : Bytes)
    → serialize hello buf ≡ serialize_head hello ++ extension_bytes hello.extensions buf
unfolding serialize
serialize_lem hello buf = refl

-- The extensions that are read from the bytes of a ClientHello.
abbrev pub read_extensions : ClientHello → Bytes → List Extension
read_extensions hello buf = placed_all (length (serialize_head hello) + 2) hello.extensions buf

read_back :
    (hello : ClientHello) (buf : Bytes) (allow : Bool) (s : ℕ) (suites : List ℕ)
    → Fits hello buf
    → hello.cipher_suites ≡ s ∷ suites
    → parse_with_options (serialize hello buf) 0 allow
      ≡ ok ([], record hello { extensions = read_extensions hello buf })
read_back hello buf allow s suites f hs =
    let tail : Bytes = extension_bytes hello.extensions buf in
    let same = serialize-whole hello buf s suites hs f.compression in
    let before : length (serialize_head hello)
        ≡ 0 + (length (serialize_head hello ++ tail) - length tail) =
      omega (arith, length-append (serialize_head hello) tail) in
    let found : parse_extensions tail (0 + (length (serialize_head hello ++ tail) - length tail))
        ≡ ok ([], read_extensions hello buf) =
      ap (parse_extensions tail) (sym before)
      ∙ parse_extension_bytes hello.extensions buf (length (serialize_head hello)) f.fit f.fresh
          f.room f.total in
    ap (λ b. parse_with_options b 0 allow) (serialize_lem hello buf ∙ same)
    ∙ parse-whole hello.legacy_version hello.random hello.legacy_session_id hello.legacy_cookie s
        suites tail allow 0 (read_extensions hello buf) f.version f.random f.session f.cookie
        (subst AllSupported hs f.suites) (subst (λ t. length t ≤ suite_capacity) hs f.suite_room)
        (subst
          (λ b.
            parse_extensions tail (0 + (length b - length tail))
            ≡ ok ([], read_extensions hello buf))
          same found)
    ∙ ap₂
        (λ cs ms. ok (
          [],
          record hello {
            cipher_suites = cs;
            legacy_compression_methods = ms;
            extensions = read_extensions hello buf;
          },
        ))
        (sym hs) (sym f.compression)

some_suite : (suites : List ℕ) → 0 < length suites → (s : ℕ) × (rest : List ℕ) × (suites ≡ s ∷ rest)
some_suite [] h = absurd (omega arith)
some_suite (s ∷ rest) h = (s, rest, refl)

head_extended :
    (hello : ClientHello) (a b : ℕ)
    → length (serialize_head hello) + 2 ≡ length (serialize_head hello ++ (a ∷ b ∷ []))
head_extended hello a b = omega (arith, length-append (serialize_head hello) (a ∷ b ∷ []))

same_contents :
    (hello : ClientHello) (exts : List Extension) (buf : Bytes)
    → contents
        (placed_all (length (serialize_head hello) + 2) exts buf)
        (serialize_head hello ++ extension_bytes exts buf)
      ≡ contents exts buf
same_contents hello [] buf = refl
same_contents hello (ext ∷ exts) buf =
    let len : ℕ = total_len (ext ∷ exts) buf in
    let all : Bytes = serialize_all (ext ∷ exts) buf in
    ap₂ (λ n b. contents (placed_all n (ext ∷ exts) buf) b)
      (head_extended hello (len / 256 % 256) (len % 256))
      (sym (append_assoc (serialize_head hello) (u16_bytes len) all))
    ∙ contents-placed_all (ext ∷ exts) buf (serialize_head hello ++ u16_bytes len)

-- A ClientHello whose fields fit, with one to three supported suites, null compression only, and
-- extensions that fit, of distinct supported types, is read back from the bytes that are written for
-- it, whether or not unknown suites are allowed: all of it is read, every field comes back, and the
-- extensions come back in their order, as ranges that hold the same types and data.
pub parse-serialize_client_hello :
    (hello : ClientHello) (buf : Bytes) (allow : Bool)
    → Fits hello buf
    → (exts : List Extension) × (parse_with_options (serialize hello buf) 0 allow
        ≡ ok ([], record hello { extensions = exts }))
      × (contents exts (serialize hello buf) ≡ contents hello.extensions buf)
parse-serialize_client_hello hello buf allow f =
    let (s, suites, hs) = some_suite hello.cipher_suites f.some_suite in
    (
      read_extensions hello buf,
      read_back hello buf allow s suites f hs,
      ap (contents (read_extensions hello buf)) (serialize_lem hello buf)
          ∙ same_contents hello hello.extensions buf,
    )
