-- ===== src/Dtls13/Message/Hellos.antt =====
-- src/dtls13/message/client_hello.rs: a ClientHello is read back as it was written.
use dimpl.Base.{
  ℕ, zero, suc, ◌+◌, ◌-◌, ◌*◌, ◌%◌, ◌^◌, ◌≤◌, ◌<◌, ◌≡◌, refl, ap, sym, ◌∙◌, Bool, true, false, List,
  [], ◌∷◌, ◌++◌, ok, Bytes, length, contains, arith, length-append, append_assoc, append-nil,
}
use dimpl.Wire.{be_u8, be_u16, take_bytes, u16_bytes, parse_version, many0, many1, ErrorKind}
use dimpl.Wire.Numbers.{be_u16-u16_bytes, take_bytes-append}
use dimpl.Wire.Many.{many_loop, parse_many0, parse_many1}
use dimpl.Dtls13.Message.{
  supported_suites, supported_compression, parse_var_array, session_id_max, cookie_max,
  null_compression,
}
use dimpl.Dtls13.Message.Extension.{Extension}
use dimpl.Dtls13.Message.ClientHello.{
  ClientHello, suite_capacity, compression_capacity, parse_suites, parse_extensions,
  parse_with_options, suite_bytes,
}

abbrev pub AllSupported : List ℕ → Type 0
AllSupported [] = Unit {0}
AllSupported (s ∷ ss) = (contains supported_suites s ≡ true) × AllSupported ss

supported-lt : (s : ℕ) → contains supported_suites s ≡ true → s < 2 ^ 16
supported-lt s h = ground arith

suites_step :
    (kind : ErrorKind) (fuel s : ℕ) (rest : Bytes) (acc : List ℕ)
    → contains supported_suites s ≡ true
    → length acc < suite_capacity
    → many_loop kind suite_capacity be_u16
        (contains supported_suites)
        (suc fuel)
        (u16_bytes s ++ rest)
        acc
      ≡ many_loop kind suite_capacity be_u16 (contains supported_suites) fuel rest (acc ++ (s ∷ []))
unfolding many_loop
suites_step kind fuel s rest acc h room =
    ground (arith, be_u16-u16_bytes s rest (supported-lt s h), h, room)

suites_all :
    (kind : ErrorKind) (fuel : ℕ) (suites acc : List ℕ)
    → AllSupported suites
    → length acc + length suites ≤ suite_capacity
    → length suites ≤ fuel
    → many_loop kind suite_capacity be_u16 (contains supported_suites) fuel (suite_bytes suites) acc
      ≡ ok ([], acc ++ suites)
suites_all kind zero [] acc h room le =
    unfold many_loop in ap (λ t. ok ([], t)) (sym (append-nil acc))
suites_all kind (suc fuel) [] acc h room le =
    unfold many_loop in ap (λ t. ok ([], t)) (sym (append-nil acc))
suites_all kind zero (s ∷ suites) acc h room le = absurd (omega arith)
suites_all kind (suc fuel) (s ∷ suites) acc h room le =
    suites_step kind fuel s (suite_bytes suites) acc h.0 (omega arith)
    ∙ suites_all kind fuel suites (acc ++ (s ∷ [])) h.1 (omega (arith, length-append acc (s ∷ [])))
        (omega arith)
    ∙ ap (λ t. ok ([], t)) (append_assoc acc (s ∷ []) suites)

pub length-suite_bytes : (suites : List ℕ) → length (suite_bytes suites) ≡ length suites * 2
length-suite_bytes [] = refl
length-suite_bytes (s ∷ suites) = omega (arith, length-suite_bytes suites)

parse_suites-suite_bytes :
    (allow : Bool) (s : ℕ) (suites : List ℕ)
    → AllSupported (s ∷ suites)
    → suc (length suites) ≤ suite_capacity
    → parse_suites allow (suite_bytes (s ∷ suites)) ≡ ok ([], s ∷ suites)
unfolding parse_suites parse_many0 parse_many1
parse_suites-suite_bytes true s suites h room =
    suites_all many0 (length (suite_bytes (s ∷ suites))) (s ∷ suites) [] h (omega arith)
      (omega (arith, length-suite_bytes (s ∷ suites)))
parse_suites-suite_bytes false s suites h room =
    rw
      (
        suites_all many1 (length (suite_bytes (s ∷ suites))) (s ∷ suites) [] h (omega arith)
            (omega (arith, length-suite_bytes (s ∷ suites))),
        parse_many1,
      )
      refl

pub parse_var_array-append :
    (max : ℕ) (xs rest : Bytes)
    → length xs ≤ max
    → max < 256
    → parse_var_array max (length xs % 256 ∷ (xs ++ rest)) ≡ ok (rest, xs)
unfolding parse_var_array be_u8
parse_var_array-append max xs rest h small =
    ground (arith, take_bytes-append xs rest, ap (λ n. take_bytes n (xs ++ rest)) whole)
  where
    whole : length xs % 256 ≡ length xs
    whole = omega arith

null_only :
    parse_many1 compression_capacity be_u8 (contains supported_compression) (0 ∷ [])
    ≡ ok ([], 0 ∷ [])
unfolding parse_many1 many_loop be_u8
null_only = refl

pub be_u8_cons : (b : ℕ) (rest : Bytes) → be_u8 (b ∷ rest) ≡ ok (rest, b)
unfolding be_u8
be_u8_cons b rest = refl

module _ (version : ℕ) (random sid cookie : Bytes) (s : ℕ) (suites : List ℕ) (tail : Bytes) where
  abbrev pub from_compression : Bytes
  from_compression = 1 ∷ 0 ∷ tail

  abbrev pub from_suites : Bytes
  from_suites =
      u16_bytes (suc (length suites) * 2) ++ (suite_bytes (s ∷ suites) ++ from_compression)

  abbrev pub from_cookie : Bytes
  from_cookie = length cookie % 256 ∷ (cookie ++ from_suites)

  abbrev pub from_session : Bytes
  from_session = length sid % 256 ∷ (sid ++ from_cookie)

  abbrev pub whole : Bytes
  whole = u16_bytes version ++ (random ++ from_session)

  abbrev pub with_extensions : List Extension → ClientHello
  with_extensions exts = record {
    legacy_version = version;
    random = random;
    legacy_session_id = sid;
    legacy_cookie = cookie;
    cipher_suites = s ∷ suites;
    legacy_compression_methods = null_compression ∷ [];
    extensions = exts;
  }

  pub parse-whole :
      (allow : Bool) (base : ℕ) (exts : List Extension)
      → version < 2 ^ 16
      → length random ≡ 32
      → length sid ≤ session_id_max
      → length cookie ≤ cookie_max
      → AllSupported (s ∷ suites)
      → suc (length suites) ≤ suite_capacity
      → parse_extensions tail (base + (length whole - length tail)) ≡ ok ([], exts)
      → parse_with_options whole base allow ≡ ok ([], with_extensions exts)
  unfolding parse_with_options parse_version
  parse-whole allow base exts hv hr hs hc hsup room he = ground (
    arith,
    be_u16-u16_bytes version (random ++ from_session) hv,
    take_bytes-append random from_session,
    ap (λ n. take_bytes n (random ++ from_session)) hr,
    parse_var_array-append session_id_max sid from_cookie hs (omega arith),
    parse_var_array-append cookie_max cookie from_suites hc (omega arith),
    be_u16-u16_bytes (suc (length suites) * 2) (suite_bytes (s ∷ suites) ++ from_compression)
        (omega arith),
    take_bytes-append (suite_bytes (s ∷ suites)) from_compression,
    ap (λ n. take_bytes n (suite_bytes (s ∷ suites) ++ from_compression))
        (length-suite_bytes (s ∷ suites)),
    parse_suites-suite_bytes allow s suites hsup room,
    be_u8_cons 1 (0 ∷ tail),
    take_bytes-append (0 ∷ []) tail,
    null_only,
    he,
  )
