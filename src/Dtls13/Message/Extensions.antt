-- ===== src/Dtls13/Message/Extensions.antt =====
-- src/dtls13/message/extensions: the data of the extensions that are supported.
use dimpl.Base.{
  ℕ, zero, suc, ◌+◌, ◌-◌, ◌*◌, ◌%◌, Bool, not, ◌||◌, none, some, List, [], ◌∷◌, ◌++◌, Result, ok,
  err, ◌>>=◌, ◌>>◌, fail_if, Bytes, ltb, ◌==◌, length, is_empty, slice, contains,
}
use dimpl.Wire.{
  IResult, Err, error, failure, eof, length_value, ProtocolVersion, dtls1_0, dtls1_2, dtls1_3,
  be_u8, be_u16, take_bytes, u16_bytes,
}
use dimpl.Wire.Many.{push_if}
use dimpl.Dtls13.Message.{NamedGroup, SignatureScheme, supported_groups, supported_schemes}

-- A loop over numbers of two bytes that keeps the known ones, up to the capacity of their vector.
unfoldable pub numbers_loop : ℕ → (ℕ → Bool) → Bytes → List ℕ → Result Err (List ℕ)
numbers_loop capacity known [] acc = ok acc
numbers_loop capacity known (a ∷ []) acc = err (error eof)
numbers_loop capacity known (a ∷ b ∷ rest) acc =
    elim (push_if (known (a * 256 + b)) capacity (a * 256 + b) acc) [
      | none ↦ err (failure length_value)
      | some acc' ↦ numbers_loop capacity known rest acc'
    ]

unfoldable pub parse_supported_groups : Bytes → IResult (List NamedGroup)
parse_supported_groups input = do
  (input, list_len) ← be_u16 input
  fail_if (not (list_len % 2 == 0)) (failure length_value)
  (input, current_input) ← take_bytes list_len input
  fail_if (not (is_empty input)) (failure length_value)
  groups ← numbers_loop 4 (contains supported_groups) current_input []
  ok (input, groups)

unfoldable pub parse_signature_algorithms : Bytes → IResult (List SignatureScheme)
parse_signature_algorithms input = do
  (input, list_len) ← be_u16 input
  fail_if (list_len == 0 || not (list_len % 2 == 0)) (failure length_value)
  (input, current_input) ← take_bytes list_len input
  fail_if (not (is_empty input)) (failure length_value)
  algorithms ← numbers_loop 2 (contains supported_schemes) current_input []
  ok (input, algorithms)

abbrev pub known_versions : List ProtocolVersion
known_versions = dtls1_0 ∷ dtls1_2 ∷ dtls1_3 ∷ []

-- `SupportedVersionsClientHello::parse` and `SupportedVersionsServerHello::parse`
unfoldable pub parse_supported_versions : Bytes → IResult (List ProtocolVersion)
parse_supported_versions input = do
  (input, list_len) ← be_u8 input
  fail_if (list_len == 0 || not (list_len % 2 == 0)) (failure length_value)
  (input, versions_data) ← take_bytes list_len input
  fail_if (not (is_empty input)) (failure length_value)
  versions ← numbers_loop 3 (contains known_versions) versions_data []
  ok (input, versions)

unfoldable pub parse_selected_version : Bytes → IResult ProtocolVersion
parse_selected_version input = do
  (input, selected_version) ← be_u16 input
  fail_if (not (is_empty input)) (failure length_value)
  ok (input, selected_version)

-- `SrtpProfileId`, by its number.
abbrev pub srtp_profiles : List ℕ
srtp_profiles = 0x0001 ∷ 0x0007 ∷ 0x0008 ∷ []

-- `while profiles_rest.len() >= 2`, and then a rest is malformed.
unfoldable pub profiles_loop : Bytes → List ℕ → Result Err (List ℕ)
profiles_loop [] acc = ok acc
profiles_loop (a ∷ []) acc = err (failure length_value)
profiles_loop (a ∷ b ∷ rest) acc =
    elim (push_if (contains srtp_profiles (a * 256 + b)) 3 (a * 256 + b) acc) [
      | none ↦ err (failure length_value)
      | some acc' ↦ profiles_loop rest acc'
    ]

-- `UseSrtpExtension`
pub record UseSrtp : Type 0 where
  pub profiles : List ℕ
  pub mki : Bytes

unfoldable pub parse_use_srtp : Bytes → IResult UseSrtp
parse_use_srtp input = do
  (input, profiles_length) ← be_u16 input
  (input, profiles_data) ← take_bytes profiles_length input
  profiles ← profiles_loop profiles_data []
  (input, mki_length) ← be_u8 input
  (input, mki) ← take_bytes mki_length input
  fail_if (not (is_empty input)) (failure length_value)
  ok (input, record { profiles = profiles; mki = mki })

abbrev pub profile_bytes : List ℕ → Bytes
profile_bytes [] = []
profile_bytes (p ∷ ps) = u16_bytes p ++ profile_bytes ps

unfoldable pub serialize_use_srtp : UseSrtp → Bytes
serialize_use_srtp srtp =
    u16_bytes (length srtp.profiles * 2)
    ++ (profile_bytes srtp.profiles ++ (length srtp.mki % 256 ∷ srtp.mki))

-- `parse_cookie_extension`
unfoldable pub parse_cookie : Bytes → IResult Bytes
parse_cookie input = do
  fail_if (ltb (length input) 2) (failure length_value)
  (rest, cookie_len) ← be_u16 input
  fail_if (cookie_len == 0 || not (length rest == cookie_len)) (failure length_value)
  ok ([], rest)

-- `KeyShareEntry`, its key a range of the buffer.
pub record KeyShareEntry : Type 0 where
  pub group : NamedGroup
  pub start : ℕ
  pub end : ℕ

abbrev pub key_exchange : KeyShareEntry → Bytes → Bytes
key_exchange entry buf = slice entry.start entry.end buf

unfoldable pub parse_key_share_entry : Bytes → ℕ → IResult KeyShareEntry
parse_key_share_entry original_input base_offset = do
  (input, group) ← be_u16 original_input
  (input, ke_len) ← be_u16 input
  let start = base_offset + (length original_input - length input)
  (input, piece) ← take_bytes ke_len input
  ok (input, record { group = group; start = start; end = start + length piece })

unfoldable pub serialize_key_share_entry : KeyShareEntry → Bytes → Bytes
serialize_key_share_entry entry buf =
    u16_bytes entry.group ++ (u16_bytes (length (key_exchange entry buf)) ++ key_exchange entry buf)

-- On as much fuel as there are bytes.
unfoldable pub entries_loop : ℕ → Bytes → ℕ → List KeyShareEntry → Result Err (List KeyShareEntry)
entries_loop zero input offset acc = ok acc
entries_loop (suc fuel) [] offset acc = ok acc
entries_loop (suc fuel) (b ∷ input) offset acc = elim (parse_key_share_entry (b ∷ input) offset) [
  | err e ↦ err e
  | ok (rest, entry) ↦ elim (push_if (contains supported_groups entry.group) 4 entry acc) [
    | none ↦ err (failure length_value)
    | some acc' ↦ entries_loop fuel rest (offset + (suc (length input) - length rest)) acc'
  ]
]

-- `KeyShareClientHello::parse`, `KeyShareServerHello::parse` and `KeyShareHelloRetryRequest::parse`
unfoldable pub parse_key_shares : Bytes → ℕ → IResult (List KeyShareEntry)
parse_key_shares original_input base_offset = do
  (input, list_len) ← be_u16 original_input
  (input, entries_data) ← take_bytes list_len input
  fail_if (not (is_empty input)) (failure length_value)
  entries ← entries_loop (length entries_data) entries_data (base_offset + 2) []
  ok (input, entries)

unfoldable pub parse_key_share : Bytes → ℕ → IResult KeyShareEntry
parse_key_share input base_offset = do
  (input, entry) ← parse_key_share_entry input base_offset
  fail_if (not (is_empty input)) (failure length_value)
  ok (input, entry)

unfoldable pub parse_selected_group : Bytes → IResult NamedGroup
parse_selected_group input = do
  (input, selected_group) ← be_u16 input
  fail_if (not (is_empty input)) (failure length_value)
  ok (input, selected_group)
