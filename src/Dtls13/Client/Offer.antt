-- ===== src/Dtls13/Client/Offer.antt =====
-- src/dtls13/client.rs, `handshake_create_client_hello`: the ClientHello that is sent.
use dimpl.Base.{
  ℕ, ◌+◌, ◌-◌, ◌*◌, ◌%◌, Option, none, some, List, [], ◌∷◌, ◌++◌, Bytes, length, take, replicate,
  leb, if◌then◌else◌,
}
use dimpl.Wire.{dtls1_2, dtls1_3, ProtocolVersion, u16_bytes}
use dimpl.Dtls13.Message.{
  NamedGroup, ExtensionType, null_compression, ext_supported_versions, ext_supported_groups,
  ext_key_share, ext_signature_algorithms, ext_use_srtp, ext_cookie, supported_schemes,
}
use dimpl.Dtls13.Message.Extensions.{KeyShareEntry, serialize_key_share_entry, serialize_use_srtp}
use dimpl.Dtls13.Message.ClientHello.{ClientHello}
use dimpl.Dtls13.Message.ClientHello
use dimpl.Dtls13.Peer.{Backend}
use dimpl.Dtls13.Peer.Create.{Extensions, push_extension, no_extensions, scheme_bytes}

abbrev ext_padding : ExtensionType
ext_padding = 0x0015

-- Versions, groups and schemes are numbers of two bytes each.
abbrev numbers : List ℕ → Bytes
numbers xs = scheme_bytes xs

unfoldable pub serialize_versions : List ProtocolVersion → Bytes
serialize_versions versions = (length versions * 2) % 256 ∷ numbers versions

unfoldable pub serialize_groups : List NamedGroup → Bytes
serialize_groups groups = u16_bytes (length groups * 2) ++ numbers groups

abbrev entry_bytes : List KeyShareEntry → Bytes → Bytes
entry_bytes [] buf = []
entry_bytes (entry ∷ entries) buf = serialize_key_share_entry entry buf ++ entry_bytes entries buf

unfoldable pub serialize_key_shares : List KeyShareEntry → Bytes → Bytes
serialize_key_shares entries buf =
    u16_bytes (length (entry_bytes entries buf)) ++ entry_bytes entries buf

-- `UseSrtpExtension::default`
abbrev default_profiles : List ℕ
default_profiles = 0x0008 ∷ 0x0007 ∷ 0x0001 ∷ []

-- The cookie with its length, as the HelloRetryRequest had it.
abbrev push_cookie : Option Bytes → Extensions → Extensions
push_cookie none exts = exts
push_cookie (some cookie) exts = push_extension ext_cookie cookie exts

-- Zeros that fill the datagram, if there is room for the extension.
abbrev padded : ℕ → Extensions → Extensions
padded deficit exts =
    if leb 4 deficit then push_extension ext_padding (replicate (deficit - 4) 0) exts else exts

unfoldable pub client_hello_extensions : Backend → KeyShareEntry → Option Bytes → Bytes → Extensions
client_hello_extensions b entry cookie extension_data = push_cookie cookie (
    push_extension ext_use_srtp
      (serialize_use_srtp (record { profiles = default_profiles; mki = [] }))
      (push_extension ext_signature_algorithms
        (u16_bytes (length supported_schemes * 2) ++ scheme_bytes supported_schemes)
        (push_extension ext_key_share (serialize_key_shares (entry ∷ []) extension_data) (
          push_extension ext_supported_groups (serialize_groups b.kx_groups) (
            push_extension ext_supported_versions (serialize_versions (dtls1_3 ∷ []))
              no_extensions)))))

-- The length of the record without padding: the headers, the fields, and the extensions.
unfoldable pub unpadded_len : ℕ → Extensions → ℕ
unpadded_len suites (exts, ext_buf) =
    13 + 12 + (2 + 32 + 1 + 1 + (2 + suites * 2) + (1 + 1) + 2 + length exts * 4 + length ext_buf)

unfoldable pub client_hello_body :
    Backend → ℕ → Bytes → KeyShareEntry → Option Bytes → Bytes → Bytes
client_hello_body b mtu random entry cookie extension_data =
    let suites = take 3 b.dtls13_cipher_suites in
    let before = client_hello_extensions b entry cookie extension_data in
    let (exts, ext_buf) = padded (mtu - unpadded_len (length suites) before) before in
    ClientHello.serialize
      (record {
        legacy_version = dtls1_2;
        random = random;
        legacy_session_id = [];
        legacy_cookie = [];
        cipher_suites = suites;
        legacy_compression_methods = null_compression ∷ [];
        extensions = exts;
      })
      ext_buf
