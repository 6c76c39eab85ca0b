-- ===== src/Examples/Hellos.antt =====
-- A ClientHello and a ServerHello, written and read back.
use dimpl.Base.{ℕ, ◌≡◌, refl, false, some, List, [], ◌∷◌, ok, Bytes, replicate, Option, arith}
use dimpl.Wire.{dtls1_2}
use dimpl.Dtls13.Message.{
  ext_supported_versions, ext_supported_groups, ext_key_share, ext_cookie, null_compression,
}
use dimpl.Dtls13.Message.Extension.{Extension}
use dimpl.Dtls13.Message.Placed.{contents}
use dimpl.Dtls13.Message.ClientHello.{ClientHello, parse_with_options}
use dimpl.Dtls13.Message.ClientHello
use dimpl.Dtls13.Message.ClientRoundTrip
use dimpl.Dtls13.Message.ClientRoundTrip.{parse-serialize_client_hello}
use dimpl.Dtls13.Message.ServerHello.{ServerHello, hrr_random}
use dimpl.Dtls13.Message.ServerHello
use dimpl.Dtls13.Message.ServerRoundTrip
use dimpl.Dtls13.Message.ServerRoundTrip.{parse-serialize_server_hello, held}

-- DTLS 1.3 only, X25519 with a key of two bytes, and a cookie of 32 bytes.
abbrev pub offered : Bytes
offered =
    2 ∷ 0xfe ∷ 0xfc ∷ 0 ∷ 2 ∷ 0 ∷ 29 ∷ 0 ∷ 6 ∷ 0 ∷ 29 ∷ 0 ∷ 2 ∷ 7 ∷ 8 ∷ 0 ∷ 32 ∷ replicate 32 7

abbrev pub extension : ℕ → ℕ → ℕ → Extension
extension t start end = record { extension_type = t; start = start; end = end }

abbrev pub client_hello : ClientHello
client_hello = record {
  legacy_version = dtls1_2;
  random = replicate 32 5;
  legacy_session_id = 9 ∷ [];
  legacy_cookie = [];
  cipher_suites = 0x1302 ∷ 0x1301 ∷ [];
  legacy_compression_methods = null_compression ∷ [];
  extensions =
      extension ext_supported_versions 0 3
      ∷ extension ext_supported_groups 3 7
      ∷ extension ext_key_share 7 15
      ∷ extension ext_cookie 15 49
      ∷ [];
}

client_hello-Fits : ClientRoundTrip.Fits client_hello offered
client_hello-Fits = record {
  version = omega arith;
  random = refl;
  session = omega arith;
  cookie = omega arith;
  suites = (refl, (refl, tt));
  some_suite = omega arith;
  suite_room = omega arith;
  compression = refl;
  fit = omega arith;
  fresh = ((refl, refl, (refl, refl, (refl, refl, (refl, refl, tt)))));
  room = omega arith;
  total = omega arith;
}

parse-serialize_client_hello_example :
    (exts : List Extension) × (parse_with_options
        (ClientHello.serialize client_hello offered)
        0
        false
      ≡ ok ([], record client_hello { extensions = exts }))
    × (contents exts (ClientHello.serialize client_hello offered)
        ≡ contents client_hello.extensions offered)
parse-serialize_client_hello_example =
    parse-serialize_client_hello client_hello offered false client_hello-Fits

-- A HelloRetryRequest that selects a group.
abbrev server_hello : ServerHello
server_hello = record {
  legacy_version = dtls1_2;
  random = hrr_random;
  legacy_session_id = [];
  cipher_suite = 0x1301;
  legacy_compression_method = null_compression;
  extensions = some (extension ext_supported_versions 0 2 ∷ extension ext_key_share 2 4 ∷ []);
}

abbrev selected : Bytes
selected = 0xfe ∷ 0xfc ∷ 0 ∷ 23 ∷ []

server_hello-Fits : ServerRoundTrip.Fits server_hello selected
server_hello-Fits = record {
  version = omega arith;
  random = refl;
  session = omega arith;
  suite = omega arith;
  extensions = (omega arith, (refl, refl, (refl, refl, tt)), omega arith, omega arith);
}

parse-serialize_server_hello_example :
    (exts : Option (List Extension)) × (ServerHello.parse
        (ServerHello.serialize server_hello selected)
        0
      ≡ ok ([], record server_hello { extensions = exts }))
    × (held exts (ServerHello.serialize server_hello selected)
        ≡ held server_hello.extensions selected)
parse-serialize_server_hello_example =
    parse-serialize_server_hello server_hello selected server_hello-Fits
