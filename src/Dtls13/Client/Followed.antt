-- ===== src/Dtls13/Client/Followed.antt =====
-- src/dtls13/client.rs and src/dtls13/server.rs: the HelloRetryRequest that the server writes is followed by
-- the client.
use dimpl.Base.{
  ℕ, ◌+◌, ◌-◌, ◌^◌, ◌≤◌, ◌<◌, ◌≡◌, refl, ap, ◌∙◌, true, false, Option, none, some, List, [], ◌∷◌,
  ◌++◌, ok, Bytes, length, take, take-all, arith,
}
use dimpl.Wire.{u16_bytes, dtls1_3, be_u16}
use dimpl.Wire.Numbers.{be_u16-u16_bytes}
use dimpl.Dtls13.Message.{
  NamedGroup, Dtls13CipherSuite, ext_supported_versions, ext_key_share, ext_cookie,
}
use dimpl.Dtls13.Message.Extension.{Extension}
use dimpl.Dtls13.Message.Extensions.{parse_cookie, parse_selected_version, parse_selected_group}
use dimpl.Dtls13.Message.Placed.{contents}
use dimpl.Dtls13.Message.ServerHello.{ServerHello, hrr_random, is_hello_retry_request, bytes_eq}
use dimpl.Dtls13.Message.ServerHello
use dimpl.Dtls13.Message.ServerRoundTrip.{Fits, held, parse-serialize_server_hello}
use dimpl.Dtls13.Peer.Create.{
  hello_retry_extensions, hello_retry_body, server_hello_of, push_extension,
}
use dimpl.Dtls13.Client.{Client}
use dimpl.Dtls13.Client.Retry.{read_retry_extensions, select_retry_group, retry_version_ok}
use dimpl.Dtls13.Client.RetryContents.{
  read_contents, read_retry_extensions-contents, version_of, retry_version_ok-contents,
}

-- The cookie as it is written and kept, with its length.
abbrev pub cookie_text : Bytes → Bytes
cookie_text cookie = u16_bytes (length cookie) ++ cookie

abbrev group_content : Option NamedGroup → List (ℕ × Bytes)
group_content none = []
group_content (some group) = (ext_key_share, u16_bytes group) ∷ []

abbrev written : Bytes → Option NamedGroup → List (ℕ × Bytes)
written cookie group =
    (ext_supported_versions, u16_bytes dtls1_3) ∷ group_content group
    ++ ((ext_cookie, cookie_text cookie) ∷ [])

contents-hello_retry_extensions :
    (cookie : Bytes) (group : Option NamedGroup)
    → contents (hello_retry_extensions cookie group).0 (hello_retry_extensions cookie group).1
      ≡ written cookie group
unfolding hello_retry_extensions push_extension
contents-hello_retry_extensions cookie none =
    ap (λ text. (ext_supported_versions, u16_bytes dtls1_3) ∷ (ext_cookie, text) ∷ [])
      (take-all _ (cookie_text cookie) (omega arith))
contents-hello_retry_extensions cookie (some group) =
    ap
      (λ text.
        (ext_supported_versions, u16_bytes dtls1_3)
        ∷ (ext_key_share, u16_bytes group)
        ∷ (ext_cookie, text)
        ∷ [])
      (take-all _ (cookie_text cookie) (omega arith))

-- What the client keeps of a HelloRetryRequest.
abbrev pub keep_group : Option NamedGroup → Client → Client
keep_group none c = c
keep_group (some group) c = record c { hrr_selected_group = some group }

abbrev pub kept : Bytes → Option NamedGroup → Client → Client
kept cookie group c = record (keep_group group c) { saved_cookie = some (cookie_text cookie) }

abbrev pub GroupFits : Option NamedGroup → Type 0
GroupFits none = Unit {0}
GroupFits (some group) = group < 2 ^ 16

parse_cookie-cookie_text :
    (cookie : Bytes)
    → 0 < length cookie
    → length cookie < 2 ^ 16
    → parse_cookie (cookie_text cookie) ≡ ok ([], cookie)
unfolding parse_cookie
parse_cookie-cookie_text cookie some_bytes small =
    ground (arith, be_u16-u16_bytes (length cookie) cookie small)

parse_selected_group-u16_bytes :
    (group : ℕ) → group < 2 ^ 16 → parse_selected_group (u16_bytes group) ≡ ok ([], group)
unfolding parse_selected_group
parse_selected_group-u16_bytes group small = ground (arith, be_u16-u16_bytes group [] small)

select_group :
    (group : ℕ) (c : Client)
    → group < 2 ^ 16
    → select_retry_group (u16_bytes group) c ≡ record c { hrr_selected_group = some group }
select_group group c small =
    rw (parse_selected_group-u16_bytes group small, select_retry_group) refl

keep_cookie :
    (cookie : Bytes) (c : Client)
    → 0 < length cookie
    → length cookie < 2 ^ 16
    → read_contents ((ext_cookie, cookie_text cookie) ∷ []) c
      ≡ (record c { saved_cookie = some (cookie_text cookie) }, ok tt)
keep_cookie cookie c some_bytes small = rw (parse_cookie-cookie_text cookie some_bytes small) refl

read_contents-written :
    (cookie : Bytes) (group : Option NamedGroup) (c : Client)
    → 0 < length cookie
    → length cookie < 2 ^ 16
    → GroupFits group
    → read_contents (written cookie group) c ≡ (kept cookie group c, ok tt)
read_contents-written cookie none c some_bytes small fits = keep_cookie cookie c some_bytes small
read_contents-written cookie (some group) c some_bytes small fits =
    ap (read_contents ((ext_cookie, cookie_text cookie) ∷ [])) (select_group group c fits)
    ∙ keep_cookie cookie (record c { hrr_selected_group = some group }) some_bytes small

version_of-written :
    (cookie : Bytes) (group : Option NamedGroup) → version_of (written cookie group) false ≡ true
unfolding parse_selected_version be_u16
version_of-written cookie none = refl
version_of-written cookie (some group) = refl

-- The ServerHello that asks for another ClientHello, and its buffer.
abbrev retry_hello : Bytes → Dtls13CipherSuite → Bytes → Option NamedGroup → ServerHello
retry_hello sid suite cookie group =
    server_hello_of hrr_random sid suite (hello_retry_extensions cookie group).0

retry_hello-Fits :
    (sid : Bytes) (suite : ℕ) (cookie : Bytes) (group : Option NamedGroup)
    → length sid ≤ 32
    → suite < 2 ^ 16
    → length cookie ≤ 32
    → GroupFits group
    → Fits (retry_hello sid suite cookie group) (hello_retry_extensions cookie group).1
unfolding hello_retry_extensions push_extension
retry_hello-Fits sid suite cookie none hs hc hl hg =
    let size : length (take (2 + length (cookie_text cookie) - 2) (cookie_text cookie))
        ≡ length (cookie_text cookie) =
      ap length (take-all _ (cookie_text cookie) (omega arith)) in
    record {
      version = omega arith;
      random = refl;
      session = hs;
      suite = hc;
      extensions = (
        ((omega arith, omega arith), ((omega arith, omega (arith, size)), tt)),
        (refl, refl, (refl, refl, tt)),
        omega arith,
        omega (arith, size),
      );
    }
retry_hello-Fits sid suite cookie (some group) hs hc hl hg =
    let size : length (take (4 + length (cookie_text cookie) - 4) (cookie_text cookie))
        ≡ length (cookie_text cookie) =
      ap length (take-all _ (cookie_text cookie) (omega arith)) in
    record {
      version = omega arith;
      random = refl;
      session = hs;
      suite = hc;
      extensions = (
        (
          (omega arith, omega arith),
          ((omega arith, omega arith), ((omega arith, omega (arith, size)), tt)),
        ),
        (refl, refl, (refl, refl, (refl, refl, tt))),
        omega arith,
        omega (arith, size),
      );
    }

-- How the client comes by what the server has asked for in the body `buf`.
pub record Follows (sid : Bytes) (suite : ℕ) (cookie : Bytes) (group : Option NamedGroup)
    (buf : Bytes) (c : Client) : Type 0 where
  pub exts : List Extension
  pub parsed : ServerHello.parse buf 0 ≡ ok ([], server_hello_of hrr_random sid suite exts)
  pub retry : is_hello_retry_request (server_hello_of hrr_random sid suite exts) ≡ true
  pub version_ok : retry_version_ok buf exts false ≡ true
  pub followed : read_retry_extensions buf exts c ≡ (kept cookie group c, ok tt)

same_contents :
    (sid : Bytes) (suite : ℕ) (cookie : Bytes) (group : Option NamedGroup) (buf : Bytes)
    (c : Client) (exts : List Extension)
    → 0 < length cookie
    → length cookie ≤ 32
    → GroupFits group
    → ServerHello.parse buf 0 ≡ ok ([], server_hello_of hrr_random sid suite exts)
    → contents exts buf ≡ written cookie group
    → Follows sid suite cookie group buf c
unfolding is_hello_retry_request
same_contents sid suite cookie group buf c exts some_bytes small fits parses same = record {
  exts = exts;
  parsed = parses;
  retry = refl;
  version_ok =
      retry_version_ok-contents buf exts false
      ∙ ap (λ xs. version_of xs false) same
      ∙ version_of-written cookie group;
  followed =
      read_retry_extensions-contents buf exts c
      ∙ ap (λ xs. read_contents xs c) same
      ∙ read_contents-written cookie group c some_bytes (omega arith) fits;
}

same_some : {A : Type 0} {x y : A} → some x ≡ some y → x ≡ y
same_some h = cc

same_held :
    (sid : Bytes) (suite : ℕ) (cookie : Bytes) (group : Option NamedGroup) (buf : Bytes)
    (c : Client) (exts : Option (List Extension))
    → 0 < length cookie
    → length cookie ≤ 32
    → GroupFits group
    → ServerHello.parse buf 0
      ≡ ok ([], record (server_hello_of hrr_random sid suite []) { extensions = exts })
    → held exts buf ≡ some (written cookie group)
    → Follows sid suite cookie group buf c
same_held sid suite cookie group buf c none some_bytes small fits parses same = cc
same_held sid suite cookie group buf c (some exts) some_bytes small fits parses same =
    same_contents sid suite cookie group buf c exts some_bytes small fits parses (same_some same)

-- The HelloRetryRequest that the server writes, with a cookie of 1 to 32 bytes, a group or none, and a
-- session id and a suite that fit, is read by the client whole, as a HelloRetryRequest that selects
-- DTLS 1.3, and the client keeps exactly the cookie, with its length, and the group.
pub hello_retry_body-Follows :
    (sid : Bytes) (suite : ℕ) (cookie : Bytes) (group : Option NamedGroup) (c : Client)
    → length sid ≤ 32
    → suite < 2 ^ 16
    → 0 < length cookie
    → length cookie ≤ 32
    → GroupFits group
    → Follows sid suite cookie group (hello_retry_body sid suite cookie group) c
unfolding hello_retry_body
hello_retry_body-Follows sid suite cookie group c hs hc some_bytes small fits =
    let (exts, parses, same) =
      parse-serialize_server_hello (retry_hello sid suite cookie group)
        (hello_retry_extensions cookie group).1
        (retry_hello-Fits sid suite cookie group hs hc small fits) in
    same_held sid suite cookie group
      (ServerHello.serialize (retry_hello sid suite cookie group)
        (hello_retry_extensions cookie group).1)
      c exts some_bytes small fits parses
      (same ∙ ap some (contents-hello_retry_extensions cookie group))
