-- ===== src/Dtls13/Client/Selected.antt =====
-- src/dtls13/client.rs and src/dtls13/server.rs: what the client takes from the ServerHello that the server
-- writes.
use dimpl.Base.{
  ℕ, ◌+◌, ◌-◌, ◌^◌, ◌≤◌, ◌<◌, ◌≡◌, refl, ap, sym, ◌∙◌, true, false, ◌||◌, Option, none, some, List,
  [], ◌∷◌, ◌++◌, ok, Bytes, ◌==◌, if◌then◌else◌, length, take, take-all, arith, append-nil,
}
use dimpl.Wire
use dimpl.Wire.{u16_bytes, dtls1_3, be_u16}
use dimpl.Wire.Numbers.{be_u16-u16_bytes, take_bytes-append}
use dimpl.Dtls13.Message.{NamedGroup, ext_supported_versions, ext_key_share}
use dimpl.Dtls13.Message.Extension.{Extension}
use dimpl.Dtls13.Message.Extensions.{
  KeyShareEntry, key_exchange, parse_selected_version, parse_key_share, parse_key_share_entry,
  serialize_key_share_entry,
}
use dimpl.Dtls13.Message.Placed.{contents}
use dimpl.Dtls13.Message.ServerHello.{ServerHello}
use dimpl.Dtls13.Message.ServerHello
use dimpl.Dtls13.Message.ServerRoundTrip.{Fits, held, parse-serialize_server_hello}
use dimpl.Dtls13.Peer.Create.{
  server_hello_extensions, server_hello_body, server_hello_of, push_extension,
}
use dimpl.Dtls13.Client.Retry.{selects_dtls13}
use dimpl.Dtls13.Client.Hello.{Selection, append_key, read_selection}

abbrev read_content : ℕ × Bytes → Selection → Selection
read_content (t, text) sel =
    if t == ext_supported_versions
    then record sel { supported_version_ok = sel.supported_version_ok || selects_dtls13 text false }
    else if t == ext_key_share
    then append_key text sel
    else sel

abbrev read_contents : List (ℕ × Bytes) → Selection → Selection
read_contents [] sel = sel
read_contents (x ∷ xs) sel = read_contents xs (read_content x sel)

read_selection-contents :
    (buf : Bytes) (exts : List Extension) (sel : Selection)
    → read_selection buf exts sel ≡ read_contents (contents exts buf) sel
unfolding read_selection
read_selection-contents buf [] sel = refl
read_selection-contents buf (ext ∷ exts) sel = read_selection-contents buf exts _

-- A key share, alone in its extension.
abbrev share : NamedGroup → Bytes → Bytes
share group key = u16_bytes group ++ (u16_bytes (length key) ++ key)

abbrev alone : NamedGroup → Bytes → KeyShareEntry
alone group key = record { group = group; start = 4; end = 4 + length key }

parse_key_share-share :
    (group : ℕ) (key : Bytes)
    → group < 2 ^ 16
    → length key < 2 ^ 16
    → parse_key_share (share group key) 0 ≡ ok ([], alone group key)
unfolding parse_key_share parse_key_share_entry
parse_key_share-share group key hg hk = ground (
  arith,
  be_u16-u16_bytes group (u16_bytes (length key) ++ key) hg,
  be_u16-u16_bytes (length key) key hk,
  ap (λ b. Wire.take_bytes (length key) b) (sym (append-nil key)) ∙ take_bytes-append key [],
)

key_alone : (group : ℕ) (key : Bytes) → key_exchange (alone group key) (share group key) ≡ key
key_alone group key = take-all _ key (omega arith)

abbrev nothing_yet : Bytes → Selection
nothing_yet before = record {
  supported_version_ok = false;
  server_key_share = none;
  extension_data = before;
}

-- DTLS 1.3, and a group with a key that is kept behind `before`.
abbrev pub selected : Bytes → NamedGroup → Bytes → Selection
selected before group key = record {
  supported_version_ok = true;
  server_key_share = some (group, (length before, length before + length key));
  extension_data = before ++ key;
}

read_contents-written :
    (before : Bytes) (group : ℕ) (key : Bytes)
    → group < 2 ^ 16
    → length key < 2 ^ 16
    → read_contents
        ((ext_supported_versions, u16_bytes dtls1_3) ∷ (ext_key_share, share group key) ∷ [])
        (nothing_yet before)
      ≡ selected before group key
unfolding parse_selected_version be_u16
read_contents-written before group key hg hk =
    rw (parse_key_share-share group key hg hk, append_key)
      (ap (λ k. selected before group k) (key_alone group key))

contents-server_hello_extensions :
    (entry : KeyShareEntry) (storage : Bytes)
    → contents (server_hello_extensions entry storage).0 (server_hello_extensions entry storage).1
      ≡ (ext_supported_versions, u16_bytes dtls1_3)
        ∷ (ext_key_share, share entry.group (key_exchange entry storage))
        ∷ []
unfolding server_hello_extensions push_extension serialize_key_share_entry
contents-server_hello_extensions entry storage =
    ap (λ text. (ext_supported_versions, u16_bytes dtls1_3) ∷ (ext_key_share, text) ∷ [])
      (take-all _ (share entry.group (key_exchange entry storage)) (omega arith))

abbrev hello_of : Bytes → Bytes → ℕ → KeyShareEntry → Bytes → ServerHello
hello_of random sid suite entry storage =
    server_hello_of random sid suite (server_hello_extensions entry storage).0

hello_of-Fits :
    (random sid : Bytes) (suite : ℕ) (entry : KeyShareEntry) (storage : Bytes)
    → length random ≡ 32
    → length sid ≤ 32
    → suite < 2 ^ 16
    → length (key_exchange entry storage) < 2 ^ 15
    → Fits (hello_of random sid suite entry storage) (server_hello_extensions entry storage).1
unfolding server_hello_extensions push_extension serialize_key_share_entry
hello_of-Fits random sid suite entry storage hr hs hc hk =
    let text : Bytes = share entry.group (key_exchange entry storage) in
    let size : length (take (2 + length text - 2) text) ≡ length text =
      ap length (take-all _ text (omega arith)) in
    record {
      version = omega arith;
      random = hr;
      session = hs;
      suite = hc;
      extensions = (
        ((omega arith, omega arith), ((omega arith, omega (arith, size)), tt)),
        (refl, refl, (refl, refl, tt)),
        omega arith,
        omega (arith, size),
      );
    }

-- What the client reads in the body `buf` of a ServerHello.
pub record Selects (random sid : Bytes) (suite : ℕ) (group : NamedGroup) (key buf before : Bytes)
    : Type 0 where
  pub exts : List Extension
  pub parsed : ServerHello.parse buf 0 ≡ ok ([], server_hello_of random sid suite exts)
  pub selection : read_selection buf exts (nothing_yet before) ≡ selected before group key

same_some : {A : Type 0} {x y : A} → some x ≡ some y → x ≡ y
same_some h = cc

same_held :
    (random sid : Bytes) (suite group : ℕ) (key buf before : Bytes) (exts : Option (List Extension))
    → group < 2 ^ 16
    → length key < 2 ^ 15
    → ServerHello.parse buf 0
      ≡ ok ([], record (server_hello_of random sid suite []) { extensions = exts })
    → held exts buf
      ≡ some ((ext_supported_versions, u16_bytes dtls1_3) ∷ (ext_key_share, share group key) ∷ [])
    → Selects random sid suite group key buf before
same_held random sid suite group key buf before none hg hk parses same = cc
same_held random sid suite group key buf before (some exts) hg hk parses same = record {
  exts = exts;
  parsed = parses;
  selection =
      read_selection-contents buf exts (nothing_yet before)
      ∙ ap (λ xs. read_contents xs (nothing_yet before)) (same_some same)
      ∙ read_contents-written before group key hg (omega arith);
}

-- The ServerHello that the server writes, with a random value of 32 bytes, a session id, a suite and a
-- group that fit, and a key of less than 2^15 bytes, is read by the client whole, with the same random
-- value, session id and suite, and what the client selects from it is DTLS 1.3 and the server's group and
-- key, which is kept behind what the client had.
pub server_hello_body-Selects :
    (random sid : Bytes) (suite : ℕ) (entry : KeyShareEntry) (storage before : Bytes)
    → length random ≡ 32
    → length sid ≤ 32
    → suite < 2 ^ 16
    → entry.group < 2 ^ 16
    → length (key_exchange entry storage) < 2 ^ 15
    → Selects random sid suite entry.group
        (key_exchange entry storage)
        (server_hello_body random sid suite entry storage)
        before
unfolding server_hello_body
server_hello_body-Selects random sid suite entry storage before hr hs hc hg hk =
    let buf : Bytes = (server_hello_extensions entry storage).1 in
    let hello : ServerHello = hello_of random sid suite entry storage in
    let (exts, parses, same) =
      parse-serialize_server_hello hello buf
        (hello_of-Fits random sid suite entry storage hr hs hc hk) in
    same_held random sid suite entry.group (key_exchange entry storage)
      (ServerHello.serialize hello buf) before exts hg hk parses
      (same ∙ ap some (contents-server_hello_extensions entry storage))
