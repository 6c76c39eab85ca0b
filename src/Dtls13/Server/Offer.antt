-- ===== src/Dtls13/Server/Offer.antt =====
-- src/dtls13/server.rs, `await_client_hello`: what the extensions of a ClientHello offer.
use dimpl.Base.{
  ℕ, Bool, false, ◌||◌, Option, none, some, List, [], ◌∷◌, Result, ok, err, Bytes, ltb, ◌==◌,
  if◌then◌else◌, length, contains, any, find, ◌>>=◌,
}
use dimpl.Wire.{Err, dtls1_3}
use dimpl.Dtls13.Message.{
  NamedGroup, ext_supported_versions, ext_key_share, ext_supported_groups, ext_use_srtp, ext_cookie,
}
use dimpl.Dtls13.Message.Extension.{Extension, extension_data}
use dimpl.Dtls13.Message.Extensions.{
  KeyShareEntry, parse_supported_versions, parse_key_shares, parse_supported_groups, parse_use_srtp,
  parse_cookie,
}
use dimpl.Dtls13.Peer.{Failure, malformed, security, invalid_cookie_in_client_hello}

pub record Offer : Type 0 where
  pub supported_versions_ok : Bool
  pub key_shares : Option (List KeyShareEntry)
  pub supported_groups : Option (List NamedGroup)
  pub srtp_profiles : Option (List ℕ)
  pub cookie_data : Option Bytes

abbrev pub no_offer : Offer
no_offer = record {
  supported_versions_ok = false;
  key_shares = none;
  supported_groups = none;
  srtp_profiles = none;
  cookie_data = none;
}

-- `map_err(InternalError::from)?`, without the rest of the input.
abbrev pub value_of : {A : Type 0} → Result Err (Bytes × A) → Result Failure A
value_of (ok (rest, a)) = ok a
value_of (err e) = err (malformed e)

abbrev pub cookie_len : ℕ
cookie_len = 32

-- A cookie longer than its vector.
abbrev pub checked_cookie : Bytes → Result Failure Bytes
checked_cookie cookie =
    if ltb cookie_len (length cookie)
    then err (security invalid_cookie_in_client_hello)
    else ok cookie

-- One round of the loop. Signature algorithms are parsed, and whatever comes out is dropped; other
-- extensions are passed over.
unfoldable pub read_extension : Bytes → Extension → Offer → Result Failure Offer
read_extension buf ext offer =
    let text = extension_data ext buf in
    if ext.extension_type == ext_supported_versions
    then (do
      versions ← value_of (parse_supported_versions text)
      ok (record offer {
        supported_versions_ok = offer.supported_versions_ok || contains versions dtls1_3;
      }))
    else if ext.extension_type == ext_key_share
    then (do
      entries ← value_of (parse_key_shares text ext.start)
      ok (record offer { key_shares = some entries }))
    else if ext.extension_type == ext_supported_groups
    then (do
      groups ← value_of (parse_supported_groups text)
      ok (record offer { supported_groups = some groups }))
    else if ext.extension_type == ext_use_srtp
    then (do
      use_srtp ← value_of (parse_use_srtp text)
      ok (record offer { srtp_profiles = some use_srtp.profiles }))
    else if ext.extension_type == ext_cookie
    then (do
      cookie ← value_of (parse_cookie text)
      cookie ← checked_cookie cookie
      ok (record offer { cookie_data = some cookie }))
    else ok offer

unfoldable pub read_offer : Bytes → List Extension → Offer → Result Failure Offer
unfolding read_extension
read_offer buf [] offer = ok offer
read_offer buf (ext ∷ exts) offer = elim (read_extension buf ext offer) [
  | err e ↦ err e
  | ok offer' ↦ read_offer buf exts offer'
]

-- `as_ref().map(as_slice).unwrap_or(&[])`
abbrev pub or_none {ℓ} : {A : Type ℓ} → Option (List A) → List A
or_none none = []
or_none (some xs) = xs

-- The first key share for a group of ours.
unfoldable pub matching_entry : List NamedGroup → Offer → Option KeyShareEntry
matching_entry our_groups offer =
    find (λ entry. contains our_groups entry.group) (or_none offer.key_shares)

-- The first of our groups that the client supports.
unfoldable pub common_group : List NamedGroup → Offer → Option NamedGroup
common_group our_groups offer = find (contains (or_none offer.supported_groups)) our_groups

-- The group to ask for with a cookie, if no key share matches.
unfoldable pub hrr_group : List NamedGroup → Offer → Option NamedGroup
hrr_group our_groups offer =
    if any (λ entry. contains our_groups entry.group) (or_none offer.key_shares)
    then none
    else common_group our_groups offer

abbrev pub known_profiles : List ℕ
known_profiles = 0x0008 ∷ 0x0007 ∷ 0x0001 ∷ []

-- The first profile of the client that is one of ours; without one the choice stays as it was.
unfoldable pub select_profile : Option ℕ → Offer → Option ℕ
select_profile before offer = elim (find (contains known_profiles) (or_none offer.srtp_profiles)) [
  | none ↦ before
  | some profile ↦ some profile
]
