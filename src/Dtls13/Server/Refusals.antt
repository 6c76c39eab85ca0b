-- ===== src/Dtls13/Server/Refusals.antt =====
-- src/dtls13/server.rs: what is refused is no end of fuel.
use dimpl.Base.{
  List, [], ◌∷◌, ◌==◌, ltb, length, if◌then◌else◌, ◌>>=◌, refl, Bool, true, false, Result, ok, err,
  Bytes,
}
use dimpl.Wire
use dimpl.Dtls13.Message.Extension.{Extension, extension_data}
use dimpl.Dtls13.Peer.Ends.{Ends}
use dimpl.Dtls13.Message.Extensions.{
  parse_supported_versions, parse_key_shares, parse_supported_groups, parse_use_srtp, parse_cookie,
}
use dimpl.Dtls13.Peer.{Failure}
use dimpl.Dtls13.Message.{
  ext_supported_versions, ext_key_share, ext_supported_groups, ext_use_srtp, ext_cookie,
}
use dimpl.Dtls13.Server.Offer.{
  Offer, value_of, read_extension, read_offer, checked_cookie, cookie_len,
}

value_of-Ends : {A : Type 0} (r : Result Wire.Err (Bytes × A)) → Ends (value_of r)
value_of-Ends (ok a) = tt
value_of-Ends (err x) = refl

bind-Ends :
    {A B : Type 0} (r : Result Failure A) (f : A → Result Failure B)
    → Ends r
    → ((a : A) → Ends (f a))
    → Ends (r >>= f)
bind-Ends (ok a) f h k = k a
bind-Ends (err x) f h k = h

if-Ends :
    {A : Type 0} (b : Bool) (x y : Result Failure A) → Ends x → Ends y → Ends (if b then x else y)
if-Ends true x y h k = h
if-Ends false x y h k = k

checked_cookie-Ends : (cookie : Bytes) → Ends (checked_cookie cookie)
checked_cookie-Ends cookie = if-Ends (ltb cookie_len (length cookie)) _ _ refl tt

read_extension-Ends :
    (buf : Bytes) (ext : Extension) (offer : Offer) → Ends (read_extension buf ext offer)
unfolding read_extension
read_extension-Ends buf ext offer =
    if-Ends (ext.extension_type == ext_supported_versions) _ _
      (bind-Ends (value_of (parse_supported_versions (extension_data ext buf))) _ (value_of-Ends _)
        (λ a. tt))
      (if-Ends (ext.extension_type == ext_key_share) _ _
        (bind-Ends (value_of (parse_key_shares (extension_data ext buf) ext.start)) _
          (value_of-Ends _) (λ a. tt))
        (if-Ends (ext.extension_type == ext_supported_groups) _ _
          (bind-Ends (value_of (parse_supported_groups (extension_data ext buf))) _
            (value_of-Ends _) (λ a. tt))
          (if-Ends (ext.extension_type == ext_use_srtp) _ _
            (bind-Ends (value_of (parse_use_srtp (extension_data ext buf))) _ (value_of-Ends _)
              (λ a. tt))
            (if-Ends (ext.extension_type == ext_cookie) _ _
              (bind-Ends (value_of (parse_cookie (extension_data ext buf))) _ (value_of-Ends _)
                (λ a. bind-Ends (checked_cookie a) _ (checked_cookie-Ends a) (λ b. tt)))
              tt))))

pub read_offer-Ends :
    (buf : Bytes) (exts : List Extension) (offer : Offer) → Ends (read_offer buf exts offer)
unfolding read_offer
read_offer-Ends buf [] offer = tt
read_offer-Ends buf (ext ∷ exts) offer =
    next (read_extension buf ext offer) (read_extension-Ends buf ext offer)
      (read_offer-Ends buf exts)
  where
    next :
        (r : Result Failure Offer)
        → Ends r
        → ((o : Offer) → Ends (read_offer buf exts o))
        → Ends (elim r as (λ _. Result Failure Offer) [
          | err e ↦ err e
          | ok offer' ↦ read_offer buf exts offer'
        ])
    next (err e) h k = h
    next (ok offer') h k = k offer'
