-- ===== src/Dtls13/Client/RetryContents.antt =====
-- src/dtls13/client.rs, `await_server_hello`: what is read of a HelloRetryRequest depends on the types and the
-- data of its extensions, not on where they stand.
use dimpl.Base.{
  ℕ, ◌≡◌, refl, Bool, some, List, [], ◌∷◌, Result, ok, err, Bytes, ◌==◌, if◌then◌else◌,
}
use dimpl.Dtls13.Message.{ext_supported_versions, ext_key_share, ext_cookie}
use dimpl.Dtls13.Message.Extension.{Extension, extension_data}
use dimpl.Dtls13.Message.Extensions.{parse_cookie}
use dimpl.Dtls13.Message.Placed.{contents}
use dimpl.Dtls13.Peer.{Failure, Act, ◌>>=◌, ◌>>◌, pure, modify, branch, parsed, continue_with}
use dimpl.Dtls13.Client.{Client}
use dimpl.Dtls13.Client.Retry.{
  read_retry_extension, read_retry_extensions, select_retry_group, selects_dtls13, retry_version_ok,
}

-- The loops, on the contents of the extensions alone.
abbrev read_content : ℕ × Bytes → Act Client (Unit {0})
read_content (t, text) = branch (t == ext_key_share) (modify (select_retry_group text)) (
    branch (t == ext_cookie)
      (do cookie ← parsed (parse_cookie text); modify (λ c. record c { saved_cookie = some text }))
      (pure tt))

abbrev pub read_contents : List (ℕ × Bytes) → Act Client (Unit {0})
read_contents [] = pure tt
read_contents (x ∷ xs) = do read_content x; read_contents xs

pub read_retry_extensions-contents :
    (buf : Bytes) (exts : List Extension) (c : Client)
    → read_retry_extensions buf exts c ≡ read_contents (contents exts buf) c
unfolding read_retry_extensions read_retry_extension
read_retry_extensions-contents buf [] c = refl
read_retry_extensions-contents buf (ext ∷ exts) c =
    then_same (read_content (ext.extension_type, extension_data ext buf) c)
      (read_retry_extensions-contents buf exts)
  where
    then_same :
        {f g : Act Client (Unit {0})} (r : Client × Result Failure (Unit {0}))
        → ((t : Client) → f t ≡ g t)
        → continue_with r (λ a. f) ≡ continue_with r (λ a. g)
    then_same (t, ok a) same = same t
    then_same (t, err x) same = refl

abbrev pub version_of : List (ℕ × Bytes) → Bool → Bool
version_of [] before = before
version_of ((t, text) ∷ xs) before =
    version_of xs (if t == ext_supported_versions then selects_dtls13 text before else before)

pub retry_version_ok-contents :
    (buf : Bytes) (exts : List Extension) (before : Bool)
    → retry_version_ok buf exts before ≡ version_of (contents exts buf) before
unfolding retry_version_ok
retry_version_ok-contents buf [] before = refl
retry_version_ok-contents buf (ext ∷ exts) before = retry_version_ok-contents buf exts _
