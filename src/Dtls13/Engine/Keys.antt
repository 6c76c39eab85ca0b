-- ===== src/Dtls13/Engine/Keys.antt =====
-- src/dtls13/engine.rs: the key schedule.
use dimpl.Base.{
  ℕ, none, some, [], ◌∷◌, Result, ok, err, Bytes, ltb, leb, ◌==◌, if◌then◌else◌, length, replicate,
}
use dimpl.Crypto.Provider.{HashAlgorithm}
use dimpl.Crypto.Hkdf.{hkdf_extract, hkdf_expand_label_dtls13, output_len}
use dimpl.Dtls13.Engine.{
  EpochKeys, Error, M, ◌>>=◌, ◌>>◌, pure, modify, panicked, derivation_failed, crypto_failed,
}

-- `Dtls13CipherSuite::hash_algorithm`; 255 is `UNKNOWN_DERIVED`.
unfoldable pub hash_algorithm : ℕ → HashAlgorithm
hash_algorithm suite =
    if suite == 0x1302
    then 5
    else if leb 0x1301 suite
    then (if leb suite 0x1305 then 4 else 255)
    else 255

-- The negotiated suite, which the source unwraps.
abbrev pub suite : M ℕ
suite e = elim e.cipher_suite [ none ↦ (e, err panicked) | some s ↦ (e, ok s) ]

abbrev pub lift {κ} : {E : Type κ} {A : Type 0} → (E → Error) → Result E A → M A
lift wrap (ok a) e = (e, ok a)
lift wrap (err x) e = (e, err (wrap x))

-- HKDF-Expand-Label and HKDF-Extract with the hash of the suite and the HMAC of the provider.
unfoldable pub expand : Bytes → Bytes → Bytes → ℕ → M Bytes
expand secret label context len e =
    (do
      s ← suite
      lift derivation_failed (
          hkdf_expand_label_dtls13 e.config.provider.hmac (hash_algorithm s) secret label context
            len))
      e

unfoldable pub extract : Bytes → Bytes → M Bytes
extract salt ikm e =
    (do
      s ← suite
      lift derivation_failed (hkdf_extract e.config.provider.hmac (hash_algorithm s) salt ikm))
      e

abbrev pub hash_len : M ℕ
hash_len = do s ← suite; pure (output_len (hash_algorithm s))

-- `transcript_hash_of`
unfoldable pub hash_of : Bytes → M Bytes
hash_of text e = (do s ← suite; pure (e.config.provider.hash (hash_algorithm s) text)) e

abbrev pub label_key : Bytes
label_key = b'k' ∷ b'e' ∷ b'y' ∷ []

abbrev pub label_iv : Bytes
label_iv = b'i' ∷ b'v' ∷ []

abbrev pub label_sn : Bytes
label_sn = b's' ∷ b'n' ∷ []

abbrev pub label_derived : Bytes
label_derived = b'd' ∷ b'e' ∷ b'r' ∷ b'i' ∷ b'v' ∷ b'e' ∷ b'd' ∷ []

abbrev label_traffic_upd : Bytes
label_traffic_upd = b't' ∷ b'r' ∷ b'a' ∷ b'f' ∷ b'f' ∷ b'i' ∷ b'c' ∷ b' ' ∷ b'u' ∷ b'p' ∷ b'd' ∷ []

-- "c hs traffic", "s hs traffic", "c ap traffic", "s ap traffic" by side and phase.
abbrev label_traffic : ℕ → ℕ → ℕ → Bytes
label_traffic side a b =
    side ∷ b' ' ∷ a ∷ b ∷ b' ' ∷ b't' ∷ b'r' ∷ b'a' ∷ b'f' ∷ b'f' ∷ b'i' ∷ b'c' ∷ []

abbrev label_exp_master : Bytes
label_exp_master = b'e' ∷ b'x' ∷ b'p' ∷ b' ' ∷ b'm' ∷ b'a' ∷ b's' ∷ b't' ∷ b'e' ∷ b'r' ∷ []

-- `iv.copy_from_slice` panics unless the IV has 12 bytes.
unfoldable pub derive_epoch_keys : Bytes → M EpochKeys
derive_epoch_keys secret e =
    (do
      s ← suite
      key ← expand secret label_key [] (e.config.provider.key_len s)
      iv ← expand secret label_iv [] (e.config.provider.iv_len s)
      sn_key ← expand secret label_sn [] (e.config.provider.key_len s)
      cipher ← λ e'. elim (e.config.provider.create_cipher s key) [
        | none ↦ (e', err crypto_failed)
        | some c ↦ (e', ok c)
      ]
      λ e'.
          if length iv == 12
          then (
            e',
            ok (record { cipher = cipher; iv = iv; traffic_secret = secret; sn_key = sn_key }),
          )
          else (e', err panicked))
      e

unfoldable pub derive_next_traffic_secret : Bytes → M Bytes
derive_next_traffic_secret current = do n ← hash_len; expand current label_traffic_upd [] n

-- `&zeros[..hash_len]` of 48 zeros panics for a longer hash.
abbrev zeros : M Bytes
zeros = do n ← hash_len; λ e. if ltb 48 n then (e, err panicked) else (e, ok (replicate n 0))

unfoldable pub derive_early_secret : M Bytes
derive_early_secret = do z ← zeros; extract z z

-- Client and server handshake traffic secrets, and the handshake secret.
unfoldable pub derive_handshake_secrets : Bytes → M (Bytes × Bytes × Bytes)
derive_handshake_secrets shared_secret e =
    (do
      early ← derive_early_secret
      n ← hash_len
      empty_hash ← hash_of []
      derived ← expand early label_derived empty_hash n
      handshake_secret ← extract derived shared_secret
      transcript ← hash_of e.transcript
      c ← expand handshake_secret (label_traffic b'c' b'h' b's') transcript n
      s ← expand handshake_secret (label_traffic b's' b'h' b's') transcript n
      pure (c, s, handshake_secret))
      e

unfoldable pub derive_application_secrets : Bytes → M (Bytes × Bytes)
derive_application_secrets handshake_secret e =
    (do
      n ← hash_len
      empty_hash ← hash_of []
      derived ← expand handshake_secret label_derived empty_hash n
      z ← zeros
      master ← extract derived z
      transcript ← hash_of e.transcript
      exporter ← expand master label_exp_master transcript n
      c ← expand master (label_traffic b'c' b'a' b'p') transcript n
      s ← expand master (label_traffic b's' b'a' b'p') transcript n
      modify (λ e'. record e' { exporter_master_secret = some exporter })
      pure (c, s))
      e
