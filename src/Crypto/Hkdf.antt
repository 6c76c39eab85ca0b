-- ===== src/Crypto/Hkdf.antt =====
-- src/crypto/prf_hkdf.rs: HKDF and the label structure of TLS 1.3 and DTLS 1.3, over any HMAC.
pub mod Laws
use dimpl.Base.{
  ℕ, zero, suc, ◌+◌, ◌-◌, ◌*◌, ◌/◌, ◌%◌, min, Bool, true, false, Option, none, some, List, [], ◌∷◌,
  ◌++◌, ltb, ◌==◌, if◌then◌else◌, Result, ok, err, ◌>>=◌, ◌>>◌, fail_if, Bytes, length, take,
  is_empty, replicate,
}
use dimpl.Wire.{u16_bytes}
use dimpl.Crypto.Provider.{HashAlgorithm}

-- The errors of `CryptoError` that derivation raises; `operation_failed` is the HMAC's own, and
-- `panicked` is no value of it: a division by a hash length of 0.
pub data HkdfError : Type 0 where
  hkdf_output_too_long hkdf_label_too_long hkdf_context_too_long : HkdfError
  hkdf_output_length_too_large operation_failed panicked : HkdfError

-- `HashAlgorithm::output_len`
unfoldable pub output_len : HashAlgorithm → ℕ
output_len h =
    if h == 1
    then 16
    else if h == 2
    then 20
    else if h == 3
    then 28
    else if h == 4
    then 32
    else if h == 5
    then 48
    else if h == 6
    then 64
    else 0

-- `b"dtls13"` and `b"tls13 "`
abbrev pub dtls13_prefix : Bytes
dtls13_prefix = b'd' ∷ b't' ∷ b'l' ∷ b's' ∷ b'1' ∷ b'3' ∷ []

abbrev pub tls13_prefix : Bytes
tls13_prefix = b't' ∷ b'l' ∷ b's' ∷ b'1' ∷ b'3' ∷ b' ' ∷ []

unfoldable pub build_hkdf_label : Bytes → Bytes → Bytes → ℕ → Result HkdfError Bytes
build_hkdf_label prefix label context len = do
  let full_label_len = length prefix + length label
  fail_if (ltb 255 full_label_len) hkdf_label_too_long
  fail_if (ltb 255 (length context)) hkdf_context_too_long
  fail_if (ltb 65535 len) hkdf_output_length_too_large
  ok (
      u16_bytes (len % 65536)
      ++ (full_label_len % 256 ∷ (prefix ++ (label ++ (length context % 256 ∷ context)))))

module _ (hmac : HashAlgorithm → Bytes → Bytes → Option Bytes) (hash : HashAlgorithm) where
  -- `hmac.hmac(…)?`
  abbrev pub hmac_or_fail : Bytes → Bytes → Result HkdfError Bytes
  hmac_or_fail key text = elim (hmac hash key text) [ none ↦ err operation_failed | some t ↦ ok t ]

  unfoldable pub hkdf_extract : Bytes → Bytes → Result HkdfError Bytes
  hkdf_extract salt ikm =
      hmac_or_fail (if is_empty salt then replicate (output_len hash) 0 else salt) ikm

  -- `for i in 1..=n`, with `k` rounds to go: `out` grows by a block or the part of it that is wanted.
  unfoldable pub expand_loop : Bytes → Bytes → ℕ → ℕ → ℕ → Bytes → Bytes → Result HkdfError Bytes
  expand_loop prk info len zero i t_prev out = ok out
  expand_loop prk info len (suc k) i t_prev out =
      hmac_or_fail prk (t_prev ++ (info ++ (i % 256 ∷ []))) >>= λ t.
      expand_loop prk info len k (i + 1) t (out ++ take (min (len - length out) (length t)) t)

  -- `output_len.div_ceil(hash_len)`
  abbrev pub rounds : ℕ → ℕ
  rounds len = (len + (output_len hash - 1)) / output_len hash

  unfoldable pub hkdf_expand : Bytes → Bytes → ℕ → Result HkdfError Bytes
  unfolding expand_loop
  hkdf_expand prk info len = do
    fail_if (output_len hash == 0) panicked
    fail_if (ltb 255 (rounds len)) hkdf_output_too_long
    expand_loop prk info len (rounds len) 1 [] []

  unfoldable pub hkdf_expand_label : Bytes → Bytes → Bytes → ℕ → Result HkdfError Bytes
  unfolding build_hkdf_label hkdf_expand
  hkdf_expand_label secret label context len = do
    info ← build_hkdf_label tls13_prefix label context len
    hkdf_expand secret info len

  unfoldable pub hkdf_expand_label_dtls13 : Bytes → Bytes → Bytes → ℕ → Result HkdfError Bytes
  unfolding build_hkdf_label hkdf_expand
  hkdf_expand_label_dtls13 secret label context len = do
    info ← build_hkdf_label dtls13_prefix label context len
    hkdf_expand secret info len

  -- The loop of the TLS 1.2 PRF: `a` is A(i), the head of the payload. One more byte at least comes
  -- out of each round, so that fuel for the wanted length is enough; `none` is a loop without end.
  unfoldable pub prf_loop : ℕ → Bytes → Bytes → ℕ → Bytes → Bytes → Option (Result HkdfError Bytes)
  prf_loop zero secret label_seed len a out = if ltb (length out) len then none else some (ok out)
  prf_loop (suc fuel) secret label_seed len a out =
      if ltb (length out) len
      then elim (hmac hash secret (a ++ label_seed)) [
        | none ↦ some (err operation_failed)
        | some block ↦
            let out' = out ++ take (min (len - length out) (length block)) block in
            elim (ltb (length out') len) [
              | true ↦ elim (hmac hash secret a) [
                | none ↦ some (err operation_failed)
                | some a' ↦ prf_loop fuel secret label_seed len a' out'
              ]
              | false ↦ some (ok out')
            ]
      ]
      else some (ok out)

  unfoldable pub prf_tls12 : Bytes → Bytes → Bytes → ℕ → Option (Result HkdfError Bytes)
  unfolding prf_loop
  prf_tls12 secret label seed len = elim (hmac hash secret (label ++ seed)) [
    | none ↦ some (err operation_failed)
    | some a ↦ prf_loop len secret (label ++ seed) len a []
  ]
