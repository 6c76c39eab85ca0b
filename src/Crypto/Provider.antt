-- ===== src/Crypto/Provider.antt =====
-- src/crypto/provider.rs: the operations of a backend, which is not part of the model. Each is a
-- function that may fail.
use dimpl.Base.{ℕ, Option, Bytes}

-- `HashAlgorithm` wraps its number on the wire.
abbrev pub HashAlgorithm : Type 0
HashAlgorithm = ℕ

-- `SupportedDtls13CipherSuite` and the HMAC and hash providers of one backend. A cipher is given by
-- its key: `decrypt` and `encrypt` take key, additional data, nonce and text.
pub record Provider : Type 0 where
  pub hmac : HashAlgorithm → Bytes → Bytes → Option Bytes
  pub hash : HashAlgorithm → Bytes → Bytes
  pub tag_len : ℕ → ℕ
  pub key_len : ℕ → ℕ
  pub iv_len : ℕ → ℕ
  pub min_protected_fragment_len : ℕ → ℕ
  pub create_cipher : ℕ → Bytes → Option Bytes
  pub encrypt : Bytes → Bytes → Bytes → Bytes → Option Bytes
  pub decrypt : Bytes → Bytes → Bytes → Bytes → Option Bytes
  pub encrypt_sn : ℕ → Bytes → Bytes → Bytes
