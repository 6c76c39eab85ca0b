-- ===== src/Dtls13/Peer/VerifyData.antt =====
-- src/dtls13/engine.rs, `compute_verify_data`: the data of a Finished is an HMAC over the transcript.
use dimpl.Base.{
  ◌≡◌, subst, ℕ, Option, none, some, [], ◌∷◌, Result, ok, err, Bytes, if◌then◌else◌, is_empty,
  replicate, refl,
}
use dimpl.Crypto.Hkdf.{
  HkdfError, hkdf_extract, hkdf_expand_label_dtls13, operation_failed, output_len,
}
use dimpl.Dtls13.Engine.{Engine, Error, M, continue_with, derivation_failed}
use dimpl.Dtls13.Engine.Keys.{hash_algorithm, expand, extract, hash_of, lift}
use dimpl.Dtls13.Peer.Create.{compute_verify_data}

-- `expected` is the HMAC, under the "finished" key of a traffic secret, of the hash of the whole
-- transcript, all with the hash of the negotiated suite.
pub record IsVerifyData (e : Engine) (secret expected : Bytes) : Type 0 where
  pub suite : ℕ
  pub finished_key : Bytes
  pub suite_there : e.cipher_suite ≡ some suite
  pub key :
      hkdf_expand_label_dtls13 e.config.provider.hmac
        (hash_algorithm suite)
        secret
        (b'f' ∷ b'i' ∷ b'n' ∷ b'i' ∷ b's' ∷ b'h' ∷ b'e' ∷ b'd' ∷ [])
        []
        (output_len (hash_algorithm suite))
      ≡ ok finished_key
  pub mac :
      e.config.provider.hmac
        (hash_algorithm suite)
        (if is_empty finished_key
          then replicate (output_len (hash_algorithm suite)) 0
          else finished_key)
        (e.config.provider.hash (hash_algorithm suite) e.transcript)
      ≡ some expected

abbrev suite_of : Option ℕ → M ℕ
suite_of o e = elim o [ none ↦ (e, err Error.panicked) | some s ↦ (e, ok s) ]

-- A step that begins with the suite goes on with it, in the same state.
known :
    {A B : Type 0} (o : Option ℕ) (s : ℕ) (m : ℕ → M A) (k : A → M B) (e e' : Engine) (b : B)
    → o ≡ some s
    → continue_with (continue_with (suite_of o e) m) k ≡ (e', ok b)
    → continue_with (m s e) k ≡ (e', ok b)
known o s m k e e' b there h =
    subst (λ x. continue_with (continue_with (suite_of x e) m) k ≡ (e', ok b)) there h

known_last :
    {A : Type 0} (o : Option ℕ) (s : ℕ) (m : ℕ → M A) (e e' : Engine) (a : A)
    → o ≡ some s
    → continue_with (suite_of o e) m ≡ (e', ok a)
    → m s e ≡ (e', ok a)
known_last o s m e e' a there h = subst (λ x. continue_with (suite_of x e) m ≡ (e', ok a)) there h

lifted :
    {A B : Type 0} (r : Result HkdfError A) (k : A → M B) (e e' : Engine) (b : B)
    → continue_with (lift derivation_failed r e) k ≡ (e', ok b)
    → (a : A) × (r ≡ ok a) × (k a e ≡ (e', ok b))
lifted (ok a) k e e' b h = (a, refl, h)
lifted (err x) k e e' b h = cc

lifted_last :
    {A : Type 0} (r : Result HkdfError A) (e e' : Engine) (a : A)
    → lift derivation_failed r e ≡ (e', ok a)
    → r ≡ ok a
lifted_last (ok b) e e' a h = cc
lifted_last (err x) e e' a h = cc

tag_of :
    (o : Option Bytes) (text : Bytes)
    → ◌≡◌ {A = Result HkdfError Bytes}
        (elim o [ none ↦ err operation_failed | some t ↦ ok t ])
        (ok text)
    → o ≡ some text
tag_of none text h = cc
tag_of (some t) text h = cc

first_suite :
    (o : Option ℕ) (k : ℕ → M Bytes) (e e' : Engine) (b : Bytes)
    → continue_with
        (continue_with (suite_of o e) (λ s t. (t, ok (output_len (hash_algorithm s)))))
        k
      ≡ (e', ok b)
    → (s : ℕ) × (o ≡ some s) × (k (output_len (hash_algorithm s)) e ≡ (e', ok b))
first_suite none k e e' b h = cc
first_suite (some s) k e e' b h = (s, refl, h)

pub compute_verify_data-IsVerifyData :
    (secret expected : Bytes) (e e' : Engine)
    → compute_verify_data secret e ≡ (e', ok expected)
    → IsVerifyData e secret expected
unfolding compute_verify_data expand extract hash_of hkdf_extract
compute_verify_data-IsVerifyData secret expected e e' h =
    let (s, there, h1) = first_suite e.cipher_suite _ e e' expected h in
    let h2 = known e.cipher_suite s _ _ e e' expected there h1 in
    let (key, derived, h3) = lifted _ _ e e' expected h2 in
    let h4 = known e.cipher_suite s _ _ e e' expected there h3 in
    let h5 = known_last e.cipher_suite s _ e e' expected there h4 in
    record {
      suite = s;
      finished_key = key;
      suite_there = there;
      key = derived;
      mac = tag_of _ expected (lifted_last _ e e' expected h5);
    }
