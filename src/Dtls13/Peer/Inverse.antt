-- ===== src/Dtls13/Peer/Inverse.antt =====
-- src/dtls13/client.rs and src/dtls13/server.rs: what follows from the success of a chain of steps.
use dimpl.Base.{
  ◌≡◌, refl, ap, Bool, true, false, not, Option, none, some, Result, ok, err, ◌⊎◌, inl, inr,
}
use dimpl.Wire.{Err}
use dimpl.Dtls13.Peer.{
  Failure, Act, continue_with, some_or, fail_if, on_some, branch, parsed, result,
}

pub true_or_not : (b : Bool) → not b ≡ false → b ≡ true
true_or_not true h = refl
true_or_not false h = cc

module _ {S : Type 0} where
  -- A chain that succeeds has a first step that does, and goes on from there.
  pub inverse :
      {A B : Type 0} (r : S × Result Failure A) (f : A → Act S B) (s' : S) (b : B)
      → continue_with r f ≡ (s', ok b)
      → (a : A) × (t : S) × (r ≡ (t, ok a)) × (f a t ≡ (s', ok b))
  inverse (t, ok a) f s' b h = (a, t, refl, h)
  inverse (t, err x) f s' b h = cc

  -- A guard that was passed, and what was there.
  pub passed :
      {B : Type 0} (b : Bool) (x : Failure) (f : Unit {0} → Act S B) (s s' : S) (c : B)
      → continue_with (fail_if b x s) f ≡ (s', ok c)
      → (b ≡ false) × (f tt s ≡ (s', ok c))
  passed true x f s s' c h = cc
  passed false x f s s' c h = (refl, h)

  pub passed_either :
      {B : Type 0} (b c : Bool) (x y : Failure) (f : Unit {0} → Act S B) (s s' : S) (d : B)
      → continue_with (branch b (fail_if c x) (fail_if c y) s) f ≡ (s', ok d)
      → (c ≡ false) × (f tt s ≡ (s', ok d))
  passed_either true c x y f s s' d h = passed c x f s s' d h
  passed_either false c x y f s s' d h = passed c y f s s' d h

  pub present :
      {A B : Type 0} (x : Failure) (o : Option A) (f : A → Act S B) (s s' : S) (c : B)
      → continue_with (some_or x o s) f ≡ (s', ok c)
      → (a : A) × (o ≡ some a) × (f a s ≡ (s', ok c))
  present x none f s s' c h = cc
  present x (some a) f s s' c h = (a, refl, h)

  pub read :
      {A B : Type 0} (r : Result Err A) (f : A → Act S B) (s s' : S) (c : B)
      → continue_with (parsed r s) f ≡ (s', ok c)
      → (a : A) × (r ≡ ok a) × (f a s ≡ (s', ok c))
  read (ok a) f s s' c h = (a, refl, h)
  read (err x) f s s' c h = cc

  pub resulted :
      {A B : Type 0} (r : Result Failure A) (f : A → Act S B) (s s' : S) (c : B)
      → continue_with (result r s) f ≡ (s', ok c)
      → (a : A) × (r ≡ ok a) × (f a s ≡ (s', ok c))
  resulted (ok a) f s s' c h = (a, refl, h)
  resulted (err x) f s s' c h = cc

  pub branched :
      {B : Type 0} (b : Bool) (m n : Act S B) (s s' : S) (c : B)
      → branch b m n s ≡ (s', ok c)
      → ((b ≡ true) × (m s ≡ (s', ok c))) ⊎ ((b ≡ false) × (n s ≡ (s', ok c)))
  branched true m n s s' c h = inl (refl, h)
  branched false m n s s' c h = inr (refl, h)

  pub chosen :
      {A B : Type 0} (o : Option A) (d : Act S B) (f : A → Act S B) (s s' : S) (c : B)
      → on_some o d f s ≡ (s', ok c)
      → ((o ≡ none) × (d s ≡ (s', ok c))) ⊎ ((a : A) × (o ≡ some a) × (f a s ≡ (s', ok c)))
  chosen none d f s s' c h = inl (refl, h)
  chosen (some a) d f s s' c h = inr (a, refl, h)

  pub final :
      {A : Type 0} (s s' : S) (a b : A)
      → ◌≡◌ {A = S × Result Failure A} (s, ok a) (s', ok b)
      → s ≡ s'
  final s s' a b h = ap (λ p. p.0) h

  pub final_value :
      {A : Type 0} (s s' : S) (a b : A)
      → ◌≡◌ {A = S × Result Failure A} (s, ok a) (s', ok b)
      → a ≡ b
  final_value s s' a b h = cc
