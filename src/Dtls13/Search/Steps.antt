-- ===== src/Dtls13/Search/Steps.antt =====
-- The linear search of Dtls13.Search.Linear, a step at a time.
use Prim.Native.Nat.{Ordering}
use dimpl.Base.{ℕ, suc, ◌≡◌, refl, List, ◌∷◌, arith}
use dimpl.Dtls13.Search.{at, absent_at}
use dimpl.Dtls13.Search.Linear.{linear}

pub linear-at_zero {ℓ} :
    {A : Type ℓ} (order : A → Ordering) (y : A) (q : List A)
    → linear order (y ∷ q) ≡ at 0
    → order y ≡ Ordering.eq
unfolding linear
linear-at_zero order y q h =
    elim (linear order q) as (λ s. linear order q ≡ s → order y ≡ Ordering.eq) [
      | at i ↦ λ s. ground (arith, s)
      | absent_at i ↦ λ s. ground (arith, s)
    ]
      refl

pub linear-at_suc {ℓ} :
    {A : Type ℓ} (order : A → Ordering) (y : A) (q : List A) (i : ℕ)
    → linear order (y ∷ q) ≡ at (suc i)
    → (order y ≡ Ordering.lt) × (linear order q ≡ at i)
unfolding linear
linear-at_suc order y q i h =
    elim (linear order q)
        as (λ s. linear order q ≡ s → (order y ≡ Ordering.lt) × (linear order q ≡ at i)) [
          | at j ↦ λ s. ground (arith, s)
          | absent_at j ↦ λ s. ground (arith, s)
        ]
      refl

pub linear-absent_zero {ℓ} :
    {A : Type ℓ} (order : A → Ordering) (y : A) (q : List A)
    → linear order (y ∷ q) ≡ absent_at 0
    → order y ≡ Ordering.gt
unfolding linear
linear-absent_zero order y q h =
    elim (linear order q) as (λ s. linear order q ≡ s → order y ≡ Ordering.gt) [
      | at i ↦ λ s. ground (arith, s)
      | absent_at i ↦ λ s. ground (arith, s)
    ]
      refl

pub linear-absent_suc {ℓ} :
    {A : Type ℓ} (order : A → Ordering) (y : A) (q : List A) (i : ℕ)
    → linear order (y ∷ q) ≡ absent_at (suc i)
    → (order y ≡ Ordering.lt) × (linear order q ≡ absent_at i)
unfolding linear
linear-absent_suc order y q i h =
    elim (linear order q)
        as (λ s. linear order q ≡ s → (order y ≡ Ordering.lt) × (linear order q ≡ absent_at i)) [
          | at j ↦ λ s. ground (arith, s)
          | absent_at j ↦ λ s. ground (arith, s)
        ]
      refl
