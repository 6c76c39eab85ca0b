-- ===== src/Dtls13/Search/Linear.antt =====
-- The binary search against a linear one: on a list that the order splits into smaller elements, one
-- equal element at most, and greater ones, both find the same.
use Prim.Native.Nat.{Ordering}
use dimpl.Base.{
  ℕ, zero, suc, ◌+◌, ◌-◌, ◌/◌, ◌<◌, ◌≤◌, ◌≡◌, ◌≢◌, refl, sym, ap, subst, ◌⊎◌, inl, inr, true, false,
  List, [], ◌∷◌, ltb, length, arith, Bool-cases,
}
use dimpl.Dtls13.Search.{Found, at, absent_at, order_at, is_greater, search_loop, found_at, search}

abbrev pub shift : Found → Found
shift (at i) = at (suc i)
shift (absent_at i) = absent_at (suc i)

-- The first element that is not smaller.
unfoldable pub linear {ℓ} : {A : Type ℓ} → (A → Ordering) → List A → Found
linear order [] = absent_at 0
linear order (x ∷ xs) =
    let rest = linear order xs in
    elim (order x) [ Ordering.lt ↦ shift rest | Ordering.eq ↦ at 0 | Ordering.gt ↦ absent_at 0 ]

is_greater→gt : (o : Ordering) → is_greater o ≡ true → o ≡ Ordering.gt
is_greater→gt Ordering.gt h = refl
is_greater→gt Ordering.eq h = cc
is_greater→gt Ordering.lt h = cc

clash : (o : Ordering) → is_greater o ≡ false → ¬ (o ≡ Ordering.gt)
clash Ordering.gt g h = cc
clash Ordering.eq g h = cc
clash Ordering.lt g h = cc

-- Behind a greater element all are greater; before one that is not, all are smaller.
pub record Splits (order : ℕ → Ordering) (n : ℕ) : Type 0 where
  pub greater : (i j : ℕ) → i ≤ j → j < n → order i ≡ Ordering.gt → order j ≡ Ordering.gt
  pub smaller : (i j : ℕ) → i < j → j < n → order j ≢ Ordering.gt → order i ≡ Ordering.lt

-- Where the loop ends: all behind are greater, and the element itself is not, unless it is the first.
abbrev Ends : (ℕ → Ordering) → ℕ → ℕ → Type 0
Ends order n b =
    (b < n)
    × ((b ≡ 0) ⊎ (is_greater (order b) ≡ false))
    × ((j : ℕ) → b < j → j < n → order j ≡ Ordering.gt)

search_loop-Ends :
    (order : ℕ → Ordering) (n fuel size base : ℕ)
    → Splits order n
    → size ≤ suc fuel
    → 0 < size
    → base + size ≤ n
    → (base ≡ 0) ⊎ (is_greater (order base) ≡ false)
    → ((j : ℕ) → base + size ≤ j → j < n → order j ≡ Ordering.gt)
    → Ends order n (search_loop order fuel size base)
unfolding search_loop
search_loop-Ends order n zero size base s fuelled some_left inside low high =
    (omega arith, low, λ j above below. high j (omega arith) below)
search_loop-Ends order n (suc fuel) size base s fuelled some_left inside low high =
    elim (Bool-cases (ltb 1 size)) [
      | inr t ↦
          let one : size ≤ 1 = ground (arith, t) in
          rw t (omega arith, low, λ j above below. high j (omega arith) below)
      | inl t ↦
          let two : 1 < size = ground (arith, t) in
          elim (Bool-cases (is_greater (order (base + size / 2)))) [
            | inl g ↦
                rw (t, g)
                  (search_loop-Ends order n fuel (size - size / 2) base s (omega arith)
                    (omega arith) (omega arith) low
                    (λ j above below.
                      s.greater (base + size / 2) j (omega arith) below
                        (is_greater→gt (order (base + size / 2)) g)))
            | inr g ↦
                rw (t, g)
                  (search_loop-Ends order n fuel (size - size / 2) (base + size / 2) s (omega arith)
                    (omega arith) (omega arith) (inr g)
                    (λ j above below. high j (omega arith) below))
          ]
    ]

linear-at {ℓ} :
    {A : Type ℓ} (order : A → Ordering) (xs : List A) (i : ℕ)
    → ((j : ℕ) → j < i → order_at order xs j ≡ Ordering.lt)
    → i < length xs
    → order_at order xs i ≡ Ordering.eq
    → linear order xs ≡ at i
unfolding linear
linear-at order [] i before inside h = absurd (omega arith)
linear-at order (x ∷ xs) zero before inside h = rw (h, linear) refl
linear-at order (x ∷ xs) (suc i) before inside h =
    rw (before 0 (omega arith), linear)
      (ap shift (linear-at order xs i (λ j k. before (suc j) (omega arith)) (omega arith) h))

linear-absent {ℓ} :
    {A : Type ℓ} (order : A → Ordering) (xs : List A) (i : ℕ)
    → ((j : ℕ) → j < i → order_at order xs j ≡ Ordering.lt)
    → i ≤ length xs
    → (i < length xs → order_at order xs i ≡ Ordering.gt)
    → linear order xs ≡ absent_at i
unfolding linear
linear-absent order [] zero before inside h = refl
linear-absent order [] (suc i) before inside h = absurd (omega arith)
linear-absent order (x ∷ xs) zero before inside h = rw (h (omega arith), linear) refl
linear-absent order (x ∷ xs) (suc i) before inside h =
    rw (before 0 (omega arith), linear)
      (ap shift (
        linear-absent order xs i (λ j k. before (suc j) (omega arith)) (omega arith)
          (λ k. h (omega arith))))

found {ℓ} :
    {A : Type ℓ} (order : A → Ordering) (xs : List A) (b : ℕ)
    → Splits (order_at order xs) (length xs)
    → Ends (order_at order xs) (length xs) b
    → (o : Ordering) → order_at order xs b ≡ o
    → linear order xs ≡ found_at b o
found order xs b s (inside, low, high) Ordering.eq h =
    linear-at order xs b (λ j k. s.smaller j b k inside (λ g. cc)) inside h
found order xs b s (inside, low, high) Ordering.lt h =
    linear-absent order xs (suc b)
      (λ j k. elim (Bool-cases (ltb j b)) [
        | inl t ↦ s.smaller j b (ground (arith, t)) inside (λ g. cc)
        | inr t ↦
            let last : b ≡ j = ground (arith, t, k) in
            subst (λ m. order_at order xs m ≡ Ordering.lt) last h
      ])
      (omega arith) (λ k. high (suc b) (omega arith) k)
found order xs b s (inside, low, high) Ordering.gt h = elim low [
  | inl z ↦ linear-absent order xs b (λ j k. absurd (omega arith)) (omega arith) (λ k. h)
  | inr g ↦ absurd (clash (order_at order xs b) g h)
]

pub search-linear {ℓ} :
    {A : Type ℓ} (order : A → Ordering) (xs : List A)
    → Splits (order_at order xs) (length xs)
    → search order xs ≡ linear order xs
unfolding search linear
search-linear order [] s = refl
search-linear order (x ∷ xs) s =
    let n = length (x ∷ xs) in
    let b = search_loop (order_at order (x ∷ xs)) n n 0 in
    sym (
      found order (x ∷ xs) b s
        (search_loop-Ends (order_at order (x ∷ xs)) n n n 0 s (omega arith) (omega arith)
          (omega arith) (inl refl) (λ j above below. absurd (omega arith)))
        (order_at order (x ∷ xs) b) refl)
