-- ===== src/Base/Lists.antt =====
-- Slices and vectors as lists, measured and indexed by native numbers.
use Prim.Native.Nat.{ℕ, zero, suc, ◌+◌, ◌-◌, ◌≤◌, ◌<◌, min}
use mathlib.Core.Path.{◌≡◌, refl, sym, ap, ap₂, ◌∙◌}
use mathlib.Core.Bool.{Bool, true, false, ◌&&◌, ◌||◌}
use mathlib.Core.List.{List, [], ◌∷◌, ◌++◌}
use mathlib.Core.Option.{Option, none, some}
use native.Mathlib.Omega.{arith}
use dimpl.Base.Tests.{◌==◌, if◌then◌else◌}

zero_plus : (b : ℕ) → 0 + b ≡ b
zero_plus b = omega arith

suc_plus : (a b : ℕ) → suc a + b ≡ suc (a + b)
suc_plus a b = omega arith

zero_minus : (n : ℕ) → 0 - n ≡ 0
zero_minus n = omega arith

minus_zero : (n : ℕ) → n - 0 ≡ n
minus_zero n = omega arith

suc_minus : (n k : ℕ) → suc n - suc k ≡ n - k
suc_minus n k = omega arith

module _ {ℓ} {A : Type ℓ} where
  abbrev pub length : List A → ℕ
  length [] = 0
  length (x ∷ xs) = suc (length xs)

  abbrev pub is_empty : List A → Bool
  is_empty [] = true
  is_empty (x ∷ xs) = false

  abbrev pub get_elem? : List A → ℕ → Option A
  get_elem? [] i = none
  get_elem? (x ∷ xs) zero = some x
  get_elem? (x ∷ xs) (suc i) = get_elem? xs i

  abbrev pub take : ℕ → List A → List A
  take zero xs = []
  take (suc n) [] = []
  take (suc n) (x ∷ xs) = x ∷ take n xs

  abbrev pub drop : ℕ → List A → List A
  drop zero xs = xs
  drop (suc n) [] = []
  drop (suc n) (x ∷ xs) = drop n xs

  abbrev pub replicate : ℕ → A → List A
  replicate zero a = []
  replicate (suc n) a = a ∷ replicate n a

  -- `buf[start..end]`
  abbrev pub slice : ℕ → ℕ → List A → List A
  slice start end xs = take (end - start) (drop start xs)

  -- `iter.any(p)` and `iter.all(p)`
  abbrev pub any : (A → Bool) → List A → Bool
  any p [] = false
  any p (x ∷ xs) = p x || any p xs

  abbrev pub all : (A → Bool) → List A → Bool
  all p [] = true
  all p (x ∷ xs) = p x && all p xs

  -- `iter.find(p)`
  abbrev pub find : (A → Bool) → List A → Option A
  find p [] = none
  find p (x ∷ xs) = if p x then some x else find p xs

  -- `iter.filter(p)` on a Boolean test
  abbrev pub retain : (A → Bool) → List A → List A
  retain p [] = []
  retain p (x ∷ xs) = if p x then x ∷ retain p xs else retain p xs

  -- `iter.skip_while(p)`
  abbrev pub skip_while : (A → Bool) → List A → List A
  skip_while p [] = []
  skip_while p (x ∷ xs) = if p x then skip_while p xs else x ∷ xs

  abbrev pub last? : List A → Option A
  last? [] = none
  last? (x ∷ []) = some x
  last? (x ∷ y ∷ xs) = last? (y ∷ xs)

  pub length-append : (xs ys : List A) → length (xs ++ ys) ≡ length xs + length ys
  length-append [] ys = omega arith
  length-append (x ∷ xs) ys = omega (arith, length-append xs ys)

  pub take-length : (xs : List A) → take (length xs) xs ≡ xs
  take-length [] = refl
  take-length (x ∷ xs) = ap (λ t. x ∷ t) (take-length xs)

  pub take-all : (n : ℕ) (xs : List A) → n ≡ length xs → take n xs ≡ xs
  take-all n xs h = ap (λ k. take k xs) h ∙ take-length xs

  pub take-append-drop : (n : ℕ) (xs : List A) → take n xs ++ drop n xs ≡ xs
  take-append-drop zero xs = refl
  take-append-drop (suc n) [] = refl
  take-append-drop (suc n) (x ∷ xs) = ap (λ t. x ∷ t) (take-append-drop n xs)

  pub length-take : (n : ℕ) (xs : List A) → length (take n xs) ≡ min n (length xs)
  length-take zero xs = omega arith
  length-take (suc n) [] = omega arith
  length-take (suc n) (x ∷ xs) = omega (arith, length-take n xs)

  pub length-drop : (n : ℕ) (xs : List A) → length (drop n xs) ≡ length xs - n
  length-drop zero xs = omega arith
  length-drop (suc n) [] = omega arith
  length-drop (suc n) (x ∷ xs) = omega (arith, length-drop n xs)

  pub take-length-append : (xs ys : List A) → take (length xs) (xs ++ ys) ≡ xs
  take-length-append [] ys = refl
  take-length-append (x ∷ xs) ys = ap (λ t. x ∷ t) (take-length-append xs ys)

  pub drop-length-append : (xs ys : List A) → drop (length xs) (xs ++ ys) ≡ ys
  drop-length-append [] ys = refl
  drop-length-append (x ∷ xs) ys = drop-length-append xs ys

  pub take_plus : (a b : ℕ) (xs : List A) → take (a + b) xs ≡ take a xs ++ take b (drop a xs)
  take_plus zero b xs = rw (zero_plus b) refl
  take_plus (suc a) zero [] = rw (suc_plus a 0) refl
  take_plus (suc a) (suc b) [] = rw (suc_plus a (suc b)) refl
  take_plus (suc a) b (x ∷ xs) = rw (suc_plus a b) (ap (λ t. x ∷ t) (take_plus a b xs))

  pub drop-drop : (a b : ℕ) (xs : List A) → drop b (drop a xs) ≡ drop (a + b) xs
  drop-drop zero b xs = rw (zero_plus b) refl
  drop-drop (suc a) zero [] = rw (suc_plus a 0) refl
  drop-drop (suc a) (suc b) [] = rw (suc_plus a (suc b)) refl
  drop-drop (suc a) b (x ∷ xs) = rw (suc_plus a b) (drop-drop a b xs)

  take-nil : (m : ℕ) → take m [] ≡ []
  take-nil zero = refl
  take-nil (suc m) = refl

  pub drop-take : (k n : ℕ) (xs : List A) → drop k (take n xs) ≡ take (n - k) (drop k xs)
  drop-take zero n xs = rw (minus_zero n) refl
  drop-take (suc k) zero [] = rw (zero_minus (suc k)) refl
  drop-take (suc k) zero (x ∷ xs) = rw (zero_minus (suc k)) refl
  drop-take (suc k) (suc n) [] = sym (take-nil (suc n - suc k))
  drop-take (suc k) (suc n) (x ∷ xs) = rw (suc_minus n k) (drop-take k n xs)

  -- Slices that meet, and a slice of a slice.
  pub slice-append :
      (s m e : ℕ) (xs : List A) → s ≤ m → m ≤ e → slice s m xs ++ slice m e xs ≡ slice s e xs
  slice-append s m e xs h k =
      let again : drop (m - s) (drop s xs) ≡ drop m xs =
        drop-drop s (m - s) xs ∙ ap (λ n. drop n xs) (omega arith) in
      rw (sym again, sym (take_plus (m - s) (e - m) (drop s xs)))
        (ap (λ n. take n (drop s xs)) (omega arith))

  pub drop-slice : (k s e : ℕ) (xs : List A) → drop k (slice s e xs) ≡ slice (s + k) e xs
  drop-slice k s e xs = drop-take k (e - s) (drop s xs) ∙ ap₂ take (omega arith) (drop-drop s k xs)

  pub length-slice : (s e : ℕ) (xs : List A) → e ≤ length xs → length (slice s e xs) ≡ e - s
  length-slice s e xs h = omega (arith, length-take (e - s) (drop s xs), length-drop s xs)

  pub slice-length : (xs : List A) → slice 0 (length xs) xs ≡ xs
  slice-length xs = rw (minus_zero (length xs)) (take-length xs)

  -- Every element satisfies `P`, as nested pairs.
  abbrev pub All {κ} : (A → Type κ) → List A → Type κ
  All P [] = Unit {κ}
  All P (x ∷ xs) = P x × All P xs

  pub All-append {κ} : (P : A → Type κ) (xs ys : List A) → All P xs → All P ys → All P (xs ++ ys)
  All-append P [] ys hx hy = hy
  All-append P (x ∷ xs) ys hx hy = (hx.0, All-append P xs ys hx.1 hy)

-- A slice of bytes.
abbrev pub Bytes : Type 0
Bytes = List ℕ

abbrev pub IsByte : ℕ → Type 0
IsByte b = b < 256

abbrev pub contains : List ℕ → ℕ → Bool
contains [] a = false
contains (x ∷ xs) a = a == x || contains xs a
