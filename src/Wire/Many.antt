-- ===== src/Wire/Many.antt =====
-- src/util.rs: parsers of repeated items, into vectors of a fixed capacity.
use dimpl.Base.{
  ℕ, zero, suc, Bool, Option, none, some, List, [], ◌∷◌, ◌++◌, ok, err, Bytes, ltb, ◌==◌,
  if◌then◌else◌, length, is_empty,
}
use dimpl.Wire.{ErrorKind, IResult, error, failure, many0, many1}

-- `ArrayVec::try_push`
abbrev pub try_push {ℓ} : {A : Type ℓ} → ℕ → A → List A → Option (List A)
try_push capacity x xs = if ltb (length xs) capacity then some (xs ++ (x ∷ [])) else none

abbrev pub push_if {ℓ} : {A : Type ℓ} → Bool → ℕ → A → List A → Option (List A)
push_if kept capacity x xs = if kept then try_push capacity x xs else some xs

-- The loop of `many0` and `many1`, on as much fuel as there are bytes: each round takes one at least.
module _ {ℓ} {A : Type ℓ} (kind : ErrorKind) (capacity : ℕ) (parser : Bytes → IResult A)
    (predicate : A → Bool) where
  unfoldable pub many_loop : ℕ → Bytes → List A → IResult (List A)
  many_loop zero input acc = ok (input, acc)
  many_loop (suc fuel) [] acc = ok ([], acc)
  many_loop (suc fuel) (b ∷ input) acc = elim (parser (b ∷ input)) [
    | err (error _) ↦ ok (b ∷ input, acc)
    | err (failure k) ↦ err (failure k)
    | ok (rest, o) ↦ elim (length rest == suc (length input)) [
      | Bool.true ↦ err (error kind)
      | Bool.false ↦ elim (push_if (predicate o) capacity o acc) [
        | none ↦ err (error kind)
        | some acc' ↦ many_loop fuel rest acc'
      ]
    ]
  ]

module _ {ℓ} {A : Type ℓ} (capacity : ℕ) (parser : Bytes → IResult A) (predicate : A → Bool) where
  unfoldable pub parse_many0 : Bytes → IResult (List A)
  parse_many0 input = many_loop many0 capacity parser predicate (length input) input []

  unfoldable pub parse_many1 : Bytes → IResult (List A)
  parse_many1 input = elim (many_loop many1 capacity parser predicate (length input) input []) [
    | err e ↦ err e
    | ok (rest, acc) ↦ if is_empty acc then err (error many1) else ok (rest, acc)
  ]
