-- ===== src/Crypto/Hkdf/Laws.antt =====
-- HKDF-Expand against its description in RFC 5869, over an HMAC that answers.
use dimpl.Base.{
  ℕ, zero, suc, ◌+◌, ◌-◌, ◌*◌, ◌/◌, ◌%◌, ◌≤◌, ◌<◌, min, ◌≡◌, refl, sym, ap, ◌∙◌, Option, some, [],
  ◌∷◌, ◌++◌, ok, Bytes, length, take, length-append, length-take, append_assoc, append-nil, arith,
}
use native.Mathlib.Nat.{div-add-mod', mod-lt}
use native.Mathlib.Decide.{dec_lt}
use dimpl.Crypto.Provider.{HashAlgorithm}
use dimpl.Crypto.Hkdf.{output_len, rounds, hmac_or_fail, expand_loop, hkdf_expand, build_hkdf_label}

take_short :
    (len : ℕ) (xs ys : Bytes)
    → length xs ≤ len
    → take len (xs ++ ys) ≡ xs ++ take (len - length xs) ys
take_short len [] ys h = ap (λ n. take n ys) (omega arith)
take_short zero (x ∷ xs) ys h = absurd (omega arith)
take_short (suc len) (x ∷ xs) ys h =
    ap (λ t. x ∷ t) (take_short len xs ys (omega arith) ∙ ap (λ n. xs ++ take n ys) (omega arith))

zero-min_lem : (n : ℕ) → min 0 n ≡ 0
zero-min_lem n = omega arith

zero-sub_lem : (n : ℕ) → 0 - n ≡ 0
zero-sub_lem n = omega arith

min-zero_lem : (n : ℕ) → min n 0 ≡ 0
min-zero_lem n = omega arith

sub-zero_lem : (n : ℕ) → n - 0 ≡ n
sub-zero_lem n = omega arith

suc-min-suc : (m n : ℕ) → min (suc m) (suc n) ≡ suc (min m n)
suc-min-suc m n = omega arith

suc-sub-suc : (m n : ℕ) → suc m - suc n ≡ m - n
suc-sub-suc m n = omega arith

take-min :
    (m : ℕ) (t rest : Bytes)
    → take m (t ++ rest) ≡ take (min m (length t)) t ++ take (m - length t) rest
take-min zero t rest = simp (zero-min_lem, zero-sub_lem)
take-min (suc m) [] rest = simp (min-zero_lem, sub-zero_lem)
take-min (suc m) (x ∷ t) rest =
    simp (suc-min-suc, suc-sub-suc) (ap (λ t. x ∷ t) (take-min m t rest))

take_whole : (len : ℕ) (xs : Bytes) → length xs ≤ len → take len xs ≡ xs
take_whole len xs h =
    ap (take len) (sym (append-nil xs))
    ∙ take_short len xs [] h
    ∙ ap (λ t. xs ++ t) (take_none _)
    ∙ append-nil xs
  where
    take_none : (n : ℕ) → take {A = ℕ} n [] ≡ []
    take_none zero = refl
    take_none (suc n) = refl

-- One block joined to the output, cut where the wanted length ends.
take_step :
    (len : ℕ) (out t rest : Bytes)
    → length out ≤ len
    → take len ((out ++ take (min (len - length out) (length t)) t) ++ rest)
      ≡ take len (out ++ (t ++ rest))
take_step len out t rest h =
    take_short len (out ++ take n t) rest fits
    ∙ append_assoc out (take n t) _
    ∙ ap (λ k. out ++ (take n t ++ take k rest)) left
    ∙ ap (λ u. out ++ u) (sym (take-min (len - length out) t rest))
    ∙ sym (take_short len out (t ++ rest) h)
  where
    n : ℕ
    n = min (len - length out) (length t)

    fits : length (out ++ take n t) ≤ len
    fits = omega (arith, length-append out (take n t), length-take n t)

    left : len - length (out ++ take n t) ≡ len - length out - length t
    left = omega (arith, length-append out (take n t), length-take n t)

rounds_cover : (len h : ℕ) → 0 < h → len ≤ (len + (h - 1)) / h * h
rounds_cover len h pos = omega (arith, div-add-mod' (len + (h - 1)) h, mod-lt (len + (h - 1)) pos)

rounds_few : (len h : ℕ) → 0 < h → len ≤ 255 * h → (len + (h - 1)) / h ≤ 255
rounds_few len h pos fits = elim (dec_lt 255 ((len + (h - 1)) / h)) [
  | yes many ↦
      absurd
        (omega (arith, many_blocks ((len + (h - 1)) / h) h many, div-add-mod' (len + (h - 1)) h))
  | no few ↦ omega arith
]
  where
    many_blocks : (q h : ℕ) → 255 < q → 256 * h ≤ q * h
    many_blocks q h m = grind arith

module _ (hmac : HashAlgorithm → Bytes → Bytes → Option Bytes) (hash : HashAlgorithm)
    (mac : Bytes → Bytes → Bytes)
    (works : (key text : Bytes) → hmac hash key text ≡ some (mac key text)) where
  -- T(i) | T(i + 1) | … for `k` blocks, where `t_prev` is T(i - 1)
  abbrev pub blocks : Bytes → Bytes → ℕ → ℕ → Bytes → Bytes
  blocks prk info zero i t_prev = []
  blocks prk info (suc k) i t_prev =
      let t = mac prk (t_prev ++ (info ++ (i % 256 ∷ []))) in t ++ blocks prk info k (i + 1) t

  expand_loop-blocks :
      (prk info : Bytes) (len k i : ℕ) (t_prev out : Bytes)
      → length out ≤ len
      → expand_loop hmac hash prk info len k i t_prev out
        ≡ ok (take len (out ++ blocks prk info k i t_prev))
  unfolding expand_loop
  expand_loop-blocks prk info len zero i t_prev out h =
      ap ok (sym (take_whole len out h) ∙ ap (take len) (sym (append-nil out)))
  expand_loop-blocks prk info len (suc k) i t_prev out h =
      rw (works prk (t_prev ++ (info ++ (i % 256 ∷ []))), expand_loop, hmac_or_fail)
        (expand_loop-blocks prk info len k (i + 1) t (out ++ take n t) grown
          ∙ ap ok (take_step len out t (blocks prk info k (i + 1) t) h))
    where
      t : Bytes
      t = mac prk (t_prev ++ (info ++ (i % 256 ∷ [])))

      n : ℕ
      n = min (len - length out) (length t)

      grown : length (out ++ take n t) ≤ len
      grown = omega (arith, length-append out (take n t), length-take n t)

  length-blocks :
      (prk info : Bytes)
      → ((key text : Bytes) → length (mac key text) ≡ output_len hash)
      → (k i : ℕ) (t_prev : Bytes) → length (blocks prk info k i t_prev) ≡ k * output_len hash
  length-blocks prk info sized zero i t_prev = omega arith
  length-blocks prk info sized (suc k) i t_prev =
      let t : Bytes = mac prk (t_prev ++ (info ++ (i % 256 ∷ []))) in
      omega (
        arith,
        length-append t (blocks prk info k (i + 1) t),
        sized prk (t_prev ++ (info ++ (i % 256 ∷ []))),
        length-blocks prk info sized k (i + 1) t,
      )

  -- Where the HMAC answers and the wanted length is at most 255 blocks, HKDF-Expand gives the first
  -- `len` bytes of T(1) | T(2) | …, with enough blocks to fill it.
  pub hkdf_expand-blocks :
      (prk info : Bytes) (len : ℕ)
      → 0 < output_len hash
      → len ≤ 255 * output_len hash
      → ((key text : Bytes) → length (mac key text) ≡ output_len hash)
      → (hkdf_expand hmac hash prk info len
          ≡ ok (take len (blocks prk info (rounds hmac hash len) 1 [])))
        × (length (take len (blocks prk info (rounds hmac hash len) 1 [])) ≡ len)
  unfolding hkdf_expand
  hkdf_expand-blocks prk info len pos fits sized =
      let k : ℕ = rounds hmac hash len in
      (
        ground (
          arith,
          rounds_cover len (output_len hash) pos,
          rounds_few len (output_len hash) pos fits,
          expand_loop-blocks prk info len k 1 [] [] (omega arith),
        ),
        omega (
          arith,
          length-take len (blocks prk info k 1 []),
          length-blocks prk info sized k 1 [],
          rounds_cover len (output_len hash) pos,
        ),
      )

append-cancel :
    (xs ys us vs : Bytes) → length xs ≡ length ys → xs ++ us ≡ ys ++ vs → (xs ≡ ys) × (us ≡ vs)
append-cancel [] [] us vs same e = (refl, e)
append-cancel [] (y ∷ ys) us vs same e = absurd (omega arith)
append-cancel (x ∷ xs) [] us vs same e = absurd (omega arith)
append-cancel (x ∷ xs) (y ∷ ys) us vs same e = ground (arith, append-cancel xs ys us vs)

-- Two labels that give the same HMAC input have the same length, label and context.
pub build_hkdf_label-injective :
    (prefix l l' c c' : Bytes) (n n' : ℕ) (info : Bytes)
    → build_hkdf_label prefix l c n ≡ ok info
    → build_hkdf_label prefix l' c' n' ≡ ok info
    → (n ≡ n') × (l ≡ l') × (c ≡ c')
unfolding build_hkdf_label
build_hkdf_label-injective prefix l l' c c' n n' info e e' = ground (
  arith,
  append-cancel prefix prefix (l ++ (length c % 256 ∷ c)) (l' ++ (length c' % 256 ∷ c')),
  append-cancel l l' (length c % 256 ∷ c) (length c' % 256 ∷ c'),
)
