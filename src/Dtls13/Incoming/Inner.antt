-- ===== src/Dtls13/Incoming/Inner.antt =====
-- src/dtls13/incoming.rs, `recover_inner_content_type`: the content type behind a protected record's
-- content, in front of any padding.
use dimpl.Base.{
  ℕ, zero, suc, ◌+◌, ◌<◌, ◌≤◌, ◌≡◌, ◌≢◌, refl, ◌∙◌, false, some, [], ◌∷◌, ◌++◌, Bytes, length,
  get_elem?, replicate, arith, ◌==◌, if◌then◌else◌, length-append,
}
use dimpl.Dtls13.Incoming.{recover_loop, recover_inner_content_type}

get_elem?-append : (xs ys : Bytes) (i : ℕ) → get_elem? (xs ++ ys) (length xs + i) ≡ get_elem? ys i
get_elem?-append [] ys i = rw (zero_plus i) refl
  where
    zero_plus : (i : ℕ) → 0 + i ≡ i
    zero_plus i = omega arith
get_elem?-append (x ∷ xs) ys i = rw (suc_plus (length xs) i) (get_elem?-append xs ys i)
  where
    suc_plus : (a b : ℕ) → suc a + b ≡ suc (a + b)
    suc_plus a b = omega arith

abbrev zeros : ℕ → Bytes
zeros n = replicate n 0

get_elem?-replicate : (n i : ℕ) → i < n → get_elem? (zeros n) i ≡ some 0
get_elem?-replicate zero i h = absurd (omega arith)
get_elem?-replicate (suc n) zero h = refl
get_elem?-replicate (suc n) (suc i) h = get_elem?-replicate n i (omega arith)

length-replicate : (n : ℕ) → length (zeros n) ≡ n
length-replicate zero = refl
length-replicate (suc n) = omega (arith, length-replicate n)

recover_loop_step :
    (bytes : Bytes) (i b : ℕ)
    → get_elem? bytes i ≡ some b
    → recover_loop bytes (suc i) ≡ (if b == 0 then recover_loop bytes i else some (b, i))
unfolding recover_loop
recover_loop_step bytes i b h = rw (h, recover_loop) refl

plus_suc : (a n : ℕ) → a + suc n ≡ suc (a + n)
plus_suc a n = omega arith

-- The search goes down through the padding to the content type.
recover_loop-padded :
    (content : Bytes) (content_type padding n : ℕ)
    → content_type ≢ 0
    → n ≤ padding
    → recover_loop (content ++ (content_type ∷ replicate padding 0)) (length content + suc n)
      ≡ some (content_type, length content)
recover_loop-padded content content_type padding zero h le =
    let bytes = content ++ (content_type ∷ replicate padding 0) in
    let here : get_elem? bytes (length content + 0) ≡ some content_type =
      get_elem?-append content (content_type ∷ replicate padding 0) 0 in
    let plain : (content_type == 0) ≡ false = ground (arith, h) in
    let last : length content + 0 ≡ length content = omega arith in
    rw
      (
        plus_suc (length content) 0,
        recover_loop_step bytes (length content + 0) content_type here,
        plain,
        last,
      )
      refl
recover_loop-padded content content_type padding (suc n) h le =
    let bytes = content ++ (content_type ∷ replicate padding 0) in
    let here : get_elem? bytes (length content + suc n) ≡ some 0 =
      get_elem?-append content (content_type ∷ replicate padding 0) (suc n)
      ∙ get_elem?-replicate padding n (omega arith) in
    rw (plus_suc (length content) (suc n), recover_loop_step bytes (length content + suc n) 0 here)
      (recover_loop-padded content content_type padding n h (omega arith))

-- Whatever the content, a content type other than 0 and any number of zeros behind it are told apart
-- from it: the type comes out with the length of the content.
pub recover_inner_content_type-padded :
    (content : Bytes) (content_type padding : ℕ)
    → content_type ≢ 0
    → recover_inner_content_type (content ++ (content_type ∷ replicate padding 0))
      ≡ some (content_type, length content)
unfolding recover_inner_content_type
recover_inner_content_type-padded content content_type padding h =
    let size : length (content ++ (content_type ∷ replicate padding 0))
        ≡ length content + suc padding =
      omega (
        arith,
        length-append content (content_type ∷ replicate padding 0),
        length-replicate padding,
      ) in
    rw size (recover_loop-padded content content_type padding padding h (omega arith))
