-- ===== src/Dtls13/Search.antt =====
-- The binary search of the standard library, as src/dtls13/engine.rs uses it on the receive queue:
-- `VecDeque::binary_search_by` on a ring in one piece, which is the search of a slice.
pub mod Linear
pub mod Steps
use Prim.Native.Nat.{Ordering}
use dimpl.Base.{
  ℕ, zero, suc, ◌+◌, ◌-◌, ◌/◌, Bool, true, false, List, [], ◌∷◌, ltb, if◌then◌else◌, length,
  is_empty,
}

-- `Result<usize, usize>` of a binary search.
pub data Found : Type 0 where
  at absent_at : ℕ → Found

-- The order of the element at an index, which is in range wherever the search looks.
abbrev pub order_at {ℓ} : {A : Type ℓ} → (A → Ordering) → List A → ℕ → Ordering
order_at order [] i = Ordering.gt
order_at order (x ∷ xs) zero = order x
order_at order (x ∷ xs) (suc i) = order_at order xs i

abbrev pub is_greater : Ordering → Bool
is_greater Ordering.gt = true
is_greater Ordering.eq = false
is_greater Ordering.lt = false

-- `while size > 1`, which halves `size`, with fuel for as many rounds as there are elements.
unfoldable pub search_loop : (ℕ → Ordering) → ℕ → ℕ → ℕ → ℕ
search_loop order zero size base = base
search_loop order (suc fuel) size base =
    let half = size / 2 in
    let mid = base + half in
    let rest =
      search_loop order fuel (size - half) (if is_greater (order mid) then base else mid) in
    if ltb 1 size then rest else base

abbrev pub found_at : ℕ → Ordering → Found
found_at base Ordering.eq = at base
found_at base Ordering.lt = absent_at (suc base)
found_at base Ordering.gt = absent_at base

unfoldable pub search {ℓ} : {A : Type ℓ} → (A → Ordering) → List A → Found
unfolding search_loop
search order xs =
    let base = search_loop (order_at order xs) (length xs) (length xs) 0 in
    if is_empty xs then absent_at 0 else found_at base (order_at order xs base)
