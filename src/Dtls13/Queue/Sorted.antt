-- ===== src/Dtls13/Queue/Sorted.antt =====
-- src/dtls13/engine.rs, `insert_incoming_handshake`: the receive queue stays in the order of the
-- message numbers and the fragment offsets.
use Prim.Native.Nat.{Ordering}
use dimpl.Base.{
  ℕ, zero, suc, ◌<◌, ◌≤◌, ◌≡◌, ◌≢◌, refl, sym, subst, ◌∙◌, ◌⊎◌, inl, inr, some, List, [], ◌∷◌, All,
  arith, Bool-cases,
}
use dimpl.Dtls13.Handshake.{Handshake}
use dimpl.Dtls13.Engine.{Engine, Incoming}
use dimpl.Dtls13.Search.{Found, at, absent_at, order_at, search}
use dimpl.Dtls13.Search.Linear.{linear, search-linear}
use dimpl.Dtls13.Search.Steps.{linear-at_zero, linear-at_suc, linear-absent_zero, linear-absent_suc}
use dimpl.Dtls13.Queue.{
  Key, compare_keys, insert_at, replace_at, key_of, key_of_handshake, first_handshake,
  enqueue_handshake, replaceable,
}

-- The lexicographic order of message numbers and offsets.
abbrev pub Before : Key → Key → Type 0
Before (a, b) (c, d) = (a < c) ⊎ ((a ≡ c) × (b < d))

-- Each datagram stands strictly before all that follow it.
abbrev pub IsSorted : List Incoming → Type 0
IsSorted [] = Unit
IsSorted (i ∷ q) = All (λ j. Before (key_of i) (key_of j)) q × IsSorted q

Before-trans : (x y z : Key) → Before x y → Before y z → Before x z
Before-trans (a, b) (c, d) (f, g) h k = ground arith

compare_keys-lt : (x y : Key) → compare_keys x y ≡ Ordering.lt → Before x y
unfolding compare_keys
compare_keys-lt (a, b) (c, d) h = ground arith

compare_keys-gt : (x y : Key) → compare_keys x y ≡ Ordering.gt → Before y x
unfolding compare_keys
compare_keys-gt (a, b) (c, d) h = ground arith

compare_keys-eq : (x y : Key) → compare_keys x y ≡ Ordering.eq → x ≡ y
unfolding compare_keys
compare_keys-eq (a, b) (c, d) h = ground arith

All-insert_at {κ} :
    (P : Incoming → Type κ) (i : ℕ) (x : Incoming) (q : List Incoming)
    → P x
    → All P q
    → All P (insert_at i x q)
All-insert_at P zero x q hx h = (hx, h)
All-insert_at P (suc i) x [] hx h = (hx, h)
All-insert_at P (suc i) x (y ∷ q) hx h = (h.0, All-insert_at P i x q hx h.1)

All-replace_at {κ} :
    (P : Incoming → Type κ) (i : ℕ) (x : Incoming) (q : List Incoming)
    → P x
    → All P q
    → All P (replace_at i x q)
All-replace_at P i x [] hx h = h
All-replace_at P zero x (y ∷ q) hx h = (hx, h.1)
All-replace_at P (suc i) x (y ∷ q) hx h = (h.0, All-replace_at P i x q hx h.1)

All-Before :
    (a b : Key) (q : List Incoming)
    → Before a b
    → All (λ j. Before b (key_of j)) q
    → All (λ j. Before a (key_of j)) q
All-Before a b [] h k = tt
All-Before a b (y ∷ q) h k = (Before-trans a b (key_of y) h k.0, All-Before a b q h k.1)

Before-gt :
    (a b c : Key) → Before a b → compare_keys a c ≡ Ordering.gt → compare_keys b c ≡ Ordering.gt
unfolding compare_keys
Before-gt (a, a') (b, b') (c, c') h g = ground arith

Before-lt :
    (a b c : Key) → Before a b → compare_keys b c ≢ Ordering.gt → compare_keys a c ≡ Ordering.lt
unfolding compare_keys
Before-lt (a, a') (b, b') (c, c') h g = ground arith

module _ (x : Incoming) where
  abbrev against : Incoming → Ordering
  against j = compare_keys (key_of j) (key_of x)

  behind-gt :
      (a : Key) (q : List Incoming) (j : ℕ)
      → All (λ i. Before a (key_of i)) q
      → compare_keys a (key_of x) ≡ Ordering.gt
      → order_at against q j ≡ Ordering.gt
  behind-gt a [] j all h = refl
  behind-gt a (y ∷ q) zero all h = Before-gt a (key_of y) (key_of x) all.0 h
  behind-gt a (y ∷ q) (suc j) all h = behind-gt a q j all.1 h

  ahead-lt :
      (a : Key) (q : List Incoming) (j : ℕ)
      → All (λ i. Before a (key_of i)) q
      → order_at against q j ≢ Ordering.gt
      → compare_keys a (key_of x) ≡ Ordering.lt
  ahead-lt a [] j all h = absurd (h refl)
  ahead-lt a (y ∷ q) zero all h = Before-lt a (key_of y) (key_of x) all.0 h
  ahead-lt a (y ∷ q) (suc j) all h = ahead-lt a q j all.1 h

  stays-gt :
      (q : List Incoming) (i j : ℕ)
      → IsSorted q
      → i ≤ j
      → order_at against q i ≡ Ordering.gt
      → order_at against q j ≡ Ordering.gt
  stays-gt [] i j s le h = refl
  stays-gt (y ∷ q) zero zero s le h = h
  stays-gt (y ∷ q) zero (suc j) s le h = behind-gt (key_of y) q j s.0 h
  stays-gt (y ∷ q) (suc i) zero s le h = absurd (omega arith)
  stays-gt (y ∷ q) (suc i) (suc j) s le h = stays-gt q i j s.1 (omega arith) h

  was-lt :
      (q : List Incoming) (i j : ℕ)
      → IsSorted q
      → i < j
      → order_at against q j ≢ Ordering.gt
      → order_at against q i ≡ Ordering.lt
  was-lt [] i j s lt h = absurd (h refl)
  was-lt (y ∷ q) i zero s lt h = absurd (omega arith)
  was-lt (y ∷ q) zero (suc j) s lt h = ahead-lt (key_of y) q j s.0 h
  was-lt (y ∷ q) (suc i) (suc j) s lt h = was-lt q i j s.1 (omega arith) h

  -- In a sorted queue the binary search finds the place that a linear one does.
  search-sorted : (q : List Incoming) → IsSorted q → search against q ≡ linear against q
  search-sorted q s = search-linear against q (record {
    greater = λ i j le inside h. stays-gt q i j s le h;
    smaller = λ i j lt inside h. was-lt q i j s lt h;
  })

  insert_at-IsSorted :
      (q : List Incoming) (i : ℕ)
      → linear against q ≡ absent_at i
      → IsSorted q
      → IsSorted (insert_at i x q)
  insert_at-IsSorted [] zero h s = (tt, tt)
  insert_at-IsSorted [] (suc i) h s = (tt, tt)
  insert_at-IsSorted (y ∷ q) zero h s =
      let lt : Before (key_of x) (key_of y) =
        compare_keys-gt (key_of y) (key_of x) (linear-absent_zero against y q h) in
      ((lt, All-Before (key_of x) (key_of y) q lt s.0), s)
  insert_at-IsSorted (y ∷ q) (suc i) h s =
      let found = linear-absent_suc against y q i h in
      (
        All-insert_at (λ j. Before (key_of y) (key_of j)) i x q
            (compare_keys-lt (key_of y) (key_of x) found.0) s.0,
        insert_at-IsSorted q i found.1 s.1,
      )

  replace_at-IsSorted :
      (q : List Incoming) (i : ℕ)
      → linear against q ≡ at i
      → IsSorted q
      → IsSorted (replace_at i x q)
  replace_at-IsSorted [] i h s = s
  replace_at-IsSorted (y ∷ q) zero h s = (
    subst (λ k. All (λ j. Before k (key_of j)) q)
        (compare_keys-eq (key_of y) (key_of x) (linear-at_zero against y q h)) s.0,
    s.1,
  )
  replace_at-IsSorted (y ∷ q) (suc i) h s =
      let found = linear-at_suc against y q i h in
      (
        All-replace_at (λ j. Before (key_of y) (key_of j)) i x q
            (compare_keys-lt (key_of y) (key_of x) found.0) s.0,
        replace_at-IsSorted q i found.1 s.1,
      )

pub Found-cases : (f : Found) → ((i : ℕ) × (f ≡ at i)) ⊎ ((i : ℕ) × (f ≡ absent_at i))
Found-cases (at i) = inl (i, refl)
Found-cases (absent_at i) = inr (i, refl)

key_of-first :
    (h : Handshake) (incoming : Incoming)
    → first_handshake incoming.first ≡ some h
    → key_of incoming ≡ key_of_handshake h
unfolding key_of
key_of-first h incoming e = rw (e, key_of) refl

-- A datagram that begins with a handshake is put into a sorted queue, in the place of another or not
-- at all, and the queue stays sorted, strictly: no two of its datagrams have the same key.
pub enqueue_handshake-IsSorted :
    (h : Handshake) (incoming : Incoming) (e : Engine)
    → first_handshake incoming.first ≡ some h
    → IsSorted e.queue_rx
    → IsSorted (enqueue_handshake h incoming e).queue_rx
unfolding enqueue_handshake
enqueue_handshake-IsSorted h incoming e first sorted =
    let same = search-sorted incoming e.queue_rx sorted in
    rw (sym (key_of-first h incoming first), enqueue_handshake)
      (elim (Found-cases (linear (against incoming) e.queue_rx)) [
        | inr (i, s) ↦ rw (same ∙ s) (insert_at-IsSorted incoming e.queue_rx i s sorted)
        | inl (i, s) ↦ elim (Bool-cases (replaceable i incoming e.queue_rx)) [
          | inl r ↦ rw (same ∙ s, r) (replace_at-IsSorted incoming e.queue_rx i s sorted)
          | inr r ↦ rw (same ∙ s, r) sorted
        ]
      ])
