-- ===== src/Timer/Backoff.antt =====
-- The timer doubles, is never below 50 ms, stops after the configured number of retries, and panics
-- exactly where a duration overflows.
use dimpl.Base.{
  ℕ, zero, suc, ◌+◌, ◌-◌, ◌*◌, ◌^◌, ◌≤◌, ◌<◌, ◌≡◌, sym, ap, subst, ◌∙◌, Option, none, some, Bool,
  List, [], ◌∷◌, All, arith, length, min, max, ltb, if◌then◌else◌, Bool-cases, inl, inr,
}
use dimpl.Base.Int.{ℤ, pos, negsuc}
use dimpl.Base.Bits.{pow_double}
use dimpl.Timer.{ExponentialBackoff, new, attempt, rto, min_rto, max_duration, can_retry}

-- The attempts with the jitters of a list, one after another, up to a panic.
unfoldable pub attempts : ExponentialBackoff → List ℤ → Option ExponentialBackoff
attempts b [] = some b
attempts b (j ∷ js) = elim (attempt b j) [ none ↦ none | some b' ↦ attempts b' js ]

-- A quarter of a second, the half of `JITTER_RANGE`.
abbrev pub quarter : ℕ
quarter = 250_000_000

-- A jitter as it is drawn.
abbrev pub IsDrawn : ℤ → Type 0
IsDrawn (pos n) = n ≤ quarter
IsDrawn (negsuc n) = n < quarter

-- How long a timer waits whose duration without jitter is `current`; `none` is a panic.
abbrev pub Waits : ℕ → Option ℕ → Type 0
Waits current none = max_duration < current + quarter
Waits current (some d) =
    (max (current - quarter) min_rto ≤ d) × (d ≤ max (current + quarter) min_rto)

-- A timer whose duration is `doubled`, and which panics only when this overflows.
abbrev pub Backs : ℕ → Bool → Option ExponentialBackoff → Type 0
Backs doubled retry none = max_duration < doubled
Backs doubled retry (some b) =
    (doubled ≤ max_duration) × (b.current ≡ doubled) × (can_retry b ≡ retry) × Waits doubled (rto b)

rto_of :
    (c : ℕ) (jitter : ℤ)
    → IsDrawn jitter
    → Waits c (elim jitter [
      | pos j ↦ if ltb max_duration (c + j) then none else some (max (c + j) min_rto)
      | negsuc j ↦ some (max (c - (j + 1)) min_rto)
    ])
rto_of c (pos j) drawn = elim (Bool-cases (ltb max_duration (c + j))) [
  | inl t ↦ rw t (ground arith)
  | inr t ↦ rw t (omega arith, omega arith)
]
rto_of c (negsuc j) drawn = (omega arith, omega arith)

rto-Waits : (b : ExponentialBackoff) → IsDrawn b.jitter → Waits b.current (rto b)
unfolding rto
rto-Waits b drawn = rto_of b.current b.jitter drawn

-- `current` after `k` of at most `left` attempts
doubled_none : (c left : ℕ) → c ≡ c * 2 ^ min 0 left
doubled_none c left = let e : min 0 left ≡ 0 = omega arith in rw e (omega arith)

doubled_stopped : (c k : ℕ) → c ≡ c * 2 ^ min k 0
doubled_stopped c k = let e : min k 0 ≡ 0 = omega arith in rw e (omega arith)

doubled_once : (c k left : ℕ) → c * 2 * 2 ^ min k left ≡ c * 2 ^ min (suc k) (suc left)
doubled_once c k left =
    let e : min (suc k) (suc left) ≡ suc (min k left) = omega arith in
    rw e (omega (arith, ap (λ (t : ℕ). c * t) (pow_double (min k left))))

-- What the attempts keep: nothing when they panic.
abbrev Keeps : ℕ → ℕ → Option ExponentialBackoff → Type 0
Keeps doubled left none = max_duration < doubled
Keeps doubled left (some b) =
    (doubled ≤ max_duration) × (b.current ≡ doubled) × (b.left ≡ left) × IsDrawn b.jitter

attempt_stopped : (b : ExponentialBackoff) (j : ℤ) → b.left ≡ 0 → attempt b j ≡ some b
unfolding attempt
attempt_stopped b j h = ground arith

attempt_panics :
    (b : ExponentialBackoff) (j : ℤ) (left : ℕ)
    → b.left ≡ suc left
    → ltb max_duration (b.current * 2) ≡ Bool.true
    → attempt b j ≡ none
unfolding attempt
attempt_panics b j left h t = ground arith

abbrev doubled_timer : ExponentialBackoff → ℤ → ExponentialBackoff
doubled_timer b j = record b { current = b.current * 2; jitter = j; left = b.left - 1 }

attempt_doubles :
    (b : ExponentialBackoff) (j : ℤ) (left : ℕ)
    → b.left ≡ suc left
    → ltb max_duration (b.current * 2) ≡ Bool.false
    → attempt b j ≡ some (doubled_timer b j)
unfolding attempt
attempt_doubles b j left h t = ground arith

grows : (c n : ℕ) → c ≤ c * 2 ^ n
grows c zero = omega arith
grows c (suc n) = omega (arith, grows (c * 2) n, ap (λ (t : ℕ). c * t) (pow_double n))

attempts-Keeps :
    (b : ExponentialBackoff) (js : List ℤ) (left : ℕ)
    → b.left ≡ left
    → b.current ≤ max_duration
    → IsDrawn b.jitter
    → All IsDrawn js
    → Keeps (b.current * 2 ^ min (length js) left) (left - length js) (attempts b js)
unfolding attempts
attempts-Keeps b [] left h small drawn all =
    let same = doubled_none b.current left in
    (subst (λ d. d ≤ max_duration) same small, same, omega arith, drawn)
attempts-Keeps b (j ∷ js) zero h small drawn all =
    let none_left : 0 - length js ≡ 0 - suc (length js) = omega arith in
    let same =
      sym (doubled_stopped b.current (length js)) ∙ doubled_stopped b.current (suc (length js)) in
    rw (attempt_stopped b j h, attempts)
      (subst (λ n. Keeps (b.current * 2 ^ min (suc (length js)) 0) n (attempts b js)) none_left
        (subst (λ d. Keeps d (0 - length js) (attempts b js)) same
          (attempts-Keeps b js zero h small drawn all.1)))
attempts-Keeps b (j ∷ js) (suc left) h small drawn all =
    let once = doubled_once b.current (length js) left in
    elim (Bool-cases (ltb max_duration (b.current * 2))) [
      | inl t ↦
          let over : max_duration < b.current * 2 = ground (arith, t) in
          rw (attempt_panics b j left h t, attempts)
            (omega (arith, over, grows (b.current * 2) (min (length js) left), once))
      | inr t ↦
          let less : left - length js ≡ suc left - suc (length js) = omega arith in
          rw (attempt_doubles b j left h t, attempts)
            (subst
              (λ n.
                Keeps (b.current * 2 ^ min (suc (length js)) (suc left)) n
                  (attempts (doubled_timer b j) js))
              less
              (subst (λ d. Keeps d (left - length js) (attempts (doubled_timer b j) js)) once
                (attempts-Keeps (doubled_timer b j) js left (omega arith) (ground (arith, t)) all.0
                  all.1)))
    ]

Keeps-Backs :
    (doubled k retries : ℕ) (o : Option ExponentialBackoff)
    → Keeps doubled (retries - k) o
    → Backs doubled (ltb k retries) o
unfolding can_retry
Keeps-Backs doubled k retries none h = h
Keeps-Backs doubled k retries (some b) (fits, is, left, drawn) =
    (fits, is, ground arith, subst (λ d. Waits d (rto b)) is (rto-Waits b drawn))

-- A fresh timer, whose start is a duration, after any number of attempts with jitters as they are drawn,
-- counts one doubling for each attempt, up to the configured number of retries. It has panicked exactly
-- when the doubled duration is more than a `Duration` holds. Otherwise it is at this duration, and it may
-- retry exactly while fewer attempts have been made than retries are configured; and it waits for the
-- duration give or take a quarter of a second, but for 50 ms at least, where it panics only when the
-- duration and a quarter of a second are more than a `Duration` holds.
pub attempts_bounds :
    (start retries : ℕ) (j : ℤ) (js : List ℤ)
    → start ≤ max_duration
    → IsDrawn j
    → All IsDrawn js
    → Backs
        (start * 2 ^ min (length js) retries)
        (ltb (length js) retries)
        (attempts (new start retries j) js)
unfolding new
attempts_bounds start retries j js small drawn all =
    Keeps-Backs (start * 2 ^ min (length js) retries) (length js) retries
      (attempts (new start retries j) js)
      (attempts-Keeps (new start retries j) js retries (omega arith) small drawn all)
