-- ===== src/Window/Refine.antt =====
-- The window against the numbers that it was given: `update` records a number, and `check` answers
-- from the 64 newest positions.
use dimpl.Base.{
  ℕ, zero, suc, ◌-◌, ◌≤◌, ◌<◌, max, ◌≡◌, refl, ap, Bool, true, false, not, ◌&&◌, ◌||◌, List, [],
  ◌∷◌, ltb, ◌==◌, if◌then◌else◌, contains, arith,
}
use dimpl.Base.Bits.{bit, bit-zero}
use dimpl.Window.{ReplayWindow, new, check, update}
use dimpl.Window.Bits.{masked_test, set_bit, shifted_bit}

-- The largest number of a history, and 0 for none.
abbrev pub maximum : List ℕ → ℕ
maximum [] = 0
maximum (s ∷ seen) = max s (maximum seen)

-- A window that was given the numbers of `seen`, the latest first.
unfoldable pub record_all : List ℕ → ReplayWindow
record_all [] = new
record_all (s ∷ seen) = update (record_all seen) s

-- What a receiver may accept: a number above all it has seen, or one of the 64 newest that it has not.
abbrev pub acceptable : List ℕ → ℕ → Bool
acceptable seen s = ltb (maximum seen) s || (ltb (maximum seen - s) 64 && not (contains seen s))

contains_above : (seen : List ℕ) (a : ℕ) → maximum seen < a → contains seen a ≡ false
contains_above [] a h = refl
contains_above (s ∷ seen) a h = ground (arith, contains_above seen a (omega arith))

abbrev mark : Bool → ℕ
mark true = 1
mark false = 0

record Holds (w : ReplayWindow) (seen : List ℕ) : Type 0 where
  top : w.max_seq ≡ maximum seen
  bits : (o : ℕ) → o < 64 → o ≤ w.max_seq → bit w.window o ≡ mark (contains seen (w.max_seq - o))

bit-one : (o : ℕ) → bit 1 o ≡ (if o == 0 then 1 else 0)
bit-one zero = refl
bit-one (suc o) = ground (arith, bit-zero o)

contains_moved :
    (seen : List ℕ) (m s o : ℕ)
    → m < s
    → s - m ≤ o
    → o ≤ s
    → contains seen (m - (o - (s - m))) ≡ contains seen (s - o)
contains_moved seen m s o h lo hi = ap (contains seen) (omega arith)

module _ (w : ReplayWindow) (seen : List ℕ) (s : ℕ) (h : Holds w seen) where
  top-update : (update w s).max_seq ≡ maximum (s ∷ seen)
  unfolding update
  top-update = ground (arith, h.top)

  bits-update :
      (o : ℕ)
      → o < 64
      → o ≤ (update w s).max_seq
      → bit (update w s).window o ≡ mark (contains (s ∷ seen) ((update w s).max_seq - o))
  unfolding update
  bits-update o small inside = ground (
    arith,
    h.top,
    h.bits o small,
    h.bits (o - (s - w.max_seq)),
    contains_above seen (s - o),
    shifted_bit w.window (s - w.max_seq) o,
    set_bit w.window (w.max_seq - s) o,
    bit-one o,
    contains_moved seen w.max_seq s o,
  )

record_all-Holds : (seen : List ℕ) → Holds (record_all seen) seen
unfolding record_all
record_all-Holds [] = record { top = refl; bits = λ o small inside. bit-zero o }
record_all-Holds (s ∷ seen) = record {
  top = top-update (record_all seen) seen s (record_all-Holds seen);
  bits = bits-update (record_all seen) seen s (record_all-Holds seen);
}

-- After any history of updates, `check` accepts exactly the numbers above every number seen and
-- those less than 64 below the largest that were not seen.
pub check_refines : (seen : List ℕ) (s : ℕ) → check (record_all seen) s ≡ acceptable seen s
unfolding check
check_refines seen s = ground (
  arith,
  (record_all-Holds seen).top,
  (record_all-Holds seen).bits ((record_all seen).max_seq - s),
  masked_test (record_all seen).window ((record_all seen).max_seq - s),
)

-- A number is not accepted by the window that has just recorded it.
pub check-update : (w : ReplayWindow) (s : ℕ) → check (update w s) s ≡ false
unfolding check update
check-update w s = ground (
  arith,
  masked_test (update w s).window ((update w s).max_seq - s),
  set_bit w.window (w.max_seq - s) (w.max_seq - s),
  shifted_bit w.window (s - w.max_seq) 0,
  bit-one 0,
)
