-- ===== src/Timer.antt =====
-- src/timer.rs: the retransmission timer. Durations are in nanoseconds, and `none` is the panic of a
-- `Duration` that overflows; a jitter is the number drawn from the random generator, between -0.25 s
-- and 0.25 s, in nanoseconds.
pub mod Backoff
use dimpl.Base.{ℕ, ◌+◌, ◌-◌, ◌*◌, ◌^◌, max, Bool, Option, none, some, ltb, ◌==◌, if◌then◌else◌}
use dimpl.Base.Int.{ℤ, pos, negsuc}

pub record ExponentialBackoff : Type 0 where
  pub start_rto : ℕ
  pub retries : ℕ
  pub current : ℕ
  pub jitter : ℤ
  pub left : ℕ

unfoldable pub new : ℕ → ℕ → ℤ → ExponentialBackoff
new start_rto retries jitter = record {
  start_rto = start_rto;
  retries = retries;
  current = start_rto;
  jitter = jitter;
  left = retries;
}

unfoldable pub reset : ExponentialBackoff → ℤ → ExponentialBackoff
reset b jitter = record b { current = b.start_rto; jitter = jitter; left = b.retries }

-- `from_millis(50)`
abbrev pub min_rto : ℕ
min_rto = 50_000_000

-- `Duration::MAX`: `u64::MAX` seconds and 999,999,999 nanoseconds.
abbrev pub max_duration : ℕ
max_duration = 2 ^ 64 * 1_000_000_000 - 1

-- `saturating_sub` for a negative jitter; both branches end in `max(50 ms)`.
unfoldable pub rto : ExponentialBackoff → Option ℕ
rto b = elim b.jitter [
  | pos j ↦ if ltb max_duration (b.current + j) then none else some (max (b.current + j) min_rto)
  | negsuc j ↦ some (max (b.current - (j + 1)) min_rto)
]

-- No retry is left: nothing changes.
unfoldable pub attempt : ExponentialBackoff → ℤ → Option ExponentialBackoff
attempt b jitter =
    if b.left == 0
    then some b
    else if ltb max_duration (b.current * 2)
    then none
    else some (record b { current = b.current * 2; jitter = jitter; left = b.left - 1 })

unfoldable pub can_retry : ExponentialBackoff → Bool
can_retry b = ltb 0 b.left
