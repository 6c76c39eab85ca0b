-- ===== src/Dtls13/Engine/Retained.antt =====
-- src/dtls13/engine.rs, `update_recv_keys` and `resolve_epoch`: the retained receive epochs are told
-- apart by two bits.
use dimpl.Base.{
  ℕ, zero, suc, ◌+◌, ◌%◌, ◌≤◌, ◌<◌, ◌≡◌, ◌≢◌, refl, ap, subst, ◌∙◌, inl, inr, true, false, Option,
  none, some, List, [], ◌∷◌, ◌++◌, length, last?, leb, ◌==◌, if◌then◌else◌, arith, Bool-cases,
  length-append,
}
use dimpl.Dtls13.Engine.{Engine, RecvEpochEntry, recv_epoch_capacity}
use dimpl.Dtls13.Engine.Receive.{resolve_epoch, newest_match}
use dimpl.Dtls13.Engine.Rotate.{add_recv_epoch}

-- Entries of the epochs n, n + 1, and so on.
abbrev pub Consecutive : ℕ → List RecvEpochEntry → Type 0
Consecutive n [] = Unit
Consecutive n (r ∷ rs) = (r.epoch ≡ n) × Consecutive (n + 1) rs

-- Where no entry has the bits, what was found before stays.
newest_match-none :
    (bits n : ℕ) (best : Option ℕ) (rs : List RecvEpochEntry)
    → Consecutive n rs
    → ((i : ℕ) → i < length rs → (n + i) % 4 ≢ bits)
    → newest_match bits best rs ≡ best
newest_match-none bits n best [] c h = refl
newest_match-none bits n best (r ∷ rs) c h =
    let other : (r.epoch % 4 == bits) ≡ false = ground (arith, c.0, h 0) in
    rw (other, newest_match)
      (newest_match-none bits (n + 1) best rs c.1 (λ i lt. later i (h (suc i) (omega (arith, lt)))))
  where
    later : (i : ℕ) → (n + suc i) % 4 ≢ bits → (n + 1 + i) % 4 ≢ bits
    later i k = subst (λ m. m % 4 ≢ bits) (shifted i) k
      where
        shifted : (i : ℕ) → n + suc i ≡ n + 1 + i
        shifted i = omega arith

newest_match-exact :
    (n k : ℕ) (best : Option ℕ) (rs : List RecvEpochEntry)
    → Consecutive n rs
    → length rs ≤ 4
    → k < length rs
    → newest_match ((n + k) % 4) best rs ≡ some (n + k)
newest_match-exact n k best [] c few there = absurd (omega arith)
newest_match-exact n zero best (r ∷ rs) c few there =
    let here : r.epoch ≡ n + 0 = omega (arith, c.0) in
    let found : (r.epoch % 4 == (n + 0) % 4) ≡ true = ground (arith, here) in
    rw (found, newest_match)
      (newest_match-none ((n + 0) % 4) (n + 1) (some r.epoch) rs c.1
          (λ i lt. omega (arith, few, lt))
        ∙ ap some here)
newest_match-exact n (suc k) best (r ∷ rs) c few there =
    let other : (r.epoch % 4 == (n + suc k) % 4) ≡ false = ground (arith, c.0, few, there) in
    let shifted : n + 1 + k ≡ n + suc k = omega arith in
    rw (other, newest_match)
      (subst (λ m. newest_match (m % 4) best rs ≡ some m) shifted
        (newest_match-exact (n + 1) k best rs c.1 (omega (arith, few)) (omega (arith, there))))

-- With the handshake keys released, and receive keys for at most four epochs in a row, a record's two
-- bits give exactly the epoch, among these, that the record was protected in.
pub resolve_epoch-exact :
    (e : Engine) (n k : ℕ)
    → e.hs_recv_keys ≡ none
    → Consecutive n e.app_recv_keys
    → length e.app_recv_keys ≤ 4
    → k < length e.app_recv_keys
    → resolve_epoch e ((n + k) % 4) ≡ n + k
unfolding resolve_epoch
resolve_epoch-exact e n k released c few there =
    ground (arith, released, newest_match-exact n k none e.app_recv_keys c few there)

Consecutive-append :
    (n : ℕ) (entry : RecvEpochEntry) (rs : List RecvEpochEntry)
    → Consecutive n rs
    → entry.epoch ≡ n + length rs
    → Consecutive n (rs ++ (entry ∷ []))
Consecutive-append n entry [] c h = (omega (arith, h), tt)
Consecutive-append n entry (r ∷ rs) c h =
    (c.0, Consecutive-append (n + 1) entry rs c.1 (omega (arith, h)))

last?-append : (rs : List RecvEpochEntry) (r : RecvEpochEntry) → last? (rs ++ (r ∷ [])) ≡ some r
last?-append [] r = refl
last?-append (a ∷ []) r = refl
last?-append (a ∷ b ∷ rs) r = last?-append (b ∷ rs) r

-- A new receive epoch, one above the newest, is added to at most four in a row: then there are again at
-- most four in a row, the new one is the last, and the oldest is gone only where there were four.
pub add_recv_epoch-Consecutive :
    (entry : RecvEpochEntry) (rs : List RecvEpochEntry) (n : ℕ)
    → Consecutive n rs
    → length rs ≤ 4
    → entry.epoch ≡ n + length rs
    → (length (add_recv_epoch entry rs) ≤ 4)
      × Consecutive (if length rs == 4 then n + 1 else n) (add_recv_epoch entry rs)
      × (last? (add_recv_epoch entry rs) ≡ some entry)
unfolding add_recv_epoch
add_recv_epoch-Consecutive entry [] n c few next = (omega arith, (omega (arith, next), tt), refl)
add_recv_epoch-Consecutive entry (r ∷ rs) n c few next =
    elim (Bool-cases (leb recv_epoch_capacity (length (r ∷ rs)))) [
      | inl full ↦
          let four : (length (r ∷ rs) == 4) ≡ true = ground (arith, full, few) in
          rw (full, four)
            (
              omega (arith, few, length-append rs (entry ∷ [])),
              Consecutive-append (n + 1) entry rs c.1 (omega (arith, next)),
              last?-append rs entry,
            )
      | inr room ↦
          let fewer : (length (r ∷ rs) == 4) ≡ false = ground (arith, room) in
          rw (room, fewer)
            (
              ground (arith, room, length-append rs (entry ∷ [])),
              Consecutive-append n entry (r ∷ rs) c next,
              last?-append (r ∷ rs) entry,
            )
    ]
