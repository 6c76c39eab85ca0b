-- ===== src/Dtls13/Engine/Epochs.antt =====
-- src/dtls13/engine.rs, `resolve_epoch`: an epoch from the two bits in the header of a record.
use dimpl.Base.{
  ℕ, ◌%◌, ◌<◌, ◌≡◌, refl, ◌⊎◌, inl, inr, true, ◌&&◌, Option, none, some, List, [], ◌∷◌, arith,
  Bool-cases, Option-cases, ◌==◌, any,
}
use dimpl.Dtls13.Engine.{Engine, RecvEpochEntry}
use dimpl.Dtls13.Engine.Send.{is_some}
use dimpl.Dtls13.Engine.Receive.{resolve_epoch, newest_match}

-- The match, if there is one, has the bits and stands in the list, unless it is the one given.
newest_match_lem :
    (bits : ℕ) (best : Option ℕ) (rs : List RecvEpochEntry) (epoch : ℕ)
    → newest_match bits best rs ≡ some epoch
    → (best ≡ some epoch) ⊎ ((epoch % 4 ≡ bits) × (any (λ r. r.epoch == epoch) rs ≡ true))
newest_match_lem bits best [] epoch h = inl h
newest_match_lem bits best (r ∷ rs) epoch h = elim (Bool-cases (r.epoch % 4 == bits)) [
  | inl t ↦ ground (arith, t, h, newest_match_lem bits (some r.epoch) rs epoch)
  | inr t ↦ ground (arith, t, h, newest_match_lem bits best rs epoch)
]

resolve_epoch-cases :
    (e : Engine) (bits : ℕ)
    → ((resolve_epoch e bits ≡ 2) × (bits ≡ 2) × (is_some e.hs_recv_keys ≡ true))
      ⊎ (((epoch : ℕ) × (resolve_epoch e bits ≡ epoch)
            × (newest_match bits none e.app_recv_keys ≡ some epoch))
          ⊎ (resolve_epoch e bits ≡ bits))
unfolding resolve_epoch
resolve_epoch-cases e bits = elim (Bool-cases (is_some e.hs_recv_keys && 2 == bits)) [
  | inl t ↦ inl (rw t refl, ground (arith, t), ground (arith, t))
  | inr t ↦ elim (Option-cases (newest_match bits none e.app_recv_keys)) [
    | inl n ↦ inr (inr (rw (t, n) refl))
    | inr (epoch, n) ↦ inr (inl (epoch, rw (t, n) refl, n))
  ]
]

-- The epoch that two bits stand for has these bits, and it is the handshake epoch, with its keys still
-- there, or an application epoch with receive keys, or the bits themselves.
resolve_epoch_lem :
    (e : Engine) (bits : ℕ)
    → bits < 4
    → (resolve_epoch e bits % 4 ≡ bits)
      × (((resolve_epoch e bits ≡ 2) × (is_some e.hs_recv_keys ≡ true))
          ⊎ ((any (λ r. r.epoch == resolve_epoch e bits) e.app_recv_keys ≡ true)
              ⊎ (resolve_epoch e bits ≡ bits)))
resolve_epoch_lem e bits h = elim (resolve_epoch-cases e bits) [
  | inl (two, same, keys) ↦ (omega (arith, two, same), inl (two, keys))
  | inr (inr same) ↦ (omega (arith, same), inr (inr same))
  | inr (inl (epoch, same, found)) ↦ elim (newest_match_lem bits none e.app_recv_keys epoch found) [
    | inl none_there ↦ ground (arith, none_there)
    | inr (low, there) ↦ rw same (low, inr (inl there))
  ]
]
