-- ===== src/Dtls13/Engine/Threshold.antt =====
-- src/dtls13/engine.rs: the jittered limit on the records that one key protects.
use dimpl.Base.{ℕ, ◌-◌, ◌/◌, ◌≤◌, ◌<◌, arith}
use dimpl.Dtls13.Engine.{jittered_aead_threshold}

-- Whatever word is drawn, the threshold is at most the configured limit, at most a quarter below
-- it, and not 0 unless the limit is.
jittered_aead_threshold_bounds :
    (limit word : ℕ)
    → (jittered_aead_threshold limit word ≤ limit)
      × (limit - limit / 4 ≤ jittered_aead_threshold limit word)
      × (0 < limit → 0 < jittered_aead_threshold limit word)
unfolding jittered_aead_threshold
jittered_aead_threshold_bounds limit word = (ground arith, ground arith, λ h. ground arith)
