-- ===== src/App/Transmit/Timeout.antt =====
-- The time-out timer ends every transmission.
use bf_k61_firmware_aura.Prelude.{ℕ, ◌+◌, ◌*◌, ◌≤◌, ◌≡◌, List, [], ◌∷◌, arith}
use bf_k61_firmware_aura.FlashMap.Settings
use bf_k61_firmware_aura.App.State.{App}
use bf_k61_firmware_aura.App.Transmit.{tot_seconds, tot_limit, Event, tot}

-- The events of these elapsed ticks, and how many they are.
abbrev pub tots : List ℕ → List Event
tots [] = []
tots (t ∷ ts) = tot t ∷ tots ts

abbrev pub elapsed : List ℕ → ℕ
elapsed [] = 0
elapsed (t ∷ ts) = t + elapsed ts

pub tot_limit_lem : (s : Settings.Settings) → s.tot_level ≤ 43 → tot_limit s ≡ s.tot_level * 1500
unfolding tot_limit tot_seconds
tot_limit_lem s h = omega arith
