-- ===== src/Hal/Scheduler/Time.antt =====
-- No time is lost and none is counted twice.
use bf_k61_firmware_aura.Prelude.{ℕ, ◌≤◌, ◌<◌, List, [], ◌∷◌}
use bf_k61_firmware_aura.Hal.Scheduler.{
  Scheduler, period_10ms, period_50ms, period_100ms, period_500ms, since,
}

-- Rounds that are at most 50 ms apart.
unfoldable pub Prompt : ℕ → List ℕ → Type 0
Prompt last [] = Unit
Prompt last (now ∷ nows) = (since last now ≤ period_50ms) × Prompt now nows

pub record IsValid (s : Scheduler) : Type 0 where
  pub tens : s.acc_10 < period_10ms
  pub fifties : s.acc_50 < period_50ms
  pub hundreds : s.acc_100 < period_100ms
  pub five_hundreds : s.acc_500 < period_500ms
