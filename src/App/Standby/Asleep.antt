-- ===== src/App/Standby/Asleep.antt =====
-- How long a radio that saves power sleeps.
use bf_k61_firmware_aura.Prelude.{ℕ, zero, suc, ◌-◌, ◌≡◌, ap, ◌∙◌, true, false, arith, ltb, ◌==◌}
use bf_k61_firmware_aura.Drivers.NorFlash.{Chip}
use bf_k61_firmware_aura.Device.Radio.{enter_rx}
use bf_k61_firmware_aura.App.State.{App, is_standby}
use bf_k61_firmware_aura.App.Standby.{turn, poll_power_save}

module _ {c : Chip} where
  unfoldable pub saves : ℕ → App c → App c
  unfolding poll_power_save
  saves zero a = a
  saves (suc n) a = saves n (poll_power_save a)

  -- The radio may sleep, has been idle for long enough, and sleeps.
  pub record Sleeps (a : App c) : Type 0 where
    pub asleep : a.ps_asleep ≡ true
    pub idle : a.ps_idle_ticks ≡ 0
    pub level : (a.settings.save_level == 0) ≡ false
    pub ready : is_standby a.mode ≡ true
    pub quiet : a.transmitting ≡ false

  one_less :
      (a : App c)
      → Sleeps a
      → ltb 0 a.ps_cycle_ticks ≡ true
      → poll_power_save a ≡ record a { power_save = true; ps_cycle_ticks = a.ps_cycle_ticks - 1 }
  unfolding poll_power_save
  one_less a s more = ground (arith, s.asleep, s.idle, s.level, s.ready, s.quiet, more)

  wakes :
      (a : App c)
      → Sleeps a
      → ltb 0 a.ps_cycle_ticks ≡ false
      → ((poll_power_save a).ps_asleep ≡ false) × ((poll_power_save a).radio ≡ enter_rx a.radio)
  unfolding poll_power_save turn
  wakes a s over = (
    ground (arith, s.asleep, s.idle, s.level, s.ready, s.quiet, over),
    ground (arith, s.asleep, s.idle, s.level, s.ready, s.quiet, over),
  )

  -- A radio that sleeps to save power listens again: after as many polls as its counter says it still
  -- sleeps, and after one more it is awake, with the receiver switched on.
  pub saves-Sleeps :
      (n : ℕ) (a : App c)
      → Sleeps a
      → a.ps_cycle_ticks ≡ n
      → ((saves n a).ps_asleep ≡ true)
        × ((saves (suc n) a).ps_asleep ≡ false)
        × ((saves (suc n) a).radio ≡ enter_rx a.radio)
  unfolding saves
  saves-Sleeps zero a s e =
      let (awake, listens) = wakes a s (ground (arith, e)) in (s.asleep, awake, listens)
  saves-Sleeps (suc n) a s e =
      let a' : App c = record a { power_save = true; ps_cycle_ticks = a.ps_cycle_ticks - 1 } in
      let step = one_less a s (ground (arith, e)) in
      let s' : Sleeps a' = record {
        asleep = s.asleep;
        idle = s.idle;
        level = s.level;
        ready = s.ready;
        quiet = s.quiet;
      } in
      let (still, awake, listens) = saves-Sleeps n a' s' (omega (arith, e)) in
      (
        ap (λ b. (saves n b).ps_asleep) step ∙ still,
        ap (λ b. (saves (suc n) b).ps_asleep) step ∙ awake,
        ap (λ b. (saves (suc n) b).radio) step ∙ listens,
      )
