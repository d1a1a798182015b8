-- ===== src/App/Standby/Voice.antt =====
-- A transmission that a voice has started ends when it falls silent.
use bf_k61_firmware_aura.Prelude.{ℕ, zero, suc, ◌-◌, ◌≡◌, Bool, true, false, ltb}
use bf_k61_firmware_aura.Drivers.NorFlash.{Chip}
use bf_k61_firmware_aura.Device.Radio.{is_keyed}
use bf_k61_firmware_aura.App.State.{App, is_standby, master_side}
use bf_k61_firmware_aura.App.Standby.{level_threshold, vox_tx_hysteresis, poll_vox}

module _ {c : Chip} (mic_level : ℕ) (rx_active : Bool) where
  unfoldable pub silence : ℕ → App c → App c
  unfolding poll_vox
  silence zero a = a
  silence (suc n) a = silence n (poll_vox a mic_level rx_active)

  -- The level is below both thresholds.
  abbrev pub IsSilent : App c → Type 0
  IsSilent a = ltb (level_threshold a.settings.vox_level - vox_tx_hysteresis) mic_level ≡ false

  pub record IsOff (a : App c) : Type 0 where
    pub quiet : a.transmitting ≡ false
    pub idle : a.vox_active ≡ false
    pub silent : IsSilent a

  -- The voice control has started a transmission by voice.
  pub record IsOn (a : App c) : Type 0 where
    pub sends : a.transmitting ≡ true
    pub active : a.vox_active ≡ true
    pub enabled : a.settings.vox_switch ≡ true
    pub ready : is_standby a.mode ≡ true
    pub heeds : a.vox_det_dly ≡ 0
    pub voice : is_keyed (master_side a).cfg.modulation ≡ false
    pub silent : IsSilent a

  -- The state after a poll that hears nothing.
  abbrev counted : App c → App c
  counted a = record a { vox_det_dly = 0; vox_work_dly = a.vox_work_dly - 1 }
