-- ===== src/App/State.antt =====
-- src/app/mod.rs: the part of `App` that the sides of the radio, its transmissions and the standby
-- share. The two sides are a pair, and their numbers are 0 and 1.
use bf_k61_firmware_aura.Prelude.{
  ℕ, ◌*◌, List, Bool, true, false, ◌||◌, Option, ◌==◌, if◌then◌else◌,
}
use bf_k61_firmware_aura.Drivers.NorFlash.{Chip}
use bf_k61_firmware_aura.FlashMap.Settings
use bf_k61_firmware_aura.Device.Radio.{Radio, enter_rx}
use bf_k61_firmware_aura.App.Side.{Side}

pub data Mode : Type 0 where
  standby app_menu settings_menu chan_mgr fm_broadcast scan search scan_qt contacts : Mode
  spectrum satellite satellite_tracking sstv : Mode

abbrev pub is_standby : Mode → Bool
is_standby standby = true
is_standby app_menu = false
is_standby settings_menu = false
is_standby chan_mgr = false
is_standby fm_broadcast = false
is_standby scan = false
is_standby search = false
is_standby scan_qt = false
is_standby contacts = false
is_standby spectrum = false
is_standby satellite = false
is_standby satellite_tracking = false
is_standby sstv = false

abbrev pub power_save_idle_ticks : ℕ
power_save_idle_ticks = 1000

abbrev pub backlight_step_ticks : ℕ
backlight_step_ticks = 500

pub record App (c : Chip) : Type 0 where
  pub radio : Radio
  pub flash : c.State
  pub mode : Mode
  pub sides : Side × Side
  pub settings : Settings.Settings
  pub master : ℕ
  pub watching : ℕ
  pub last_signal_side : Option ℕ
  pub key_lock : Bool
  pub transmitting : Bool
  pub tx_prohibited : Bool
  pub dual_standby : Bool
  pub dual_hold_ticks : ℕ
  pub tot_ticks : ℕ
  pub key_idle_ticks : ℕ
  pub vox_det_dly : ℕ
  pub vox_work_dly : ℕ
  pub vox_active : Bool
  pub rtone_sounding : Bool
  pub rtone_self_keyed : Bool
  pub cw_key_down : Bool
  pub cw_tx_active : Bool
  pub cw_hang_ticks : ℕ
  pub no_channels_ticks : ℕ
  pub ani_target_override : Option (ℕ × ℕ × ℕ)
  pub dtmf_dial : Option (List ℕ)
  pub power_save : Bool
  pub ps_asleep : Bool
  pub ps_idle_ticks : ℕ
  pub ps_cycle_ticks : ℕ
  pub bl_idle_ticks : ℕ

-- `sides[index]`, and an assignment to it.
abbrev pub side_at : Side × Side → ℕ → Side
side_at sides index = if index == 0 then sides.0 else sides.1

abbrev pub set_side : Side × Side → ℕ → Side → Side × Side
set_side sides index s = if index == 0 then (s, sides.1) else (sides.0, s)

abbrev pub master_side : {c : Chip} → App c → Side
master_side a = side_at a.sides a.master

unfoldable pub note_power_save_activity : {c : Chip} → App c → App c
note_power_save_activity a = record a {
  radio = if a.ps_asleep then enter_rx a.radio else a.radio;
  ps_asleep = false;
  power_save = false;
  ps_idle_ticks = power_save_idle_ticks;
  ps_cycle_ticks = 0;
}

unfoldable pub note_backlight_activity : {c : Chip} → App c → App c
note_backlight_activity a = record a {
  bl_idle_ticks = a.settings.backlight_time * backlight_step_ticks;
}

abbrev pub is_transmitting : {c : Chip} → App c → Bool
is_transmitting a = a.transmitting || a.cw_tx_active
