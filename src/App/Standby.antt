-- ===== src/App/Standby.antt =====
-- src/app/mod.rs: what the main loop polls in the standby mode: dual standby, power saving, the key
-- lock, the back light and the voice control.
-- What the radio and the converter report is an argument or a field of the radio.
pub mod Asleep
pub mod Voice
use bf_k61_firmware_aura.Prelude.{
  ℕ, zero, suc, ◌+◌, ◌-◌, ◌*◌, min, max, List, [], ◌∷◌, Bool, true, false, not, ◌&&◌, ◌||◌, Option,
  none, some, get_or, ltb, ◌==◌, if◌then◌else◌,
}
use bf_k61_firmware_aura.Drivers.NorFlash.{Chip}
use bf_k61_firmware_aura.Device.Radio.{rf_sleep, enter_rx}
use bf_k61_firmware_aura.Device.Radio.Transmit.{play_beep}
use bf_k61_firmware_aura.App.State.{
  App, Mode, is_standby, note_power_save_activity, note_backlight_activity, power_save_idle_ticks,
}
use bf_k61_firmware_aura.App.Transmit.{dual_standby_hold_ticks, set_ptt}
use bf_k61_firmware_aura.App.SideOps.{apply_watching_to_radio, push_watching_config}

abbrev pub power_save_awake_ticks : ℕ
power_save_awake_ticks = 10

abbrev pub power_save_sleep_ticks_per_level : ℕ
power_save_sleep_ticks_per_level = 10

abbrev pub vox_threshold_table : List ℕ
vox_threshold_table = 127 ∷ 52 ∷ 62 ∷ 72 ∷ 84 ∷ 95 ∷ 106 ∷ 117 ∷ 125 ∷ 132 ∷ 140 ∷ []

abbrev pub vox_tx_hysteresis : ℕ
vox_tx_hysteresis = 8

abbrev pub vox_hold_after_rx_ticks : ℕ
vox_hold_after_rx_ticks = 150

abbrev pub vox_hold_after_tx_fail_ticks : ℕ
vox_hold_after_tx_fail_ticks = 120

abbrev pub is_tracking : Mode → Bool
is_tracking Mode.satellite_tracking = true
is_tracking Mode.standby = false
is_tracking Mode.app_menu = false
is_tracking Mode.settings_menu = false
is_tracking Mode.chan_mgr = false
is_tracking Mode.fm_broadcast = false
is_tracking Mode.scan = false
is_tracking Mode.search = false
is_tracking Mode.scan_qt = false
is_tracking Mode.contacts = false
is_tracking Mode.spectrum = false
is_tracking Mode.satellite = false
is_tracking Mode.sstv = false

-- The threshold of the level that is set, clamped to 1 to 9.
unfoldable pub level_threshold : ℕ → ℕ
level_threshold vox_level = get_or vox_threshold_table (max (min vox_level 9) 1) 0

module _ {c : Chip} where
  unfoldable pub set_dual_standby : App c → Bool → App c
  unfolding apply_watching_to_radio
  set_dual_standby a enabled =
      let a' : App c = record a {
        dual_standby = enabled;
        dual_hold_ticks = dual_standby_hold_ticks;
      } in
      if not enabled && not (a.watching == a.master)
      then apply_watching_to_radio (record a' { watching = a.master })
      else a'

  -- Once the sides may be swapped: the tests after the first `return`.
  unfoldable pub dual_step : App c → Bool → App c
  unfolding apply_watching_to_radio
  dual_step a signal_present =
      let held : App c = record a { dual_hold_ticks = dual_standby_hold_ticks } in
      if a.radio.monitor
      then (if a.watching == a.master
          then held
          else record (apply_watching_to_radio (record a { watching = a.master })) {
            dual_hold_ticks = dual_standby_hold_ticks;
          })
      else if signal_present
      then held
      else if ltb 0 a.dual_hold_ticks
      then record a { dual_hold_ticks = a.dual_hold_ticks - 1 }
      else apply_watching_to_radio (record held { watching = 1 - a.watching })

  unfoldable pub poll_dual_standby : App c → Bool → App c
  unfolding dual_step
  poll_dual_standby a signal_present =
      let a' : App c = record a {
        last_signal_side = if signal_present then some a.watching else a.last_signal_side;
      } in
      if not a.dual_standby || not (is_standby a.mode) || a.transmitting
      then a'
      else if a.power_save
      then a'
      else dual_step a' signal_present

  -- The end of a part of the duty cycle.
  unfoldable pub turn : App c → App c
  unfolding push_watching_config rf_sleep enter_rx
  turn a =
      if a.ps_asleep
      then record a {
        radio = enter_rx a.radio;
        ps_asleep = false;
        ps_cycle_ticks = power_save_awake_ticks;
      }
      else let a' : App c =
          if a.dual_standby
          then push_watching_config (record a { watching = 1 - a.watching })
          else a in
        record a' {
          radio = rf_sleep a'.radio;
          ps_asleep = true;
          ps_cycle_ticks = a.settings.save_level * power_save_sleep_ticks_per_level;
        }

  unfoldable pub poll_power_save : App c → App c
  unfolding turn note_power_save_activity
  poll_power_save a =
      if a.settings.save_level == 0 || not (is_standby a.mode) || a.transmitting
      then (if not (a.ps_idle_ticks == power_save_idle_ticks) || a.ps_asleep
          then note_power_save_activity a
          else a)
      else if not a.ps_asleep && (a.radio.rssi_open || a.radio.audio_open)
      then record a {
        power_save = false;
        ps_idle_ticks = power_save_idle_ticks;
        ps_cycle_ticks = 0;
      }
      else if ltb 0 a.ps_idle_ticks
      then record a { ps_idle_ticks = a.ps_idle_ticks - 1 }
      else if ltb 0 a.ps_cycle_ticks
      then record a { power_save = true; ps_cycle_ticks = a.ps_cycle_ticks - 1 }
      else turn (record a { power_save = true })

  unfoldable pub poll_backlight : App c → ℕ → App c
  unfolding note_backlight_activity
  poll_backlight a elapsed_10ms =
      let a' : App c = if a.radio.audio_open then note_backlight_activity a else a in
      if is_tracking a.mode
      then a'
      else record a' { bl_idle_ticks = a'.bl_idle_ticks - elapsed_10ms }

  unfoldable pub backlight_should_be_on : App c → Bool
  backlight_should_be_on a =
      a.transmitting
      || a.settings.backlight_time == 0
      || ltb 0 a.bl_idle_ticks
      || is_tracking a.mode

  unfoldable pub reset_key_idle : App c → App c
  reset_key_idle a = record a { key_idle_ticks = a.settings.key_auto_lock * 500 }

  unfoldable pub poll_auto_lock : App c → Bool → ℕ → App c
  unfolding play_beep
  poll_auto_lock a rx_active elapsed_10ms =
      if a.settings.key_auto_lock == 0
        || a.key_lock
        || not (is_standby a.mode)
        || a.transmitting
        || rx_active
      then a
      else if ltb 0 a.key_idle_ticks
      then (if a.key_idle_ticks - elapsed_10ms == 0
          then record a { key_idle_ticks = 0; key_lock = true; radio = play_beep a.radio }
          else record a { key_idle_ticks = a.key_idle_ticks - elapsed_10ms })
      else a

  unfoldable pub vox_threshold : App c → ℕ
  unfolding level_threshold
  vox_threshold a =
      let threshold = level_threshold a.settings.vox_level in
      if a.transmitting then threshold - vox_tx_hysteresis else threshold

  -- A press by voice, and what comes of it.
  unfoldable pub vox_press : App c → App c
  unfolding set_ptt
  vox_press a =
      let a' : App c = set_ptt a true in
      if a'.transmitting
      then record a' { vox_active = true }
      else record a' { vox_det_dly = vox_hold_after_tx_fail_ticks; vox_work_dly = 0 }

  unfoldable pub vox_hears : App c → App c
  unfolding vox_press
  vox_hears a =
      let a' : App c = record a { vox_work_dly = 50 + min a.settings.vox_delay 15 * 10 } in
      if a.transmitting then a' else vox_press a'

  unfoldable pub vox_ends : App c → App c
  unfolding set_ptt
  vox_ends a =
      if a.vox_active && a.vox_work_dly == 0
      then set_ptt (record a { vox_active = false }) false
      else a

  unfoldable pub poll_vox : App c → ℕ → Bool → App c
  unfolding vox_hears vox_ends vox_threshold
  poll_vox a mic_level rx_active =
      let a' : App c = record a {
        vox_det_dly = a.vox_det_dly - 1;
        vox_work_dly = a.vox_work_dly - 1;
      } in
      if not a.settings.vox_switch
      then a'
      else if not (is_standby a.mode) || (not a.transmitting && rx_active)
      then record a' { vox_det_dly = vox_hold_after_rx_ticks }
      else if not (a'.vox_det_dly == 0)
      then a'
      else vox_ends (if ltb (vox_threshold a) mic_level then vox_hears a' else a')
