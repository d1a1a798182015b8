-- ===== src/App/Transmit.antt =====
-- src/app/tx.rs: the PTT key, the Morse key and the time-out timer.
-- What `ptt_asserted` reads from the pin is an argument.
pub mod Allowed
pub mod Voice
pub mod Key
pub mod Safety
pub mod Timeout
pub mod Keying
pub mod Woken
use bf_k61_firmware_aura.Prelude.{
  ℕ, ◌+◌, ◌-◌, ◌*◌, ◌%◌, ◌^◌, min, List, [], ◌∷◌, Bool, true, false, not, ◌&&◌, ◌||◌, Option, none,
  some, length, get_or, ltb, leb, bool_eq, ◌==◌, if◌then◌else◌,
}
use bf_k61_firmware_aura.Drivers.NorFlash.{Chip}
use bf_k61_firmware_aura.Drivers.Fd6818.{set_pa_calibration}
use bf_k61_firmware_aura.FlashMap.Settings
use bf_k61_firmware_aura.FlashMap.Contact
use bf_k61_firmware_aura.App.Convert.{Power}
use bf_k61_firmware_aura.Device.Storage.{read_pa_calibration, read_contact}
use bf_k61_firmware_aura.Device.Radio.{
  Radio, ChannelConfig, is_cw, is_keyed, enter_rx, set_frequency, set_tx_frequency, set_power,
  set_subaudio_tx, set_subaudio_rx, set_modulation, send_dtmf_digits,
}
use bf_k61_firmware_aura.Device.Radio.Ani.{send_ani, digits_at}
use bf_k61_firmware_aura.Device.Radio.Transmit.{
  enter_tx, enter_tx_keyed, end_tx, sidetone_on, sidetone_off, keyed_tone_on, keyed_tone_off,
  cw_carrier_on, cw_carrier_off, cw_key_off,
}
use bf_k61_firmware_aura.App.Side.{Side}
use bf_k61_firmware_aura.App.State.{
  App, is_standby, side_at, master_side, note_power_save_activity, note_backlight_activity,
  is_transmitting,
}

abbrev pub dual_standby_hold_ticks : ℕ
dual_standby_hold_ticks = 10

abbrev pub vox_hold_after_ptt_ticks : ℕ
vox_hold_after_ptt_ticks = 100

abbrev pub cw_semi_hang_ticks : ℕ
cw_semi_hang_ticks = 80

abbrev pub cw_full_hang_ticks : ℕ
cw_full_hang_ticks = 6

abbrev pub ticks_per_second : ℕ
ticks_per_second = 100

-- `tot_seconds` of src/flash_map.rs.
unfoldable pub tot_seconds : Settings.Settings → ℕ
tot_seconds s = s.tot_level * 15

-- The product is a `u16`.
unfoldable pub tot_limit : Settings.Settings → ℕ
unfolding tot_seconds
tot_limit s = tot_seconds s * ticks_per_second % 2 ^ 16

unfoldable pub with_target : Radio → Option ℕ → Radio
unfolding set_pa_calibration
with_target r none = r
with_target r (some target) = record r { fd6818 = set_pa_calibration r.fd6818 target }

-- The settings of the master side, for voice and for a key.
unfoldable pub key_config : Radio → ChannelConfig → Radio
unfolding set_frequency set_tx_frequency set_power
key_config r cfg =
    set_power (set_tx_frequency (set_frequency r cfg.freq_hz) cfg.tx_freq_hz) cfg.power

unfoldable pub voice_config : Radio → ChannelConfig → Radio
unfolding key_config set_subaudio_tx set_subaudio_rx set_modulation
voice_config r cfg =
    set_modulation
      (set_subaudio_rx (set_subaudio_tx (key_config r cfg) cfg.subaudio_tx) cfg.subaudio_rx)
      cfg.modulation

module _ {c : Chip} where
  unfoldable pub resolve_contact : App c → Option ℕ → Option (ℕ × ℕ × ℕ)
  resolve_contact a none = none
  resolve_contact a (some idx) =
      let contact = read_contact c a.flash idx in
      if Contact.is_empty contact then none else some (digits_at (Contact.id contact) 0)

  unfoldable pub resolve_override : App c → Option (ℕ × ℕ × ℕ) → Option (ℕ × ℕ × ℕ)
  unfolding resolve_contact
  resolve_override a none = resolve_contact a (master_side a).ani_target
  resolve_override a (some id) = some id

  unfoldable pub resolve_ani_target : App c → Option (ℕ × ℕ × ℕ)
  unfolding resolve_override
  resolve_ani_target a = resolve_override a a.ani_target_override

  -- `reload_pa_calibration`, on a radio that is being configured.
  unfoldable pub reload_pa_calibration : App c → Radio → Radio
  unfolding with_target
  reload_pa_calibration a r =
      let cfg = (master_side a).cfg in
      with_target r (read_pa_calibration c a.flash cfg.tx_freq_hz cfg.power)

  unfoldable pub call_target : App c → Option (ℕ × ℕ × ℕ) → App c
  unfolding send_ani
  call_target a none = a
  call_target a (some target) = record a { radio = send_ani a.radio target }

  unfoldable pub dial : App c → Option (List ℕ) → App c
  unfolding send_ani send_dtmf_digits call_target resolve_ani_target
  dial a (some digits) =
      if length digits == 3
      then record a {
        dtmf_dial = none;
        ani_target_override = some (digits_at digits 0);
        radio = send_ani a.radio (digits_at digits 0);
      }
      else if ltb 0 (length digits)
      then record a { dtmf_dial = none; radio = send_dtmf_digits a.radio digits }
      else record a { dtmf_dial = none }
  dial a none = if a.settings.ani_tx then call_target a (resolve_ani_target a) else a

  -- What follows `enter_tx`.
  unfoldable pub voice_started : App c → Radio × Bool → App c
  unfolding dial
  voice_started a (r, true) =
      dial (record a { radio = r; transmitting = true; tot_ticks = 0; tx_prohibited = false })
        a.dtmf_dial
  voice_started a (r, false) = record a { radio = r; tx_prohibited = true }

  unfoldable pub start_voice : App c → App c
  unfolding voice_started voice_config reload_pa_calibration
  start_voice a =
      if not (is_standby a.mode)
      then a
      else if a.settings.tx_forbid
      then a
      else if a.settings.busy_lock && a.radio.rssi_open
      then a
      else voice_started (record a { watching = a.master })
          (enter_tx (reload_pa_calibration a (voice_config a.radio (master_side a).cfg)))

  unfoldable pub end_voice : App c → App c
  end_voice a =
      if a.transmitting
      then record a {
        tx_prohibited = false;
        transmitting = false;
        rtone_sounding = false;
        radio = end_tx a.radio;
        dual_hold_ticks = dual_standby_hold_ticks;
        vox_det_dly = vox_hold_after_ptt_ticks;
        vox_work_dly = 0;
        vox_active = false;
      }
      else record a { tx_prohibited = false }

  unfoldable pub set_voice : App c → Bool → App c
  unfolding start_voice end_voice
  set_voice a pressed =
      if pressed && not a.transmitting
      then start_voice a
      else if pressed
      then record a { vox_active = false; vox_work_dly = 0 }
      else end_voice a

  unfoldable pub wants_tx : App c → Bool
  wants_tx a =
      not (a.settings.bk_in == 0)
      && not a.settings.tx_forbid
      && not (a.settings.busy_lock && a.radio.rssi_open)

  unfoldable pub cw_started : App c → Radio × Bool → App c
  cw_started a (r, active) = record a {
    radio = r;
    cw_tx_active = active;
    tot_ticks = if active then 0 else a.tot_ticks;
  }

  unfoldable pub start_cw : App c → App c
  unfolding cw_started key_config reload_pa_calibration
  start_cw a =
      cw_started (record a { watching = a.master })
        (enter_tx_keyed (reload_pa_calibration a (key_config a.radio (master_side a).cfg)))

  -- The tone of a key that is down.
  unfoldable pub cw_tone : App c → App c
  cw_tone a =
      if a.cw_tx_active
      then (if is_cw (master_side a).cfg.modulation
          then record a { radio = cw_carrier_on (keyed_tone_on a.radio) }
          else record a { radio = keyed_tone_on a.radio })
      else record a { radio = sidetone_on a.radio }

  unfoldable pub cw_down : App c → App c
  unfolding cw_tone wants_tx start_cw
  cw_down a =
      let a' : App c = record a { cw_key_down = true; cw_hang_ticks = 0 } in
      cw_tone (if not a.cw_tx_active && wants_tx a then start_cw a' else a')

  unfoldable pub cw_up : App c → App c
  cw_up a =
      if a.cw_tx_active
      then record a {
        cw_key_down = false;
        radio =
            if is_cw (master_side a).cfg.modulation
            then cw_key_off (cw_carrier_off a.radio)
            else keyed_tone_off a.radio;
        cw_hang_ticks =
            if a.settings.bk_in == 2
            then cw_full_hang_ticks
            else if a.settings.bk_in == 1
            then cw_semi_hang_ticks
            else 0;
      }
      else record a { cw_key_down = false; radio = sidetone_off a.radio }

  unfoldable pub set_cw_key : App c → Bool → App c
  unfolding cw_down cw_up
  set_cw_key a down = if not (is_standby a.mode) then a else if down then cw_down a else cw_up a

  unfoldable pub set_ptt : App c → Bool → App c
  unfolding set_cw_key set_voice note_power_save_activity note_backlight_activity
  set_ptt a pressed =
      let a' : App c = note_backlight_activity (note_power_save_activity a) in
      if is_keyed (master_side a).cfg.modulation
      then set_cw_key a' pressed
      else set_voice a' pressed

  unfoldable pub poll_cw_key : App c → Bool → App c
  unfolding set_cw_key
  poll_cw_key a down = if not (bool_eq down a.cw_key_down) then set_cw_key a down else a

  unfoldable pub poll_cw_hang : App c → App c
  poll_cw_hang a =
      if a.cw_hang_ticks == 0
      then a
      else if a.cw_hang_ticks - 1 == 0 && not a.cw_key_down
      then record a {
        cw_hang_ticks = a.cw_hang_ticks - 1;
        radio = enter_rx a.radio;
        cw_tx_active = false;
      }
      else record a { cw_hang_ticks = a.cw_hang_ticks - 1 }

  -- The addition saturates, as that of `u16`.
  unfoldable pub poll_tot : App c → ℕ → App c
  unfolding set_ptt tot_limit
  poll_tot a ticks =
      if not (is_transmitting a) || a.settings.tot_level == 0
      then a
      else let a' : App c = record a { tot_ticks = min (a.tot_ticks + ticks) (2 ^ 16 - 1) } in
        if leb (tot_limit a.settings) a'.tot_ticks
        then (if a.cw_tx_active
            then record a' { radio = enter_rx a.radio; cw_tx_active = false; cw_hang_ticks = 0 }
            else set_ptt a' false)
        else a'

  -- The last two branches of the main loop (src/main.rs) for the pin, those of every mode but the
  -- tracking of satellites and the sending of pictures, whose own branches are not modelled: `down`
  -- is the pin, and `edge` the level of a debounced change of it.
  unfoldable pub poll_pin : App c → Bool → Option Bool → App c
  unfolding poll_cw_key set_ptt
  poll_pin a down none = if is_keyed (master_side a).cfg.modulation then poll_cw_key a down else a
  poll_pin a down (some level) =
      if is_keyed (master_side a).cfg.modulation then poll_cw_key a down else set_ptt a (not level)

-- What the main loop does about a transmission, outside those two modes: the pin, a press by voice,
-- and the two timers.
pub data Event : Type 0 where
  pin : Bool → Option Bool → Event
  vox : Bool → Event
  hang : Event
  tot : ℕ → Event

unfoldable pub handle : {c : Chip} → App c → Event → App c
unfolding poll_pin set_ptt poll_cw_hang poll_tot
handle a (pin down edge) = poll_pin a down edge
handle a (vox pressed) = set_ptt a pressed
handle a hang = poll_cw_hang a
handle a (tot ticks) = poll_tot a ticks

unfoldable pub run : {c : Chip} → App c → List Event → App c
unfolding handle
run a [] = a
run a (e ∷ events) = run (handle a e) events
