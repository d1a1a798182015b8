-- ===== src/App/SideOps.antt =====
-- src/app/side_ops.rs: stepping, toggling and switching the sides of the radio.
-- The value of the digits that were entered is an argument of `commit_input`.
pub mod Consistent
use bf_k61_firmware_aura.Prelude.{
  ℕ, zero, suc, ◌+◌, ◌-◌, ◌*◌, ◌%◌, ◌^◌, List, [], ◌∷◌, ◌++◌, Bool, true, false, not, ◌&&◌, Option,
  none, some, leb, ◌==◌, if◌then◌else◌,
}
use bf_k61_firmware_aura.Drivers.NorFlash.{Chip}
use bf_k61_firmware_aura.Device.Storage.{is_channel_empty, read_channel, save_vfo_raw}
use bf_k61_firmware_aura.Device.Radio.{
  Radio, ChannelConfig, is_cw, enter_rx, set_frequency, set_tx_frequency, set_power,
  set_subaudio_tx, set_subaudio_rx, set_modulation,
}
use bf_k61_firmware_aura.App.Convert.{
  SubAudio, silent, Power, high, mid, low, Modulation, fm, am, usb, cw, cwf,
}
use bf_k61_firmware_aura.App.Scan.{max_channel_num, find_next}
use bf_k61_firmware_aura.App.Side.{
  ChVfoMode, vfo, channel, Side, saturating_add, backup_of, refresh_cfg_freqs, to_vfo_bytes,
  restore_vfo_from_backup, load_channel, step_deci_hz,
}
use bf_k61_firmware_aura.App.State.{App, side_at, set_side, master_side}

abbrev pub no_channels_hold_ticks : ℕ
no_channels_hold_ticks = 200

-- `cw_safe_subaudio` of src/app/convert.rs.
unfoldable pub cw_safe_subaudio : ChannelConfig → SubAudio × SubAudio
cw_safe_subaudio cfg =
    if is_cw cfg.modulation then (silent, silent) else (cfg.subaudio_tx, cfg.subaudio_rx)

unfoldable pub push_config : Radio → ChannelConfig → Radio
unfolding set_frequency set_tx_frequency set_power set_subaudio_tx set_subaudio_rx set_modulation
    cw_safe_subaudio
push_config r cfg =
    set_modulation
      (set_subaudio_rx
        (set_subaudio_tx
          (set_power (set_tx_frequency (set_frequency r cfg.freq_hz) cfg.tx_freq_hz) cfg.power)
          (cw_safe_subaudio cfg).0)
        (cw_safe_subaudio cfg).1)
      cfg.modulation

abbrev pub is_vfo : ChVfoMode → Bool
is_vfo vfo = true
is_vfo channel = false

abbrev pub next_power : Power → Power
next_power high = low
next_power low = mid
next_power mid = high

abbrev pub next_modulation : Modulation → Modulation
next_modulation fm = am
next_modulation am = usb
next_modulation usb = cw
next_modulation cw = cwf
next_modulation cwf = fm

unfoldable pub stepped : Side → Bool → Side
unfolding refresh_cfg_freqs
stepped s up = refresh_cfg_freqs (record s {
  rx_freq_hz =
      if up
      then saturating_add s.rx_freq_hz (step_deci_hz s * 10)
      else s.rx_freq_hz - step_deci_hz s * 10;
})

module _ {c : Chip} where
  unfoldable pub push_watching_config : App c → App c
  unfolding push_config
  push_watching_config a = record a { radio = push_config a.radio (side_at a.sides a.watching).cfg }

  unfoldable pub apply_watching_to_radio : App c → App c
  unfolding push_watching_config
  apply_watching_to_radio a =
      let a' : App c = push_watching_config a in
      if not a.transmitting then record a' { radio = enter_rx a'.radio } else a'

  unfoldable pub sync_watching_to_master : App c → App c
  unfolding apply_watching_to_radio
  sync_watching_to_master a = apply_watching_to_radio (record a { watching = a.master })

  -- The next number in use, from `from` on and round the table.
  unfoldable pub find_programmed_channel : App c → ℕ → Bool → Option ℕ
  unfolding find_next
  find_programmed_channel a from up =
      find_next (λ num. not (is_channel_empty c a.flash num)) up (max_channel_num + 1) from

  unfoldable pub save_vfo : App c → App c
  save_vfo a = record a {
    flash = save_vfo_raw c a.flash (to_vfo_bytes a.sides.0 ++ to_vfo_bytes a.sides.1);
  }

  unfoldable pub set_master : App c → Side → App c
  set_master a s = record a { sides = set_side a.sides a.master s }

  unfoldable pub load_channel_num : App c → ℕ → App c
  unfolding set_master
  load_channel_num a num =
      record (set_master a (load_channel (master_side a) num (read_channel c a.flash num))) {
        ani_target_override = none;
      }

  unfoldable pub load_found : App c → Option ℕ → App c
  unfolding load_channel_num
  load_found a none = a
  load_found a (some num) = load_channel_num a num

  unfoldable pub step_at : ChVfoMode → App c → Bool → App c
  unfolding stepped save_vfo set_master load_found find_programmed_channel
  step_at vfo a up = save_vfo (set_master a (stepped (master_side a) up))
  step_at channel a up = load_found a (find_programmed_channel a (master_side a).channel_num up)

  unfoldable pub step : App c → Bool → App c
  unfolding step_at sync_watching_to_master
  step a up = sync_watching_to_master (step_at (master_side a).vfo_chan a up)

  -- `clear` of the digits is not part of this state. `value` is below 10 ^ 6.
  unfoldable pub commit_at : ChVfoMode → App c → ℕ → App c
  unfolding load_channel_num sync_watching_to_master set_master save_vfo
  commit_at channel a value =
      if leb value max_channel_num && not (is_channel_empty c a.flash value)
      then sync_watching_to_master (load_channel_num a value)
      else a
  commit_at vfo a value = sync_watching_to_master (
      save_vfo
        (set_master a (refresh_cfg_freqs (record (master_side a) { rx_freq_hz = value * 1000 }))))

  unfoldable pub commit_input : App c → ℕ → App c
  unfolding commit_at
  commit_input a value = commit_at (master_side a).vfo_chan a value

  unfoldable pub channel_or_notice : App c → Option ℕ → App c
  unfolding load_channel_num
  channel_or_notice a none = record a { no_channels_ticks = no_channels_hold_ticks }
  channel_or_notice a (some num) = load_channel_num a num

  unfoldable pub toggled : ChVfoMode → App c → App c
  unfolding channel_or_notice set_master find_programmed_channel
  toggled vfo a =
      let s : Side = record (master_side a) { vfo_backup = backup_of (master_side a) } in
      let a' : App c = set_master a s in
      channel_or_notice a' (
        if is_channel_empty c a.flash s.channel_num
        then find_programmed_channel a' s.channel_num true
        else some s.channel_num)
  toggled channel a = set_master a (restore_vfo_from_backup (master_side a))

  -- What is done before the radio is told.
  unfoldable pub vfo_toggled : App c → App c
  unfolding toggled
  vfo_toggled a = record (toggled (master_side a).vfo_chan a) { ani_target_override = none }

  unfoldable pub toggle_vfo_channel : App c → App c
  unfolding vfo_toggled sync_watching_to_master
  toggle_vfo_channel a = sync_watching_to_master (vfo_toggled a)

  unfoldable pub switch_side : App c → App c
  unfolding sync_watching_to_master
  switch_side a =
      sync_watching_to_master (record a { master = 1 - a.master; ani_target_override = none })

  unfoldable pub toggle_reverse : App c → App c
  unfolding set_master sync_watching_to_master
  toggle_reverse a = sync_watching_to_master (
      set_master a
        (refresh_cfg_freqs (record (master_side a) { reversed = not (master_side a).reversed })))

  unfoldable pub side_changed : App c → App c
  unfolding set_master save_vfo
  side_changed a =
      let a' : App c = set_master a (refresh_cfg_freqs (master_side a)) in
      if is_vfo (master_side a).vfo_chan then save_vfo a' else a'

  unfoldable pub commit_side_change : App c → App c
  unfolding side_changed sync_watching_to_master
  commit_side_change a = sync_watching_to_master (side_changed a)

  unfoldable pub with_cfg : App c → ChannelConfig → App c
  unfolding set_master
  with_cfg a cfg = set_master a (record (master_side a) { cfg = cfg })

  unfoldable pub toggle_power : App c → App c
  unfolding with_cfg commit_side_change
  toggle_power a =
      let cfg = (master_side a).cfg in
      commit_side_change (with_cfg a (record cfg { power = next_power cfg.power }))

  unfoldable pub toggle_wide_narrow : App c → App c
  unfolding with_cfg commit_side_change
  toggle_wide_narrow a =
      let cfg = (master_side a).cfg in
      commit_side_change (with_cfg a (record cfg { wide_band = not cfg.wide_band }))

  unfoldable pub modulation_changed : App c → App c
  unfolding with_cfg
  modulation_changed a =
      let cfg = (master_side a).cfg in
      with_cfg
        (record a {
          radio = if a.cw_tx_active then enter_rx a.radio else a.radio;
          cw_tx_active = false;
          cw_hang_ticks = 0;
          cw_key_down = false;
        })
        (record cfg { modulation = next_modulation cfg.modulation })

  unfoldable pub toggle_modulation : App c → App c
  unfolding modulation_changed sync_watching_to_master
  toggle_modulation a = sync_watching_to_master (modulation_changed a)

-- The keys that change the master side.
pub data SideKey : Type 0 where
  step_key : Bool → SideKey
  vfo_channel side_key reverse_key power_key wide_narrow_key modulation_key : SideKey

unfoldable pub press : {c : Chip} → App c → SideKey → App c
unfolding step toggle_vfo_channel switch_side toggle_reverse toggle_power toggle_wide_narrow
    toggle_modulation
press a (step_key up) = step a up
press a vfo_channel = toggle_vfo_channel a
press a side_key = switch_side a
press a reverse_key = toggle_reverse a
press a power_key = toggle_power a
press a wide_narrow_key = toggle_wide_narrow a
press a modulation_key = toggle_modulation a
