-- ===== src/Tests/Fixtures.antt =====
-- A radio, its sides and the application around them, as they stand after the start.
use bf_k61_firmware_aura.Prelude.{[], true, false, none, replicate}
use bf_k61_firmware_aura.Prelude.Int.{pos}
use bf_k61_firmware_aura.Drivers.NorFlash.Ideal.{ideal_chip, blank}
use bf_k61_firmware_aura.FlashMap.Settings.Default.{default_settings}
use bf_k61_firmware_aura.App.Convert.{silent, high, fm, Modulation}
use bf_k61_firmware_aura.Drivers.Fd6818
use bf_k61_firmware_aura.Drivers.Fd6818.{Fd6818}
use bf_k61_firmware_aura.Device.BandLock.{hardware}
use bf_k61_firmware_aura.Device.Radio.{Radio, ChannelConfig, roger}
use bf_k61_firmware_aura.App.Side.{Side, vfo}
use bf_k61_firmware_aura.App.State.{App, standby}

-- The chip receives on 145.5 MHz.
abbrev pub receiving : Fd6818
receiving = record {
  xtal_adjust = 6;
  pa_target = 90;
  tone_active = false;
  current_wide = true;
  state_reg = Fd6818.state_rx_on;
  power_reg = Fd6818.power_rx_value;
  pa_reg = Fd6818.pa_off_value;
  freq_reg = 14_550_000;
}

abbrev pub two_metres : ChannelConfig
two_metres = record {
  freq_hz = 145_500_000;
  tx_freq_hz = 145_500_000;
  wide_band = true;
  power = high;
  subaudio_tx = silent;
  subaudio_rx = silent;
  modulation = fm;
}

abbrev pub handheld : Radio
handheld = record {
  fd6818 = receiving;
  cfg = two_metres;
  sql_level = 3;
  tail_elimination = true;
  rptrl = 0;
  beeps_enabled = true;
  roger_tone = roger;
  scramble_level = 0;
  rit_offset_hz = pos 0;
  audio_open = false;
  sq_debounce = 0;
  rssi_open = false;
  rssi_debounce = 0;
  tx_state = false;
  ani = record { machine_id = (1, 2, 3); separator = 0x0A; group_code = none };
  dtmf_rx_buf = replicate 16 0;
  dtmf_rx_len = 0;
  dtmf_rx_timeout = 0;
  tx_allowed = hardware;
  monitor = false;
  speaker = false;
  dtmf_sent = [];
}

abbrev pub on_vfo : Modulation → Side
on_vfo modulation = record {
  vfo_chan = vfo;
  channel_num = 0;
  freq_step = 2;
  rx_freq_hz = 145_500_000;
  tx_freq_hz = 145_500_000;
  freq_dir = 0;
  offset_hz = 600_000;
  reversed = false;
  ani_target = none;
  cfg = record two_metres { modulation = modulation };
  name = replicate 12 0;
  vfo_backup = record {
    rx_freq_hz = 145_500_000;
    freq_dir = 0;
    offset_hz = 600_000;
    wide_band = true;
    power = high;
    subaudio_tx = silent;
    subaudio_rx = silent;
    ani_target = none;
  };
}

-- Both sides on the VFO, in the standby mode.
abbrev pub started : Modulation → App ideal_chip
started modulation = record {
  radio = record handheld { cfg = record two_metres { modulation = modulation } };
  flash = blank;
  mode = standby;
  sides = (on_vfo modulation, on_vfo modulation);
  settings = default_settings;
  master = 0;
  watching = 0;
  last_signal_side = none;
  key_lock = false;
  transmitting = false;
  tx_prohibited = false;
  dual_standby = false;
  dual_hold_ticks = 0;
  tot_ticks = 0;
  key_idle_ticks = 0;
  vox_det_dly = 0;
  vox_work_dly = 0;
  vox_active = false;
  rtone_sounding = false;
  rtone_self_keyed = false;
  cw_key_down = false;
  cw_tx_active = false;
  cw_hang_ticks = 0;
  no_channels_ticks = 0;
  ani_target_override = none;
  dtmf_dial = none;
  power_save = false;
  ps_asleep = false;
  ps_idle_ticks = 0;
  ps_cycle_ticks = 0;
  bl_idle_ticks = 0;
}
