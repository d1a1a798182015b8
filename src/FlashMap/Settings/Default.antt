-- ===== src/FlashMap/Settings/Default.antt =====
-- src/flash_map.rs: the settings of a radio whose flash holds none (Settings::DEFAULT).
use bf_k61_firmware_aura.Prelude.{[], ◌∷◌, true, false, replicate}
use bf_k61_firmware_aura.Prelude.Int.{pos}
use bf_k61_firmware_aura.FlashMap.Settings.{Settings, aprs_coord_not_set}

abbrev pub default_settings : Settings
default_settings = record {
  sql_level = 3;
  tail_elimination = true;
  busy_lock = false;
  tx_forbid = false;
  key_auto_lock = 0;
  dual_standby = true;
  vox_switch = false;
  vox_level = 1;
  tot_level = 8;
  beeps_switch = true;
  roger_tone = 0;
  scramble_level = 0;
  contrast = 2;
  rtone = 2;
  scan_mode = 1;
  rit_offset = pos 0;
  save_level = 0;
  backlight_time = 2;
  channel_display_mode = 2;
  side1_short = 8;
  side1_long = 7;
  side2_short = 2;
  side2_long = 3;
  band_short = 9;
  band_long = 0;
  ani_tx = false;
  rptrl = 0;
  vox_delay = 5;
  boot_display_mode = 2;
  boot_sound_enabled = false;
  boot_text_line1 = replicate 16 0;
  boot_text_line2 = replicate 16 0;
  boot_tune = replicate 48 (0, 0);
  battery_cal_raw = 2537;
  band_lock = 0;
  bk_in = 0;
  aprs_callsign = replicate 7 0;
  aprs_lat = aprs_coord_not_set;
  aprs_lon = aprs_coord_not_set;
  aprs_path_idx = 0;
  aprs_freq_hz = 144_390_000;
  aprs_dev_info = true;
  aprs_dev_name = b'U' ∷ b'V' ∷ b'-' ∷ b'K' ∷ b'6' ∷ b'x' ∷ 0 ∷ [];
  aprs_bat_volt = false;
  aprs_custom_comment = replicate 17 0;
  aprs_ssid = 0;
  aprs_symbol_idx = 0;
  aprs_power = 0;
}
