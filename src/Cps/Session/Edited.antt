-- ===== src/Cps/Session/Edited.antt =====
-- The settings that a session edits (src/cps/mod.rs handle_write) stay in range.
use bf_k61_firmware_aura.Prelude.{ℕ, zero, suc, ◌≡◌, refl, List, arith, All, length}
use bf_k61_firmware_aura.Crc.{IsByte, get_or-IsByte}
use bf_k61_firmware_aura.FlashMap.Settings.{Settings, pairs}
use bf_k61_firmware_aura.FlashMap.Settings.Sanitised.{IsValid}
use bf_k61_firmware_aura.Cps.Session.{with_boot_text, with_boot_tune, with_battery_cal}

pub length-pairs : (bytes : List ℕ) (i n : ℕ) → length (pairs bytes i n) ≡ n
length-pairs bytes i zero = refl
length-pairs bytes i (suc n) = omega (arith, length-pairs bytes (suc (suc i)) n)

pub boot_tune-IsValid :
    (s : Settings) (bytes : List ℕ) → IsValid s → IsValid (with_boot_tune s bytes)
unfolding with_boot_tune
boot_tune-IsValid s bytes v = record {
  key_auto_lock = v.key_auto_lock;
  vox_level = v.vox_level;
  roger_tone = v.roger_tone;
  contrast = v.contrast;
  rtone = v.rtone;
  scan_mode = v.scan_mode;
  rit_offset = v.rit_offset;
  save_level = v.save_level;
  backlight_time = v.backlight_time;
  channel_display_mode = v.channel_display_mode;
  side1_short = v.side1_short;
  side1_long = v.side1_long;
  side2_short = v.side2_short;
  side2_long = v.side2_long;
  band_short = v.band_short;
  band_long = v.band_long;
  rptrl = v.rptrl;
  vox_delay = v.vox_delay;
  boot_display_mode = v.boot_display_mode;
  boot_text_line1 = v.boot_text_line1;
  boot_text_line2 = v.boot_text_line2;
  boot_tune = length-pairs bytes 0 48;
  battery_cal_raw = v.battery_cal_raw;
  band_lock = v.band_lock;
  bk_in = v.bk_in;
  aprs_callsign = v.aprs_callsign;
  aprs_lat = v.aprs_lat;
  aprs_lon = v.aprs_lon;
  aprs_path_idx = v.aprs_path_idx;
  aprs_freq_hz = v.aprs_freq_hz;
  aprs_dev_name = v.aprs_dev_name;
  aprs_custom_comment = v.aprs_custom_comment;
  aprs_ssid = v.aprs_ssid;
  aprs_symbol_idx = v.aprs_symbol_idx;
  aprs_power = v.aprs_power;
}

pub boot_text-IsValid :
    (s : Settings) (bytes : List ℕ) → IsValid s → IsValid (with_boot_text s bytes)
unfolding with_boot_text
boot_text-IsValid s bytes v = record {
  key_auto_lock = v.key_auto_lock;
  vox_level = v.vox_level;
  roger_tone = v.roger_tone;
  contrast = v.contrast;
  rtone = v.rtone;
  scan_mode = v.scan_mode;
  rit_offset = v.rit_offset;
  save_level = v.save_level;
  backlight_time = v.backlight_time;
  channel_display_mode = v.channel_display_mode;
  side1_short = v.side1_short;
  side1_long = v.side1_long;
  side2_short = v.side2_short;
  side2_long = v.side2_long;
  band_short = v.band_short;
  band_long = v.band_long;
  rptrl = v.rptrl;
  vox_delay = v.vox_delay;
  boot_display_mode = omega arith;
  boot_text_line1 = refl;
  boot_text_line2 = refl;
  boot_tune = v.boot_tune;
  battery_cal_raw = v.battery_cal_raw;
  band_lock = v.band_lock;
  bk_in = v.bk_in;
  aprs_callsign = v.aprs_callsign;
  aprs_lat = v.aprs_lat;
  aprs_lon = v.aprs_lon;
  aprs_path_idx = v.aprs_path_idx;
  aprs_freq_hz = v.aprs_freq_hz;
  aprs_dev_name = v.aprs_dev_name;
  aprs_custom_comment = v.aprs_custom_comment;
  aprs_ssid = v.aprs_ssid;
  aprs_symbol_idx = v.aprs_symbol_idx;
  aprs_power = v.aprs_power;
}

pub battery_cal-IsValid :
    (s : Settings) (bytes : List ℕ)
    → All IsByte bytes
    → IsValid s
    → IsValid (with_battery_cal s bytes)
unfolding with_battery_cal
battery_cal-IsValid s bytes b v = record {
  key_auto_lock = v.key_auto_lock;
  vox_level = v.vox_level;
  roger_tone = v.roger_tone;
  contrast = v.contrast;
  rtone = v.rtone;
  scan_mode = v.scan_mode;
  rit_offset = v.rit_offset;
  save_level = v.save_level;
  backlight_time = v.backlight_time;
  channel_display_mode = v.channel_display_mode;
  side1_short = v.side1_short;
  side1_long = v.side1_long;
  side2_short = v.side2_short;
  side2_long = v.side2_long;
  band_short = v.band_short;
  band_long = v.band_long;
  rptrl = v.rptrl;
  vox_delay = v.vox_delay;
  boot_display_mode = v.boot_display_mode;
  boot_text_line1 = v.boot_text_line1;
  boot_text_line2 = v.boot_text_line2;
  boot_tune = v.boot_tune;
  battery_cal_raw = omega (arith, get_or-IsByte bytes 0 b, get_or-IsByte bytes 1 b);
  band_lock = v.band_lock;
  bk_in = v.bk_in;
  aprs_callsign = v.aprs_callsign;
  aprs_lat = v.aprs_lat;
  aprs_lon = v.aprs_lon;
  aprs_path_idx = v.aprs_path_idx;
  aprs_freq_hz = v.aprs_freq_hz;
  aprs_dev_name = v.aprs_dev_name;
  aprs_custom_comment = v.aprs_custom_comment;
  aprs_ssid = v.aprs_ssid;
  aprs_symbol_idx = v.aprs_symbol_idx;
  aprs_power = v.aprs_power;
}
