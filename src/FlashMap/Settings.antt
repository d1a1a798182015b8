-- ===== src/FlashMap/Settings.antt =====
-- src/flash_map.rs: `Settings`, the 212-byte record of the radio's settings.
-- An `i8` or `i32` is an integer; `signed` and `pattern_of` are its casts from and to bytes.
pub mod Sanitised
pub mod Default
use bf_k61_firmware_aura.Prelude.{
  ℕ, zero, suc, ◌*◌, ◌+◌, ◌-◌, ◌/◌, ◌%◌, ◌^◌, min, max, List, [], ◌∷◌, ◌++◌, Bool, true, false, not,
  ◌&&◌, get_or, replicate, ◌==◌, if◌then◌else◌,
}
use bf_k61_firmware_aura.Prelude.Int.{ℤ, pos, negsuc, leb_ℤ, ltb_ℤ, signed, pattern_of}
use bf_k61_firmware_aura.Prelude.Words.{span, span_of, from_le16, le16_lo, le16_hi, from_le32, le32}

pub record Settings : Type 0 where
  pub sql_level : ℕ
  pub tail_elimination : Bool
  pub busy_lock : Bool
  pub tx_forbid : Bool
  pub key_auto_lock : ℕ
  pub dual_standby : Bool
  pub vox_switch : Bool
  pub vox_level : ℕ
  pub tot_level : ℕ
  pub beeps_switch : Bool
  pub roger_tone : ℕ
  pub scramble_level : ℕ
  pub contrast : ℕ
  pub rtone : ℕ
  pub scan_mode : ℕ
  pub rit_offset : ℤ
  pub save_level : ℕ
  pub backlight_time : ℕ
  pub channel_display_mode : ℕ
  pub side1_short : ℕ
  pub side1_long : ℕ
  pub side2_short : ℕ
  pub side2_long : ℕ
  pub band_short : ℕ
  pub band_long : ℕ
  pub ani_tx : Bool
  pub rptrl : ℕ
  pub vox_delay : ℕ
  pub boot_display_mode : ℕ
  pub boot_sound_enabled : Bool
  pub boot_text_line1 : List ℕ
  pub boot_text_line2 : List ℕ
  pub boot_tune : List (ℕ × ℕ)
  pub battery_cal_raw : ℕ
  pub band_lock : ℕ
  pub bk_in : ℕ
  pub aprs_callsign : List ℕ
  pub aprs_lat : ℤ
  pub aprs_lon : ℤ
  pub aprs_path_idx : ℕ
  pub aprs_freq_hz : ℕ
  pub aprs_dev_info : Bool
  pub aprs_dev_name : List ℕ
  pub aprs_bat_volt : Bool
  pub aprs_custom_comment : List ℕ
  pub aprs_ssid : ℕ
  pub aprs_symbol_idx : ℕ
  pub aprs_power : ℕ

abbrev pub settings_bytes : ℕ
settings_bytes = 212

-- `i32::MAX`: the coordinates are not configured.
abbrev pub aprs_coord_not_set : ℤ
aprs_coord_not_set = pos 2147483647

abbrev pub u8_as_bool : ℕ → Bool
u8_as_bool b = not (b == 0)

abbrev pub bool_as_u8 : Bool → ℕ
bool_as_u8 true = 1
bool_as_u8 false = 0

abbrev pub clamp_ℤ : ℤ → ℤ → ℤ → ℤ
clamp_ℤ lo hi z = if ltb_ℤ z lo then lo else if ltb_ℤ hi z then hi else z

-- A coordinate outside [-bound, bound] is read as not set.
abbrev pub coord_or_not_set : ℕ → ℤ → ℤ
coord_or_not_set bound z =
    if leb_ℤ (negsuc (bound - 1)) z && leb_ℤ z (pos bound) then z else aprs_coord_not_set

-- The pairs of the boot tune, from the buffer and into it.
abbrev pub pairs : List ℕ → ℕ → ℕ → List (ℕ × ℕ)
pairs buf i zero = []
pairs buf i (suc n) = (get_or buf i 0, get_or buf (suc i) 0) ∷ pairs buf (suc (suc i)) n

abbrev pub unpairs : List (ℕ × ℕ) → ℕ → ℕ → List ℕ
unpairs xs i zero = []
unpairs xs i (suc n) = (get_or xs i (0, 0)).0 ∷ (get_or xs i (0, 0)).1 ∷ unpairs xs (suc i) n

unfoldable pub from_bytes : List ℕ → Settings
from_bytes buf = record {
  sql_level = get_or buf 0 0;
  tail_elimination = u8_as_bool (get_or buf 1 0);
  busy_lock = u8_as_bool (get_or buf 2 0);
  tx_forbid = u8_as_bool (get_or buf 3 0);
  key_auto_lock = min (get_or buf 4 0) 3;
  dual_standby = u8_as_bool (get_or buf 5 0);
  vox_switch = u8_as_bool (get_or buf 6 0);
  vox_level = max (min (get_or buf 7 0) 9) 1;
  tot_level = get_or buf 8 0;
  beeps_switch = u8_as_bool (get_or buf 9 0);
  roger_tone = min (get_or buf 10 0) 2;
  scramble_level = get_or buf 11 0;
  contrast = min (get_or buf 12 0) 4;
  rtone = min (get_or buf 13 0) 3;
  scan_mode = min (get_or buf 14 0) 2;
  rit_offset = clamp_ℤ (negsuc 126) (pos 127) (signed 128 (get_or buf 15 0));
  save_level = min (get_or buf 16 0) 4;
  backlight_time = min (get_or buf 17 0) 4;
  channel_display_mode = min (get_or buf 18 0) 2;
  side1_short = min (get_or buf 19 0) 11;
  side1_long = min (get_or buf 20 0) 11;
  side2_short = min (get_or buf 21 0) 11;
  side2_long = min (get_or buf 22 0) 11;
  band_short = min (get_or buf 23 0) 11;
  band_long = min (get_or buf 24 0) 11;
  ani_tx = u8_as_bool (get_or buf 25 0);
  rptrl = min (get_or buf 26 0) 10;
  vox_delay = min (get_or buf 27 0) 15;
  boot_display_mode = min (get_or buf 28 0) 3;
  boot_sound_enabled = u8_as_bool (get_or buf 29 0);
  boot_text_line1 = span buf 30 16;
  boot_text_line2 = span buf 46 16;
  boot_tune = pairs buf 62 48;
  battery_cal_raw = from_le16 (get_or buf 158 0) (get_or buf 159 0);
  band_lock = min (get_or buf 160 0) 9;
  bk_in = min (get_or buf 162 0) 2;
  aprs_callsign = span buf 163 7;
  aprs_lat = coord_or_not_set 9000000 (
      signed (2 ^ 31)
        (from_le32 (get_or buf 170 0) (get_or buf 171 0) (get_or buf 172 0) (get_or buf 173 0)));
  aprs_lon = coord_or_not_set 18000000 (
      signed (2 ^ 31)
        (from_le32 (get_or buf 174 0) (get_or buf 175 0) (get_or buf 176 0) (get_or buf 177 0)));
  aprs_path_idx = min (get_or buf 178 0) 3;
  aprs_freq_hz =
      from_le32 (get_or buf 179 0) (get_or buf 180 0) (get_or buf 181 0) (get_or buf 182 0);
  aprs_dev_info = u8_as_bool (get_or buf 183 0);
  aprs_dev_name = span buf 184 7;
  aprs_bat_volt = u8_as_bool (get_or buf 191 0);
  aprs_custom_comment = span buf 192 17;
  aprs_ssid = min (get_or buf 209 0) 15;
  aprs_symbol_idx = min (get_or buf 210 0) 10;
  aprs_power = min (get_or buf 211 0) 2;
}

-- The writes to `buf` are in ascending order; byte 161 is not written and stays 0.
unfoldable pub to_bytes : Settings → List ℕ
to_bytes s =
    s.sql_level
      ∷ bool_as_u8 s.tail_elimination
      ∷ bool_as_u8 s.busy_lock
      ∷ bool_as_u8 s.tx_forbid
      ∷ s.key_auto_lock
      ∷ bool_as_u8 s.dual_standby
      ∷ bool_as_u8 s.vox_switch
      ∷ s.vox_level
      ∷ s.tot_level
      ∷ bool_as_u8 s.beeps_switch
      ∷ s.roger_tone
      ∷ s.scramble_level
      ∷ s.contrast
      ∷ s.rtone
      ∷ s.scan_mode
      ∷ pattern_of 128 s.rit_offset
      ∷ s.save_level
      ∷ s.backlight_time
      ∷ s.channel_display_mode
      ∷ s.side1_short
      ∷ s.side1_long
      ∷ s.side2_short
      ∷ s.side2_long
      ∷ s.band_short
      ∷ s.band_long
      ∷ bool_as_u8 s.ani_tx
      ∷ s.rptrl
      ∷ s.vox_delay
      ∷ s.boot_display_mode
      ∷ bool_as_u8 s.boot_sound_enabled
      ∷ span s.boot_text_line1 0 16
    ++ (span s.boot_text_line2 0 16
        ++ (unpairs s.boot_tune 0 48
            ++ (le16_lo s.battery_cal_raw
                  ∷ le16_hi s.battery_cal_raw
                  ∷ s.band_lock
                  ∷ 0
                  ∷ s.bk_in
                  ∷ span s.aprs_callsign 0 7
                ++ (le32 (pattern_of (2 ^ 31) s.aprs_lat)
                    ++ (le32 (pattern_of (2 ^ 31) s.aprs_lon)
                        ++ (s.aprs_path_idx ∷ le32 s.aprs_freq_hz
                            ++ (bool_as_u8 s.aprs_dev_info ∷ span s.aprs_dev_name 0 7
                                ++ (bool_as_u8 s.aprs_bat_volt ∷ span s.aprs_custom_comment 0 17
                                    ++ (s.aprs_ssid ∷ s.aprs_symbol_idx ∷ s.aprs_power ∷ [])))))))))

-- TOT in seconds.
unfoldable pub tot_seconds : Settings → ℕ
tot_seconds s = s.tot_level * 15
