-- ===== src/FlashMap/Settings/Sanitised.antt =====
-- What is read from the flash is in range, whatever the bytes are, and settings in range are read
-- back as they were written.
use bf_k61_firmware_aura.Prelude.{
  ℕ, suc, ◌-◌, ◌/◌, ◌%◌, ◌^◌, ◌≤◌, ◌<◌, ◌≡◌, refl, ap, ◌∙◌, Bool-cases, ◌⊎◌, inl, inr, min, max,
  List, Bool, true, false, ◌&&◌, arith, All, length, get_or,
}
use bf_k61_firmware_aura.Prelude.Int.{
  ℤ, pos, negsuc, leb_ℤ, signed, pattern_of, InRange, signed-pattern_of, pattern_of-lt, ◌≤ℤ◌,
}
use bf_k61_firmware_aura.Prelude.Words.{
  span_all, span_of_all, from_le32, from_le16-le16, from_le32-le32,
}
use bf_k61_firmware_aura.Crc.{IsByte, IsU16, get_or-IsByte}
use bf_k61_firmware_aura.FlashMap.Settings.{
  Settings, aprs_coord_not_set, u8_as_bool, bool_as_u8, clamp_ℤ, coord_or_not_set, from_bytes,
  to_bytes,
}

abbrev pub IsRit : ℤ → Type 0
IsRit z = (negsuc 126 ≤ℤ z) × (z ≤ℤ pos 127)

abbrev pub IsCoord : ℕ → ℤ → Type 0
IsCoord bound z = ((negsuc (bound - 1) ≤ℤ z) × (z ≤ℤ pos bound)) ⊎ (z ≡ aprs_coord_not_set)

-- The range of each setting that the firmware bounds, and the sizes of its arrays and words.
pub record IsValid (s : Settings) : Type 0 where
  pub key_auto_lock : s.key_auto_lock ≤ 3
  pub vox_level : (1 ≤ s.vox_level) × (s.vox_level ≤ 9)
  pub roger_tone : s.roger_tone ≤ 2
  pub contrast : s.contrast ≤ 4
  pub rtone : s.rtone ≤ 3
  pub scan_mode : s.scan_mode ≤ 2
  pub rit_offset : IsRit s.rit_offset
  pub save_level : s.save_level ≤ 4
  pub backlight_time : s.backlight_time ≤ 4
  pub channel_display_mode : s.channel_display_mode ≤ 2
  pub side1_short : s.side1_short ≤ 11
  pub side1_long : s.side1_long ≤ 11
  pub side2_short : s.side2_short ≤ 11
  pub side2_long : s.side2_long ≤ 11
  pub band_short : s.band_short ≤ 11
  pub band_long : s.band_long ≤ 11
  pub rptrl : s.rptrl ≤ 10
  pub vox_delay : s.vox_delay ≤ 15
  pub boot_display_mode : s.boot_display_mode ≤ 3
  pub boot_text_line1 : length s.boot_text_line1 ≡ 16
  pub boot_text_line2 : length s.boot_text_line2 ≡ 16
  pub boot_tune : length s.boot_tune ≡ 48
  pub battery_cal_raw : IsU16 s.battery_cal_raw
  pub band_lock : s.band_lock ≤ 9
  pub bk_in : s.bk_in ≤ 2
  pub aprs_callsign : length s.aprs_callsign ≡ 7
  pub aprs_lat : IsCoord 9000000 s.aprs_lat
  pub aprs_lon : IsCoord 18000000 s.aprs_lon
  pub aprs_path_idx : s.aprs_path_idx ≤ 3
  pub aprs_freq_hz : s.aprs_freq_hz < 2 ^ 32
  pub aprs_dev_name : length s.aprs_dev_name ≡ 7
  pub aprs_custom_comment : length s.aprs_custom_comment ≡ 17
  pub aprs_ssid : s.aprs_ssid ≤ 15
  pub aprs_symbol_idx : s.aprs_symbol_idx ≤ 10
  pub aprs_power : s.aprs_power ≤ 2

u8_as_bool-bool_as_u8 : (b : Bool) → u8_as_bool (bool_as_u8 b) ≡ b
u8_as_bool-bool_as_u8 true = refl
u8_as_bool-bool_as_u8 false = refl

min-eq_left : (x k : ℕ) → x ≤ k → min x k ≡ x
min-eq_left x k h = omega arith

clamp-eq : (x : ℕ) → (1 ≤ x) × (x ≤ 9) → max (min x 9) 1 ≡ x
clamp-eq x h = omega arith

rit_kept : (z : ℤ) → IsRit z → clamp_ℤ (negsuc 126) (pos 127) (signed 128 (pattern_of 128 z)) ≡ z
rit_kept (pos n) h = ground arith
rit_kept (negsuc n) h = ground arith

IsRit-clamped : (b : ℕ) → IsRit (clamp_ℤ (negsuc 126) (pos 127) (signed 128 b))
IsRit-clamped b = ground arith

coord_or_not_set-IsCoord : (bound : ℕ) (z : ℤ) → IsCoord bound (coord_or_not_set bound z)
coord_or_not_set-IsCoord bound z =
    elim (Bool-cases (leb_ℤ (negsuc (bound - 1)) z && leb_ℤ z (pos bound))) [
      | inl e ↦ rw e (inl (ground arith))
      | inr e ↦ rw e (inr refl)
    ]

coord-InRange : (bound : ℕ) (z : ℤ) → bound < 2 ^ 31 → IsCoord bound z → InRange (2 ^ 31) z
coord-InRange bound (pos n) small h = ground arith
coord-InRange bound (negsuc n) small h = ground arith

coord_stays : (bound : ℕ) (z : ℤ) → bound < 2 ^ 31 → IsCoord bound z → coord_or_not_set bound z ≡ z
coord_stays bound z small h =
    elim (Bool-cases (leb_ℤ (negsuc (bound - 1)) z && leb_ℤ z (pos bound))) [
      | inl e ↦ rw e
      | inr e ↦ rw e (ground arith)
    ]

coord_kept :
    (bound : ℕ) (z : ℤ)
    → bound < 2 ^ 31
    → IsCoord bound z
    → coord_or_not_set bound (
        signed (2 ^ 31) (
          from_le32
            (pattern_of (2 ^ 31) z % 256)
            (pattern_of (2 ^ 31) z / 256 % 256)
            (pattern_of (2 ^ 31) z / 65536 % 256)
            (pattern_of (2 ^ 31) z / 16777216 % 256)))
      ≡ z
coord_kept bound z small h =
    let fits : InRange (2 ^ 31) z = coord-InRange bound z small h in
    ap (λ t. coord_or_not_set bound (signed (2 ^ 31) t))
      (from_le32-le32 (pattern_of (2 ^ 31) z) (pattern_of-lt (2 ^ 31) z fits))
    ∙ ap (coord_or_not_set bound) (signed-pattern_of (2 ^ 31) z fits)
    ∙ coord_stays bound z small h

-- Whatever bytes stand in the flash, the settings read from them are in range.
pub settings_from_bytes-IsValid : (buf : List ℕ) → All IsByte buf → IsValid (from_bytes buf)
unfolding from_bytes
settings_from_bytes-IsValid buf bytes = record {
  key_auto_lock = omega arith;
  vox_level = omega arith;
  roger_tone = omega arith;
  contrast = omega arith;
  rtone = omega arith;
  scan_mode = omega arith;
  rit_offset = IsRit-clamped (get_or buf 15 0);
  save_level = omega arith;
  backlight_time = omega arith;
  channel_display_mode = omega arith;
  side1_short = omega arith;
  side1_long = omega arith;
  side2_short = omega arith;
  side2_long = omega arith;
  band_short = omega arith;
  band_long = omega arith;
  rptrl = omega arith;
  vox_delay = omega arith;
  boot_display_mode = omega arith;
  boot_text_line1 = refl;
  boot_text_line2 = refl;
  boot_tune = refl;
  battery_cal_raw = omega (arith, g 158, g 159);
  band_lock = omega arith;
  bk_in = omega arith;
  aprs_callsign = refl;
  aprs_lat = coord_or_not_set-IsCoord 9000000 (word 170);
  aprs_lon = coord_or_not_set-IsCoord 18000000 (word 174);
  aprs_path_idx = omega arith;
  aprs_freq_hz = omega (arith, g 179, g 180, g 181, g 182);
  aprs_dev_name = refl;
  aprs_custom_comment = refl;
  aprs_ssid = omega arith;
  aprs_symbol_idx = omega arith;
  aprs_power = omega arith;
}
  where
    g : (k : ℕ) → IsByte (get_or buf k 0)
    g k = get_or-IsByte buf k bytes

    word : ℕ → ℤ
    word k = signed (2 ^ 31) (
        from_le32 (get_or buf k 0) (get_or buf (suc k) 0) (get_or buf (suc (suc k)) 0)
          (get_or buf (suc (suc (suc k))) 0))

-- Settings in range that are written and read back are the same settings.
pub settings_from_bytes-to_bytes : (s : Settings) → IsValid s → from_bytes (to_bytes s) ≡ s
unfolding from_bytes to_bytes
settings_from_bytes-to_bytes s v = λ i. record s {
  tail_elimination = u8_as_bool-bool_as_u8 s.tail_elimination i;
  busy_lock = u8_as_bool-bool_as_u8 s.busy_lock i;
  tx_forbid = u8_as_bool-bool_as_u8 s.tx_forbid i;
  key_auto_lock = min-eq_left s.key_auto_lock 3 v.key_auto_lock i;
  dual_standby = u8_as_bool-bool_as_u8 s.dual_standby i;
  vox_switch = u8_as_bool-bool_as_u8 s.vox_switch i;
  vox_level = clamp-eq s.vox_level v.vox_level i;
  beeps_switch = u8_as_bool-bool_as_u8 s.beeps_switch i;
  roger_tone = min-eq_left s.roger_tone 2 v.roger_tone i;
  contrast = min-eq_left s.contrast 4 v.contrast i;
  rtone = min-eq_left s.rtone 3 v.rtone i;
  scan_mode = min-eq_left s.scan_mode 2 v.scan_mode i;
  rit_offset = rit_kept s.rit_offset v.rit_offset i;
  save_level = min-eq_left s.save_level 4 v.save_level i;
  backlight_time = min-eq_left s.backlight_time 4 v.backlight_time i;
  channel_display_mode = min-eq_left s.channel_display_mode 2 v.channel_display_mode i;
  side1_short = min-eq_left s.side1_short 11 v.side1_short i;
  side1_long = min-eq_left s.side1_long 11 v.side1_long i;
  side2_short = min-eq_left s.side2_short 11 v.side2_short i;
  side2_long = min-eq_left s.side2_long 11 v.side2_long i;
  band_short = min-eq_left s.band_short 11 v.band_short i;
  band_long = min-eq_left s.band_long 11 v.band_long i;
  ani_tx = u8_as_bool-bool_as_u8 s.ani_tx i;
  rptrl = min-eq_left s.rptrl 10 v.rptrl i;
  vox_delay = min-eq_left s.vox_delay 15 v.vox_delay i;
  boot_display_mode = min-eq_left s.boot_display_mode 3 v.boot_display_mode i;
  boot_sound_enabled = u8_as_bool-bool_as_u8 s.boot_sound_enabled i;
  boot_text_line1 = span_all 16 s.boot_text_line1 v.boot_text_line1 i;
  boot_text_line2 = span_all 16 s.boot_text_line2 v.boot_text_line2 i;
  boot_tune = span_of_all (0, 0) 48 s.boot_tune v.boot_tune i;
  battery_cal_raw = from_le16-le16 s.battery_cal_raw v.battery_cal_raw i;
  band_lock = min-eq_left s.band_lock 9 v.band_lock i;
  bk_in = min-eq_left s.bk_in 2 v.bk_in i;
  aprs_callsign = span_all 7 s.aprs_callsign v.aprs_callsign i;
  aprs_lat = coord_kept 9000000 s.aprs_lat (omega arith) v.aprs_lat i;
  aprs_lon = coord_kept 18000000 s.aprs_lon (omega arith) v.aprs_lon i;
  aprs_path_idx = min-eq_left s.aprs_path_idx 3 v.aprs_path_idx i;
  aprs_freq_hz = from_le32-le32 s.aprs_freq_hz v.aprs_freq_hz i;
  aprs_dev_info = u8_as_bool-bool_as_u8 s.aprs_dev_info i;
  aprs_dev_name = span_all 7 s.aprs_dev_name v.aprs_dev_name i;
  aprs_bat_volt = u8_as_bool-bool_as_u8 s.aprs_bat_volt i;
  aprs_custom_comment = span_all 17 s.aprs_custom_comment v.aprs_custom_comment i;
  aprs_ssid = min-eq_left s.aprs_ssid 15 v.aprs_ssid i;
  aprs_symbol_idx = min-eq_left s.aprs_symbol_idx 10 v.aprs_symbol_idx i;
  aprs_power = min-eq_left s.aprs_power 2 v.aprs_power i;
}
