-- ===== src/Cps/Session.antt =====
-- src/cps/mod.rs: what the radio does with the frames of a programming session.
-- The frame is `Frame`, the stored records are those of `Storage`. The bytes that a handler writes
-- to the serial port are its second result. `memory` is the program memory of the microcontroller.
pub mod Dispatch
pub mod Outcome
pub mod Edited
pub mod ReadBack
pub mod Loop
pub mod Stream
use bf_k61_firmware_aura.Prelude.{
  ℕ, zero, suc, ◌+◌, ◌-◌, ◌*◌, ◌/◌, ◌%◌, min, List, [], ◌∷◌, ◌++◌, Bool, true, false, ◌&&◌, ◌||◌,
  not, Option, none, some, length, take, drop, get_or, replicate, ltb, leb, ◌==◌, if◌then◌else◌,
}
use bf_k61_firmware_aura.Prelude.Words.{span, from_le16, le16_lo, le16_hi}
use bf_k61_firmware_aura.Cps.Frame.{
  Frame, FrameReader, FeedResult, pending, crc_error, encode, feed,
}
use bf_k61_firmware_aura.Drivers.NorFlash.{Chip}
use bf_k61_firmware_aura.FlashMap.Channel
use bf_k61_firmware_aura.FlashMap.Sat
use bf_k61_firmware_aura.FlashMap.Settings
use bf_k61_firmware_aura.FlashMap.Settings.{u8_as_bool, bool_as_u8, pairs, unpairs}
use bf_k61_firmware_aura.FlashMap.Settings.Default.{default_settings}
use bf_k61_firmware_aura.Device.Storage.{
  Storage, vfo_info_addr, radio_imfos_addr, fm_addr, chan_size, fm_channel_count, max_satellites,
  sat_record_size, boot_logo_size, bytes_from, words_from, load_settings, save_settings,
  load_vfo_raw, save_vfo_raw, load_fm_channels, save_fm_channels, read_channel, write_channel,
  load_satellites, write_satellite, read_boot_logo_chunk, erase_boot_logo, write_boot_logo_chunk,
  read_raw, erase_sstv_image, write_sstv_chunk,
}

abbrev pub cmd_read : ℕ
cmd_read = 0x52

abbrev pub cmd_write : ℕ
cmd_write = 0x57

abbrev pub cmd_end : ℕ
cmd_end = 0x45

abbrev pub cmd_read_boot : ℕ
cmd_read_boot = 0x42

abbrev pub cmd_read_logo : ℕ
cmd_read_logo = 0x4C

abbrev pub cmd_write_logo : ℕ
cmd_write_logo = 0x6C

abbrev pub cmd_sstv_erase : ℕ
cmd_sstv_erase = 0x53

abbrev pub cmd_sstv_write : ℕ
cmd_sstv_write = 0x73

abbrev pub cmd_read_flash_raw : ℕ
cmd_read_flash_raw = 0x44

abbrev pub cmd_error : ℕ
cmd_error = 0xEE

abbrev pub err_bad_crc : ℕ
err_bad_crc = 0x01

abbrev pub err_bad_addr : ℕ
err_bad_addr = 0x02

abbrev pub err_bad_len : ℕ
err_bad_len = 0x03

abbrev pub sat_cps_base : ℕ
sat_cps_base = 0xD000

abbrev pub boot_text_addr : ℕ
boot_text_addr = 0x9100

abbrev pub boot_tune_addr : ℕ
boot_tune_addr = 0x9200

abbrev pub battery_cal_addr : ℕ
battery_cal_addr = 0x9300

abbrev pub aprs_settings_addr : ℕ
aprs_settings_addr = 0x9400

abbrev pub fm_channel_empty : ℕ
fm_channel_empty = 0xFFFF

abbrev pub idle_timeout_ms : ℕ
idle_timeout_ms = 2000

unfoldable pub send_response : ℕ → ℕ → List ℕ → List ℕ
send_response cmd addr bytes = encode cmd addr bytes

unfoldable pub send_error : ℕ → ℕ → List ℕ
unfolding send_response
send_error addr code = send_response cmd_error addr (code ∷ [])

-- `unwrap_or`
unfoldable pub unwrap_or {ℓ} : {A : Type ℓ} → A → Option A → A
unwrap_or d none = d
unwrap_or d (some x) = x

-- The address of a satellite record.
abbrev pub is_sat_addr : ℕ → Bool
is_sat_addr logical =
    (leb sat_cps_base logical && ltb logical (sat_cps_base + max_satellites * sat_record_size))
    && (logical - sat_cps_base) % sat_record_size == 0

unfoldable pub sat_to_read : Option Sat.SatRecord → List ℕ
sat_to_read none = replicate sat_record_size 0xFF
sat_to_read (some sat) = Sat.to_bytes sat

-- The settings with the bytes from `at` on replaced, as two of the write handlers do it.
unfoldable pub patched : Settings.Settings → ℕ → List ℕ → Settings.Settings
patched settings at bytes =
    let raw = Settings.to_bytes settings in
    Settings.from_bytes (take at raw ++ (bytes ++ drop (at + length bytes) raw))

-- The settings with the boot texts, the boot tune or the battery calibration that was sent.
unfoldable pub with_boot_text : Settings.Settings → List ℕ → Settings.Settings
with_boot_text settings bytes = record settings {
  boot_display_mode = min (get_or bytes 0 0) 3;
  boot_sound_enabled = u8_as_bool (get_or bytes 1 0);
  boot_text_line1 = span bytes 2 16;
  boot_text_line2 = span bytes 18 16;
}

unfoldable pub with_boot_tune : Settings.Settings → List ℕ → Settings.Settings
with_boot_tune settings bytes = record settings { boot_tune = pairs bytes 0 48 }

unfoldable pub with_battery_cal : Settings.Settings → List ℕ → Settings.Settings
with_battery_cal settings bytes = record settings {
  battery_cal_raw = from_le16 (get_or bytes 0 0) (get_or bytes 1 0);
}

module _ (c : Chip) where
  abbrev pub settings_or_default : c.State → Settings.Settings
  settings_or_default s = unwrap_or default_settings (load_settings c s)

  -- `read_channel` of the session.
  unfoldable pub read_channel_bytes : c.State → ℕ → Option (List ℕ)
  read_channel_bytes s logical =
      if logical % chan_size == 0
      then some (Channel.to_bytes (read_channel c s (logical / chan_size)))
      else none

  -- The bytes of the region that `handle_read` finds at an address.
  unfoldable pub read_region : c.State → ℕ → Option (List ℕ)
  unfolding read_channel_bytes unwrap_or sat_to_read
  read_region s logical =
      if ltb logical vfo_info_addr
      then read_channel_bytes s logical
      else if logical == vfo_info_addr
      then some (unwrap_or (replicate 64 0xFF) (load_vfo_raw c s))
      else if logical == radio_imfos_addr
      then some (take 28 (Settings.to_bytes (settings_or_default s)))
      else if logical == fm_addr
      then some (
          bytes_from
            (unwrap_or (replicate fm_channel_count fm_channel_empty) (load_fm_channels c s)))
      else if logical == boot_text_addr
      then some (
          let settings = settings_or_default s in
          settings.boot_display_mode
          ∷ bool_as_u8 settings.boot_sound_enabled
          ∷ (settings.boot_text_line1 ++ settings.boot_text_line2))
      else if logical == boot_tune_addr
      then some (unpairs (settings_or_default s).boot_tune 0 48)
      else if logical == battery_cal_addr
      then some (
          le16_lo (settings_or_default s).battery_cal_raw
          ∷ le16_hi (settings_or_default s).battery_cal_raw
          ∷ [])
      else if logical == aprs_settings_addr
      then some (span (Settings.to_bytes (settings_or_default s)) 160 52)
      else if is_sat_addr logical
      then some (
          sat_to_read
            (get_or (load_satellites c s) ((logical - sat_cps_base) / sat_record_size) none))
      else none

  unfoldable pub reply_read : ℕ → Option (List ℕ) → List ℕ
  unfolding send_response send_error
  reply_read wire_addr none = send_error wire_addr err_bad_addr
  reply_read wire_addr (some bytes) = send_response cmd_read wire_addr bytes

  unfoldable pub handle_read : Storage c → ℕ → List ℕ
  unfolding read_region reply_read
  handle_read st wire_addr = reply_read wire_addr (read_region st.flash wire_addr)

  -- `write_channel` of the session.
  unfoldable pub write_channel_bytes : Storage c → ℕ → List ℕ → Option (Storage c)
  write_channel_bytes st logical bytes =
      if not (logical % chan_size == 0) || not (length bytes == chan_size)
      then none
      else some (write_channel c st (logical / chan_size) (Channel.from_bytes bytes))

  abbrev pub with_settings : Storage c → Settings.Settings → Storage c
  with_settings st settings = record st { flash = save_settings c st.flash settings }

  -- The storage after `handle_write`, where it accepts the address and the length.
  unfoldable pub write_region : Storage c → ℕ → List ℕ → Option (Storage c)
  unfolding write_channel_bytes unwrap_or patched with_boot_text with_boot_tune with_battery_cal
  write_region st logical bytes =
      if ltb logical vfo_info_addr
      then write_channel_bytes st logical bytes
      else if logical == vfo_info_addr && length bytes == 64
      then some (record st { flash = save_vfo_raw c st.flash bytes })
      else if logical == radio_imfos_addr && length bytes == 28
      then some (with_settings st (patched (settings_or_default st.flash) 0 bytes))
      else if logical == fm_addr && length bytes == fm_channel_count * 2
      then some
          (record st { flash = save_fm_channels c st.flash (words_from fm_channel_count bytes) })
      else if logical == boot_text_addr && length bytes == 34
      then some (with_settings st (with_boot_text (settings_or_default st.flash) bytes))
      else if logical == boot_tune_addr && length bytes == 96
      then some (with_settings st (with_boot_tune (settings_or_default st.flash) bytes))
      else if logical == battery_cal_addr && length bytes == 2
      then some (with_settings st (with_battery_cal (settings_or_default st.flash) bytes))
      else if logical == aprs_settings_addr && length bytes == 52
      then some (with_settings st (patched (settings_or_default st.flash) 160 bytes))
      else if is_sat_addr logical && length bytes == sat_record_size
      then some (write_satellite c st ((logical - sat_cps_base) / sat_record_size) bytes)
      else none

  unfoldable pub reply_write : Storage c → ℕ → Option (Storage c) → Storage c × List ℕ
  unfolding send_response send_error
  reply_write st wire_addr none = (st, send_error wire_addr err_bad_addr)
  reply_write st wire_addr (some written) = (written, send_response cmd_write wire_addr [])

  unfoldable pub handle_write : Storage c → ℕ → List ℕ → Storage c × List ℕ
  unfolding write_region reply_write
  handle_write st wire_addr bytes = reply_write st wire_addr (write_region st wire_addr bytes)
