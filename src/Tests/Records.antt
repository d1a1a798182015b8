-- ===== src/Tests/Records.antt =====
-- Check sums, and the records of the flash memory.
use bf_k61_firmware_aura.Prelude.{◌≡◌, arith, replicate, All-replicate}
use bf_k61_firmware_aura.Crc.{IsByte}
use bf_k61_firmware_aura.FlashMap.Freq.{}
use bf_k61_firmware_aura.FlashMap.Freq.RoundTrip.{}
use bf_k61_firmware_aura.FlashMap.Settings
use bf_k61_firmware_aura.FlashMap.Settings.Sanitised.{
  settings_from_bytes-IsValid, settings_from_bytes-to_bytes,
}

abbrev erased_settings : Settings.Settings
erased_settings = Settings.from_bytes (replicate 212 0xFF)

settings_round_trip_example :
    Settings.from_bytes (Settings.to_bytes erased_settings) ≡ erased_settings
settings_round_trip_example =
    settings_from_bytes-to_bytes erased_settings (
      settings_from_bytes-IsValid (replicate 212 0xFF)
        (All-replicate IsByte 212 0xFF (omega arith)))
