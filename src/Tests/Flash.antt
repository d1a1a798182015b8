-- ===== src/Tests/Flash.antt =====
-- The stored records, on a chip of erased bytes.
use bf_k61_firmware_aura.Prelude.{
  ℕ, ◌+◌, ◌-◌, ◌≡◌, List, [], ◌∷◌, Option, some, none, arith, replicate, length, get_or, ltb, leb,
  ◌&&◌, if◌then◌else◌,
}
use bf_k61_firmware_aura.Drivers.NorFlash.Ideal.{ideal_chip, blank}
use bf_k61_firmware_aura.FlashMap.Sat
use bf_k61_firmware_aura.Device.Storage.{rmw_sector_record}
use bf_k61_firmware_aura.Device.Storage.Rmw.{IsRecord, rmw_sector_record_lem}

abbrev new_record : List ℕ
new_record = 1 ∷ 2 ∷ 3 ∷ []

new_record-IsRecord : IsRecord 0xA050 new_record
new_record-IsRecord = record {
  byted = omega arith;
  inside = omega arith;
  addressable = omega arith;
  no_scratch = λ e. omega arith;
}

rmw_sector_record_example :
    ideal_chip.read (rmw_sector_record ideal_chip blank 0xA050 new_record) 0xA051 ≡ (
      if leb 0xA050 0xA051 && ltb 0xA051 (0xA050 + length new_record)
      then get_or new_record (0xA051 - 0xA050) 0
      else ideal_chip.read blank 0xA051)
rmw_sector_record_example =
    rmw_sector_record_lem ideal_chip blank 0xA050 new_record new_record-IsRecord 0xA051
      (λ e. omega arith)

abbrev bird : Sat.SatRecord
bird = record {
  name = replicate 10 0x49;
  rx_freq_hz = 437800000;
  tx_freq_hz = 145990000;
  rx_tone_hz = 0;
  tx_tone_hz = 670;
  altitude_km = 420;
  flags = 1;
  pad = replicate 3 0xFF;
}

abbrev slots : List (Option Sat.SatRecord)
slots = none ∷ some bird ∷ replicate 18 none
