-- ===== src/Device/Storage/Calibration.antt =====
-- Where the calibrated power of a frequency is looked up (src/device/storage.rs). A power level has
-- a table of 64 bytes: 16 for 400 MHz and up, 16 for 130 MHz and up, 32 for 200 MHz and up.
use bf_k61_firmware_aura.Prelude.{
  ℕ, ◌+◌, ◌≡◌, Bool, ◌&&◌, ◌||◌, some, arith, leb, ltb, if◌then◌else◌,
}
use bf_k61_firmware_aura.App.Convert.{Power}
use bf_k61_firmware_aura.Device.Storage.{pa_table_base, pa_calibration_addr}

-- The part of the table that belongs to the band of a frequency.
abbrev pub part_start : ℕ → ℕ
part_start freq_hz =
    if leb 400_000_000 freq_hz then 0 else if leb 200_000_000 freq_hz then 0x20 else 0x10

abbrev pub part_size : ℕ → ℕ
part_size freq_hz =
    if leb 400_000_000 freq_hz then 0x10 else if leb 200_000_000 freq_hz then 0x20 else 0x10

abbrev pub in_part : Power → ℕ → ℕ → Bool
in_part power freq_hz a =
    leb (pa_table_base power + part_start freq_hz) a
    && ltb a (pa_table_base power + part_start freq_hz + part_size freq_hz)

-- The lookup of a frequency stays in its band's part of the table exactly when the frequency is
-- below 360 MHz, or from 400 MHz to below 560 MHz.
pub pa_calibration_addr_lem :
    (power : Power) (freq_hz a : ℕ)
    → pa_calibration_addr freq_hz power ≡ some a
    → in_part power freq_hz a
      ≡ (ltb freq_hz 360_000_000 || (leb 400_000_000 freq_hz && ltb freq_hz 560_000_000))
unfolding pa_calibration_addr
pa_calibration_addr_lem power freq_hz a e = ground arith
