-- ===== src/Drivers/NorFlash/Ideal.antt =====
-- A chip to run the code on: an array of bytes that does what `Chip` asks for.
use bf_k61_firmware_aura.Prelude.{ℕ, ◌-◌, ◌/◌, ◌%◌, ◌<◌, List, get_or, arith, ◌==◌, if◌then◌else◌}
use bf_k61_firmware_aura.Prelude.Bits.{bit_and-lt}
use bf_k61_firmware_aura.Drivers.NorFlash.{Chip, programmed, sector_size}

abbrev byte_at : (ℕ → ℕ) → ℕ → ℕ
byte_at m a = m a % 256

pub programmed-lt :
    (m : ℕ → ℕ) (addr : ℕ) (bytes : List ℕ) (a : ℕ) → programmed (byte_at m) addr bytes a < 256
programmed-lt m addr bytes a =
    ground (arith, bit_and-lt 8 (m a % 256) (get_or bytes (a - addr) 0) (omega arith))

abbrev pub ideal_chip : Chip
ideal_chip = record {
  State = ℕ → ℕ;
  read = byte_at;
  program = λ m. programmed (byte_at m);
  erase = λ m addr a. if a / sector_size == addr / sector_size then 0xFF else m a % 256;
  read-lt = λ m a. omega arith;
  read-program = λ m addr bytes h a. omega (arith, programmed-lt m addr bytes a);
  read-erase = λ m addr a. ground arith;
}

abbrev pub blank : ℕ → ℕ
blank a = 0xFF
