-- ===== src/Crc.antt =====
-- src/hal/wear_leveled.rs, `crc16_xmodem`: the check sum of CPS frames and of wear-leveled records.
-- A `u16` is a number below 2 ^ 16, and a slice of bytes is a list of numbers.
pub mod Bound
pub mod Detect
pub mod Residue
use bf_k61_firmware_aura.Prelude.{
  ℕ, zero, suc, ◌*◌, ◌%◌, ◌^◌, ◌<◌, bit_and, bit_xor, List, [], ◌∷◌, ◌==◌, if◌then◌else◌, All,
  get_or, arith,
}

abbrev pub IsByte : ℕ → Type 0
IsByte b = b < 256

abbrev pub IsU16 : ℕ → Type 0
IsU16 w = w < 2 ^ 16

pub get_or-IsByte : (xs : List ℕ) (i : ℕ) → All IsByte xs → IsByte (get_or xs i 0)
get_or-IsByte [] i h = omega arith
get_or-IsByte (x ∷ xs) zero h = h.0
get_or-IsByte (x ∷ xs) (suc i) h = get_or-IsByte xs i h.1

-- One round of the inner loop; `crc << 1` drops the top bit.
unfoldable pub shift_bit : ℕ → ℕ
shift_bit crc =
    if bit_and crc 0x8000 == 0 then crc * 2 % 2 ^ 16 else bit_xor (crc * 2 % 2 ^ 16) 0x1021

unfoldable pub shift_bits : ℕ → ℕ → ℕ
unfolding shift_bit
shift_bits zero crc = crc
shift_bits (suc n) crc = shift_bits n (shift_bit crc)

-- One round of the outer loop: `crc ^= (byte as u16) << 8`, then eight shifts.
unfoldable pub update : ℕ → ℕ → ℕ
unfolding shift_bits
update crc byte = shift_bits 8 (bit_xor crc (byte * 256))

unfoldable pub crc_from : ℕ → List ℕ → ℕ
unfolding update
crc_from crc [] = crc
crc_from crc (byte ∷ rest) = crc_from (update crc byte) rest

unfoldable pub crc16_xmodem : List ℕ → ℕ
unfolding crc_from
crc16_xmodem bytes = crc_from 0 bytes
