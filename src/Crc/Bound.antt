-- ===== src/Crc/Bound.antt =====
-- The check sum is a `u16`, and one bit of the loop as arithmetic.
use bf_k61_firmware_aura.Prelude.{
  ℕ, zero, suc, ◌*◌, ◌/◌, ◌%◌, ◌^◌, ◌≡◌, refl, List, [], ◌∷◌, ◌++◌, bit_xor, arith, All, ◌==◌,
  if◌then◌else◌,
}
use bf_k61_firmware_aura.Prelude.Bits.{bit_xor-lt, bit_and_digit}
use bf_k61_firmware_aura.Crc.{IsByte, IsU16, shift_bit, shift_bits, update, crc_from, crc16_xmodem}

-- The test of the top bit is a comparison with 2 ^ 15.
pub shift_bit_arith :
    (c : ℕ)
    → IsU16 c
    → shift_bit c ≡ (if c / 2 ^ 15 == 0 then c * 2 else bit_xor (c * 2 % 2 ^ 16) 0x1021)
unfolding shift_bit
shift_bit_arith c h = ground (arith, bit_and_digit 15 c)

pub shift_bit-lt : (c : ℕ) → IsU16 c → IsU16 (shift_bit c)
shift_bit-lt c h = ground (arith, shift_bit_arith c, bit_xor-lt 16 (c * 2 % 2 ^ 16) 0x1021)

pub shift_bits-lt : (n c : ℕ) → IsU16 c → IsU16 (shift_bits n c)
unfolding shift_bits
shift_bits-lt zero c h = h
shift_bits-lt (suc n) c h = shift_bits-lt n (shift_bit c) (shift_bit-lt c h)

pub mixed-lt : (c b : ℕ) → IsU16 c → IsByte b → IsU16 (bit_xor c (b * 256))
mixed-lt c b h k = bit_xor-lt 16 c (b * 256) h (omega arith)

pub update-lt : (c b : ℕ) → IsU16 c → IsByte b → IsU16 (update c b)
unfolding update
update-lt c b h k = shift_bits-lt 8 _ (mixed-lt c b h k)

pub crc_from-lt : (c : ℕ) (bytes : List ℕ) → IsU16 c → All IsByte bytes → IsU16 (crc_from c bytes)
unfolding crc_from
crc_from-lt c [] h k = h
crc_from-lt c (b ∷ bytes) h k = crc_from-lt (update c b) bytes (update-lt c b h k.0) k.1

pub crc16_xmodem-lt : (bytes : List ℕ) → All IsByte bytes → IsU16 (crc16_xmodem bytes)
unfolding crc16_xmodem
crc16_xmodem-lt bytes k = crc_from-lt 0 bytes (omega arith) k

pub crc_from-append : (c : ℕ) (xs ys : List ℕ) → crc_from c (xs ++ ys) ≡ crc_from (crc_from c xs) ys
unfolding crc_from
crc_from-append c [] ys = refl
crc_from-append c (x ∷ xs) ys = crc_from-append (update c x) xs ys
