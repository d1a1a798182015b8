-- ===== src/Crc/Residue.antt =====
-- A message followed by its own check sum, high byte first, has the check sum 0.
use bf_k61_firmware_aura.Prelude.{
  ℕ, zero, suc, ◌+◌, ◌*◌, ◌/◌, ◌%◌, ◌^◌, ◌<◌, ◌≤◌, ◌≡◌, sym, ap, ap₂, ◌∙◌, List, [], ◌∷◌, ◌++◌,
  bit_xor, arith, All,
}
use bf_k61_firmware_aura.Prelude.Bits.{bit_xor_step, bit_xor_self, doubled}
use native.Mathlib.Nat.{pow-suc, one-le-pow}
use bf_k61_firmware_aura.Crc.{IsByte, IsU16, shift_bit, shift_bits, update, crc_from, crc16_xmodem}
use bf_k61_firmware_aura.Crc.Bound.{shift_bit_arith, crc_from-lt, crc_from-append}

-- `^` of fields that stand in the high byte leaves the low byte alone.
pub bit_xor_high :
    (k h q l : ℕ) → l < 2 ^ k → bit_xor (h * 2 ^ k + l) (q * 2 ^ k) ≡ bit_xor h q * 2 ^ k + l
bit_xor_high zero h q zero p =
    let left : h * 1 + 0 ≡ h = omega arith in
    let right : q * 1 ≡ q = omega arith in ap₂ bit_xor left right ∙ omega arith
bit_xor_high zero h q (suc l) p = absurd (omega arith)
bit_xor_high (suc k) h q l p =
    let left : (h * 2 ^ suc k + l) / 2 ≡ h * 2 ^ k + l / 2 = omega (arith, doubled h k) in
    let right : q * 2 ^ suc k / 2 ≡ q * 2 ^ k = omega (arith, doubled q k) in
    omega (
      arith,
      bit_xor_step (h * 2 ^ suc k + l) (q * 2 ^ suc k),
      doubled h k,
      doubled q k,
      doubled (bit_xor h q) k,
      ap (λ (t : ℕ). bit_xor t (q * 2 ^ suc k / 2)) left,
      ap (λ (t : ℕ). bit_xor (h * 2 ^ k + l / 2) t) right,
      bit_xor_high k h q (l / 2) (omega (arith, pow-suc 2 k)),
    )

le_scaled : (c p : ℕ) → 1 ≤ p → c ≤ c * p
le_scaled c p h = grind arith

-- Below 2 ^ 15 a shift is a doubling.
shift_bits_small : (n c : ℕ) → c * 2 ^ n < 2 ^ 16 → shift_bits n c ≡ c * 2 ^ n
unfolding shift_bits
shift_bits_small zero c h = omega arith
shift_bits_small (suc n) c h =
    let grown : c * 2 ^ suc n ≡ 2 * (c * 2 ^ n) = doubled c n in
    let room : c * 2 < 2 ^ 16 =
      omega (arith, le_scaled c (2 ^ n) (one-le-pow n 2 (omega arith)), grown) in
    let one_step : shift_bit c ≡ c * 2 = ground (arith, shift_bit_arith c) in
    rw one_step (shift_bits_small n (c * 2) (omega (arith, grown)) ∙ omega (arith, grown))

update_own_high : (h l : ℕ) → h < 256 → l < 256 → update (h * 256 + l) h ≡ l * 256
unfolding update
update_own_high h l p q =
    ap (λ (t : ℕ). shift_bits 8 t) (bit_xor_high 8 h h l q ∙ omega (arith, bit_xor_self h))
    ∙ shift_bits_small 8 l (omega arith)

update_own_low : (l : ℕ) → l < 256 → update (l * 256) l ≡ 0
unfolding update
update_own_low l q =
    ap (λ (t : ℕ). shift_bits 8 t) (bit_xor_self (l * 256)) ∙ shift_bits_small 8 0 (omega arith)

own_bytes : (c : ℕ) → IsU16 c → crc_from c (c / 256 ∷ c % 256 ∷ []) ≡ 0
unfolding crc_from
own_bytes c h =
    let split : c / 256 * 256 + c % 256 ≡ c = omega arith in
    let first : update c (c / 256) ≡ c % 256 * 256 =
      ap (λ (t : ℕ). update t (c / 256)) (sym split)
      ∙ update_own_high (c / 256) (c % 256) (omega arith) (omega arith) in
    ap (λ (t : ℕ). update t (c % 256)) first ∙ update_own_low (c % 256) (omega arith)

-- The check sum of a message of bytes with its check sum appended, high byte first, is 0.
pub crc16_xmodem_residue :
    (bytes : List ℕ)
    → All IsByte bytes
    → crc16_xmodem (bytes ++ (crc16_xmodem bytes / 256 ∷ crc16_xmodem bytes % 256 ∷ [])) ≡ 0
unfolding crc16_xmodem
crc16_xmodem_residue bytes h =
    crc_from-append 0 bytes _ ∙ own_bytes (crc_from 0 bytes) (crc_from-lt 0 bytes (omega arith) h)
