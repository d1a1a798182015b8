-- ===== src/FlashMap/Freq/RoundTrip.antt =====
-- What the two encodings of a frequency keep of it.
use mathlib.Core.List.{foldl}
use native.Mathlib.Nat.{pow-suc, div-div-eq-div-mul, div-add-mod}
use bf_k61_firmware_aura.Prelude.{
  ℕ, zero, suc, ◌+◌, ◌*◌, ◌/◌, ◌%◌, ◌^◌, ◌<◌, ◌≡◌, sym, ap, ◌∙◌, bit_and, bit_or, List, [], ◌∷◌,
  arith, length, All,
}
use bf_k61_firmware_aura.Prelude.Bits.{bit_and_step, bit_and-zero, bit_or_fields}
use bf_k61_firmware_aura.FlashMap.Freq.{
  digits_to_deci_hz, write_digits, deci_hz_to_digits, bcd_byte_to_decimal, decimal_to_bcd_byte,
  bcd4_to_deci_hz, deci_hz_to_bcd4,
}

low_nibble : (b : ℕ) → bit_and b 0x0f ≡ b % 16
low_nibble b = omega (
  arith,
  bit_and_step b 15,
  bit_and_step (b / 2) 7,
  bit_and_step (b / 2 / 2) 3,
  bit_and_step (b / 2 / 2 / 2) 1,
  bit_and-zero (b / 2 / 2 / 2 / 2),
)

-- A BCD byte has room for two digits, the first of which counts up to 15.
pub bcd_byte_lem : (v : ℕ) → v < 2 ^ 32 → bcd_byte_to_decimal (decimal_to_bcd_byte v) ≡ v % 160
unfolding bcd_byte_to_decimal decimal_to_bcd_byte
bcd_byte_lem v h =
    let joined : bit_or (v / 10 * 16 % 2 ^ 32) (v % 10) ≡ v / 10 * 16 % 2 ^ 32 + v % 10 =
      ap (λ (t : ℕ). bit_or t (v % 10)) {x = v / 10 * 16 % 2 ^ 32} {y = v / 10 % 2 ^ 28 * 16}
        (omega arith)
      ∙ bit_or_fields 4 (v / 10 % 2 ^ 28) (v % 10) (omega arith)
      ∙ omega arith in
    omega (arith, joined, low_nibble (bit_or (v / 10 * 16 % 2 ^ 32) (v % 10) % 256))

-- Packed BCD keeps a frequency modulo 160 000 000 deci-Hz, that is 1.6 GHz.
pub bcd4_to_deci_hz-deci_hz_to_bcd4 :
    (d : ℕ) → d < 2 ^ 32 → bcd4_to_deci_hz (deci_hz_to_bcd4 d) ≡ d % 160_000_000
unfolding bcd4_to_deci_hz deci_hz_to_bcd4
bcd4_to_deci_hz-deci_hz_to_bcd4 d h = omega (
  arith,
  bcd_byte_lem (d % 100) (omega arith),
  bcd_byte_lem (d / 100 % 100) (omega arith),
  bcd_byte_lem (d / 10_000 % 100) (omega arith),
  bcd_byte_lem (d / 1_000_000) (omega arith),
)

-- The value of the digits `ds`, with `acc` in front of them.
abbrev value_from : ℕ → List ℕ → ℕ
value_from acc ds = foldl (λ a d. a * 10 + d) acc ds

mod_scaled : (d p : ℕ) → d % (10 * p) ≡ d / 10 % p * 10 + d % 10
mod_scaled d p =
    let quotient : d / (10 * p) ≡ d / 10 / p = sym (div-div-eq-div-mul d 10 p) in
    omega
      (arith, div-add-mod d (10 * p), ap (λ (t : ℕ). 10 * p * t) quotient, div-add-mod (d / 10) p)

write_digits-value :
    (n d : ℕ) (out : List ℕ) → value_from 0 (write_digits n d out) ≡ value_from (d % 10 ^ n) out
unfolding write_digits
write_digits-value zero d out = ap (λ t. value_from t out) {x = 0} {y = d % 1} (omega arith)
write_digits-value (suc n) d out =
    write_digits-value n (d / 10) (d % 10 ∷ out)
    ∙ ap (λ t. value_from t out)
        (sym (mod_scaled d (10 ^ n))
          ∙ ap (λ (t : ℕ). d % t) {x = 10 * 10 ^ n} {y = 10 ^ suc n} (omega (arith, pow-suc 10 n)))

-- Unpacked digits in `n` slots keep a frequency modulo 10 ^ n.
pub digits_to_deci_hz-deci_hz_to_digits :
    (n d : ℕ) → digits_to_deci_hz (deci_hz_to_digits n d) ≡ d % 10 ^ n
unfolding digits_to_deci_hz deci_hz_to_digits
digits_to_deci_hz-deci_hz_to_digits n d = write_digits-value n d []

abbrev IsDigit : ℕ → Type 0
IsDigit d = d < 10

write_digits_shape :
    (n d : ℕ) (out : List ℕ)
    → All IsDigit out
    → (length (write_digits n d out) ≡ n + length out) × All IsDigit (write_digits n d out)
unfolding write_digits
write_digits_shape zero d out h = (omega arith, h)
write_digits_shape (suc n) d out h =
    let (len, digits) = write_digits_shape n (d / 10) (d % 10 ∷ out) (omega arith, h) in
    (omega arith, digits)

pub deci_hz_to_digits_shape :
    (n d : ℕ) → (length (deci_hz_to_digits n d) ≡ n) × All IsDigit (deci_hz_to_digits n d)
unfolding deci_hz_to_digits
deci_hz_to_digits_shape n d =
    let (len, digits) = write_digits_shape n d [] tt in (omega arith, digits)
