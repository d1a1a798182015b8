-- ===== src/FlashMap/Freq.antt =====
-- src/flash_map.rs: frequencies as packed and as unpacked decimal digits, and tone codes.
-- A `u8` or `u32` result that the source truncates keeps its `%`.
pub mod RoundTrip
use mathlib.Core.List.{foldl}
use bf_k61_firmware_aura.Prelude.{
  ℕ, zero, suc, ◌+◌, ◌*◌, ◌/◌, ◌%◌, ◌^◌, bit_and, bit_or, List, [], ◌∷◌, get_or, ltb, leb,
  if◌then◌else◌,
}

unfoldable pub digits_to_deci_hz : List ℕ → ℕ
digits_to_deci_hz digits = foldl (λ acc d. acc * 10 + d) 0 digits

-- The loop over the slots from the last to the first; `out` holds the slots written so far.
unfoldable pub write_digits : ℕ → ℕ → List ℕ → List ℕ
write_digits zero deci_hz out = out
write_digits (suc n) deci_hz out = write_digits n (deci_hz / 10) (deci_hz % 10 ∷ out)

-- The first argument is the number of slots, `out.len()`.
unfoldable pub deci_hz_to_digits : ℕ → ℕ → List ℕ
unfolding write_digits
deci_hz_to_digits n deci_hz = write_digits n deci_hz []

unfoldable pub bcd_byte_to_decimal : ℕ → ℕ
bcd_byte_to_decimal b = b / 16 * 10 + bit_and b 0x0f

unfoldable pub decimal_to_bcd_byte : ℕ → ℕ
decimal_to_bcd_byte v = bit_or (v / 10 * 16 % 2 ^ 32) (v % 10) % 256

unfoldable pub bcd4_to_deci_hz : List ℕ → ℕ
unfolding bcd_byte_to_decimal
bcd4_to_deci_hz bcd =
    bcd_byte_to_decimal (get_or bcd 3 0) * 1_000_000
    + bcd_byte_to_decimal (get_or bcd 2 0) * 10_000
    + bcd_byte_to_decimal (get_or bcd 1 0) * 100
    + bcd_byte_to_decimal (get_or bcd 0 0)

unfoldable pub deci_hz_to_bcd4 : ℕ → List ℕ
unfolding decimal_to_bcd_byte
deci_hz_to_bcd4 deci_hz =
    decimal_to_bcd_byte (deci_hz % 100)
    ∷ decimal_to_bcd_byte (deci_hz / 100 % 100)
    ∷ decimal_to_bcd_byte (deci_hz / 10_000 % 100)
    ∷ decimal_to_bcd_byte (deci_hz / 1_000_000)
    ∷ []

pub data SubaudioCode : Type 0 where
  none : SubaudioCode
  dcs_normal : ℕ → SubaudioCode
  dcs_inverted : ℕ → SubaudioCode
  ctcss : ℕ → SubaudioCode

unfoldable pub decode : ℕ → SubaudioCode
decode raw =
    if ltb 250 raw
    then ctcss raw
    else if leb 1 raw
    then (if leb raw 105 then dcs_normal raw else dcs_inverted raw)
    else none
