-- ===== src/App/Convert.antt =====
-- src/app/convert.rs: the raw codes of the records, and what they stand for in the radio; with the
-- table of DCS codes of src/app/settings.rs.
pub mod Codes
pub mod Index
pub mod Steps
pub mod Storable
use bf_k61_firmware_aura.Prelude.{
  ℕ, zero, suc, ◌+◌, ◌-◌, ◌%◌, ◌^◌, List, [], ◌∷◌, Bool, true, false, Option, none, some, get_or,
  ltb, ◌==◌, if◌then◌else◌,
}
use bf_k61_firmware_aura.FlashMap.Freq.{SubaudioCode, decode, dcs_normal, dcs_inverted}
use bf_k61_firmware_aura.Device.Keypad.{
  KeyId, digit0, digit1, digit2, digit3, digit4, digit5, digit6, digit7, digit8, digit9, asterisk,
  pound, menu, exit, up, down, vm, ab, band, side1, side2,
}

-- The octal codes of the source, in decimal.
abbrev pub dcs_table : List ℕ
dcs_table =
    19 ∷ 21 ∷ 22 ∷ 25 ∷ 26 ∷ 30 ∷ 35 ∷ 39 ∷ 41 ∷ 43 ∷ 44 ∷ 53 ∷ 57 ∷ 58 ∷ 59 ∷ 60 ∷ 76 ∷ 77 ∷ 78
    ∷ 82 ∷ 85 ∷ 89 ∷ 90 ∷ 92 ∷ 99 ∷ 101 ∷ 106 ∷ 109 ∷ 110 ∷ 114 ∷ 117 ∷ 122 ∷ 124 ∷ 133 ∷ 138 ∷ 147
    ∷ 149 ∷ 150 ∷ 163 ∷ 164 ∷ 165 ∷ 166 ∷ 169 ∷ 170 ∷ 173 ∷ 177 ∷ 179 ∷ 181 ∷ 182 ∷ 185 ∷ 188 ∷ 198
    ∷ 201 ∷ 205 ∷ 213 ∷ 217 ∷ 218 ∷ 227 ∷ 230 ∷ 233 ∷ 238 ∷ 244 ∷ 245 ∷ 249 ∷ 265 ∷ 266 ∷ 267 ∷ 275
    ∷ 281 ∷ 282 ∷ 293 ∷ 294 ∷ 298 ∷ 300 ∷ 301 ∷ 306 ∷ 308 ∷ 309 ∷ 310 ∷ 323 ∷ 326 ∷ 334 ∷ 339 ∷ 342
    ∷ 346 ∷ 358 ∷ 373 ∷ 390 ∷ 394 ∷ 404 ∷ 407 ∷ 409 ∷ 410 ∷ 421 ∷ 428 ∷ 434 ∷ 436 ∷ 451 ∷ 458 ∷ 467
    ∷ 473 ∷ 474 ∷ 476 ∷ 483 ∷ 492 ∷ []

-- `SubAudio` of src/drivers/fd6818.rs.
pub data SubAudio : Type 0 where
  silent : SubAudio
  ctcss : ℕ → SubAudio
  dcs : ℕ → Bool → SubAudio

unfoldable pub lookup : List ℕ → ℕ → Option ℕ
lookup [] i = none
lookup (c ∷ cs) zero = some c
lookup (c ∷ cs) (suc i) = lookup cs i

-- The position of a code from position `i` on.
unfoldable pub position : ℕ → List ℕ → ℕ → Option ℕ
position i [] code = none
position i (c ∷ cs) code = let rest = position (suc i) cs code in if c == code then some i else rest

unfoldable pub dcs_index : ℕ → Option ℕ
unfolding position
dcs_index code = position 0 dcs_table code

unfoldable pub dcs_of : Option ℕ → Bool → SubAudio
dcs_of none inverted = silent
dcs_of (some code) inverted = dcs code inverted

-- `wrapping_sub` of a 32-bit `usize`.
unfoldable pub dcs_from_table_index : ℕ → Bool → SubAudio
unfolding lookup dcs_of
dcs_from_table_index idx inverted = dcs_of (lookup dcs_table ((idx + 2 ^ 32 - 1) % 2 ^ 32)) inverted

unfoldable pub subaudio_of : SubaudioCode → SubAudio
unfolding dcs_from_table_index
subaudio_of SubaudioCode.none = silent
subaudio_of (SubaudioCode.ctcss t) = ctcss t
subaudio_of (dcs_normal idx) = dcs_from_table_index idx false
subaudio_of (dcs_inverted idx) = dcs_from_table_index (idx - 105) true

unfoldable pub subaudio_from_code : ℕ → SubAudio
unfolding subaudio_of decode
subaudio_from_code code = subaudio_of (decode code)

unfoldable pub code_of_index : Option ℕ → Bool → ℕ
code_of_index none inverted = 0
code_of_index (some i) inverted = if inverted then i + 1 + 105 else i + 1

unfoldable pub subaudio_to_code : SubAudio → ℕ
unfolding dcs_index code_of_index
subaudio_to_code silent = 0
subaudio_to_code (ctcss t) = t
subaudio_to_code (dcs code inverted) = code_of_index (dcs_index code) inverted

pub data Power : Type 0 where
  high : Power
  mid : Power
  low : Power

unfoldable pub power_from_raw : ℕ → Power
power_from_raw tx_power = if tx_power == 2 then low else if tx_power == 1 then mid else high

unfoldable pub power_to_raw : Power → ℕ
power_to_raw high = 0
power_to_raw mid = 1
power_to_raw low = 2

pub data Modulation : Type 0 where
  fm : Modulation
  am : Modulation
  usb : Modulation
  cw : Modulation
  cwf : Modulation

unfoldable pub modulation_from_raw : ℕ → Modulation
modulation_from_raw raw = get_or (fm ∷ am ∷ usb ∷ cw ∷ cwf ∷ []) raw fm

unfoldable pub modulation_to_raw : Modulation → ℕ
modulation_to_raw fm = 0
modulation_to_raw am = 1
modulation_to_raw usb = 2
modulation_to_raw cw = 3
modulation_to_raw cwf = 4

unfoldable pub digit_value : KeyId → Option ℕ
digit_value digit0 = some 0
digit_value digit1 = some 1
digit_value digit2 = some 2
digit_value digit3 = some 3
digit_value digit4 = some 4
digit_value digit5 = some 5
digit_value digit6 = some 6
digit_value digit7 = some 7
digit_value digit8 = some 8
digit_value digit9 = some 9
digit_value asterisk = none
digit_value pound = none
digit_value menu = none
digit_value exit = none
digit_value up = none
digit_value down = none
digit_value vm = none
digit_value ab = none
digit_value band = none
digit_value side1 = none
digit_value side2 = none
