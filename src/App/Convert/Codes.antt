-- ===== src/App/Convert/Codes.antt =====
-- Raw codes and what they stand for, there and back.
use bf_k61_firmware_aura.Prelude.{
  ℕ, ◌<◌, ◌≡◌, refl, ◌∙◌, true, ◌&&◌, arith, ltb, leb, if◌then◌else◌, Bool-cases, inl, inr,
}
use bf_k61_firmware_aura.Prelude.Tables.{all_below, same_values}
use bf_k61_firmware_aura.FlashMap.Freq.{decode}
use bf_k61_firmware_aura.App.Convert.{
  subaudio_of, subaudio_from_code, subaudio_to_code, Power, high, mid, low, power_from_raw,
  power_to_raw, Modulation, fm, am, usb, cw, cwf, modulation_from_raw, modulation_to_raw,
}

low_codes :
    (raw : ℕ)
    → raw < 251
    → subaudio_to_code (subaudio_from_code raw) ≡ (if ltb 210 raw then 0 else raw)
unfolding subaudio_to_code subaudio_from_code all_below
low_codes = same_values 251 _ _ refl

tone_codes : (raw : ℕ) → 250 < raw → subaudio_to_code (subaudio_from_code raw) ≡ raw
unfolding subaudio_to_code subaudio_from_code subaudio_of decode
tone_codes raw h = let test : ltb 250 raw ≡ true = ground (arith, h) in simp test refl

-- A sub-audio code that is decoded and encoded is the same code, but for the codes 211 to 250: no
-- DCS code has them, and they become 0, which is no sub-audio.
pub subaudio_to_code-subaudio_from_code :
    (raw : ℕ)
    → subaudio_to_code (subaudio_from_code raw) ≡ (if ltb 210 raw && leb raw 250 then 0 else raw)
subaudio_to_code-subaudio_from_code raw = elim (Bool-cases (ltb 250 raw)) [
  | inl tone ↦ tone_codes raw (ground (arith, tone)) ∙ ground (arith, tone)
  | inr small ↦ low_codes raw (ground (arith, small)) ∙ ground (arith, small)
]

power_code : (p : Power) → power_from_raw (power_to_raw p) ≡ p
unfolding power_from_raw power_to_raw
power_code high = refl
power_code mid = refl
power_code low = refl

modulation_code : (m : Modulation) → modulation_from_raw (modulation_to_raw m) ≡ m
unfolding modulation_from_raw modulation_to_raw
modulation_code fm = refl
modulation_code am = refl
modulation_code usb = refl
modulation_code cw = refl
modulation_code cwf = refl

-- Each power level and each modulation is read back from the byte that is written for it.
pub from_raw-to_raw :
    (power : Power) (modulation : Modulation)
    → (power_from_raw (power_to_raw power) ≡ power)
      × (modulation_from_raw (modulation_to_raw modulation) ≡ modulation)
from_raw-to_raw power modulation = (power_code power, modulation_code modulation)
