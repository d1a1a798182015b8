-- ===== src/App/Meters.antt =====
-- The signal meter and the battery meter of src/app/mod.rs, with `map` of src/app/convert.rs.
-- The samples of the battery come from the converter and are arguments.
use bf_k61_firmware_aura.Prelude.{
  ℕ, zero, suc, ◌+◌, ◌-◌, ◌*◌, ◌/◌, ◌%◌, ◌^◌, ◌<◌, ◌≤◌, ◌≡◌, refl, bit_and, length, ◌&&◌, ◌==◌,
  Bool-cases, inl, inr, ap, List, [], ◌∷◌, Bool, true, max, min, arith, get_or, set, ltb, leb,
  bool_eq, if◌then◌else◌, leb→le,
}
use bf_k61_firmware_aura.Prelude.Int.{ℤ, pos, pos_part, neg_part, sub_ℕ, ◌+ℤ◌, ◌-ℤ◌, ◌*ℤ◌, leb_ℤ}
use bf_k61_firmware_aura.Prelude.Tables.{all_below, all_below_sound}
use bf_k61_firmware_aura.FlashMap.Settings.{clamp_ℤ}

-- Rust's division rounds towards 0.
infixl 70 ◌/ℤ◌
unfoldable pub ◌/ℤ◌ : ℤ → ℤ → ℤ
a /ℤ b =
    let q : ℕ = (pos_part a + neg_part a) / (pos_part b + neg_part b) in
    if bool_eq (ltb 0 (neg_part a)) (ltb 0 (neg_part b)) then pos q else sub_ℕ 0 q

unfoldable pub map : ℤ → ℤ → ℤ → ℤ → ℤ → ℤ
unfolding ◌+ℤ◌ ◌-ℤ◌ ◌*ℤ◌ ◌/ℤ◌
map x in_min in_max out_min out_max =
    (x -ℤ in_min) *ℤ (out_max -ℤ out_min) /ℤ (in_max -ℤ in_min) +ℤ out_min

abbrev pub rssi_dbm_base : ℕ
rssi_dbm_base = 160 - 6 + 20

unfoldable pub rssi_raw_to_dbm : ℕ → ℤ
rssi_raw_to_dbm raw = sub_ℕ raw rssi_dbm_base

unfoldable pub dbm_to_rssi_raw : ℤ → ℤ
unfolding ◌+ℤ◌
dbm_to_rssi_raw dbm = dbm +ℤ pos rssi_dbm_base

-- `pos` of the source.
unfoldable pub attenuation : ℕ → ℤ
unfolding rssi_raw_to_dbm ◌-ℤ◌
attenuation raw = clamp_ℤ (pos 53) (pos 141) (pos 0 -ℤ rssi_raw_to_dbm raw)

unfoldable pub s_meter_s_number : ℕ → ℕ
unfolding attenuation map
s_meter_s_number raw =
    pos_part (clamp_ℤ (pos 1) (pos 9) (map (attenuation raw) (pos 141) (pos 93) (pos 1) (pos 9)))

unfoldable pub s_meter_level : ℕ → ℕ
unfolding attenuation map s_meter_s_number
s_meter_level raw =
    if leb_ℤ (pos 93) (attenuation raw)
    then s_meter_s_number raw
    else 9
      + pos_part (clamp_ℤ (pos 0) (pos 4) (map (attenuation raw) (pos 93) (pos 53) (pos 0) (pos 4)))

abbrev rises : ℕ → Bool
rises raw = leb (s_meter_level raw) (s_meter_level (raw + 1))

level_rises : (raw : ℕ) → raw < 255 → s_meter_level raw ≤ s_meter_level (raw + 1)
unfolding s_meter_level all_below
level_rises raw h =
    leb→le _ _ (all_below_sound 255 (λ r. leb (s_meter_level r) (s_meter_level (r + 1))) raw refl h)

same_level : (a b : ℕ) → a ≡ b → s_meter_level a ≤ s_meter_level b
same_level a b e = omega (arith, ap s_meter_level e)

rises_to : (b a : ℕ) → a ≤ b → b < 256 → s_meter_level a ≤ s_meter_level b
rises_to zero a low h = same_level a zero (omega arith)
rises_to (suc b) a low h = elim (Bool-cases (ltb a (suc b))) [
  | inl less ↦ omega (
    arith,
    rises_to b a (ground (arith, less)) (omega arith),
    level_rises b (omega arith),
    same_level (b + 1) (suc b) (omega arith),
  )
  | inr same ↦ same_level a (suc b) (ground (arith, same))
]

in_scale : ℕ → Bool
in_scale raw =
    leb 1 (s_meter_level raw)
    && leb (s_meter_level raw) 13
    && s_meter_s_number raw == min 9 (s_meter_level raw)

level_in_scale : (raw : ℕ) → raw < 256 → in_scale raw ≡ true
unfolding in_scale s_meter_level all_below
level_in_scale raw h = all_below_sound 256 in_scale raw refl h

-- The signal meter never shows less for a stronger signal; it has the levels 1 to 13, and the S
-- number is the level as far as S9.
pub s_meter_level_lem :
    (a b : ℕ)
    → a ≤ b
    → b < 256
    → (s_meter_level a ≤ s_meter_level b)
      × (1 ≤ s_meter_level b)
      × (s_meter_level b ≤ 13)
      × (s_meter_s_number b ≡ min 9 (s_meter_level b))
unfolding in_scale
s_meter_level_lem a b le h =
    let scale = level_in_scale b h in
    (rises_to b a le h, ground (arith, scale), ground (arith, scale), ground (arith, scale))

-- The calibration bytes, the bars that are shown and a ring of the last four samples.
pub record Battery : Type 0 where
  pub cal : List ℕ
  pub bars : ℕ
  pub samples : List ℕ
  pub sample_idx : ℕ

unfoldable pub bars_of : List ℕ → ℕ → ℕ
bars_of cal raw =
    if ltb (get_or cal 5 0) raw
    then 4
    else if ltb (get_or cal 4 0) raw
    then 3
    else if ltb (get_or cal 3 0) raw
    then 2
    else if ltb (get_or cal 2 0) raw
    then 1
    else 0

-- `raw12 >> 4` as a byte.
unfoldable pub poll_battery : Battery → ℕ → Battery
unfolding bars_of
poll_battery b raw12 = record b {
  samples = set b.samples b.sample_idx raw12;
  sample_idx = bit_and (b.sample_idx + 1) 3;
  bars = bars_of b.cal (raw12 / 16 % 256);
}

abbrev sum : List ℕ → ℕ
sum [] = 0
sum (x ∷ xs) = x + sum xs

unfoldable pub battery_raw12_avg : Battery → ℕ
battery_raw12_avg b = sum b.samples / 4

abbrev pub battery_cal_reference_cv : ℕ
battery_cal_reference_cv = 760

-- The product of the average and the reference fits a `u32`.
unfoldable pub battery_voltage_cv : Battery → ℕ → ℕ
unfolding battery_raw12_avg
battery_voltage_cv b battery_cal_raw =
    battery_raw12_avg b * battery_cal_reference_cv / max battery_cal_raw 1 % 2 ^ 16

-- Four samples, one after the other.
unfoldable pub poll_four : Battery → ℕ → ℕ → ℕ → ℕ → Battery
unfolding poll_battery
poll_four b w x y z = poll_battery (poll_battery (poll_battery (poll_battery b w) x) y) z

-- The index of the ring, from each of its four places.
ring_sum :
    (i w x y z a b c d : ℕ)
    → i < 4
    → sum (
        set
          (set
            (set (set (a ∷ b ∷ c ∷ d ∷ []) i w) (bit_and (i + 1) 3) x)
            (bit_and (bit_and (i + 1) 3 + 1) 3)
            y)
          (bit_and (bit_and (bit_and (i + 1) 3 + 1) 3 + 1) 3)
          z)
      ≡ w + x + y + z
ring_sum zero w x y z a b c d h = omega arith
ring_sum (suc zero) w x y z a b c d h = omega arith
ring_sum (suc (suc zero)) w x y z a b c d h = omega arith
ring_sum (suc (suc (suc zero))) w x y z a b c d h = omega arith
ring_sum (suc (suc (suc (suc i)))) w x y z a b c d h = absurd (omega arith)

samples_sum :
    (b : Battery) (samples : List ℕ) (w x y z : ℕ)
    → length samples ≡ 4
    → b.sample_idx < 4
    → battery_raw12_avg (poll_four (record b { samples = samples }) w x y z) ≡ (w + x + y + z) / 4
unfolding battery_raw12_avg poll_four
samples_sum b [] w x y z l h = absurd (omega (arith, l))
samples_sum b (p ∷ []) w x y z l h = absurd (omega (arith, l))
samples_sum b (p ∷ q ∷ []) w x y z l h = absurd (omega (arith, l))
samples_sum b (p ∷ q ∷ r ∷ []) w x y z l h = absurd (omega (arith, l))
samples_sum b (p ∷ q ∷ r ∷ s ∷ []) w x y z l h =
    ap (λ (t : ℕ). t / 4) (ring_sum b.sample_idx w x y z p q r s h)
samples_sum b (p ∷ q ∷ r ∷ s ∷ t ∷ rest) w x y z l h = absurd (omega (arith, l))

-- The battery is shown as the mean of the last four samples, wherever the ring begins, and a higher
-- sample never shows fewer bars, whatever the calibration.
pub poll_battery_lem :
    (b : Battery) (w x y z higher : ℕ)
    → length b.samples ≡ 4
    → b.sample_idx < 4
    → z ≤ higher
    → higher < 4096
    → (battery_raw12_avg (poll_four b w x y z) ≡ (w + x + y + z) / 4)
      × ((poll_battery b z).bars ≤ (poll_battery b higher).bars)
unfolding poll_battery bars_of
poll_battery_lem b w x y z higher l h le small = (samples_sum b b.samples w x y z l h, ground arith)
