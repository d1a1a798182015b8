-- ===== src/Drivers/Fd6818/Xtal.antt =====
-- The crystal correction of the tuned and of the measured frequency word.
use bf_k61_firmware_aura.Prelude.{
  ℕ, ◌+◌, ◌-◌, ◌*◌, ◌/◌, ◌%◌, ◌^◌, ◌<◌, ◌≤◌, ◌≡◌, refl, arith, ltb, Bool-cases, inl, inr,
}
use bf_k61_firmware_aura.Drivers.Fd6818.{
  Fd6818, adjust_index, adjust_factor, adjust_of, tuned_word, measured_word, set_frequency_hz,
  correct_measured_freq_word,
}

module _ (t w : ℕ) (small : t ≤ 40) (below : w < 107_000_000) where
  product : w * t ≤ w * 40
  product = grind arith

  lowered : (w - w * t / 10_000_000) * t + w * t / 10_000_000 * t ≡ w * t
  lowered = grind (arith, product)

  raised : (w + w * t / 10_000_000) * t ≡ w * t + w * t / 10_000_000 * t
  raised = grind arith

  shift : w * t / 10_000_000 * t ≤ 17_160
  shift = let a : w * t / 10_000_000 ≤ 428 = omega (arith, product) in grind arith

  below_word : w * t % 2 ^ 32 ≡ w * t
  below_word = omega (arith, product)

  lowered_back :
      (w - w * t / 10_000_000 + (w - w * t / 10_000_000) * t % 2 ^ 32 / 10_000_000 ≤ w)
      × (w ≤ w - w * t / 10_000_000 + (w - w * t / 10_000_000) * t % 2 ^ 32 / 10_000_000 + 1)
  lowered_back = omega (arith, product, lowered, shift)

  raised_back :
      (w ≤ w + w * t / 10_000_000 - (w + w * t / 10_000_000) * t % 2 ^ 32 / 10_000_000 + 1)
      × (w + w * t / 10_000_000 - (w + w * t / 10_000_000) * t % 2 ^ 32 / 10_000_000 ≤ w)
  raised_back = omega (arith, product, raised, shift)

adjust_factor-le : (idx : ℕ) → adjust_factor idx ≤ 40
unfolding adjust_factor
adjust_factor-le idx = ground arith

adjust_of_lem : (idx w : ℕ) → w < 107_000_000 → adjust_of idx w ≡ w * adjust_factor idx / 10_000_000
unfolding adjust_of
adjust_of_lem idx w below =
    omega (arith, below_word (adjust_factor idx) w (adjust_factor-le idx) below)

adjust_of_again : (idx w : ℕ) → adjust_of idx w ≡ w * adjust_factor idx % 2 ^ 32 / 10_000_000
unfolding adjust_of
adjust_of_again idx w = refl

words_near :
    (idx w : ℕ)
    → w < 107_000_000
    → (measured_word idx (tuned_word idx w) ≤ w + 1)
      × (w ≤ measured_word idx (tuned_word idx w) + 1)
unfolding measured_word tuned_word
words_near idx w below =
    let t : ℕ = adjust_factor idx in
    let small : t ≤ 40 = adjust_factor-le idx in
    let first = adjust_of_lem idx w below in
    elim (Bool-cases (ltb 8 idx)) [
      | inl e ↦
          rw (e, first)
            (rw (adjust_of_again idx (w + w * t / 10_000_000))
              (omega (arith, raised_back t w small below)))
      | inr e ↦
          rw (e, first)
            (rw (adjust_of_again idx (w - w * t / 10_000_000))
              (omega (arith, lowered_back t w small below)))
    ]

-- Below 1.07 GHz the frequency counter undoes the correction that tuning applies: the word that
-- the chip was tuned to is measured as the word of the frequency, up to one unit of 10 Hz,
-- whatever the calibration byte.
pub correct_measured_freq_word-set_frequency_hz :
    (chip : Fd6818) (freq_hz : ℕ)
    → freq_hz < 1_070_000_000
    → (correct_measured_freq_word chip (set_frequency_hz chip freq_hz).freq_reg ≤ freq_hz / 10 + 1)
      × (freq_hz / 10
          ≤ correct_measured_freq_word chip (set_frequency_hz chip freq_hz).freq_reg + 1)
unfolding correct_measured_freq_word set_frequency_hz
correct_measured_freq_word-set_frequency_hz chip freq_hz h =
    words_near (adjust_index chip.xtal_adjust) (freq_hz / 10) (omega arith)
