-- ===== src/Drivers/Fd6818.antt =====
-- src/drivers/fd6818.rs: the transceiver. The registers that decide what the chip sends out are
-- state: the state register, the power register, the power amplifier and the frequency word.
-- The registers of the audio path, of the sub-audio and of the modems are not modelled.
pub mod Xtal
pub mod Dcs
use bf_k61_firmware_aura.Prelude.{
  ℕ, ◌+◌, ◌-◌, ◌*◌, ◌/◌, ◌%◌, ◌^◌, bit_and, List, [], ◌∷◌, Bool, true, false, ◌&&◌, get_or, ltb,
  ◌==◌, if◌then◌else◌,
}
use bf_k61_firmware_aura.App.Convert.{Power, high, mid, low}

abbrev pub state_rx_on : ℕ
state_rx_on = 0xbff1

abbrev pub state_tx_on : ℕ
state_tx_on = 0xc1fe

abbrev pub state_tone : ℕ
state_tone = 0x0302

abbrev pub state_tx_tone : ℕ
state_tx_tone = 0xc3fa

abbrev pub pa_off_value : ℕ
pa_off_value = 0x007f

abbrev pub pa_gain_high : ℕ
pa_gain_high = 0x00ff

abbrev pub pa_gain_low : ℕ
pa_gain_low = 0x00d7

abbrev pub power_up_value : ℕ
power_up_value = 0x1d0f

abbrev pub power_rx_value : ℕ
power_rx_value = 0x1f0f

abbrev pub power_sleep_value : ℕ
power_sleep_value = bit_and power_up_value 0xfff0

abbrev pub xtal_adjust_table : List ℕ
xtal_adjust_table =
    40 ∷ 35 ∷ 30 ∷ 25 ∷ 20 ∷ 15 ∷ 10 ∷ 5 ∷ 0 ∷ 5 ∷ 10 ∷ 15 ∷ 20 ∷ 25 ∷ 30 ∷ 35 ∷ 40 ∷ []

abbrev pub xtal_adjust_zero_point : ℕ
xtal_adjust_zero_point = 8

-- `state_reg`, `power_reg`, `pa_reg` and `freq_reg` hold what was last written to the registers
-- 0x30, 0x37, 0x36 and, low and high half together, 0x38 and 0x39.
pub record Fd6818 : Type 0 where
  pub xtal_adjust : ℕ
  pub pa_target : ℕ
  pub tone_active : Bool
  pub current_wide : Bool
  pub state_reg : ℕ
  pub power_reg : ℕ
  pub pa_reg : ℕ
  pub freq_reg : ℕ

unfoldable pub set_xtal_adjust : Fd6818 → ℕ → Fd6818
set_xtal_adjust chip value = record chip { xtal_adjust = value }

unfoldable pub set_pa_calibration : Fd6818 → ℕ → Fd6818
set_pa_calibration chip target = record chip { pa_target = target }

unfoldable pub pa_gain : Power → ℕ
pa_gain high = pa_gain_high
pa_gain mid = pa_gain_high
pa_gain low = pa_gain_low

unfoldable pub pa_enable : Fd6818 → Power → Fd6818
unfolding pa_gain
pa_enable chip power = record chip { pa_reg = chip.pa_target * 256 + pa_gain power }

unfoldable pub pa_off : Fd6818 → Fd6818
pa_off chip = record chip { pa_reg = pa_off_value }

unfoldable pub wake : Fd6818 → Fd6818
wake chip = record chip { power_reg = power_up_value }

unfoldable pub sleep : Fd6818 → Fd6818
sleep chip = record chip { state_reg = 0; power_reg = power_sleep_value }

unfoldable pub power_rx : Fd6818 → Fd6818
power_rx chip = record chip { power_reg = power_rx_value }

unfoldable pub set_wide_bandwidth : Fd6818 → Bool → Fd6818
set_wide_bandwidth chip wide = record chip { current_wide = wide }

-- Two writes: the prefix that `current_wide` chooses, and then the state.
unfoldable pub rx_on : Fd6818 → Fd6818
rx_on chip = record chip { state_reg = state_rx_on }

unfoldable pub tx_on : Fd6818 → Fd6818
tx_on chip = record chip { state_reg = state_tx_on }

unfoldable pub idle : Fd6818 → Fd6818
idle chip = record chip { state_reg = 0 }

unfoldable pub tx_single_tone_on : Fd6818 → Bool → Fd6818
tx_single_tone_on chip key_tx = record chip {
  state_reg = if key_tx then state_tx_tone else state_tone;
  tone_active = true;
}

unfoldable pub tx_single_tone_off : Fd6818 → Bool → Fd6818
unfolding tx_on rx_on
tx_single_tone_off chip was_transmitting =
    if was_transmitting
    then tx_on (record chip { tone_active = false })
    else rx_on (record chip { tone_active = false })

unfoldable pub tx_single_tone_off_idle : Fd6818 → Fd6818
unfolding idle
tx_single_tone_off_idle chip = idle (record chip { tone_active = false })

unfoldable pub enter_tx_tone_state : Fd6818 → Fd6818
enter_tx_tone_state chip = record chip { state_reg = state_tx_tone }

unfoldable pub adjust_index : ℕ → ℕ
adjust_index xtal_adjust = if ltb 16 xtal_adjust then xtal_adjust_zero_point else xtal_adjust

unfoldable pub adjust_factor : ℕ → ℕ
adjust_factor idx = get_or xtal_adjust_table idx 0

-- The product wraps, as `u32` does.
unfoldable pub adjust_of : ℕ → ℕ → ℕ
unfolding adjust_factor
adjust_of idx word = word * adjust_factor idx % 2 ^ 32 / 10_000_000

unfoldable pub tuned_word : ℕ → ℕ → ℕ
unfolding adjust_of
tuned_word idx word =
    if ltb xtal_adjust_zero_point idx then word + adjust_of idx word else word - adjust_of idx word

unfoldable pub set_frequency_hz : Fd6818 → ℕ → Fd6818
unfolding tuned_word adjust_index
set_frequency_hz chip freq_hz = record chip {
  freq_reg = tuned_word (adjust_index chip.xtal_adjust) (freq_hz / 10);
}

unfoldable pub measured_word : ℕ → ℕ → ℕ
unfolding adjust_of
measured_word idx raw_word =
    if ltb xtal_adjust_zero_point idx
    then raw_word - adjust_of idx raw_word
    else raw_word + adjust_of idx raw_word

unfoldable pub correct_measured_freq_word : Fd6818 → ℕ → ℕ
unfolding measured_word adjust_index
correct_measured_freq_word chip raw_word = measured_word (adjust_index chip.xtal_adjust) raw_word

-- The bits 15, 14 and 1 of the state register: the amplifier is fed and the transmit path is on.
unfoldable pub transmits : Fd6818 → Bool
transmits chip = chip.state_reg / 2 % 2 == 1 && (chip.state_reg / 2 ^ 14 == 3)
