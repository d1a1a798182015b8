-- ===== src/Device/Radio/Transmit/OnAir.antt =====
-- When the transmitter is on the air, and on which frequency.
use bf_k61_firmware_aura.Prelude.{
  ℕ, ◌+◌, ◌*◌, ◌/◌, ◌≡◌, refl, Bool, true, false, ◌&&◌, ◌||◌, if◌then◌else◌,
}
use bf_k61_firmware_aura.App.Convert.{Power}
use bf_k61_firmware_aura.Device.BandLock.{allows}
use bf_k61_firmware_aura.Drivers.Fd6818.{
  pa_off_value, idle, wake, pa_enable, pa_gain, pa_off, set_frequency_hz, set_wide_bandwidth, tx_on,
  rx_on, power_rx, transmits, enter_tx_tone_state, tuned_word, adjust_index,
}
use bf_k61_firmware_aura.Device.Radio.{
  Radio, is_fm, is_keyed, enter_rx, tuned_freq_hz, off, roger, mdc1200, RogerTone,
}
use bf_k61_firmware_aura.Device.Radio.Transmit.{
  keyed, guarded, enter_tx, enter_tx_keyed, end_tx, play_roger, afsk_begin, afsk_end, enter_tx_sstv,
  exit_tx_sstv, play_tone_sequence, play_tones,
}

-- The word that the chip of this radio is tuned to for a frequency.
abbrev pub word_of : Radio → ℕ → ℕ
word_of r hz = tuned_word (adjust_index r.fd6818.xtal_adjust) (hz / 10)

pub keyed_lem :
    (r : Radio)
    → (transmits (keyed r).fd6818 ≡ true) × ((keyed r).fd6818.freq_reg ≡ word_of r r.cfg.tx_freq_hz)
unfolding keyed transmits tx_on pa_enable set_wide_bandwidth set_frequency_hz wake idle
keyed_lem r = (refl, refl)

-- The rest of it: the speaker is off and the amplifier on, or nothing whatever has changed.
abbrev pub Leaves : Bool → Radio → Radio → Type 0
Leaves true r result =
    (result.speaker ≡ false)
    × (result.fd6818.pa_reg ≡ r.fd6818.pa_target * 256 + pa_gain r.cfg.power)
    × (result.fd6818.current_wide ≡ r.cfg.wide_band)
Leaves false r result = result ≡ r

-- What keying has done to a radio that it was granted or refused.
abbrev pub Keys : Bool → Radio → Radio × Bool → Type 0
Keys granted r result =
    (result.1 ≡ granted)
    × (transmits result.0.fd6818 ≡ (granted || transmits r.fd6818))
    × (result.0.fd6818.freq_reg
        ≡ (if granted then word_of r r.cfg.tx_freq_hz else r.fd6818.freq_reg))
    × (result.0.tx_state ≡ (granted || r.tx_state))
    × Leaves granted r result.0

keyed-Leaves : (r : Radio) → Leaves true r (keyed r)
unfolding keyed tx_on pa_enable set_wide_bandwidth set_frequency_hz wake idle
keyed-Leaves r = (refl, refl, refl)

guard-Keys : (allowed fits : Bool) (r : Radio) → Keys (allowed && fits) r (guarded allowed fits r)
unfolding keyed guarded
guard-Keys true true r = (refl, (keyed_lem r).0, (keyed_lem r).1, refl, keyed-Leaves r)
guard-Keys true false r = (refl, refl, refl, refl, refl)
guard-Keys false fits r = (refl, refl, refl, refl, refl)

-- The transmitter is keyed, by voice or by a key, exactly if the band lock allows the transmit
-- frequency and the modulation is one for it: then the chip transmits, tuned to the transmit
-- frequency, with the bandwidth and the power of the configuration, and the speaker is off.
-- Otherwise the call reports false and the radio, with its chip, is as it was in every field.
pub enter_tx_lem :
    (r : Radio)
    → Keys (allows r.tx_allowed r.cfg.tx_freq_hz && is_fm r.cfg.modulation) r (enter_tx r)
      × Keys
          (allows r.tx_allowed r.cfg.tx_freq_hz && is_keyed r.cfg.modulation)
          r
          (enter_tx_keyed r)
unfolding enter_tx enter_tx_keyed
enter_tx_lem r = (
  guard-Keys (allows r.tx_allowed r.cfg.tx_freq_hz) (is_fm r.cfg.modulation) r,
  guard-Keys (allows r.tx_allowed r.cfg.tx_freq_hz) (is_keyed r.cfg.modulation) r,
)

-- What `enter_rx` leaves behind.
abbrev pub Receives : Radio → Radio → Type 0
Receives r result =
    (transmits result.fd6818 ≡ false)
    × (result.fd6818.pa_reg ≡ pa_off_value)
    × (result.fd6818.freq_reg ≡ word_of r (tuned_freq_hz r))
    × (result.tx_state ≡ false)
    × (result.audio_open ≡ false)
    × (result.speaker ≡ false)

pub enter_rx-Receives : (r : Radio) → Receives r (enter_rx r)
unfolding enter_rx transmits rx_on set_wide_bandwidth set_frequency_hz power_rx pa_off idle
enter_rx-Receives r = (refl, refl, refl, refl, refl, refl)

end_tx-Receives : (tone : RogerTone) (r : Radio) → Receives r (enter_rx (play_roger tone r))
unfolding play_roger play_tone_sequence play_tones tuned_freq_hz
end_tx-Receives off r = enter_rx-Receives r
end_tx-Receives roger r = enter_rx-Receives (play_roger roger r)
end_tx-Receives mdc1200 r = enter_rx-Receives r

-- When a transmission ends, whatever tone is sent at its end, and when the receiver is switched on,
-- the chip no longer transmits, its amplifier is off, it is tuned to the receive frequency, which
-- the receiver offset has moved where it applies, and the speaker is silent until the squelch opens.
pub end_tx_lem : (r : Radio) → Receives r (end_tx r) × Receives r (enter_rx r)
unfolding end_tx
end_tx_lem r = (end_tx-Receives r.roger_tone r, enter_rx-Receives r)

abbrev pub SendsOn : ℕ → Radio → Radio → Type 0
SendsOn hz r result = (transmits result.fd6818 ≡ true) × (result.fd6818.freq_reg ≡ word_of r hz)

-- A packet and a picture are sent on the frequency that is given, whatever the band lock allows and
-- whatever the modulation; afterwards the amplifier is off, and `enter_rx` ends the transmission.
pub afsk_begin_lem :
    (r : Radio) (hz : ℕ) (power : Power)
    → SendsOn hz r (afsk_begin r hz power)
      × SendsOn hz r (enter_tx_sstv r hz power)
      × ((afsk_end (afsk_begin r hz power)).fd6818.pa_reg ≡ pa_off_value)
      × ((exit_tx_sstv (enter_tx_sstv r hz power)).fd6818.pa_reg ≡ pa_off_value)
      × (transmits (enter_rx (afsk_end (afsk_begin r hz power))).fd6818 ≡ false)
      × (transmits (enter_rx (exit_tx_sstv (enter_tx_sstv r hz power))).fd6818 ≡ false)
unfolding afsk_begin afsk_end enter_tx_sstv exit_tx_sstv transmits set_wide_bandwidth
    set_frequency_hz pa_enable pa_off enter_tx_tone_state
afsk_begin_lem r hz power = (
  (refl, refl),
  (refl, refl),
  refl,
  refl,
  (enter_rx-Receives (afsk_end (afsk_begin r hz power))).0,
  (enter_rx-Receives (exit_tx_sstv (enter_tx_sstv r hz power))).0,
)
