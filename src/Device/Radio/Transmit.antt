-- ===== src/Device/Radio/Transmit.antt =====
-- src/device/radio.rs: keying the transmitter, and the tones.
pub mod OnAir
use bf_k61_firmware_aura.Prelude.{
  ℕ, List, [], ◌∷◌, Bool, true, false, not, ◌&&◌, ◌||◌, if◌then◌else◌,
}
use bf_k61_firmware_aura.App.Convert.{SubAudio, Power}
use bf_k61_firmware_aura.Device.BandLock.{allows}
use bf_k61_firmware_aura.Drivers.Fd6818.{
  Fd6818, idle, wake, pa_off, pa_enable, set_frequency_hz, set_wide_bandwidth, tx_on,
  tx_single_tone_on, tx_single_tone_off, tx_single_tone_off_idle, enter_tx_tone_state,
}
use bf_k61_firmware_aura.Device.Radio.{
  Radio, ChannelConfig, RogerTone, off, roger, mdc1200, is_fm, is_keyed, enter_rx,
}

abbrev pub beep_tones : List (ℕ × ℕ)
beep_tones = (100, 60) ∷ []

abbrev pub roger_tones : List (ℕ × ℕ)
roger_tones = (100, 80) ∷ (85, 80) ∷ []

-- The transmitter is keyed on the transmit frequency of the configuration.
unfoldable pub keyed : Radio → Radio
unfolding idle wake set_frequency_hz set_wide_bandwidth tx_on pa_enable
keyed r = record r {
  fd6818 =
      pa_enable
        (tx_on (
          set_wide_bandwidth (set_frequency_hz (wake (idle r.fd6818)) r.cfg.tx_freq_hz)
            r.cfg.wide_band))
        r.cfg.power;
  speaker = false;
  tx_state = true;
}

-- The guard of the two ways to key: whether the frequency is allowed and the modulation fits.
unfoldable pub guarded : Bool → Bool → Radio → Radio × Bool
unfolding keyed
guarded allowed fits r = if not allowed || not fits then (r, false) else (keyed r, true)

unfoldable pub enter_tx : Radio → Radio × Bool
unfolding guarded
enter_tx r = guarded (allows r.tx_allowed r.cfg.tx_freq_hz) (is_fm r.cfg.modulation) r

unfoldable pub enter_tx_keyed : Radio → Radio × Bool
unfolding guarded
enter_tx_keyed r = guarded (allows r.tx_allowed r.cfg.tx_freq_hz) (is_keyed r.cfg.modulation) r

-- The loop of `play_tone_sequence`.
unfoldable pub play_tones : Bool → List (ℕ × ℕ) → Fd6818 → Fd6818
unfolding tx_single_tone_on
play_tones key_tx [] chip = chip
play_tones key_tx (tone ∷ tones) chip = play_tones key_tx tones (tx_single_tone_on chip key_tx)

unfoldable pub play_tone_sequence : Radio → List (ℕ × ℕ) → Bool → Bool → Radio
unfolding play_tones tx_single_tone_off
play_tone_sequence r tones key_tx local_speaker = record r {
  fd6818 = tx_single_tone_off (play_tones key_tx tones r.fd6818) key_tx;
  speaker = if local_speaker then r.audio_open else r.speaker;
}

unfoldable pub play_beep : Radio → Radio
unfolding play_tone_sequence
play_beep r =
    if not r.beeps_enabled || r.audio_open then r else play_tone_sequence r beep_tones false true

unfoldable pub play_roger : RogerTone → Radio → Radio
unfolding play_tone_sequence
play_roger off r = r
play_roger roger r = play_tone_sequence r roger_tones true false
play_roger mdc1200 r = r

unfoldable pub end_tx : Radio → Radio
unfolding play_roger enter_rx
end_tx r = enter_rx (play_roger r.roger_tone r)

unfoldable pub rtone_on : Radio → Radio
unfolding tx_single_tone_on
rtone_on r = record r { fd6818 = tx_single_tone_on r.fd6818 true }

unfoldable pub rtone_off : Radio → Radio
unfolding tx_single_tone_off
rtone_off r = record r { fd6818 = tx_single_tone_off r.fd6818 true }

unfoldable pub sidetone_on : Radio → Radio
unfolding tx_single_tone_on
sidetone_on r = record r { fd6818 = tx_single_tone_on r.fd6818 false; speaker = true }

unfoldable pub sidetone_off : Radio → Radio
unfolding tx_single_tone_off
sidetone_off r = record r { fd6818 = tx_single_tone_off r.fd6818 false; speaker = false }

unfoldable pub keyed_tone_on : Radio → Radio
unfolding tx_single_tone_on
keyed_tone_on r = record r { fd6818 = tx_single_tone_on r.fd6818 true; speaker = true }

unfoldable pub keyed_tone_off : Radio → Radio
unfolding tx_single_tone_off
keyed_tone_off r = record r { fd6818 = tx_single_tone_off r.fd6818 true; speaker = false }

unfoldable pub cw_carrier_off : Radio → Radio
unfolding pa_off
cw_carrier_off r = record r { fd6818 = pa_off r.fd6818 }

unfoldable pub cw_carrier_on : Radio → Radio
unfolding pa_enable
cw_carrier_on r = record r { fd6818 = pa_enable r.fd6818 r.cfg.power }

unfoldable pub cw_key_off : Radio → Radio
unfolding tx_single_tone_off_idle
cw_key_off r = record r { fd6818 = tx_single_tone_off_idle r.fd6818; speaker = false }

-- The start of `transmit_afsk`, up to the first delay, and its end.
unfoldable pub afsk_begin : Radio → ℕ → Power → Radio
unfolding set_frequency_hz set_wide_bandwidth pa_enable enter_tx_tone_state
afsk_begin r hz power = record r {
  fd6818 =
      enter_tx_tone_state
        (pa_enable (set_wide_bandwidth (set_frequency_hz r.fd6818 hz) true) power);
  speaker = true;
}

unfoldable pub afsk_end : Radio → Radio
unfolding pa_off
afsk_end r = record r { fd6818 = pa_off r.fd6818; speaker = false }

unfoldable pub enter_tx_sstv : Radio → ℕ → Power → Radio
unfolding set_frequency_hz set_wide_bandwidth pa_enable enter_tx_tone_state
enter_tx_sstv r hz power = record r {
  fd6818 =
      enter_tx_tone_state
        (pa_enable (set_wide_bandwidth (set_frequency_hz r.fd6818 hz) true) power);
  speaker = true;
}

unfoldable pub exit_tx_sstv : Radio → Radio
unfolding pa_off
exit_tx_sstv r = record r { fd6818 = pa_off r.fd6818; speaker = false }
