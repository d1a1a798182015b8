-- ===== src/App/Transmit/Woken.antt =====
-- The Morse sign after the radio has been woken.
use bf_k61_firmware_aura.Prelude.{◌+◌, ◌*◌, ◌≡◌, refl, ap, ◌∙◌, true, false, arith}
use bf_k61_firmware_aura.Drivers.NorFlash.{Chip}
use bf_k61_firmware_aura.Drivers.Fd6818.{
  transmits, tx_single_tone_on, tx_single_tone_off_idle, pa_enable, pa_off, pa_gain, idle, power_rx,
  set_frequency_hz, set_wide_bandwidth, rx_on,
}
use bf_k61_firmware_aura.Device.Radio.{Radio, is_cw, enter_rx, tuned_freq_hz}
use bf_k61_firmware_aura.Device.Radio.Transmit.{
  keyed_tone_on, cw_carrier_on, cw_carrier_off, cw_key_off,
}
use bf_k61_firmware_aura.Device.Radio.Transmit.OnAir.{word_of, end_tx_lem}
use bf_k61_firmware_aura.App.State.{App, is_standby, master_side, note_power_save_activity}
use bf_k61_firmware_aura.App.Transmit.{cw_tone, cw_down, cw_up, set_cw_key}

-- What a key of the keypad does to a radio that sleeps, and the next Morse sign after it.
abbrev pub next_sign : {c : Chip} → App c → App c
next_sign a = set_cw_key (set_cw_key (note_power_save_activity a) false) true

tuned_as : (r : Radio) → (enter_rx r).fd6818.freq_reg ≡ word_of r (tuned_freq_hz r)
tuned_as r = (end_tx_lem r).1.2

-- The radio of the next sign.
next_radio : Radio → Radio
next_radio r = cw_carrier_on (keyed_tone_on (cw_key_off (cw_carrier_off (enter_rx r))))

next_radio_lem :
    (r : Radio)
    → (transmits (next_radio r).fd6818 ≡ true)
      × ((next_radio r).fd6818.freq_reg ≡ (enter_rx r).fd6818.freq_reg)
      × ((next_radio r).fd6818.pa_reg ≡ r.fd6818.pa_target * 256 + pa_gain r.cfg.power)
unfolding next_radio cw_carrier_on keyed_tone_on cw_key_off cw_carrier_off enter_rx transmits
    tx_single_tone_on tx_single_tone_off_idle pa_enable pa_off idle power_rx set_frequency_hz
    set_wide_bandwidth rx_on
next_radio_lem r = (refl, refl, refl)

next_sign_radio :
    {c : Chip} (a : App c)
    → is_standby a.mode ≡ true
    → is_cw (master_side a).cfg.modulation ≡ true
    → a.ps_asleep ≡ true
    → a.cw_tx_active ≡ true
    → (next_sign a).radio ≡ next_radio a.radio
unfolding next_radio set_cw_key cw_up cw_down cw_tone note_power_save_activity
next_sign_radio a ready key asleep active = ground (arith, ready, key, asleep, active)

-- Power saving sends Morse signs on the receive frequency: the Morse key does not wake the
-- application, so that a transmission may begin while it counts as asleep. A key of the keypad then
-- switches the receiver on, and with the modulation CW the next sign is sent where the receiver is
-- tuned, with the amplifier on, whatever the band lock says.
pub next_sign_lem :
    {c : Chip} (a : App c)
    → is_standby a.mode ≡ true
    → is_cw (master_side a).cfg.modulation ≡ true
    → a.ps_asleep ≡ true
    → a.cw_tx_active ≡ true
    → (transmits (next_sign a).radio.fd6818 ≡ true)
      × ((next_sign a).radio.fd6818.freq_reg ≡ word_of a.radio (tuned_freq_hz a.radio))
      × ((next_sign a).radio.fd6818.pa_reg
          ≡ a.radio.fd6818.pa_target * 256 + pa_gain a.radio.cfg.power)
next_sign_lem a ready key asleep active =
    let same = next_sign_radio a ready key asleep active in
    let (on, tuned, fed) = next_radio_lem a.radio in
    (
      ap (λ r. transmits r.fd6818) same ∙ on,
      ap (λ r. r.fd6818.freq_reg) same ∙ tuned ∙ tuned_as a.radio,
      ap (λ r. r.fd6818.pa_reg) same ∙ fed,
    )
