-- ===== src/App/SideOps/Consistent.antt =====
-- After every key the radio works with the settings of the master side.
use bf_k61_firmware_aura.Prelude.{◌≡◌, refl, Bool, true, false, not, arith, subst, if_holds}
use bf_k61_firmware_aura.Drivers.NorFlash.{Chip}
use bf_k61_firmware_aura.Drivers.Fd6818.{
  transmits, rx_on, set_wide_bandwidth, set_frequency_hz, power_rx, pa_off, idle,
}
use bf_k61_firmware_aura.Device.Radio.{
  Radio, ChannelConfig, enter_rx, tuned_freq_hz, set_frequency, set_tx_frequency, set_power,
  set_subaudio_tx, set_subaudio_rx, set_modulation,
}
use bf_k61_firmware_aura.Device.Radio.Transmit.OnAir.{word_of, end_tx_lem}
use bf_k61_firmware_aura.App.Side.{Side}
use bf_k61_firmware_aura.App.State.{App, master_side}
use bf_k61_firmware_aura.App.SideOps.{
  cw_safe_subaudio, push_config, push_watching_config, apply_watching_to_radio,
  sync_watching_to_master,
}

-- The radio has the settings of a side, all but the bandwidth, which it keeps.
abbrev pub Has : Radio → ChannelConfig → Bool → Type 0
Has r cfg wide =
    (r.cfg.freq_hz ≡ cfg.freq_hz)
    × (r.cfg.tx_freq_hz ≡ cfg.tx_freq_hz)
    × (r.cfg.power ≡ cfg.power)
    × (r.cfg.subaudio_tx ≡ (cw_safe_subaudio cfg).0)
    × (r.cfg.subaudio_rx ≡ (cw_safe_subaudio cfg).1)
    × (r.cfg.modulation ≡ cfg.modulation)
    × (r.cfg.wide_band ≡ wide)

push_config-Has : (r : Radio) (cfg : ChannelConfig) → Has (push_config r cfg) cfg r.cfg.wide_band
unfolding push_config set_frequency set_tx_frequency set_power set_subaudio_tx set_subaudio_rx
    set_modulation
push_config-Has r cfg = (refl, refl, refl, refl, refl, refl, refl)

enter_rx-cfg : (r : Radio) → (enter_rx r).cfg ≡ r.cfg
unfolding enter_rx
enter_rx-cfg r = refl

-- A radio that does not send is tuned to the receive frequency, and the chip receives.
abbrev pub Tuned : Bool → Radio → Type 0
Tuned true r = Unit {0}
Tuned false r = (r.fd6818.freq_reg ≡ word_of r (tuned_freq_hz r)) × (transmits r.fd6818 ≡ false)

-- What the application and the radio agree on.
abbrev pub Follows : {c : Chip} → Bool → App c → Type 0
Follows wide a =
    (a.watching ≡ a.master) × Has a.radio (master_side a).cfg wide × Tuned a.transmitting a.radio

enter_rx-Tuned : (r : Radio) → Tuned false (enter_rx r)
unfolding enter_rx tuned_freq_hz rx_on set_wide_bandwidth set_frequency_hz power_rx pa_off idle
enter_rx-Tuned r = ((end_tx_lem r).1.2, (end_tx_lem r).1.0)

module _ {c : Chip} where
  pub sync_watching_to_master-Follows :
      (a : App c) → Follows a.radio.cfg.wide_band (sync_watching_to_master a)
  unfolding sync_watching_to_master apply_watching_to_radio push_watching_config
  sync_watching_to_master-Follows a =
      let has = push_config-Has a.radio (master_side a).cfg in
      if_holds (Follows a.radio.cfg.wide_band) (not a.transmitting) _ _
        (λ quiet. (
          refl,
          unfold enter_rx in has,
          subst (λ t. Tuned t (enter_rx (push_config a.radio (master_side a).cfg))) {x = false}
              {y = a.transmitting} (ground (arith, quiet))
              (enter_rx-Tuned (push_config a.radio (master_side a).cfg)),
        ))
        (λ sends. (
          refl,
          has,
          subst (λ t. Tuned t (push_config a.radio (master_side a).cfg)) {x = true}
              {y = a.transmitting} (ground (arith, sends)) tt,
        ))
