-- ===== src/App/Transmit/Voice.antt =====
-- The PTT key keeps the transmitter where the band lock lets it.
use bf_k61_firmware_aura.Prelude.{
  ℕ, ◌≡◌, sym, List, Bool, true, false, not, ◌&&◌, ◌||◌, Option, none, some, arith, ltb, ◌==◌,
  length, if_holds, subst,
}
use bf_k61_firmware_aura.Drivers.NorFlash.{Chip}
use bf_k61_firmware_aura.Drivers.Fd6818.{idle}
use bf_k61_firmware_aura.Device.Radio.{Radio, ChannelConfig}
use bf_k61_firmware_aura.Device.Radio.Transmit.{enter_tx, end_tx}
use bf_k61_firmware_aura.Device.Radio.{
  send_dtmf_digits, set_frequency, set_tx_frequency, set_power, set_subaudio_tx, set_subaudio_rx,
  set_modulation,
}
use bf_k61_firmware_aura.Device.Radio.Ani.{send_ani}
use bf_k61_firmware_aura.App.Transmit.{resolve_ani_target}
use bf_k61_firmware_aura.App.Transmit.Allowed.{
  SafeWith, IsSafe, SameTuning, SafeWith-same, with_target-same, enter_tx-SafeWith, end_tx-SafeWith,
}
use bf_k61_firmware_aura.App.State.{App, is_standby, master_side, is_transmitting}
use bf_k61_firmware_aura.App.Transmit.{
  key_config, voice_config, reload_pa_calibration, call_target, dial, voice_started, start_voice,
  end_voice, set_voice,
}

module _ {c : Chip} where
  call_target-IsSafe :
      (k : Bool) (a : App c) (o : Option (ℕ × ℕ × ℕ)) → IsSafe k a → IsSafe k (call_target a o)
  unfolding call_target send_ani send_dtmf_digits
  call_target-IsSafe k a none ok = ok
  call_target-IsSafe k a (some t) ok = record {
    awake = ok.awake;
    kind = ok.kind;
    other = ok.other;
    hang = ok.hang;
    safe = ok.safe;
  }

  dial-IsSafe : (k : Bool) (a : App c) (o : Option (List ℕ)) → IsSafe k a → IsSafe k (dial a o)
  unfolding dial send_ani send_dtmf_digits
  dial-IsSafe k a none ok =
      if_holds (IsSafe k) a.settings.ani_tx _ _
        (λ _. call_target-IsSafe k a (resolve_ani_target a) ok) (λ _. ok)
  dial-IsSafe k a (some digits) ok =
      if_holds (IsSafe k) (length digits == 3) _ _
        (λ _. record {
          awake = ok.awake;
          kind = ok.kind;
          other = ok.other;
          hang = ok.hang;
          safe = ok.safe;
        })
        (λ _.
          if_holds (IsSafe k) (ltb 0 (length digits)) _ _
            (λ _. record {
              awake = ok.awake;
              kind = ok.kind;
              other = ok.other;
              hang = ok.hang;
              safe = ok.safe;
            })
            (λ _. record {
              awake = ok.awake;
              kind = ok.kind;
              other = ok.other;
              hang = ok.hang;
              safe = ok.safe;
            }))

  voice_started-IsSafe :
      (a : App c) (result : Radio × Bool)
      → IsSafe false a
      → a.transmitting ≡ false
      → SafeWith result.0 (result.1 || a.cw_tx_active)
      → IsSafe false (voice_started a result)
  unfolding voice_started
  voice_started-IsSafe a (r, true) ok idle safe =
      dial-IsSafe false
        (record a { radio = r; transmitting = true; tot_ticks = 0; tx_prohibited = false })
        a.dtmf_dial
        (record { awake = ok.awake; kind = ok.kind; other = ok.other; hang = ok.hang; safe = safe })
  voice_started-IsSafe a (r, false) ok idle safe = record {
    awake = ok.awake;
    kind = ok.kind;
    other = ok.other;
    hang = ok.hang;
    safe = rw idle safe;
  }

  pub config-same :
      (a : App c) (cfg : ChannelConfig)
      → SameTuning a.radio (reload_pa_calibration a (voice_config a.radio cfg))
        × SameTuning a.radio (reload_pa_calibration a (key_config a.radio cfg))
  unfolding reload_pa_calibration voice_config key_config set_frequency set_tx_frequency set_power
      set_subaudio_tx set_subaudio_rx set_modulation
  config-same a cfg =
      (with_target-same (voice_config a.radio cfg) _, with_target-same (key_config a.radio cfg) _)

  start_voice-IsSafe :
      (a : App c) → IsSafe false a → a.transmitting ≡ false → IsSafe false (start_voice a)
  unfolding start_voice
  start_voice-IsSafe a ok quiet =
      let r : Radio = reload_pa_calibration a (voice_config a.radio (master_side a).cfg) in
      let safe : SafeWith r (is_transmitting a) =
        SafeWith-same a.radio r (is_transmitting a) (config-same a (master_side a).cfg).0 ok.safe in
      if_holds (IsSafe false) (not (is_standby a.mode)) _ _ (λ _. ok)
        (λ _.
          if_holds (IsSafe false) a.settings.tx_forbid _ _ (λ _. ok)
            (λ _.
              if_holds (IsSafe false) (a.settings.busy_lock && a.radio.rssi_open) _ _ (λ _. ok)
                (λ _.
                  voice_started-IsSafe (record a { watching = a.master }) (enter_tx r)
                    (record {
                      awake = ok.awake;
                      kind = ok.kind;
                      other = ok.other;
                      hang = ok.hang;
                      safe = ok.safe;
                    })
                    quiet
                    (enter_tx-SafeWith r a.cw_tx_active
                      (subst (λ t. SafeWith r (t || a.cw_tx_active)) quiet safe)).0)))

  end_voice-IsSafe : (a : App c) → IsSafe false a → IsSafe false (end_voice a)
  unfolding end_voice
  end_voice-IsSafe a ok =
      if_holds (IsSafe false) a.transmitting _ _
        (λ _. record {
          awake = ok.awake;
          kind = ok.kind;
          other = ok.other;
          hang = ok.hang;
          safe = subst (λ t. SafeWith (end_tx a.radio) t) (sym ok.other) (end_tx-SafeWith a.radio);
        })
        (λ _. record {
          awake = ok.awake;
          kind = ok.kind;
          other = ok.other;
          hang = ok.hang;
          safe = ok.safe;
        })

  pub set_voice-IsSafe :
      (a : App c) (pressed : Bool) → IsSafe false a → IsSafe false (set_voice a pressed)
  unfolding set_voice
  set_voice-IsSafe a pressed ok =
      if_holds (IsSafe false) (pressed && not a.transmitting) _ _
        (λ e. start_voice-IsSafe a ok (ground (arith, e)))
        (λ _.
          if_holds (IsSafe false) pressed _ _
            (λ _. record {
              awake = ok.awake;
              kind = ok.kind;
              other = ok.other;
              hang = ok.hang;
              safe = ok.safe;
            })
            (λ _. end_voice-IsSafe a ok))
