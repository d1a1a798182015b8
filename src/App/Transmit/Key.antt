-- ===== src/App/Transmit/Key.antt =====
-- The Morse key keeps the transmitter where the band lock lets it.
use bf_k61_firmware_aura.Prelude.{
  ◌≡◌, refl, ap₂, sym, Bool, true, false, not, ◌&&◌, ◌||◌, arith, ◌==◌, if_holds, subst,
}
use bf_k61_firmware_aura.Drivers.NorFlash.{Chip}
use bf_k61_firmware_aura.Drivers.Fd6818.{}
use bf_k61_firmware_aura.Device.Radio.{Radio, is_cw}
use bf_k61_firmware_aura.Device.Radio.Transmit.{enter_tx_keyed}
use bf_k61_firmware_aura.Device.Radio.{}
use bf_k61_firmware_aura.App.Transmit.{}
use bf_k61_firmware_aura.App.Transmit.Allowed.{
  Legal, SafeWith, IsSafe, SafeWith-same, enter_tx-SafeWith, active-Legal, key_tones-SafeWith,
  sidetones-SafeWith,
}
use bf_k61_firmware_aura.App.State.{App, is_standby, master_side, is_transmitting}
use bf_k61_firmware_aura.App.Transmit.{
  key_config, reload_pa_calibration, wants_tx, cw_started, start_cw, cw_tone, cw_down, cw_up,
  set_cw_key,
}
use bf_k61_firmware_aura.App.Transmit.Voice.{config-same}

module _ {c : Chip} where
  cw_started-IsSafe :
      (a : App c) (result : Radio × Bool)
      → IsSafe true a
      → (a.cw_hang_ticks == 0) ≡ true
      → SafeWith result.0 (result.1 || false)
      → IsSafe true (cw_started a result)
  unfolding cw_started
  cw_started-IsSafe a (r, true) ok still safe = record {
    awake = ok.awake;
    kind = ok.kind;
    other = ok.other;
    hang = refl;
    safe = subst (λ t. SafeWith r (t || true)) (sym ok.other) safe;
  }
  cw_started-IsSafe a (r, false) ok still safe = record {
    awake = ok.awake;
    kind = ok.kind;
    other = ok.other;
    hang = still;
    safe = subst (λ t. SafeWith r (t || false)) (sym ok.other) safe;
  }

  start_cw-IsSafe : (a : App c) → IsSafe true a → a.cw_tx_active ≡ false → IsSafe true (start_cw a)
  unfolding start_cw
  start_cw-IsSafe a ok quiet =
      let r : Radio = reload_pa_calibration a (key_config a.radio (master_side a).cfg) in
      let safe : SafeWith r (is_transmitting a) =
        SafeWith-same a.radio r (is_transmitting a) (config-same a (master_side a).cfg).1 ok.safe in
      cw_started-IsSafe (record a { watching = a.master }) (enter_tx_keyed r)
        (record {
          awake = ok.awake;
          kind = ok.kind;
          other = ok.other;
          hang = ok.hang;
          safe = ok.safe;
        })
        (ground (arith, ok.hang, quiet))
        (enter_tx-SafeWith r false
          (subst (λ t. SafeWith r t) (ap₂ (λ t u. t || u) ok.other quiet) safe)).1

  -- A new radio for a state with a key.
  with_radio-IsSafe :
      (a : App c) (r : Radio)
      → IsSafe true a
      → SafeWith r (is_transmitting a)
      → IsSafe true (record a { radio = r })
  with_radio-IsSafe a r ok safe = record {
    awake = ok.awake;
    kind = ok.kind;
    other = ok.other;
    hang = ok.hang;
    safe = safe;
  }

  Legal-key : (a : App c) → IsSafe true a → a.cw_tx_active ≡ true → Legal a.radio
  Legal-key a ok active =
      active-Legal a.radio
        (subst (λ t. SafeWith a.radio t) (ap₂ (λ t u. t || u) ok.other active) ok.safe)

  cw_tone-IsSafe : (a : App c) → IsSafe true a → IsSafe true (cw_tone a)
  unfolding cw_tone
  cw_tone-IsSafe a ok =
      if_holds (IsSafe true) a.cw_tx_active _ _
        (λ active.
          let tones = key_tones-SafeWith a.radio (is_transmitting a) (Legal-key a ok active) in
          if_holds (IsSafe true) (is_cw (master_side a).cfg.modulation) _ _
            (λ _. with_radio-IsSafe a _ ok tones.1) (λ _. with_radio-IsSafe a _ ok tones.0))
        (λ _. with_radio-IsSafe a _ ok (sidetones-SafeWith a.radio (is_transmitting a) ok.safe).0)

  cw_down-IsSafe : (a : App c) → IsSafe true a → IsSafe true (cw_down a)
  unfolding cw_down
  cw_down-IsSafe a ok =
      let a' : App c = record a { cw_key_down = true; cw_hang_ticks = 0 } in
      let ok' : IsSafe true a' = record {
        awake = ok.awake;
        kind = ok.kind;
        other = ok.other;
        hang = ground arith;
        safe = ok.safe;
      } in
      cw_tone-IsSafe _ (
        if_holds (IsSafe true) (not a.cw_tx_active && wants_tx a) _ _
          (λ e. start_cw-IsSafe a' ok' (ground (arith, e))) (λ _. ok'))

  cw_up-IsSafe : (a : App c) → IsSafe true a → IsSafe true (cw_up a)
  unfolding cw_up
  cw_up-IsSafe a ok =
      if_holds (IsSafe true) a.cw_tx_active _ _
        (λ active. record {
          awake = ok.awake;
          kind = ok.kind;
          other = ok.other;
          hang = ground (arith, active);
          safe =
              let tones = key_tones-SafeWith a.radio (is_transmitting a) (Legal-key a ok active) in
              if_holds (λ r. SafeWith r (is_transmitting a)) (is_cw (master_side a).cfg.modulation)
                _ _ (λ _. tones.2) (λ _. tones.3);
        })
        (λ _. record {
          awake = ok.awake;
          kind = ok.kind;
          other = ok.other;
          hang = ok.hang;
          safe = (sidetones-SafeWith a.radio (is_transmitting a) ok.safe).1;
        })

  pub set_cw_key-IsSafe :
      (a : App c) (down : Bool) → IsSafe true a → IsSafe true (set_cw_key a down)
  unfolding set_cw_key
  set_cw_key-IsSafe a down ok =
      if_holds (IsSafe true) (not (is_standby a.mode)) _ _ (λ _. ok)
        (λ _. if_holds (IsSafe true) down _ _ (λ _. cw_down-IsSafe a ok) (λ _. cw_up-IsSafe a ok))
