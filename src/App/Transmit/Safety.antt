-- ===== src/App/Transmit/Safety.antt =====
-- The transmitter is only on the air where the band lock lets it, whatever keys are pressed.
use bf_k61_firmware_aura.Prelude.{
  ℕ, ◌≡◌, refl, ◌∙◌, sym, List, [], ◌∷◌, Bool, true, false, not, ◌&&◌, ◌||◌, ◌⊎◌, inl, inr, Option,
  none, some, arith, ◌+◌, ◌-◌, ◌^◌, min, leb, bool_eq, ◌==◌, if◌then◌else◌, if_holds, subst,
}
use bf_k61_firmware_aura.Drivers.NorFlash.{Chip}
use bf_k61_firmware_aura.Drivers.Fd6818.{transmits}
use bf_k61_firmware_aura.Device.Radio.{Radio, is_keyed, enter_rx}
use bf_k61_firmware_aura.Device.Radio.Transmit.{}
use bf_k61_firmware_aura.Device.Radio.{}
use bf_k61_firmware_aura.App.Transmit.{tot_limit, poll_pin, Event, pin, vox, hang, tot, handle, run}
use bf_k61_firmware_aura.App.Transmit.Allowed.{Legal, SafeWith, IsSafe, enter_rx-SafeWith}
use bf_k61_firmware_aura.App.State.{
  App, note_power_save_activity, note_backlight_activity, master_side, is_transmitting,
}
use bf_k61_firmware_aura.App.Transmit.{
  set_voice, set_cw_key, set_ptt, poll_cw_key, poll_cw_hang, poll_tot,
}
use bf_k61_firmware_aura.App.Transmit.Voice.{set_voice-IsSafe}
use bf_k61_firmware_aura.App.Transmit.Key.{set_cw_key-IsSafe}

on_air : (r : Radio) (active : Bool) → SafeWith r active → (transmits r.fd6818 ≡ false) ⊎ Legal r
on_air r active (inl quiet) = inl (ground (arith, quiet))
on_air r active (inr legal) = inr legal

module _ {c : Chip} where
  -- The first two calls of `set_ptt`, on a radio that is not asleep.
  noted-IsSafe :
      (k : Bool) (a : App c)
      → IsSafe k a
      → IsSafe k (note_backlight_activity (note_power_save_activity a))
  unfolding note_backlight_activity note_power_save_activity
  noted-IsSafe k a ok = record {
    awake = refl;
    kind = ok.kind;
    other = ok.other;
    hang = ok.hang;
    safe =
        subst (λ b. SafeWith (if b then enter_rx a.radio else a.radio) (is_transmitting a))
          (sym ok.awake) ok.safe;
  }

  by_kind :
      (k : Bool) (a x y : App c)
      → is_keyed (master_side a).cfg.modulation ≡ k
      → (k ≡ true → IsSafe k x)
      → (k ≡ false → IsSafe k y)
      → IsSafe k (if is_keyed (master_side a).cfg.modulation then x else y)
  by_kind k a x y e h l =
      if_holds (IsSafe k) (is_keyed (master_side a).cfg.modulation) x y (λ f. h (sym e ∙ f))
        (λ f. l (sym e ∙ f))

  set_ptt-IsSafe :
      (k : Bool) (a : App c) (pressed : Bool) → IsSafe k a → IsSafe k (set_ptt a pressed)
  unfolding set_ptt
  set_ptt-IsSafe true a pressed ok =
      let a' : App c = note_backlight_activity (note_power_save_activity a) in
      by_kind true a (set_cw_key a' pressed) (set_voice a' pressed) ok.kind
        (λ _. set_cw_key-IsSafe a' pressed (noted-IsSafe true a ok)) (λ e. cc)
  set_ptt-IsSafe false a pressed ok =
      let a' : App c = note_backlight_activity (note_power_save_activity a) in
      by_kind false a (set_cw_key a' pressed) (set_voice a' pressed) ok.kind (λ e. cc)
        (λ _. set_voice-IsSafe a' pressed (noted-IsSafe false a ok))

  poll_cw_key-IsSafe : (a : App c) (down : Bool) → IsSafe true a → IsSafe true (poll_cw_key a down)
  unfolding poll_cw_key
  poll_cw_key-IsSafe a down ok =
      if_holds (IsSafe true) (not (bool_eq down a.cw_key_down)) _ _
        (λ _. set_cw_key-IsSafe a down ok) (λ _. ok)

  -- The receiver is switched on and the key is up.
  -- The receiver is switched on and the key has no transmitter any more.
  key_ends :
      (k : Bool) (a : App c) (ticks : ℕ)
      → IsSafe k a
      → a.cw_tx_active ≡ true
      → IsSafe k (record a {
        tot_ticks = ticks;
        cw_hang_ticks = 0;
        radio = enter_rx a.radio;
        cw_tx_active = false;
      })
  key_ends true a ticks ok active = record {
    awake = ok.awake;
    kind = ok.kind;
    other = ok.other;
    hang = refl;
    safe =
        subst (λ t. SafeWith (enter_rx a.radio) (t || false)) (sym ok.other)
          (enter_rx-SafeWith a.radio);
  }
  key_ends false a ticks ok active = cc (ok.other, active)

  poll_cw_hang-IsSafe : (k : Bool) (a : App c) → IsSafe k a → IsSafe k (poll_cw_hang a)
  unfolding poll_cw_hang
  poll_cw_hang-IsSafe k a ok =
      if_holds (IsSafe k) (a.cw_hang_ticks == 0) _ _ (λ _. ok)
        (λ runs.
          let active : a.cw_tx_active ≡ true = ground (arith, ok.hang, runs) in
          if_holds (IsSafe k) (a.cw_hang_ticks - 1 == 0 && not a.cw_key_down) _ _
            (λ e.
              subst
                (λ n.
                  IsSafe k (record a {
                    cw_hang_ticks = n;
                    radio = enter_rx a.radio;
                    cw_tx_active = false;
                  }))
                {x = 0} {y = a.cw_hang_ticks - 1} (ground (arith, e))
                (key_ends k a a.tot_ticks ok active))
            (λ _. record {
              awake = ok.awake;
              kind = ok.kind;
              other = ok.other;
              hang = ground (arith, active);
              safe = ok.safe;
            }))

  pub poll_tot-IsSafe :
      (k : Bool) (a : App c) (ticks : ℕ) → IsSafe k a → IsSafe k (poll_tot a ticks)
  unfolding poll_tot
  poll_tot-IsSafe k a ticks ok =
      let n : ℕ = min (a.tot_ticks + ticks) (2 ^ 16 - 1) in
      let a' : App c = record a { tot_ticks = n } in
      let ok' : IsSafe k a' = record {
        awake = ok.awake;
        kind = ok.kind;
        other = ok.other;
        hang = ok.hang;
        safe = ok.safe;
      } in
      if_holds (IsSafe k) (not (is_transmitting a) || a.settings.tot_level == 0) _ _ (λ _. ok)
        (λ _.
          if_holds (IsSafe k) (leb (tot_limit a.settings) n) _ _
            (λ _.
              if_holds (IsSafe k) a.cw_tx_active _ _ (λ active. key_ends k a n ok active)
                (λ _. set_ptt-IsSafe k a' false ok'))
            (λ _. ok'))

  poll_pin-IsSafe :
      (k : Bool) (a : App c) (down : Bool) (edge : Option Bool)
      → IsSafe k a
      → IsSafe k (poll_pin a down edge)
  unfolding poll_pin
  poll_pin-IsSafe true a down none ok =
      by_kind true a (poll_cw_key a down) a ok.kind (λ _. poll_cw_key-IsSafe a down ok) (λ _. ok)
  poll_pin-IsSafe true a down (some level) ok =
      by_kind true a (poll_cw_key a down) (set_ptt a (not level)) ok.kind
        (λ _. poll_cw_key-IsSafe a down ok) (λ e. cc)
  poll_pin-IsSafe false a down none ok =
      by_kind false a (poll_cw_key a down) a ok.kind (λ e. cc) (λ _. ok)
  poll_pin-IsSafe false a down (some level) ok =
      by_kind false a (poll_cw_key a down) (set_ptt a (not level)) ok.kind (λ e. cc)
        (λ _. set_ptt-IsSafe false a (not level) ok)

  handle-IsSafe : (k : Bool) (a : App c) (e : Event) → IsSafe k a → IsSafe k (handle a e)
  unfolding handle
  handle-IsSafe k a (pin down edge) ok = poll_pin-IsSafe k a down edge ok
  handle-IsSafe k a (vox pressed) ok = set_ptt-IsSafe k a pressed ok
  handle-IsSafe k a hang ok = poll_cw_hang-IsSafe k a ok
  handle-IsSafe k a (tot ticks) ok = poll_tot-IsSafe k a ticks ok

  -- From a safe state, whatever the PTT pin, the voice control, the hang time and the time-out timer
  -- do and in whatever order, the state stays safe, and whenever the chip transmits it is tuned to a
  -- frequency that the band lock allows. In a safe state the chip is not asleep and is only keyed in
  -- the way of the modulation of the master side.
  pub run-IsSafe :
      (by_key : Bool) (a : App c) (events : List Event)
      → IsSafe by_key a
      → IsSafe by_key (run a events)
        × (((transmits (run a events).radio.fd6818) ≡ false) ⊎ Legal (run a events).radio)
  unfolding run
  run-IsSafe by_key a [] ok = (ok, on_air a.radio (is_transmitting a) ok.safe)
  run-IsSafe by_key a (e ∷ events) ok =
      run-IsSafe by_key (handle a e) events (handle-IsSafe by_key a e ok)
