-- ===== src/App/Transmit/Allowed.antt =====
-- The transmitter is only on the air where the band lock lets it.
use bf_k61_firmware_aura.Prelude.{
  ℕ, ◌≡◌, refl, Bool, true, false, ◌||◌, ◌⊎◌, inl, inr, Option, none, some, arith, ◌==◌,
  if◌then◌else◌,
}
use bf_k61_firmware_aura.Drivers.NorFlash.{Chip}
use bf_k61_firmware_aura.Drivers.Fd6818.{
  transmits, tx_single_tone_on, tx_single_tone_off, tx_single_tone_off_idle, pa_enable, pa_off,
  idle, tx_on, rx_on,
}
use bf_k61_firmware_aura.Device.BandLock.{allows}
use bf_k61_firmware_aura.Device.Radio.{Radio, is_fm, is_keyed, enter_rx}
use bf_k61_firmware_aura.Device.Radio.Transmit.{
  enter_tx, enter_tx_keyed, guarded, keyed, end_tx, sidetone_on, sidetone_off, keyed_tone_on,
  keyed_tone_off, cw_carrier_on, cw_carrier_off, cw_key_off,
}
use bf_k61_firmware_aura.Device.Radio.Transmit.OnAir.{word_of, keyed_lem, end_tx_lem}
use bf_k61_firmware_aura.App.State.{App, master_side, is_transmitting}
use bf_k61_firmware_aura.App.Transmit.{with_target}

-- The chip is tuned to a frequency that is allowed.
abbrev pub Legal : Radio → Type 0
Legal r = (f : ℕ) × (allows r.tx_allowed f ≡ true) × (r.fd6818.freq_reg ≡ word_of r f)

-- What the chip sends, or may be made to send by a tone while `active`, goes out on an allowed
-- frequency.
abbrev pub SafeWith : Radio → Bool → Type 0
SafeWith r active = ((transmits r.fd6818 || active) ≡ false) ⊎ Legal r

-- The radio of the application is safe and not asleep; `by_key` says whether the master side is
-- keyed or speaks, and the other way to transmit is not in use. A hang time only runs while the key
-- has the transmitter.
pub record IsSafe {c : Chip} (by_key : Bool) (a : App c) : Type 0 where
  pub awake : a.ps_asleep ≡ false
  pub kind : is_keyed (master_side a).cfg.modulation ≡ by_key
  pub other : (if by_key then a.transmitting else a.cw_tx_active) ≡ false
  pub hang : (a.cw_tx_active || a.cw_hang_ticks == 0) ≡ true
  pub safe : SafeWith a.radio (is_transmitting a)

-- What of a radio decides whether it is legal, and whether it transmits.
abbrev pub SameTuning : Radio → Radio → Type 0
SameTuning r t =
    (r.tx_allowed ≡ t.tx_allowed)
    × (r.fd6818.freq_reg ≡ t.fd6818.freq_reg)
    × (r.fd6818.xtal_adjust ≡ t.fd6818.xtal_adjust)
    × (r.fd6818.state_reg ≡ t.fd6818.state_reg)

pub SafeWith-same :
    (r t : Radio) (active : Bool) → SameTuning r t → SafeWith r active → SafeWith t active
unfolding transmits
SafeWith-same r t active same (inl quiet) = inl (cc)
SafeWith-same r t active same (inr (f, ok, word)) = inr (f, cc, cc)

pub with_target-same : (r : Radio) (o : Option ℕ) → SameTuning r (with_target r o)
unfolding with_target
with_target-same r none = (refl, refl, refl, refl)
with_target-same r (some t) = (refl, refl, refl, refl)

keyed-Legal : (r : Radio) → allows r.tx_allowed r.cfg.tx_freq_hz ≡ true → Legal (keyed r)
unfolding keyed
keyed-Legal r ok = (r.cfg.tx_freq_hz, ok, (keyed_lem r).1)

-- Keying, with what the band lock and the modulation say.
keying-SafeWith :
    (allowed fits active : Bool) (r : Radio)
    → allows r.tx_allowed r.cfg.tx_freq_hz ≡ allowed
    → SafeWith r active
    → SafeWith (guarded allowed fits r).0 ((guarded allowed fits r).1 || active)
unfolding guarded
keying-SafeWith true true active r ok safe = inr (keyed-Legal r ok)
keying-SafeWith true false active r ok safe = safe
keying-SafeWith false fits active r ok safe = safe

pub enter_tx-SafeWith :
    (r : Radio) (active : Bool)
    → SafeWith r active
    → SafeWith (enter_tx r).0 ((enter_tx r).1 || active)
      × SafeWith (enter_tx_keyed r).0 ((enter_tx_keyed r).1 || active)
unfolding enter_tx enter_tx_keyed
enter_tx-SafeWith r active safe = (
  keying-SafeWith (allows r.tx_allowed r.cfg.tx_freq_hz) (is_fm r.cfg.modulation) active r refl
      safe,
  keying-SafeWith (allows r.tx_allowed r.cfg.tx_freq_hz) (is_keyed r.cfg.modulation) active r refl
      safe,
)

pub enter_rx-SafeWith : (r : Radio) → SafeWith (enter_rx r) false
enter_rx-SafeWith r = inl (rw (end_tx_lem r).1.0)

pub end_tx-SafeWith : (r : Radio) → SafeWith (end_tx r) false
end_tx-SafeWith r = inl (rw (end_tx_lem r).0.0)

-- The tones.
module _ (r : Radio) where
  pub active-Legal : SafeWith r true → Legal r
  active-Legal (inl quiet) = ground (arith, quiet)
  active-Legal (inr legal) = legal

  pub key_tones-SafeWith :
      (active : Bool)
      → Legal r
      → SafeWith (keyed_tone_on r) active
        × SafeWith (cw_carrier_on (keyed_tone_on r)) active
        × SafeWith (cw_key_off (cw_carrier_off r)) active
        × SafeWith (keyed_tone_off r) active
  unfolding keyed_tone_on cw_carrier_on cw_key_off cw_carrier_off keyed_tone_off tx_single_tone_on
      tx_single_tone_off tx_single_tone_off_idle pa_enable pa_off idle tx_on
  key_tones-SafeWith active (f, ok, word) =
      (inr (f, ok, word), inr (f, ok, word), inr (f, ok, word), inr (f, ok, word))

  pub sidetones-SafeWith :
      (active : Bool)
      → SafeWith r active
      → SafeWith (sidetone_on r) active × SafeWith (sidetone_off r) active
  unfolding sidetone_on sidetone_off tx_single_tone_on tx_single_tone_off rx_on transmits
  sidetones-SafeWith active (inl quiet) = (inl (ground (arith, quiet)), inl (ground (arith, quiet)))
  sidetones-SafeWith active (inr (f, ok, word)) = (inr (f, ok, word), inr (f, ok, word))
