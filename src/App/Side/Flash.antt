-- ===== src/App/Side/Flash.antt =====
-- The VFO of a side, written to the flash and read back.
use bf_k61_firmware_aura.Prelude.{
  ℕ, ◌*◌, ◌/◌, ◌%◌, ◌<◌, ◌≡◌, ◌∙◌, bit_and, true, not, Option, none, some, replicate, arith, ltb,
  if◌then◌else◌,
}
use bf_k61_firmware_aura.Prelude.Bits.{bit_or-lt, bit_and_mask5}
use bf_k61_firmware_aura.Crc.{IsByte}
use bf_k61_firmware_aura.FlashMap.Freq.RoundTrip.{deci_hz_to_digits_shape}
use bf_k61_firmware_aura.FlashMap.Vfo
use bf_k61_firmware_aura.FlashMap.Vfo.{VfoMode}
use bf_k61_firmware_aura.FlashMap.Channel.{contact_count}
use bf_k61_firmware_aura.FlashMap.Vfo.RoundTrip.{
  IsValid, vfo_from_bytes-to_bytes, freq_kept, set_freq_dir_lem, set_ani_target_lem,
}
use bf_k61_firmware_aura.App.Convert.{subaudio_from_code, power_from_raw}
use bf_k61_firmware_aura.App.Convert.Codes.{from_raw-to_raw}
use bf_k61_firmware_aura.App.Convert.{fm}
use bf_k61_firmware_aura.App.Side.{
  Side, vfo_fields, load_vfo, plain_vfo, to_vfo, to_vfo_bytes, refresh_cfg_freqs,
}
use bf_k61_firmware_aura.App.Convert.Storable.{is_storable, subaudio_kept}

abbrev pub known_target : Option ℕ → Option ℕ
known_target target = elim target [
  | none ↦ none
  | some t ↦ if ltb t contact_count then some t else none
]

module _ (s : Side) where
  -- The packed byte of an empty record, with the shift in it.
  group-IsByte : IsByte (Vfo.set_freq_dir (plain_vfo s) s.freq_dir).dtmf_group
  unfolding Vfo.set_freq_dir
  group-IsByte =
      bit_or-lt 8 (s.freq_dir * 32 % 256) (bit_and (plain_vfo s).dtmf_group 0x1f) (omega arith)
        (omega (arith, bit_and_mask5 (plain_vfo s).dtmf_group))

  empty-IsByte : IsByte (plain_vfo s).dtmf_group
  unfolding plain_vfo Vfo.set_wide_narrow Vfo.set_offset_deci_hz Vfo.set_freq_deci_hz Vfo.from_bytes
  empty-IsByte = omega arith

  freqs_kept :
      (Vfo.freq_deci_hz (to_vfo s) ≡ s.rx_freq_hz / 10 % 100_000_000)
      × (Vfo.offset_deci_hz (to_vfo s) ≡ s.offset_hz / 10 / 10 % 10_000_000 * 10)
  unfolding to_vfo plain_vfo Vfo.set_ani_target Vfo.set_freq_dir Vfo.set_wide_narrow
      Vfo.set_offset_deci_hz Vfo.set_freq_deci_hz Vfo.freq_deci_hz Vfo.offset_deci_hz
  freqs_kept =
      let v : VfoMode = Vfo.from_bytes (replicate 32 0) in
      ((freq_kept v (s.rx_freq_hz / 10)).0, (freq_kept v (s.offset_hz / 10)).1)

  fields-IsValid :
      is_storable s.cfg.subaudio_rx ≡ true
      → is_storable s.cfg.subaudio_tx ≡ true
      → IsValid (to_vfo s)
  unfolding to_vfo plain_vfo Vfo.set_ani_target Vfo.set_freq_dir Vfo.set_wide_narrow
      Vfo.set_offset_deci_hz Vfo.set_freq_deci_hz
  fields-IsValid rx tx = record {
    freq_size = (deci_hz_to_digits_shape 8 (s.rx_freq_hz / 10)).0;
    offset_size = (deci_hz_to_digits_shape 7 (s.offset_hz / 10 / 10)).0;
    rx_word = (subaudio_kept s.cfg.subaudio_rx rx).1;
    tx_word = (subaudio_kept s.cfg.subaudio_tx tx).1;
    code_word = unfold Vfo.from_bytes in omega arith;
  }

  target_kept :
      s.freq_dir < 8
      → (Vfo.freq_dir (to_vfo s) ≡ s.freq_dir)
        × (Vfo.ani_target (to_vfo s) ≡ known_target s.ani_target)
  unfolding to_vfo
  target_kept dir =
      let shifted_lem = set_freq_dir_lem (plain_vfo s) empty-IsByte s.freq_dir dir in
      let target_lem =
        set_ani_target_lem (Vfo.set_freq_dir (plain_vfo s) s.freq_dir) group-IsByte s.ani_target in
      (target_lem.0 ∙ shifted_lem.0, target_lem.1)

  wide_kept : not (Vfo.wide_narrow (to_vfo s)) ≡ s.cfg.wide_band
  unfolding to_vfo plain_vfo Vfo.set_ani_target Vfo.set_freq_dir Vfo.set_wide_narrow Vfo.wide_narrow
      Vfo.set_offset_deci_hz Vfo.set_freq_deci_hz Vfo.from_bytes
  wide_kept = ground arith

power_kept : (s : Side) → power_from_raw (to_vfo s).tx_power ≡ s.cfg.power
unfolding to_vfo plain_vfo Vfo.set_ani_target Vfo.set_freq_dir
power_kept s = (from_raw-to_raw s.cfg.power fm).0

tones_kept :
    (s : Side)
    → is_storable s.cfg.subaudio_rx ≡ true
    → is_storable s.cfg.subaudio_tx ≡ true
    → (subaudio_from_code (to_vfo s).rx_dcs_cts_num ≡ s.cfg.subaudio_rx)
      × (subaudio_from_code (to_vfo s).tx_dcs_cts_num ≡ s.cfg.subaudio_tx)
unfolding to_vfo plain_vfo Vfo.set_ani_target Vfo.set_freq_dir
tones_kept s rx tx =
    ((subaudio_kept s.cfg.subaudio_rx rx).0, (subaudio_kept s.cfg.subaudio_tx tx).0)

-- What is read back of a VFO that was written.
abbrev pub Reloads : Side → Side → Type 0
Reloads s loaded =
    (loaded.rx_freq_hz ≡ s.rx_freq_hz / 10 % 100_000_000 * 10)
    × (loaded.offset_hz ≡ s.offset_hz / 100 % 10_000_000 * 100)
    × (loaded.freq_dir ≡ s.freq_dir)
    × (loaded.ani_target ≡ known_target s.ani_target)
    × (loaded.cfg.wide_band ≡ s.cfg.wide_band)
    × (loaded.cfg.power ≡ s.cfg.power)
    × (loaded.cfg.subaudio_rx ≡ s.cfg.subaudio_rx)
    × (loaded.cfg.subaudio_tx ≡ s.cfg.subaudio_tx)

reloaded :
    (s t : Side)
    → s.freq_dir < 8
    → is_storable s.cfg.subaudio_rx ≡ true
    → is_storable s.cfg.subaudio_tx ≡ true
    → Reloads s (load_vfo t (to_vfo s))
unfolding load_vfo vfo_fields refresh_cfg_freqs
reloaded s t dir rx tx = (
  omega (arith, (freqs_kept s).0),
  omega (arith, (freqs_kept s).1),
  (target_kept s dir).0,
  (target_kept s dir).1,
  wide_kept s,
  power_kept s,
  (tones_kept s rx tx).0,
  (tones_kept s rx tx).1,
)

-- A VFO that is written to the flash and loaded again, at the next start of the radio, has its
-- settings back: the frequency in steps of 10 Hz and the offset in steps of 100 Hz, each modulo
-- 1 GHz, the direction of the shift, the power, the bandwidth, both tones, and the call target if it
-- is a slot of the contact table. The tones are codes of the tables or CTCSS tones above the codes.
pub load_vfo-to_vfo_bytes :
    (s t : Side)
    → s.freq_dir < 8
    → is_storable s.cfg.subaudio_rx ≡ true
    → is_storable s.cfg.subaudio_tx ≡ true
    → Reloads s (load_vfo t (Vfo.from_bytes (to_vfo_bytes s)))
unfolding to_vfo_bytes
load_vfo-to_vfo_bytes s t dir rx tx =
    rw (vfo_from_bytes-to_bytes (to_vfo s) (fields-IsValid s rx tx)) (reloaded s t dir rx tx)
