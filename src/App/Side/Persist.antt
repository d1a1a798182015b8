-- ===== src/App/Side/Persist.antt =====
-- What a side keeps when it leaves the VFO, and when its VFO is written to the flash and read back.
use bf_k61_firmware_aura.Prelude.{ℕ, ◌^◌, ◌<◌, ◌≡◌, refl, ap, sym, ◌∙◌, arith, if◌then◌else◌}
use bf_k61_firmware_aura.FlashMap.Channel
use bf_k61_firmware_aura.FlashMap.Vfo.RoundTrip.{}
use bf_k61_firmware_aura.App.Convert.{}
use bf_k61_firmware_aura.App.Side.{
  ChVfoMode, vfo, channel, Side, backup_of, shifted, tx_of, refresh_cfg_freqs,
  restore_vfo_from_backup, load_channel, shift_at, shift_dir_offset,
}

-- What `toggle_vfo_channel` does to a side that goes to a channel.
unfoldable pub to_channel : Side → ℕ → Channel.Channel → Side
unfolding load_channel backup_of
to_channel s num ch = load_channel (record s { vfo_backup = backup_of s }) num ch

-- What a side has set on its VFO.
abbrev pub SameVfo : Side → Side → Type 0
SameVfo s t =
    (s.rx_freq_hz ≡ t.rx_freq_hz)
    × (s.freq_dir ≡ t.freq_dir)
    × (s.offset_hz ≡ t.offset_hz)
    × (s.ani_target ≡ t.ani_target)
    × (s.cfg ≡ t.cfg)
    × (s.freq_step ≡ t.freq_step)

restored :
    (s : Side) (num : ℕ) (ch : Channel.Channel)
    → (restore_vfo_from_backup (to_channel s num ch)).cfg
      ≡ (refresh_cfg_freqs (record s { vfo_chan = vfo })).cfg
unfolding restore_vfo_from_backup to_channel refresh_cfg_freqs
restored s num ch = refl

-- A side that leaves its VFO for a channel and comes back has its VFO as it was: the frequency, the
-- shift, the call target and the whole configuration of the radio; and it is on the VFO.
pub restore_vfo_from_backup-to_channel :
    (s : Side) (num : ℕ) (ch : Channel.Channel)
    → s.vfo_chan ≡ vfo
    → (refresh_cfg_freqs s).cfg ≡ s.cfg
    → SameVfo (restore_vfo_from_backup (to_channel s num ch)) s
      × ((restore_vfo_from_backup (to_channel s num ch)).vfo_chan ≡ vfo)
      × ((to_channel s num ch).vfo_chan ≡ channel)
unfolding restore_vfo_from_backup to_channel load_channel refresh_cfg_freqs
restore_vfo_from_backup-to_channel s num ch on_vfo fresh = (
  (
    refl,
    refl,
    refl,
    refl,
    restored s num ch
        ∙ ap (λ m. (refresh_cfg_freqs (record s { vfo_chan = m })).cfg) (sym on_vfo)
        ∙ fresh,
    refl,
  ),
  refl,
  refl,
)

shift_at_lem :
    (mode : ChVfoMode) (s : Side)
    → s.tx_freq_hz < 2 ^ 32
    → tx_of mode s ≡ shifted (shift_at mode s).0 s.rx_freq_hz (shift_at mode s).1
unfolding tx_of shifted shift_at
shift_at_lem vfo s h = refl
shift_at_lem channel s h = ground arith

-- The direction and the offset that a side shows, on a channel or on its VFO, are those of its
-- transmit frequency: not reversed it transmits on the receive frequency shifted by them, and
-- reversed it receives there.
pub shift_dir_offset_lem :
    (s : Side)
    → s.tx_freq_hz < 2 ^ 32
    → (if s.reversed
        then (refresh_cfg_freqs s).cfg.freq_hz
        else (refresh_cfg_freqs s).cfg.tx_freq_hz)
      ≡ shifted (shift_dir_offset s).0 s.rx_freq_hz (shift_dir_offset s).1
unfolding shift_dir_offset refresh_cfg_freqs
shift_dir_offset_lem s h = ground (arith, shift_at_lem s.vfo_chan s h)
