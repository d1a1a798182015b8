-- ===== src/App/Side.antt =====
-- src/app/side.rs: one side of the radio, on a channel or on its VFO.
pub mod Persist
pub mod Flash
use bf_k61_firmware_aura.Prelude.{
  ℕ, ◌+◌, ◌-◌, ◌*◌, ◌/◌, ◌%◌, ◌^◌, min, List, [], ◌∷◌, Bool, true, false, not, Option, replicate,
  get_or, ltb, ◌==◌, if◌then◌else◌,
}
use bf_k61_firmware_aura.FlashMap.Vfo
use bf_k61_firmware_aura.FlashMap.Vfo.{VfoMode}
use bf_k61_firmware_aura.FlashMap.Channel
use bf_k61_firmware_aura.App.Convert.{
  SubAudio, Power, subaudio_from_code, subaudio_to_code, power_from_raw, power_to_raw,
}
use bf_k61_firmware_aura.Device.Radio.{ChannelConfig}

pub data ChVfoMode : Type 0 where
  vfo channel : ChVfoMode

abbrev pub step_list_deci_hz : List ℕ
step_list_deci_hz = 250 ∷ 500 ∷ 625 ∷ 1000 ∷ 1250 ∷ 2000 ∷ 2500 ∷ 5000 ∷ 10000 ∷ []

pub record VfoBackup : Type 0 where
  pub rx_freq_hz : ℕ
  pub freq_dir : ℕ
  pub offset_hz : ℕ
  pub wide_band : Bool
  pub power : Power
  pub subaudio_tx : SubAudio
  pub subaudio_rx : SubAudio
  pub ani_target : Option ℕ

pub record Side : Type 0 where
  pub vfo_chan : ChVfoMode
  pub channel_num : ℕ
  pub freq_step : ℕ
  pub rx_freq_hz : ℕ
  pub tx_freq_hz : ℕ
  pub freq_dir : ℕ
  pub offset_hz : ℕ
  pub reversed : Bool
  pub ani_target : Option ℕ
  pub cfg : ChannelConfig
  pub name : List ℕ
  pub vfo_backup : VfoBackup

-- `saturating_add` of a `u32`.
abbrev pub saturating_add : ℕ → ℕ → ℕ
saturating_add a b = min (a + b) (2 ^ 32 - 1)

abbrev pub no_name : List ℕ
no_name = replicate 12 0

-- The transmit frequency of a VFO: up, down or on the receive frequency.
unfoldable pub shifted : ℕ → ℕ → ℕ → ℕ
shifted freq_dir rx_freq_hz offset_hz =
    if freq_dir == 1
    then saturating_add rx_freq_hz offset_hz
    else if freq_dir == 2
    then rx_freq_hz - offset_hz
    else rx_freq_hz

unfoldable pub tx_of : ChVfoMode → Side → ℕ
unfolding shifted
tx_of vfo s = shifted s.freq_dir s.rx_freq_hz s.offset_hz
tx_of channel s = s.tx_freq_hz

unfoldable pub refresh_cfg_freqs : Side → Side
unfolding tx_of
refresh_cfg_freqs s = record s {
  cfg = record s.cfg {
    freq_hz = if s.reversed then tx_of s.vfo_chan s else s.rx_freq_hz;
    tx_freq_hz = if s.reversed then s.rx_freq_hz else tx_of s.vfo_chan s;
  };
}

-- `VfoBackup { .. }`, from the fields of the side.
unfoldable pub backup_of : Side → VfoBackup
backup_of s = record {
  rx_freq_hz = s.rx_freq_hz;
  freq_dir = s.freq_dir;
  offset_hz = s.offset_hz;
  wide_band = s.cfg.wide_band;
  power = s.cfg.power;
  subaudio_tx = s.cfg.subaudio_tx;
  subaudio_rx = s.cfg.subaudio_rx;
  ani_target = s.ani_target;
}

-- The fields that `load_vfo` sets before the backup. The products wrap, as `u32` does.
unfoldable pub vfo_fields : Side → VfoMode → Side
vfo_fields s v = record s {
  vfo_chan = vfo;
  name = no_name;
  rx_freq_hz = Vfo.freq_deci_hz v * 10 % 2 ^ 32;
  freq_dir = Vfo.freq_dir v;
  ani_target = Vfo.ani_target v;
  offset_hz = Vfo.offset_deci_hz v * 10 % 2 ^ 32;
  cfg = record s.cfg {
    wide_band = not (Vfo.wide_narrow v);
    power = power_from_raw v.tx_power;
    subaudio_tx = subaudio_from_code v.tx_dcs_cts_num;
    subaudio_rx = subaudio_from_code v.rx_dcs_cts_num;
  };
}

unfoldable pub load_vfo : Side → VfoMode → Side
unfolding vfo_fields backup_of refresh_cfg_freqs
load_vfo s v =
    let s' : Side = vfo_fields s v in refresh_cfg_freqs (record s' { vfo_backup = backup_of s' })

-- The record that `to_vfo_bytes` builds from an empty one, before the byte that the shift and the
-- call target share.
unfoldable pub plain_vfo : Side → VfoMode
plain_vfo s =
    let v : VfoMode =
      Vfo.set_wide_narrow
        (Vfo.set_offset_deci_hz
          (Vfo.set_freq_deci_hz (Vfo.from_bytes (replicate 32 0)) (s.rx_freq_hz / 10))
          (s.offset_hz / 10))
        (not s.cfg.wide_band) in
    record v {
      tx_power = power_to_raw s.cfg.power;
      rx_dcs_cts_num = subaudio_to_code s.cfg.subaudio_rx;
      tx_dcs_cts_num = subaudio_to_code s.cfg.subaudio_tx;
    }

unfoldable pub to_vfo : Side → VfoMode
unfolding plain_vfo
to_vfo s = Vfo.set_ani_target (Vfo.set_freq_dir (plain_vfo s) s.freq_dir) s.ani_target

unfoldable pub to_vfo_bytes : Side → List ℕ
unfolding to_vfo
to_vfo_bytes s = Vfo.to_bytes (to_vfo s)

unfoldable pub restore_vfo_from_backup : Side → Side
unfolding refresh_cfg_freqs
restore_vfo_from_backup s = refresh_cfg_freqs (record s {
  vfo_chan = vfo;
  name = no_name;
  rx_freq_hz = s.vfo_backup.rx_freq_hz;
  freq_dir = s.vfo_backup.freq_dir;
  offset_hz = s.vfo_backup.offset_hz;
  cfg = record s.cfg {
    wide_band = s.vfo_backup.wide_band;
    power = s.vfo_backup.power;
    subaudio_tx = s.vfo_backup.subaudio_tx;
    subaudio_rx = s.vfo_backup.subaudio_rx;
  };
  ani_target = s.vfo_backup.ani_target;
})

unfoldable pub load_channel : Side → ℕ → Channel.Channel → Side
unfolding refresh_cfg_freqs
load_channel s num ch = refresh_cfg_freqs (record s {
  vfo_chan = channel;
  channel_num = num;
  rx_freq_hz = Channel.rx_freq_deci_hz ch * 10 % 2 ^ 32;
  tx_freq_hz = Channel.tx_freq_deci_hz ch * 10 % 2 ^ 32;
  ani_target = Channel.ani_target ch;
  cfg = record s.cfg {
    wide_band = not (Channel.wide_narrow ch);
    power = power_from_raw ch.tx_power;
    subaudio_tx = subaudio_from_code ch.tx_dcs_cts_num;
    subaudio_rx = subaudio_from_code ch.rx_dcs_cts_num;
  };
  name = ch.name;
})

unfoldable pub step_deci_hz : Side → ℕ
step_deci_hz s = get_or step_list_deci_hz s.freq_step 0

unfoldable pub shift_at : ChVfoMode → Side → ℕ × ℕ
shift_at vfo s = (s.freq_dir, s.offset_hz)
shift_at channel s =
    if s.tx_freq_hz == s.rx_freq_hz
    then (0, 0)
    else if ltb s.rx_freq_hz s.tx_freq_hz
    then (1, s.tx_freq_hz - s.rx_freq_hz)
    else (2, s.rx_freq_hz - s.tx_freq_hz)

unfoldable pub shift_dir_offset : Side → ℕ × ℕ
unfolding shift_at
shift_dir_offset s = shift_at s.vfo_chan s
