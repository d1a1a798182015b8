-- ===== src/Device/Radio.antt =====
-- src/device/radio.rs: the radio between the application and the transceiver.
-- The speaker switch and the DTMF digits that were sent last are state; what a poll reads from the
-- chip is an argument. The delays, the lamps, the receive filters and the audio path of the chip are
-- not modelled.
pub mod Receive
pub mod Transmit
pub mod Ani
use bf_k61_firmware_aura.Prelude.{
  ℕ, suc, ◌+◌, ◌-◌, ◌^◌, min, List, Bool, true, false, not, ◌&&◌, ◌||◌, Option, none, some, leb,
  ltb, bool_eq, if◌then◌else◌,
}
use bf_k61_firmware_aura.Prelude.Int.{ℤ, pos, negsuc}
use bf_k61_firmware_aura.App.Convert.{
  SubAudio, silent, ctcss, dcs, Power, Modulation, fm, am, usb, cw, cwf,
}
use bf_k61_firmware_aura.Device.BandLock.{FreqRanges}
use bf_k61_firmware_aura.Drivers.Fd6818.{
  Fd6818, idle, pa_off, power_rx, set_frequency_hz, set_wide_bandwidth, rx_on, sleep,
}

pub data RogerTone : Type 0 where
  off roger mdc1200 : RogerTone

pub data Band : Type 0 where
  vhf uhf : Band

unfoldable pub from_freq_hz : ℕ → Band
from_freq_hz freq_hz = if leb 300_000_000 freq_hz then uhf else vhf

pub record ChannelConfig : Type 0 where
  pub freq_hz : ℕ
  pub tx_freq_hz : ℕ
  pub wide_band : Bool
  pub power : Power
  pub subaudio_tx : SubAudio
  pub subaudio_rx : SubAudio
  pub modulation : Modulation

pub record AniConfig : Type 0 where
  pub machine_id : ℕ × ℕ × ℕ
  pub separator : ℕ
  pub group_code : Option ℕ

pub record Radio : Type 0 where
  pub fd6818 : Fd6818
  pub cfg : ChannelConfig
  pub sql_level : ℕ
  pub tail_elimination : Bool
  pub rptrl : ℕ
  pub beeps_enabled : Bool
  pub roger_tone : RogerTone
  pub scramble_level : ℕ
  pub rit_offset_hz : ℤ
  pub audio_open : Bool
  pub sq_debounce : ℕ
  pub rssi_open : Bool
  pub rssi_debounce : ℕ
  pub tx_state : Bool
  pub ani : AniConfig
  pub dtmf_rx_buf : List ℕ
  pub dtmf_rx_len : ℕ
  pub dtmf_rx_timeout : ℕ
  pub tx_allowed : FreqRanges
  pub monitor : Bool
  pub speaker : Bool
  pub dtmf_sent : List ℕ

unfoldable pub set_frequency : Radio → ℕ → Radio
set_frequency r hz = record r { cfg = record r.cfg { freq_hz = hz } }

unfoldable pub set_tx_frequency : Radio → ℕ → Radio
set_tx_frequency r hz = record r { cfg = record r.cfg { tx_freq_hz = hz } }

unfoldable pub set_power : Radio → Power → Radio
set_power r p = record r { cfg = record r.cfg { power = p } }

unfoldable pub set_subaudio_tx : Radio → SubAudio → Radio
set_subaudio_tx r sub = record r { cfg = record r.cfg { subaudio_tx = sub } }

unfoldable pub set_subaudio_rx : Radio → SubAudio → Radio
set_subaudio_rx r sub = record r { cfg = record r.cfg { subaudio_rx = sub } }

unfoldable pub set_modulation : Radio → Modulation → Radio
set_modulation r m = record r { cfg = record r.cfg { modulation = m } }

unfoldable pub set_radio_wide : Radio → Bool → Radio
set_radio_wide r wide = record r { cfg = record r.cfg { wide_band = wide } }

unfoldable pub set_tx_allowed : Radio → FreqRanges → Radio
set_tx_allowed r windows = record r { tx_allowed = windows }

abbrev pub is_fm : Modulation → Bool
is_fm fm = true
is_fm am = false
is_fm usb = false
is_fm cw = false
is_fm cwf = false

abbrev pub is_cw : Modulation → Bool
is_cw fm = false
is_cw am = false
is_cw usb = false
is_cw cw = true
is_cw cwf = false

-- `Cw` or `Cwf`.
abbrev pub is_keyed : Modulation → Bool
is_keyed fm = false
is_keyed am = false
is_keyed usb = false
is_keyed cw = true
is_keyed cwf = true

-- `Usb` or `Cw`: the receiver is moved by the offset.
abbrev pub has_rit : Modulation → Bool
has_rit fm = false
has_rit am = false
has_rit usb = true
has_rit cw = true
has_rit cwf = false

unfoldable pub saturating_add_signed : ℕ → ℤ → ℕ
saturating_add_signed f (pos n) = min (f + n) (2 ^ 32 - 1)
saturating_add_signed f (negsuc n) = f - suc n

unfoldable pub tuned_freq_hz : Radio → ℕ
unfolding saturating_add_signed
tuned_freq_hz r =
    if has_rit r.cfg.modulation
    then saturating_add_signed r.cfg.freq_hz r.rit_offset_hz
    else r.cfg.freq_hz

unfoldable pub enter_rx : Radio → Radio
unfolding idle pa_off power_rx set_frequency_hz set_wide_bandwidth rx_on tuned_freq_hz
enter_rx r = record r {
  fd6818 = rx_on (
      set_wide_bandwidth (set_frequency_hz (power_rx (pa_off (idle r.fd6818))) (tuned_freq_hz r))
        r.cfg.wide_band);
  audio_open = false;
  sq_debounce = 0;
  rssi_open = false;
  rssi_debounce = 0;
  dtmf_rx_len = 0;
  dtmf_rx_timeout = 0;
  tx_state = false;
  speaker = false;
}

unfoldable pub retune_rx : Radio → ℕ → Bool → Radio
unfolding set_frequency_hz set_wide_bandwidth rx_on
retune_rx r hz wide = record r {
  cfg = record r.cfg { freq_hz = hz; wide_band = wide };
  fd6818 = rx_on (set_wide_bandwidth (set_frequency_hz r.fd6818 hz) wide);
}

unfoldable pub tune_search_candidate : Radio → ℕ → Radio
unfolding idle set_frequency_hz set_wide_bandwidth rx_on
tune_search_candidate r hz = record r {
  fd6818 = rx_on (set_wide_bandwidth (set_frequency_hz (idle r.fd6818) hz) true);
}

unfoldable pub park_for_fm : Radio → Radio
unfolding idle pa_off
park_for_fm r = record r { fd6818 = pa_off (idle r.fd6818); speaker = false }

unfoldable pub rf_sleep : Radio → Radio
unfolding sleep
rf_sleep r = record r { fd6818 = sleep r.fd6818 }

-- The chip is back in the receive mode for DTMF when the digits have been sent.
unfoldable pub send_dtmf_digits : Radio → List ℕ → Radio
send_dtmf_digits r digits = record r { dtmf_sent = digits }
