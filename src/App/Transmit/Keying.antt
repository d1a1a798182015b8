-- ===== src/App/Transmit/Keying.antt =====
-- What a press of the PTT key or of the Morse key does.
use bf_k61_firmware_aura.Prelude.{Bool, not, ◌&&◌}
use bf_k61_firmware_aura.Drivers.NorFlash.{Chip}
use bf_k61_firmware_aura.Drivers.Fd6818.{}
use bf_k61_firmware_aura.Device.BandLock.{allows}
use bf_k61_firmware_aura.Device.Radio.{Radio, is_fm}
use bf_k61_firmware_aura.App.State.{App, is_standby, master_side}

module _ {c : Chip} where
  -- The conditions for voice, on a radio that has been woken.
  abbrev pub voice_allowed : App c → Bool
  voice_allowed a =
      is_standby a.mode
      && not a.settings.tx_forbid
      && not (a.settings.busy_lock && a.radio.rssi_open)
      && allows a.radio.tx_allowed (master_side a).cfg.tx_freq_hz
      && is_fm (master_side a).cfg.modulation
