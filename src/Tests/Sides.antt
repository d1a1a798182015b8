-- ===== src/Tests/Sides.antt =====
-- The sides, the keys that transmit and the standby.
use bf_k61_firmware_aura.Prelude.{
  ◌≡◌, refl, true, false, some, [], ◌∷◌, arith, replicate, List, inl, ◌⊎◌,
}
use bf_k61_firmware_aura.Drivers.NorFlash.Ideal.{ideal_chip}
use bf_k61_firmware_aura.Drivers.Fd6818.{transmits}
use bf_k61_firmware_aura.FlashMap.Vfo
use bf_k61_firmware_aura.FlashMap.Channel
use bf_k61_firmware_aura.App.Convert.{fm, cw}
use bf_k61_firmware_aura.App.Convert.Storable.{is_storable}
use bf_k61_firmware_aura.Device.Radio.{enter_rx}
use bf_k61_firmware_aura.App.Side.{
  vfo, channel, load_vfo, to_vfo_bytes, restore_vfo_from_backup, refresh_cfg_freqs,
}
use bf_k61_firmware_aura.App.Side.Persist.{to_channel, SameVfo, restore_vfo_from_backup-to_channel}
use bf_k61_firmware_aura.App.Side.Flash.{Reloads, load_vfo-to_vfo_bytes}
use bf_k61_firmware_aura.App.State.{App}
use bf_k61_firmware_aura.App.Transmit.{Event, pin, tot, run}
use bf_k61_firmware_aura.App.Transmit.Allowed.{IsSafe, Legal}
use bf_k61_firmware_aura.App.Transmit.Safety.{run-IsSafe}
use bf_k61_firmware_aura.App.Standby.Asleep.{Sleeps, saves, saves-Sleeps}
use bf_k61_firmware_aura.Tests.Fixtures.{on_vfo, started}

abbrev calling : App ideal_chip
calling = record (started fm) { transmitting = true; tot_ticks = 2 }

started-IsSafe : IsSafe false (started fm)
unfolding transmits
started-IsSafe = record { awake = refl; kind = refl; other = refl; hang = refl; safe = inl refl }

-- The key is pressed, and released after a second.
abbrev call : List Event
call = pin true (some false) ∷ tot 100 ∷ pin false (some true) ∷ []

run-IsSafe_example :
    IsSafe false (run (started fm) call)
    × ((transmits (run (started fm) call).radio.fd6818 ≡ false)
        ⊎ Legal (run (started fm) call).radio)
run-IsSafe_example = run-IsSafe false (started fm) call started-IsSafe

load_vfo_example :
    Reloads (on_vfo fm) (load_vfo (on_vfo cw) (Vfo.from_bytes (to_vfo_bytes (on_vfo fm))))
unfolding is_storable
load_vfo_example = load_vfo-to_vfo_bytes (on_vfo fm) (on_vfo cw) (omega arith) refl refl

abbrev some_channel : Channel.Channel
some_channel = Channel.from_bytes (replicate 32 0x11)

restore_vfo_example :
    SameVfo (restore_vfo_from_backup (to_channel (on_vfo fm) 7 some_channel)) (on_vfo fm)
    × ((restore_vfo_from_backup (to_channel (on_vfo fm) 7 some_channel)).vfo_chan ≡ vfo)
    × ((to_channel (on_vfo fm) 7 some_channel).vfo_chan ≡ channel)
unfolding refresh_cfg_freqs
restore_vfo_example = restore_vfo_from_backup-to_channel (on_vfo fm) 7 some_channel refl refl

abbrev asleep : App ideal_chip
asleep = record (started fm) {
  settings = record (started fm).settings { save_level = 1 };
  ps_asleep = true;
  ps_cycle_ticks = 3;
}

asleep-Sleeps : Sleeps asleep
asleep-Sleeps = record { asleep = refl; idle = refl; level = refl; ready = refl; quiet = refl }

saves_example :
    ((saves 3 asleep).ps_asleep ≡ true)
    × ((saves 4 asleep).ps_asleep ≡ false)
    × ((saves 4 asleep).radio ≡ enter_rx asleep.radio)
saves_example = saves-Sleeps 3 asleep asleep-Sleeps refl

-- The voice control has started a transmission, and waits for half a second of silence.
abbrev speaking : App ideal_chip
speaking = record (started fm) {
  settings = record (started fm).settings { vox_switch = true };
  transmitting = true;
  vox_active = true;
  vox_work_dly = 5;
}
