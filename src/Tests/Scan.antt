-- ===== src/Tests/Scan.antt =====
-- Scans and satellite passes.
use bf_k61_firmware_aura.Prelude.{◌≡◌, refl, true, false, arith}
use bf_k61_firmware_aura.Drivers.NorFlash.Ideal.{ideal_chip, blank}
use bf_k61_firmware_aura.App.Scan.{ScanState, wait_lost, poll, is_wanted, find_next_scan_channel}
use bf_k61_firmware_aura.App.Scan.Channels.{Nearest, find_next_scan_channel-Nearest}
use bf_k61_firmware_aura.App.Scan.Dwell.{IsValid, moves_within, moves_within_lem}

find_next_example :
    Nearest
      (is_wanted ideal_chip blank)
      false
      3
      1000
      (find_next_scan_channel ideal_chip blank 3 false)
find_next_example = find_next_scan_channel-Nearest ideal_chip blank 3 false (omega arith)

-- A carrier has just gone.
abbrev lost : ScanState
lost = record { phase = wait_lost; up = true; dwell_ticks = 100; sq_debounce = 3 }

lost-IsValid : IsValid lost
lost-IsValid = record { dwell = omega arith; debounce = omega arith; counts = refl }

moves_within_example : (moves_within 1 102 lost ≡ true) × IsValid (poll 1 true lost).0
moves_within_example = moves_within_lem 1 true lost lost-IsValid
