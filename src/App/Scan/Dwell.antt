-- ===== src/App/Scan/Dwell.antt =====
-- How long a scan stays (src/app/scan.rs poll).
use bf_k61_firmware_aura.Prelude.{
  ℕ, zero, suc, ◌+◌, ◌<◌, ◌≤◌, ◌≡◌, refl, Bool, true, false, ◌&&◌, ◌||◌, arith, ◌==◌, if◌then◌else◌,
  Bool-cases, inl, inr,
}
use bf_k61_firmware_aura.App.Scan.{
  ScanPhase, scanning, wait_time, wait_lost, wait_recall, stop, ScanState, Move, stay, hop, exit,
  hopped, found_carrier, poll_at, poll, scan_lost_time_ticks, squelch_debounce_ticks,
}

abbrev pub is_wait_lost : ScanPhase → Bool
is_wait_lost scanning = false
is_wait_lost wait_time = false
is_wait_lost wait_lost = true
is_wait_lost wait_recall = false
is_wait_lost stop = false

-- The bounds of the counters; a scan that waits for a carrier to come back counts down to it.
pub record IsValid (s : ScanState) : Type 0 where
  pub dwell : s.dwell_ticks ≤ scan_lost_time_ticks
  pub debounce : s.sq_debounce ≤ squelch_debounce_ticks
  pub counts : (is_wait_lost s.phase && s.dwell_ticks == 0) ≡ false

poll_at-IsValid :
    (phase : ScanPhase) (scan_mode : ℕ) (squelch_open : Bool) (s : ScanState)
    → s.phase ≡ phase
    → IsValid s
    → IsValid (poll_at phase scan_mode squelch_open s).0
unfolding poll_at hopped found_carrier
poll_at-IsValid scanning scan_mode squelch_open s e v = ground arith
poll_at-IsValid wait_time scan_mode squelch_open s e v = ground arith
poll_at-IsValid wait_lost scan_mode squelch_open s e v = ground arith
poll_at-IsValid wait_recall scan_mode squelch_open s e v = ground arith
poll_at-IsValid stop scan_mode squelch_open s e v = ground arith

pub poll-IsValid :
    (scan_mode : ℕ) (squelch_open : Bool) (s : ScanState)
    → IsValid s
    → IsValid (poll scan_mode squelch_open s).0
unfolding poll
poll-IsValid scan_mode squelch_open s v = poll_at-IsValid s.phase scan_mode squelch_open s refl v

abbrev pub moves : Move → Bool
moves stay = false
moves hop = true
moves exit = true

-- Whether one of the next `n` polls hops or ends the scan, while the squelch stays closed.
unfoldable pub moves_within : ℕ → ℕ → ScanState → Bool
moves_within scan_mode zero s = false
moves_within scan_mode (suc n) s =
    let later = moves_within scan_mode n (poll scan_mode false s).0 in
    moves (poll scan_mode false s).1 || later

-- The polls that a quiet scan still waits.
abbrev left : ScanState → ℕ
left s = s.dwell_ticks + (if is_wait_lost s.phase then 1 else 0)

waits_less :
    (phase : ScanPhase) (scan_mode : ℕ) (s : ScanState)
    → s.phase ≡ phase
    → IsValid s
    → moves (poll_at phase scan_mode false s).1 ≡ false
    → left (poll_at phase scan_mode false s).0 < left s
unfolding poll_at hopped
waits_less scanning scan_mode s e v still = ground arith
waits_less wait_time scan_mode s e v still = ground arith
waits_less wait_lost scan_mode s e v still = ground arith
waits_less wait_recall scan_mode s e v still = ground arith
waits_less stop scan_mode s e v still = ground arith

moves_in_time :
    (n scan_mode : ℕ) (s : ScanState) → IsValid s → left s < n → moves_within scan_mode n s ≡ true
unfolding moves_within
moves_in_time zero scan_mode s v h = absurd (omega arith)
moves_in_time (suc n) scan_mode s v h = elim (Bool-cases (moves (poll scan_mode false s).1)) [
  | inl now ↦ rw now
  | inr still ↦
      let less : left (poll scan_mode false s).0 < left s =
        unfold poll in waits_less s.phase scan_mode s refl v still in
      rw still (
        moves_in_time n scan_mode (poll scan_mode false s).0 (poll-IsValid scan_mode false s v)
          (omega arith))
]

-- A scan never gets stuck on a frequency without a signal: in every valid state, while the squelch
-- stays closed, one of the next 102 polls hops on or ends the scan, and the polls keep the state
-- valid whatever the squelch does.
pub moves_within_lem :
    (scan_mode : ℕ) (squelch_open : Bool) (s : ScanState)
    → IsValid s
    → (moves_within scan_mode 102 s ≡ true) × IsValid (poll scan_mode squelch_open s).0
moves_within_lem scan_mode squelch_open s v =
    (moves_in_time 102 scan_mode s v (ground arith), poll-IsValid scan_mode squelch_open s v)
