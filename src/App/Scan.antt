-- ===== src/App/Scan.antt =====
-- src/app/scan.rs: the scan of channels and of the VFO.
-- The channels are `Device.Storage`'s; `squelch_open` says whether the squelch is squelch_open in a poll.
pub mod Channels
pub mod Dwell
use bf_k61_firmware_aura.Prelude.{
  ℕ, zero, suc, ◌+◌, ◌-◌, ◌*◌, ◌^◌, ◌<◌, min, Bool, true, false, not, Option, none, some, ltb, leb,
  ◌==◌, if◌then◌else◌,
}
use bf_k61_firmware_aura.Drivers.NorFlash.{Chip}
use bf_k61_firmware_aura.FlashMap.Channel
use bf_k61_firmware_aura.Device.Storage.{is_channel_empty, read_channel}

abbrev pub max_channel_num : ℕ
max_channel_num = 999

abbrev pub scan_lost_time_ticks : ℕ
scan_lost_time_ticks = 100

abbrev pub scan_find_time_ticks : ℕ
scan_find_time_ticks = 20

abbrev pub scan_step_dwell_ticks : ℕ
scan_step_dwell_ticks = 4

abbrev pub scan_start_dwell_ticks : ℕ
scan_start_dwell_ticks = 8

abbrev pub squelch_debounce_ticks : ℕ
squelch_debounce_ticks = 3

pub data ScanPhase : Type 0 where
  scanning wait_time wait_lost wait_recall stop : ScanPhase

pub record ScanState : Type 0 where
  pub phase : ScanPhase
  pub up : Bool
  pub dwell_ticks : ℕ
  pub sq_debounce : ℕ

-- The step of `find_next_scan_channel` to the next number.
unfoldable pub next_number : Bool → ℕ → ℕ
next_number forward n =
    if forward
    then (if leb max_channel_num n then 0 else n + 1)
    else (if n == 0 then max_channel_num else n - 1)

-- The loop of `find_next_scan_channel`, with `rounds` to go; `wanted` says whether a channel is in
-- use and marked for the scan.
unfoldable pub find_next : (ℕ → Bool) → Bool → ℕ → ℕ → Option ℕ
unfolding next_number
find_next wanted forward zero n = none
find_next wanted forward (suc rounds) n =
    let later = find_next wanted forward rounds (next_number forward n) in
    if wanted (next_number forward n) then some (next_number forward n) else later

module _ (c : Chip) where
  unfoldable pub is_wanted : c.State → ℕ → Bool
  is_wanted s n = if is_channel_empty c s n then false else Channel.scan_add (read_channel c s n)

  unfoldable pub find_next_scan_channel : c.State → ℕ → Bool → Option ℕ
  unfolding find_next is_wanted
  find_next_scan_channel s from forward = find_next (is_wanted s) forward (max_channel_num + 1) from

-- The additions of the source saturate at the end of `u32`.
unfoldable pub wrap_freq : ℕ → ℕ → Bool → ℕ → ℕ → ℕ
wrap_freq freq_hz step_hz up lo hi =
    let next = min (freq_hz + step_hz) (2 ^ 32 - 1) in
    if up
    then (if ltb hi next then lo else next)
    else if ltb freq_hz step_hz
    then hi
    else if ltb (freq_hz - step_hz) lo
    then hi
    else freq_hz - step_hz

-- What a poll or a key asks of the rest of the application.
pub data Move : Type 0 where
  stay hop exit : Move

-- The state that `enter` starts with.
abbrev pub entered : ScanState
entered = record {
  phase = scanning;
  up = true;
  dwell_ticks = scan_start_dwell_ticks;
  sq_debounce = 0;
}

-- The state that `hop` leaves.
unfoldable pub hopped : ScanState → ScanState
hopped s = record s { phase = scanning; dwell_ticks = scan_step_dwell_ticks; sq_debounce = 0 }

-- A carrier that has been there for long enough while scanning.
unfoldable pub found_carrier : ℕ → ScanState → ScanState
found_carrier scan_mode s =
    if scan_mode == 0
    then record s { phase = wait_time; dwell_ticks = scan_lost_time_ticks }
    else if scan_mode == 2
    then record s { phase = stop; dwell_ticks = scan_find_time_ticks }
    else record s { phase = wait_lost; dwell_ticks = scan_lost_time_ticks }

-- The `match app.scan.phase` of `poll`, one clause for each arm.
unfoldable pub poll_at : ScanPhase → ℕ → Bool → ScanState → ScanState × Move
unfolding hopped found_carrier
poll_at scanning scan_mode squelch_open s =
    if ltb 0 s.dwell_ticks
    then (record s { dwell_ticks = s.dwell_ticks - 1 }, stay)
    else if squelch_open
    then (if ltb s.sq_debounce squelch_debounce_ticks
        then (record s { sq_debounce = s.sq_debounce + 1 }, stay)
        else (found_carrier scan_mode s, stay))
    else (hopped s, hop)
poll_at wait_time scan_mode squelch_open s =
    if ltb 0 s.dwell_ticks
    then (record s { dwell_ticks = s.dwell_ticks - 1 }, stay)
    else (hopped s, hop)
poll_at wait_lost scan_mode squelch_open s =
    if squelch_open
    then (record s { dwell_ticks = scan_lost_time_ticks }, stay)
    else if ltb 0 s.dwell_ticks
    then (
      record s {
        dwell_ticks = s.dwell_ticks - 1;
        phase = if s.dwell_ticks - 1 == 0 then wait_recall else wait_lost;
      },
      stay,
    )
    else (s, stay)
poll_at wait_recall scan_mode squelch_open s = (hopped s, hop)
poll_at stop scan_mode squelch_open s =
    if ltb 0 s.dwell_ticks then (record s { dwell_ticks = s.dwell_ticks - 1 }, stay) else (s, exit)

unfoldable pub poll : ℕ → Bool → ScanState → ScanState × Move
unfolding poll_at
poll scan_mode squelch_open s = poll_at s.phase scan_mode squelch_open s
