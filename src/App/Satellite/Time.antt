-- ===== src/App/Satellite/Time.antt =====
-- src/app/satellite/time.rs: the clock of the radio, and when a pass begins and ends.
use bf_k61_firmware_aura.Prelude.{
  ℕ, ◌+◌, ◌-◌, ◌*◌, ◌/◌, ◌%◌, ◌^◌, ◌<◌, ◌≤◌, ◌≡◌, ◌∙◌, zero, suc, ◌&&◌, arith, ltb, leb,
  if◌then◌else◌,
}

abbrev pub secs_per_day : ℕ
secs_per_day = 86400

unfoldable pub wall_secs_from_hms : ℕ → ℕ → ℕ → ℕ
wall_secs_from_hms h m s = h * 3600 + m * 60 + s

unfoldable pub hms_from_wall_secs : ℕ → ℕ × ℕ × ℕ
hms_from_wall_secs secs = (secs / 3600 % 256, secs / 60 % 60, secs % 60)

unfoldable pub wall_clock_tick : ℕ → ℕ
wall_clock_tick wall_secs = if leb secs_per_day (wall_secs + 1) then 0 else wall_secs + 1

unfoldable pub wall_clock_ticks : ℕ → ℕ → ℕ
wall_clock_ticks zero wall_secs = wall_secs
wall_clock_ticks (suc n) wall_secs = wall_clock_ticks n (wall_clock_tick wall_secs)

unfoldable pub los_of : ℕ → ℕ → ℕ
los_of current_wall los_wall =
    if leb current_wall los_wall then los_wall else los_wall + secs_per_day

-- The subtraction of a day wraps, as `u32` does.
unfoldable pub aos_of : ℕ → ℕ → ℕ → ℕ
aos_of los_abs aos_wall los_wall =
    let los_day = los_abs / secs_per_day * secs_per_day in
    if ltb aos_wall los_wall
    then los_day + aos_wall
    else (los_day + 2 ^ 32 - secs_per_day + aos_wall) % 2 ^ 32

unfoldable pub resolve_pass_time : ℕ → ℕ → ℕ → ℕ × ℕ
unfolding los_of aos_of
resolve_pass_time current_wall aos_wall los_wall =
    let los_abs = los_of current_wall los_wall in (aos_of los_abs aos_wall los_wall, los_abs)

wall_clock_tick-lt : (secs : ℕ) → secs < secs_per_day → wall_clock_tick secs < secs_per_day
unfolding wall_clock_tick
wall_clock_tick-lt secs h = ground arith

wall_clock_tick-mod :
    (n secs : ℕ)
    → secs < secs_per_day
    → (wall_clock_tick secs + n) % secs_per_day ≡ (secs + suc n) % secs_per_day
unfolding wall_clock_tick
wall_clock_tick-mod n secs h = ground arith

wall_clock_ticks-mod :
    (n secs : ℕ) → secs < secs_per_day → wall_clock_ticks n secs ≡ (secs + n) % secs_per_day
unfolding wall_clock_ticks
wall_clock_ticks-mod zero secs h = omega arith
wall_clock_ticks-mod (suc n) secs h =
    wall_clock_ticks-mod n (wall_clock_tick secs) (wall_clock_tick-lt secs h)
    ∙ wall_clock_tick-mod n secs h

-- A time of day that is shown as hours, minutes and seconds is the same time, and the clock goes
-- through the times of the day and starts again at midnight.
pub clock_lem :
    (n secs : ℕ)
    → secs < secs_per_day
    → (wall_secs_from_hms
          (hms_from_wall_secs secs).0
          (hms_from_wall_secs secs).1
          (hms_from_wall_secs secs).2
        ≡ secs)
      × (wall_clock_ticks n secs ≡ (secs + n) % secs_per_day)
unfolding wall_secs_from_hms hms_from_wall_secs
clock_lem n secs h = (omega arith, wall_clock_ticks-mod n secs h)

-- The end of a pass is the next time that its clock time comes. Its begin is the last time before
-- the end that its clock time came, at most a day before; but if the end is still today and the
-- begin was yesterday, the begin comes out after the end.
pub resolve_pass_time_lem :
    (current_wall aos_wall los_wall : ℕ)
    → current_wall < secs_per_day
    → aos_wall < secs_per_day
    → los_wall < secs_per_day
    → ((resolve_pass_time current_wall aos_wall los_wall).1 % secs_per_day ≡ los_wall)
      × (current_wall ≤ (resolve_pass_time current_wall aos_wall los_wall).1)
      × ((resolve_pass_time current_wall aos_wall los_wall).1 < current_wall + secs_per_day)
      × ((if leb current_wall los_wall && leb los_wall aos_wall
            then 2 ^ 32 - secs_per_day + aos_wall
            else (resolve_pass_time current_wall aos_wall los_wall).1
              - ((los_wall + secs_per_day - 1 - aos_wall) % secs_per_day + 1))
          ≡ (resolve_pass_time current_wall aos_wall los_wall).0)
unfolding resolve_pass_time
resolve_pass_time_lem current_wall aos_wall los_wall c a l =
    (ground arith, ground arith, ground arith, ground arith)
