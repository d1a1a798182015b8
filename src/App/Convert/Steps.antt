-- ===== src/App/Convert/Steps.antt =====
-- src/app/convert.rs: the steps of a value in a menu.
use bf_k61_firmware_aura.Prelude.{◌≡◌, Bool, true, false, arith, if◌then◌else◌}
use bf_k61_firmware_aura.Prelude.Int.{ℤ, pos, ◌+ℤ◌, ◌-ℤ◌, ◌≤ℤ◌, ltb_ℤ, leb_ℤ}

unfoldable pub clamp_step : ℤ → Bool → ℤ → ℤ → ℤ
unfolding ◌+ℤ◌ ◌-ℤ◌
clamp_step cur up lo hi =
    if up
    then (if ltb_ℤ (cur +ℤ pos 1) hi then cur +ℤ pos 1 else hi)
    else (if ltb_ℤ lo (cur -ℤ pos 1) then cur -ℤ pos 1 else lo)

unfoldable pub wrap_step : ℤ → Bool → ℤ → ℤ → ℤ
unfolding ◌+ℤ◌ ◌-ℤ◌
wrap_step cur up lo hi =
    if up
    then (if leb_ℤ hi cur then lo else cur +ℤ pos 1)
    else if leb_ℤ cur lo
    then hi
    else cur -ℤ pos 1

-- A step never leaves the range: the clamped one stays at its ends, the wrapped one goes to the
-- other end; and a wrapped step back undoes a wrapped step from within the range.
pub wrap_step_lem :
    (cur lo hi : ℤ) (up : Bool)
    → lo ≤ℤ cur
    → cur ≤ℤ hi
    → (lo ≤ℤ wrap_step cur up lo hi)
      × (wrap_step cur up lo hi ≤ℤ hi)
      × (lo ≤ℤ clamp_step cur up lo hi)
      × (clamp_step cur up lo hi ≤ℤ hi)
      × (wrap_step (wrap_step cur true lo hi) false lo hi ≡ cur)
unfolding wrap_step clamp_step
wrap_step_lem cur lo hi up above below =
    (ground arith, ground arith, ground arith, ground arith, ground arith)
