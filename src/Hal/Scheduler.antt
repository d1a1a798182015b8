-- ===== src/Hal/Scheduler.antt =====
-- src/hal/scheduler.rs: which periods have come to an end since the last round of the main loop.
-- `uptime::now()` is a 16-bit counter of the hardware: `now` is an argument.
pub mod Time
use bf_k61_firmware_aura.Prelude.{
  ℕ, zero, suc, ◌+◌, ◌-◌, ◌*◌, ◌/◌, ◌%◌, ◌^◌, ◌≤◌, ◌<◌, Bool, true, false, List, [], ◌∷◌, ltb, leb,
  if◌then◌else◌,
}

abbrev pub period_10ms : ℕ
period_10ms = 100

abbrev pub period_50ms : ℕ
period_50ms = 500

abbrev pub period_100ms : ℕ
period_100ms = 1000

abbrev pub period_500ms : ℕ
period_500ms = 5000

pub record Scheduler : Type 0 where
  pub last : ℕ
  pub acc_10 : ℕ
  pub acc_50 : ℕ
  pub acc_100 : ℕ
  pub acc_500 : ℕ

pub record Due : Type 0 where
  pub ticks_10ms : ℕ
  pub every_50ms : Bool
  pub every_100ms : Bool
  pub every_500ms : Bool

unfoldable pub new : ℕ → Scheduler
new now = record { last = now; acc_10 = 0; acc_50 = 0; acc_100 = 0; acc_500 = 0 }

-- `now.wrapping_sub(last)`
unfoldable pub since : ℕ → ℕ → ℕ
since last now = (now + 2 ^ 16 - last) % 2 ^ 16

-- One of the accumulators of `tick` that fire at most once a round: what is left, and if it fires.
unfoldable pub elapse : ℕ → ℕ → ℕ → ℕ × Bool
elapse period acc elapsed =
    let sum = (acc + elapsed) % 2 ^ 16 in
    if leb period sum then (sum - period, true) else (sum, false)

unfoldable pub tick : Scheduler → ℕ → Scheduler × Due
unfolding since elapse
tick s now =
    let elapsed = since s.last now in
    let sum = (s.acc_10 + elapsed) % 2 ^ 16 in
    let n10 = sum / period_10ms in
    let fifty = elapse period_50ms s.acc_50 elapsed in
    let hundred = elapse period_100ms s.acc_100 elapsed in
    let five_hundred = elapse period_500ms s.acc_500 elapsed in
    (
      record {
        last = now;
        acc_10 = sum - n10 * period_10ms;
        acc_50 = fifty.0;
        acc_100 = hundred.0;
        acc_500 = five_hundred.0;
      },
      record {
        ticks_10ms = n10;
        every_50ms = fifty.1;
        every_100ms = hundred.1;
        every_500ms = five_hundred.1;
      },
    )

-- How often each period has fired in a series of rounds.
pub record Fired : Type 0 where
  pub tens : ℕ
  pub fifties : ℕ
  pub hundreds : ℕ
  pub five_hundreds : ℕ

abbrev pub once : Bool → ℕ
once b = if b then 1 else 0

unfoldable pub rounds : Scheduler → List ℕ → Scheduler × Fired
unfolding tick
rounds s [] = (s, record { tens = 0; fifties = 0; hundreds = 0; five_hundreds = 0 })
rounds s (now ∷ nows) =
    let step = tick s now in
    let rest = rounds step.0 nows in
    (
      rest.0,
      record {
        tens = step.1.ticks_10ms + rest.1.tens;
        fifties = once step.1.every_50ms + rest.1.fifties;
        hundreds = once step.1.every_100ms + rest.1.hundreds;
        five_hundreds = once step.1.every_500ms + rest.1.five_hundreds;
      },
    )

-- The time that passes in a series of rounds.
unfoldable pub total : ℕ → List ℕ → ℕ
unfolding since
total last [] = 0
total last (now ∷ nows) = since last now + total now nows
