-- ===== src/Tests/Keys.antt =====
-- Received bytes, sampled levels, time, keys and what is typed on them.
use bf_k61_firmware_aura.Prelude.{
  ℕ, ◌+◌, ◌≡◌, refl, List, [], ◌∷◌, true, false, none, some, arith, replicate,
}
use bf_k61_firmware_aura.Hal.Uart
use bf_k61_firmware_aura.Hal.Uart.{Status}
use bf_k61_firmware_aura.Hal.Uart.Queue.{
  Event, interrupt, taken, view, new-IsValid, run, run_queue, run-run_queue,
}
use bf_k61_firmware_aura.Hal.Debounce
use bf_k61_firmware_aura.Hal.Debounce.Steady.{noise, levels_once}
use bf_k61_firmware_aura.Hal.Scheduler
use bf_k61_firmware_aura.Device.Keypad
use bf_k61_firmware_aura.Device.Keypad.{KeyId, up, menu}
use bf_k61_firmware_aura.Device.Keypad.Protocol.{
  idle, accepts, phase_of, Reading, polls, polls_protocol,
}
use bf_k61_firmware_aura.App.NameEdit
use bf_k61_firmware_aura.App.NameEdit.Valid
use bf_k61_firmware_aura.App.NameEdit.Valid.{
  Action, typed, moved, erased, waited, act_all, act_all-IsValid,
}

abbrev received : Status
received = record { ore = false; rxne = true }

abbrev serial : List Event
serial = taken ∷ interrupt received 0xA6 ∷ interrupt received 0x52 ∷ taken ∷ taken ∷ taken ∷ []

run-run_queue_example : run Uart.new serial ≡ run_queue (view Uart.new) serial
run-run_queue_example = run-run_queue Uart.new serial new-IsValid

serial-run : run Uart.new serial ≡ none ∷ some 0xA6 ∷ some 0x52 ∷ none ∷ []
unfolding run Uart.new
serial-run = refl

levels_once_example :
    Debounce.levels (Debounce.new false) (noise false (1 ∷ 4 ∷ []) (replicate (5 + 3) true))
    ≡ true ∷ []
levels_once_example = levels_once false (1 ∷ 4 ∷ []) 3 (omega arith, (omega arith, tt))

abbrev times : List ℕ
times = 65535 ∷ 250 ∷ 700 ∷ []

abbrev clock : Scheduler.Scheduler
clock = record { last = 65100; acc_10 = 0; acc_50 = 100; acc_100 = 900; acc_500 = 4999 }

abbrev readings : List Reading
readings =
    (some up, 100)
    ∷ (some up, 200)
    ∷ (some up, 11000)
    ∷ (some up, 16000)
    ∷ (none, 16100)
    ∷ (none, 16200)
    ∷ (some menu, 16300)
    ∷ (some menu, 16400)
    ∷ []

polls_protocol_example :
    accepts idle (polls (Keypad.new 0) readings).1
    ≡ some (phase_of (polls (Keypad.new 0) readings).0)
polls_protocol_example = polls_protocol 0 readings

abbrev actions : List Action
actions = typed 2 ∷ typed 2 ∷ typed 3 ∷ waited ∷ moved true ∷ erased ∷ []

act_all-IsValid_example : Valid.IsValid 3 (act_all 3 (NameEdit.blank 3) actions)
unfolding NameEdit.blank Valid.IsKey Valid.IsPending
act_all-IsValid_example =
    act_all-IsValid 3 (NameEdit.blank 3) actions
      (omega arith, (omega arith, (omega arith, (tt, (tt, (tt, tt))))))
      (record { sized = refl; cursor_in = omega arith; tap_in = tt })
