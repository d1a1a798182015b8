-- ===== src/Tests/Session.antt =====
-- Programming sessions, on a chip of erased bytes and a program memory of zeros.
use bf_k61_firmware_aura.Prelude.{
  ℕ, ◌+◌, ◌≡◌, refl, sym, ap, subst, min, List, [], ◌∷◌, ◌++◌, Bool, true, false, arith, All,
  replicate, All-replicate, get_or, ltb, inl, drop, if◌then◌else◌,
}
use bf_k61_firmware_aura.Crc.{IsByte, crc16_xmodem}
use bf_k61_firmware_aura.Cps.Frame
use bf_k61_firmware_aura.Cps.Frame.RoundTrip.{Message, Item, noise, message, stream}
use bf_k61_firmware_aura.Cps.Handshake.{handshake, polls, find, concat, polls-find}
use bf_k61_firmware_aura.Cps.Session.{
  cmd_read, boot_text_addr, boot_tune_addr, battery_cal_addr, settings_or_default, with_boot_text,
  with_boot_tune, with_battery_cal, unwrap_or,
}
use bf_k61_firmware_aura.Cps.Session.Dispatch.{running, reset, dispatch, rounds}
use bf_k61_firmware_aura.Cps.Session.Outcome.{Outcome, dispatch-Outcome}
use bf_k61_firmware_aura.Cps.Session.Loop.{quiet, wraps, seen, heard, bytes_heard, rounds-quiet}
use bf_k61_firmware_aura.Cps.Session.Stream.{serve, rounds-serve}
use bf_k61_firmware_aura.Cps.Session.ReadBack.{
  current, vfo_region-IsRegion, Reads, read_region-write_region,
}
use bf_k61_firmware_aura.Device.Storage.{
  Storage, vfo_info_addr, vfo_region, settings_region, load_settings,
}
use bf_k61_firmware_aura.Device.Storage.Records.{settings_region-IsRegion}
use bf_k61_firmware_aura.Drivers.NorFlash.{read_bytes}
use bf_k61_firmware_aura.Drivers.NorFlash.Ideal.{ideal_chip, blank}
use bf_k61_firmware_aura.FlashMap.Settings
use bf_k61_firmware_aura.FlashMap.Settings.{u8_as_bool, bool_as_u8}
use bf_k61_firmware_aura.FlashMap.Settings.Default.{default_settings}
use bf_k61_firmware_aura.FlashMap.Settings.Sanitised
use bf_k61_firmware_aura.Hal.WearLeveled.{load, find_free_slot, read_slot}
use bf_k61_firmware_aura.Hal.WearLeveled.Layout.{marks_first}
use bf_k61_firmware_aura.Hal.WearLeveled.Save.{IsReady}

-- The handshake over three polls, with a byte before it and one after.
abbrev chunks : List (List ℕ)
chunks = (1 ∷ b'P' ∷ b'R' ∷ []) ∷ (b'O' ∷ b'G' ∷ []) ∷ (drop 4 handshake ++ 9 ∷ []) ∷ []

polls_example : polls 0 chunks ≡ find (concat chunks)
polls_example = polls-find chunks

abbrev zeros : ℕ → ℕ
zeros a = 0

abbrev store : Storage ideal_chip
store = record { flash = blank; channel_erased_mask = 0; sat_erased = false }

-- A request that reads past the channels.
dispatch_example :
    Outcome ideal_chip zeros store 0x9999 [] cmd_read
      (dispatch ideal_chip zeros store cmd_read 0x9999 [])
dispatch_example = dispatch-Outcome ideal_chip zeros store 0x9999 [] cmd_read

rounds-quiet_example :
    rounds ideal_chip zeros (running store Frame.new 1998) (quiet (true ∷ false ∷ true ∷ [])) ≡ (
      if ltb (1998 + wraps (true ∷ false ∷ true ∷ [])) 2000
          then running store Frame.new (1998 + wraps (true ∷ false ∷ true ∷ []))
          else reset store,
      [],
    )
rounds-quiet_example =
    rounds-quiet ideal_chip zeros store Frame.new 1998 (true ∷ false ∷ true ∷ []) (omega arith)

abbrev request : Message
request = record { command = cmd_read; address = battery_cal_addr; bytes = [] }

abbrev items : List Item
items = noise 0 ∷ message request ∷ []

-- Bytes that come between two wraps of the timer.
abbrev timed : List ℕ → List (Bool × ℕ)
timed [] = []
timed (b ∷ bytes) = (false, b) ∷ timed bytes

bytes_heard-timed : (bytes : List ℕ) → bytes_heard (timed bytes) ≡ bytes
bytes_heard-timed [] = refl
bytes_heard-timed (b ∷ bytes) = ap (λ l. b ∷ l) (bytes_heard-timed bytes)

rounds-serve_example :
    seen ideal_chip zeros
      (rounds ideal_chip zeros (running store Frame.new 0) (heard (timed (stream items))))
    ≡ serve ideal_chip zeros store (request ∷ [])
rounds-serve_example =
    rounds-serve ideal_chip zeros store Frame.new 0 (timed (stream items)) items (omega arith) refl
      refl (λ e. omega arith, (omega arith, tt)) (bytes_heard-timed (stream items))

settings-IsReady : IsReady ideal_chip settings_region settings_region-IsRegion blank
unfolding IsReady
settings-IsReady = inl (
  0,
  record {
    current = omega arith;
    marked = λ j lt. omega (arith, marks_first j);
    free = λ a low high. refl;
  },
)

vfo-IsReady : IsReady ideal_chip vfo_region vfo_region-IsRegion blank
unfolding IsReady
vfo-IsReady = inl (
  0,
  record {
    current = omega arith;
    marked = λ j lt. omega (arith, marks_first j);
    free = λ a low high. refl;
  },
)

blank_settings : settings_or_default ideal_chip blank ≡ default_settings
unfolding unwrap_or load_settings load find_free_slot read_slot read_bytes crc16_xmodem
blank_settings = refl

abbrev new_tune : List ℕ
new_tune = replicate 96 12

abbrev new_battery : List ℕ
new_battery = 0xE8 ∷ 0x03 ∷ []

abbrev new_text : List ℕ
new_text = 7 ∷ 1 ∷ replicate 32 b'A'

default-IsValid : Sanitised.IsValid default_settings
unfolding Settings.from_bytes Settings.to_bytes
default-IsValid =
    Sanitised.settings_from_bytes-IsValid (Settings.to_bytes default_settings) (omega arith)

current-IsValid : Sanitised.IsValid (current ideal_chip store)
current-IsValid = subst Sanitised.IsValid (sym blank_settings) default-IsValid

tune_fits : All IsByte (Settings.to_bytes (with_boot_tune default_settings new_tune))
unfolding with_boot_tune Settings.to_bytes
tune_fits = omega arith

battery_fits : All IsByte (Settings.to_bytes (with_battery_cal default_settings new_battery))
unfolding with_battery_cal Settings.to_bytes
battery_fits = omega arith

text_fits : All IsByte (Settings.to_bytes (with_boot_text default_settings new_text))
unfolding with_boot_text Settings.to_bytes
text_fits = omega arith

-- A fact about the default settings is one about the settings in use.
in_use : (P : Settings.Settings → Type 0) → P default_settings → P (current ideal_chip store)
in_use P p = subst P (sym blank_settings) p

read_region_example :
    Reads ideal_chip store vfo_info_addr (replicate 64 1) (replicate 64 1)
    × Reads ideal_chip store boot_tune_addr new_tune new_tune
    × Reads ideal_chip store battery_cal_addr new_battery new_battery
    × Reads ideal_chip store boot_text_addr new_text (
        min (get_or new_text 0 0) 3
        ∷ bool_as_u8 (u8_as_bool (get_or new_text 1 0))
        ∷ drop 2 new_text)
read_region_example =
    read_region-write_region ideal_chip store (replicate 64 1) new_tune new_battery new_text
      vfo-IsReady settings-IsReady current-IsValid (All-replicate IsByte 64 1 (omega arith), refl)
      (in_use (λ s. All IsByte (Settings.to_bytes (with_boot_tune s new_tune))) tune_fits, refl)
      (
        in_use (λ s. All IsByte (Settings.to_bytes (with_battery_cal s new_battery))) battery_fits,
        refl,
        omega arith,
      )
      (in_use (λ s. All IsByte (Settings.to_bytes (with_boot_text s new_text))) text_fits, refl)
