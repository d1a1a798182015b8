-- ===== src/Tests/Radio.antt =====
-- The radio, its transceiver and the search.
use bf_k61_firmware_aura.Prelude.{
  ◌/◌, ◌+◌, ◌≤◌, ◌≡◌, refl, true, false, ◌&&◌, none, some, arith, get_or, List, ℕ, ◌++◌, ◌∷◌, [],
  replicate,
}
use bf_k61_firmware_aura.Drivers.Fd6818.{set_frequency_hz, correct_measured_freq_word}
use bf_k61_firmware_aura.Drivers.Fd6818.Xtal.{correct_measured_freq_word-set_frequency_hz}
use bf_k61_firmware_aura.Drivers.Fd6818.Dcs.{
  dcs_encode, find_standard_dcs, taken_for, find_standard_dcs-dcs_encode,
}
use bf_k61_firmware_aura.App.Convert.{dcs_table}
use bf_k61_firmware_aura.Device.BandLock.{allows}
use bf_k61_firmware_aura.Device.Radio.{Radio, AniConfig, enter_rx, is_fm, is_keyed}
use bf_k61_firmware_aura.Device.Radio.Receive.{Signal, polls, poll_squelch, is_wanted, polls_lem}
use bf_k61_firmware_aura.Device.Radio.Ani.{ani_digits, dtmf_rx_timeout_ticks}
use bf_k61_firmware_aura.Device.Radio.Ani.Heard.{callers, heard, idle_poll}
use bf_k61_firmware_aura.Device.Radio.Ani.Arrival.{
  closed_poll, caller_if, reaches, callers-ani_digits,
}
use bf_k61_firmware_aura.Device.Radio.Transmit.{enter_tx, enter_tx_keyed, end_tx}
use bf_k61_firmware_aura.Device.Radio.Transmit.OnAir.{Keys, Receives, enter_tx_lem, end_tx_lem}
use bf_k61_firmware_aura.App.Search.{SearchState, vhf, tone_wait, found, nothing}
use bf_k61_firmware_aura.App.Search.Candidate.{IsValid}
use bf_k61_firmware_aura.App.Search.Taken
use bf_k61_firmware_aura.App.Search.Taken.{polls-found}
use bf_k61_firmware_aura.Tests.Fixtures.{receiving, handheld}

correct_measured_freq_word_example :
    (correct_measured_freq_word receiving (set_frequency_hz receiving 145_500_000).freq_reg
      ≤ 145_500_000 / 10 + 1)
    × (145_500_000 / 10
        ≤ correct_measured_freq_word receiving (set_frequency_hz receiving 145_500_000).freq_reg
          + 1)
correct_measured_freq_word_example =
    correct_measured_freq_word-set_frequency_hz receiving 145_500_000 (omega arith)

find_standard_dcs_example :
    find_standard_dcs (dcs_encode (get_or dcs_table 3 0)) ≡ some (taken_for (get_or dcs_table 3 0))
find_standard_dcs_example = find_standard_dcs-dcs_encode 3 (omega arith)

-- A carrier, and the tail tone of one while the audio is open.
abbrev carrier : Signal
carrier = record { tail_detected = false; squelch_open = true; subaudio_matched = false }

abbrev tail_tone : Signal
tail_tone = record { tail_detected = true; squelch_open = true; subaudio_matched = true }

abbrev listening : Radio
listening = record handheld { audio_open = true }

squelch_example :
    ((polls 3 handheld carrier 3).audio_open ≡ is_wanted handheld carrier)
    × ((polls 2 handheld carrier 3).audio_open ≡ false)
    × ((poll_squelch listening tail_tone 3).audio_open ≡ false)
    × ((poll_squelch listening tail_tone 3).speaker ≡ false)
squelch_example = polls_lem handheld listening carrier tail_tone 3 (omega arith) refl refl

abbrev caller : AniConfig
caller = record { machine_id = (4, 5, 6); separator = 0x0A; group_code = none }

-- Digits of 160 ms, with polls every 10 ms.
abbrev gaps : List ℕ
gaps = replicate 7 15

callers_example :
    (callers handheld (heard (ani_digits caller (1, 2, 3)) gaps ++ closed_poll ∷ [])
      ≡ caller_if (reaches caller (1, 2, 3) handheld.ani) (4, 5, 6))
    × (callers handheld
          (heard (ani_digits caller (1, 2, 3)) gaps ++ replicate dtmf_rx_timeout_ticks idle_poll)
        ≡ caller_if (reaches caller (1, 2, 3) handheld.ani) (4, 5, 6))
callers_example =
    callers-ani_digits handheld caller (1, 2, 3) gaps refl (omega arith) refl (omega arith)

enter_tx_example :
    Keys
      (allows handheld.tx_allowed 145_500_000 && is_fm handheld.cfg.modulation)
      handheld
      (enter_tx handheld)
    × Keys
        (allows handheld.tx_allowed 145_500_000 && is_keyed handheld.cfg.modulation)
        handheld
        (enter_tx_keyed handheld)
enter_tx_example = enter_tx_lem handheld

end_tx_example : Receives handheld (end_tx handheld) × Receives handheld (enter_rx handheld)
end_tx_example = end_tx_lem handheld

-- A candidate in the VHF band whose tone is awaited.
abbrev waiting : SearchState
waiting = record {
  band = vhf;
  phase = tone_wait;
  sample = none;
  found_freq_word = 14_550_000;
  tone = none;
  timeout_ticks = 50;
}

waiting-IsValid : IsValid waiting
waiting-IsValid = record { low = omega arith; high = omega arith; wait = omega arith }

-- The tone detector hears nothing.
abbrev unheard : List Taken.Input
unheard = replicate 53 (receiving, none, nothing)

polls-found_example :
    ((Taken.polls unheard waiting).phase ≡ found)
    × (13_600_000 ≤ (Taken.polls unheard waiting).found_freq_word)
    × ((Taken.polls unheard waiting).found_freq_word ≤ 17_400_000)
polls-found_example = polls-found unheard waiting waiting-IsValid refl (omega arith)
