-- ===== src/App/Search.antt =====
-- src/app/search.rs: the search for the frequency and the tone of a near station, with the tone
-- matching of src/drivers/fd6818.rs. What the chip reports in a poll is an argument.
pub mod Candidate
pub mod Taken
use bf_k61_firmware_aura.Prelude.{
  ℕ, zero, suc, ◌+◌, ◌-◌, ◌*◌, ◌/◌, ◌%◌, ◌^◌, ◌<◌, ◌≤◌, ◌≡◌, refl, min, max, List, [], ◌∷◌, Bool,
  true, false, not, ◌&&◌, ◌||◌, Option, none, some, arith, ltb, leb, ◌==◌, if◌then◌else◌, if_holds,
  Bool-cases, inl, inr,
}
use bf_k61_firmware_aura.Drivers.Fd6818.{Fd6818, correct_measured_freq_word}
use bf_k61_firmware_aura.Drivers.Fd6818.Dcs.{find_standard_dcs}
use bf_k61_firmware_aura.App.Convert.{SubAudio, silent, ctcss, dcs}
use bf_k61_firmware_aura.App.Convert.Index.{ctcss_table}
use bf_k61_firmware_aura.App.Side.{vfo, Side, refresh_cfg_freqs}

abbrev pub tone_timeout_ticks : ℕ
tone_timeout_ticks = 50

abbrev pub sample_agreement_max : ℕ
sample_agreement_max = 25

pub data SearchBand : Type 0 where
  uhf vhf band200m band350m : SearchBand

pub data SearchPhase : Type 0 where
  setup hunt check tone_setup tone_wait found : SearchPhase

-- What the chip makes of the sub-audio: nothing, a CTCSS word or a DCS code word.
pub data RawTone : Type 0 where
  nothing : RawTone
  ctcss_word : ℕ → RawTone
  dcs_word : ℕ → RawTone

pub record SearchState : Type 0 where
  pub band : SearchBand
  pub phase : SearchPhase
  pub sample : Option ℕ
  pub found_freq_word : ℕ
  pub tone : Option SubAudio
  pub timeout_ticks : ℕ

abbrev pub new : SearchState
new = record {
  band = uhf;
  phase = setup;
  sample = none;
  found_freq_word = 0;
  tone = none;
  timeout_ticks = 0;
}

unfoldable pub next : SearchBand → SearchBand
next uhf = vhf
next vhf = band200m
next band200m = band350m
next band350m = uhf

-- The frequency in a band; a reading on a harmonic is divided.
unfoldable pub halved : ℕ → ℕ → ℕ → ℕ → Option ℕ
halved twice low high freq =
    if leb twice freq
    then (if ltb high (freq / 2) then none else some (freq / 2))
    else if ltb freq low
    then none
    else if ltb high freq
    then none
    else some freq

unfoldable pub correct_band_fold : SearchBand → ℕ → Option ℕ
unfolding halved
correct_band_fold uhf freq =
    let f = if ltb 52_000_000 freq then freq / 2 else freq in
    if ltb f 40_000_000 then none else some f
correct_band_fold vhf freq =
    if leb 36_000_000 freq
    then (if ltb 20_000_000 (freq / 3) then none else some (freq / 3))
    else if ltb 25_000_000 freq
    then (if ltb 20_000_000 (freq / 2) then none else some (freq / 2))
    else if ltb freq 10_000_000
    then none
    else if ltb 20_000_000 freq
    then none
    else some freq
correct_band_fold band200m freq = halved 40_000_000 20_000_000 30_000_000 freq
correct_band_fold band350m freq = halved 70_000_000 30_000_000 40_000_000 freq

abbrev pub clamp : ℕ → ℕ → ℕ → ℕ
clamp low high freq = max low (min freq high)

unfoldable pub clamp_band : SearchBand → ℕ → ℕ
clamp_band vhf freq = clamp 13_600_000 17_400_000 freq
clamp_band band200m freq = clamp 20_000_000 26_000_000 freq
clamp_band band350m freq =
    if ltb 39_000_000 freq then 39_000_000 else if ltb freq 30_000_000 then 35_000_000 else freq
clamp_band uhf freq = clamp 40_000_000 52_000_000 freq

abbrev pub abs_diff : ℕ → ℕ → ℕ
abs_diff a b = (a - b) + (b - a)

unfoldable pub ctcss_raw_to_tenths_hz : ℕ → ℕ
ctcss_raw_to_tenths_hz raw = raw * 100_000 / 206_489 % 2 ^ 16

unfoldable pub find_near : List ℕ → ℕ → Option ℕ
find_near [] tenths_hz = none
find_near (t ∷ table) tenths_hz =
    if ltb (abs_diff tenths_hz t) 10 then some t else find_near table tenths_hz

unfoldable pub find_standard_ctcss : ℕ → Option ℕ
unfolding find_near
find_standard_ctcss tenths_hz = find_near ctcss_table tenths_hz

unfoldable pub ctcss_found : Option ℕ → Option SubAudio
ctcss_found none = none
ctcss_found (some t) = some (ctcss t)

unfoldable pub dcs_found : Option ℕ → Option SubAudio
dcs_found none = none
dcs_found (some code) = some (dcs code false)

-- What a measured frequency leads to, after `correct_band_fold`.
unfoldable pub candidate : SearchState → Option ℕ → SearchState
candidate s none = record s { sample = none; phase = setup }
candidate s (some corrected) = record s {
  sample = none;
  found_freq_word = corrected;
  phase = check;
}

unfoldable pub take_sample : SearchState → Option ℕ → ℕ → SearchState
unfolding candidate correct_band_fold
take_sample s none raw = record s { sample = some raw }
take_sample s (some first) raw =
    if ltb (abs_diff first raw) sample_agreement_max
    then candidate s (correct_band_fold s.band ((first + raw) / 2))
    else record s { sample = none }

unfoldable pub hunt_poll : SearchState → Option ℕ → SearchState
unfolding take_sample
hunt_poll s none = s
hunt_poll s (some raw) = take_sample s s.sample raw

-- `(corrected + 13) / 25 * 25`
unfoldable pub rounded : ℕ → ℕ
rounded corrected = (corrected + 13) / 25 * 25

unfoldable pub check_poll : Fd6818 → SearchState → SearchState
unfolding rounded clamp_band correct_measured_freq_word
check_poll chip s = record s {
  found_freq_word = clamp_band s.band (rounded (correct_measured_freq_word chip s.found_freq_word));
  phase = tone_setup;
}

unfoldable pub tone_poll : SearchState → RawTone → SearchState
unfolding ctcss_found dcs_found find_standard_ctcss ctcss_raw_to_tenths_hz find_standard_dcs
tone_poll s nothing =
    if ltb 0 s.timeout_ticks
    then record s { timeout_ticks = s.timeout_ticks - 1 }
    else record s { phase = found }
tone_poll s (ctcss_word raw) = record s {
  tone = ctcss_found (find_standard_ctcss (ctcss_raw_to_tenths_hz raw));
  phase = found;
}
tone_poll s (dcs_word raw) = record s { tone = dcs_found (find_standard_dcs raw); phase = found }

unfoldable pub poll_at : SearchPhase → Fd6818 → Option ℕ → RawTone → SearchState → SearchState
unfolding hunt_poll check_poll tone_poll
poll_at setup chip measured heard s = record s { sample = none; phase = hunt }
poll_at hunt chip measured heard s = hunt_poll s measured
poll_at check chip measured heard s = check_poll chip s
poll_at tone_setup chip measured heard s = record s {
  timeout_ticks = tone_timeout_ticks;
  tone = none;
  phase = tone_wait;
}
poll_at tone_wait chip measured heard s = tone_poll s heard
poll_at found chip measured heard s = s

-- `measured` is what `check_freq_scan` gives, and `heard` what `detect_subaudio_raw` does.
unfoldable pub poll : Fd6818 → Option ℕ → RawTone → SearchState → SearchState
unfolding poll_at
poll chip measured heard s = poll_at s.phase chip measured heard s

unfoldable pub tone_or_silent : Option SubAudio → SubAudio
tone_or_silent none = silent
tone_or_silent (some t) = t

-- The side that `save` leaves.
unfoldable pub saved : SearchState → Side → Side
unfolding tone_or_silent refresh_cfg_freqs
saved st s = refresh_cfg_freqs (record s {
  vfo_chan = vfo;
  rx_freq_hz = st.found_freq_word * 10;
  cfg = record s.cfg { subaudio_rx = tone_or_silent st.tone; subaudio_tx = tone_or_silent st.tone };
})

-- `dispatch` of the keys that stay in the search: the next band, and another search.
unfoldable pub next_band : SearchState → SearchState
unfolding next
next_band s = record s { band = next s.band; phase = setup }

abbrev pub is_found : SearchPhase → Bool
is_found setup = false
is_found hunt = false
is_found check = false
is_found tone_setup = false
is_found tone_wait = false
is_found found = true

unfoldable pub resume : SearchState → SearchState
resume s = if is_found s.phase then record s { phase = setup } else s
