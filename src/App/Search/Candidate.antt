-- ===== src/App/Search/Candidate.antt =====
-- What the search finds, and when.
use bf_k61_firmware_aura.Prelude.{
  ℕ, subst, ◌+◌, ◌-◌, ◌≤◌, ◌≡◌, refl, ap, Bool, true, false, Option, none, some, arith, ltb,
  if◌then◌else◌, if_holds, ◌/◌,
}
use bf_k61_firmware_aura.Drivers.Fd6818.{Fd6818, correct_measured_freq_word}
use bf_k61_firmware_aura.App.Search.{
  SearchBand, uhf, vhf, band200m, band350m, SearchPhase, setup, hunt, check, tone_setup, tone_wait,
  found, RawTone, nothing, ctcss_word, dcs_word, SearchState, clamp_band, candidate, take_sample,
  hunt_poll, check_poll, tone_poll, poll_at, poll, tone_timeout_ticks, abs_diff,
  sample_agreement_max, correct_band_fold, rounded,
}

-- The ends of a band, in units of 10 Hz.
abbrev pub low_end : SearchBand → ℕ
low_end uhf = 40_000_000
low_end vhf = 13_600_000
low_end band200m = 20_000_000
low_end band350m = 30_000_000

abbrev pub high_end : SearchBand → ℕ
high_end uhf = 52_000_000
high_end vhf = 17_400_000
high_end band200m = 26_000_000
high_end band350m = 39_000_000

clamp_band-bounds :
    (band : SearchBand) (freq : ℕ)
    → (low_end band ≤ clamp_band band freq) × (clamp_band band freq ≤ high_end band)
unfolding clamp_band
clamp_band-bounds uhf freq = (ground arith, ground arith)
clamp_band-bounds vhf freq = (ground arith, ground arith)
clamp_band-bounds band200m freq = (ground arith, ground arith)
clamp_band-bounds band350m freq = (ground arith, ground arith)

-- The phases in which a candidate is tuned.
abbrev pub is_tuned : SearchPhase → Bool
is_tuned setup = false
is_tuned hunt = false
is_tuned check = false
is_tuned tone_setup = true
is_tuned tone_wait = true
is_tuned found = true

-- A tuned candidate lies in its band, and the wait for a tone is bounded.
pub record IsValid (s : SearchState) : Type 0 where
  pub low : (if is_tuned s.phase then low_end s.band else 0) ≤ s.found_freq_word
  pub high : (if is_tuned s.phase then s.found_freq_word else 0) ≤ high_end s.band
  pub wait : s.timeout_ticks ≤ tone_timeout_ticks

candidate-IsValid : (s : SearchState) (o : Option ℕ) → IsValid s → IsValid (candidate s o)
unfolding candidate
candidate-IsValid s none v = record { low = omega arith; high = omega arith; wait = v.wait }
candidate-IsValid s (some f) v = record { low = omega arith; high = omega arith; wait = v.wait }

take_sample-IsValid :
    (s : SearchState) (o : Option ℕ) (raw : ℕ) → IsValid s → IsValid (take_sample s o raw)
unfolding take_sample
take_sample-IsValid s none raw v = record { low = v.low; high = v.high; wait = v.wait }
take_sample-IsValid s (some first) raw v =
    if_holds IsValid (ltb (abs_diff first raw) sample_agreement_max)
      (candidate s (correct_band_fold s.band ((first + raw) / 2))) (record s { sample = none })
      (λ _. candidate-IsValid s (correct_band_fold s.band ((first + raw) / 2)) v)
      (λ _. record { low = v.low; high = v.high; wait = v.wait })

hunt_poll-IsValid : (s : SearchState) (o : Option ℕ) → IsValid s → IsValid (hunt_poll s o)
unfolding hunt_poll
hunt_poll-IsValid s none v = v
hunt_poll-IsValid s (some raw) v = take_sample-IsValid s s.sample raw v

check_poll-IsValid : (chip : Fd6818) (s : SearchState) → IsValid s → IsValid (check_poll chip s)
unfolding check_poll
check_poll-IsValid chip s v =
    let tuned =
      clamp_band-bounds s.band (rounded (correct_measured_freq_word chip s.found_freq_word)) in
    record { low = tuned.0; high = tuned.1; wait = v.wait }

-- A state whose candidate is in its band stays valid in whatever phase follows.
in_band :
    (s : SearchState)
    → low_end s.band ≤ s.found_freq_word
    → s.found_freq_word ≤ high_end s.band
    → s.timeout_ticks ≤ tone_timeout_ticks
    → (is_tuned s.phase ≡ true)
    → IsValid s
in_band s low high wait tuned = record { low = ground arith; high = ground arith; wait = wait }

tone_poll-IsValid :
    (s : SearchState) (heard : RawTone)
    → low_end s.band ≤ s.found_freq_word
    → s.found_freq_word ≤ high_end s.band
    → s.phase ≡ tone_wait
    → s.timeout_ticks ≤ tone_timeout_ticks
    → IsValid (tone_poll s heard)
unfolding tone_poll
tone_poll-IsValid s nothing low high waits wait =
    if_holds IsValid (ltb 0 s.timeout_ticks) (record s { timeout_ticks = s.timeout_ticks - 1 })
      (record s { phase = found })
      (λ _.
        in_band (record s { timeout_ticks = s.timeout_ticks - 1 }) low high (omega arith)
          (ap is_tuned waits))
      (λ _. record { low = low; high = high; wait = wait })
tone_poll-IsValid s (ctcss_word raw) low high waits wait = record {
  low = low;
  high = high;
  wait = wait;
}
tone_poll-IsValid s (dcs_word raw) low high waits wait = record {
  low = low;
  high = high;
  wait = wait;
}

pub at_phase :
    (p : SearchPhase) (s : SearchState)
    → s.phase ≡ p
    → IsValid s
    → ((if is_tuned p then low_end s.band else 0) ≤ s.found_freq_word)
      × ((if is_tuned p then s.found_freq_word else 0) ≤ high_end s.band)
at_phase p s e v = (
  subst (λ p. (if is_tuned p then low_end s.band else 0) ≤ s.found_freq_word) e v.low,
  subst (λ p. (if is_tuned p then s.found_freq_word else 0) ≤ high_end s.band) e v.high,
)

poll_at-IsValid :
    (p : SearchPhase) (chip : Fd6818) (measured : Option ℕ) (heard : RawTone) (s : SearchState)
    → s.phase ≡ p
    → IsValid s
    → IsValid (poll_at p chip measured heard s)
unfolding poll_at
poll_at-IsValid setup chip measured heard s e v = record {
  low = omega arith;
  high = omega arith;
  wait = v.wait;
}
poll_at-IsValid hunt chip measured heard s e v = hunt_poll-IsValid s measured v
poll_at-IsValid check chip measured heard s e v = check_poll-IsValid chip s v
poll_at-IsValid tone_setup chip measured heard s e v =
    let (low, high) = at_phase tone_setup s e v in
    record { low = low; high = high; wait = omega arith }
poll_at-IsValid tone_wait chip measured heard s e v =
    let (low, high) = at_phase tone_wait s e v in tone_poll-IsValid s heard low high e v.wait
poll_at-IsValid found chip measured heard s e v = v

-- Whatever comes in, a poll keeps the state valid.
pub poll-IsValid :
    (chip : Fd6818) (measured : Option ℕ) (heard : RawTone) (s : SearchState)
    → IsValid s
    → IsValid (poll chip measured heard s)
unfolding poll
poll-IsValid chip measured heard s v = poll_at-IsValid s.phase chip measured heard s refl v
