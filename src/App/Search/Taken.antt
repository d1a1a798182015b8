-- ===== src/App/Search/Taken.antt =====
-- How long the search takes from the check of a candidate to its end.
use bf_k61_firmware_aura.Prelude.{
  ℕ, subst, sym, ◌∙◌, Bool-cases, inl, inr, List, [], ◌∷◌, length, ◌+◌, ◌-◌, ◌≤◌, ◌≡◌, refl, ap,
  Bool, true, false, Option, arith, ltb,
}
use bf_k61_firmware_aura.Drivers.Fd6818.{Fd6818}
use bf_k61_firmware_aura.App.Search.{
  SearchPhase, setup, hunt, check, tone_setup, tone_wait, found, RawTone, nothing, ctcss_word,
  dcs_word, SearchState, check_poll, tone_poll, poll_at, poll, tone_timeout_ticks,
}
use bf_k61_firmware_aura.App.Search.Candidate.{low_end, high_end, IsValid, at_phase, poll-IsValid}

-- What a poll is given: the chip, what its meter measures and what its tone detector hears.
abbrev pub Input : Type 0
Input = Fd6818 × Option ℕ × RawTone

unfoldable pub polls : List Input → SearchState → SearchState
unfolding poll
polls [] s = s
polls ((chip, measured, heard) ∷ inputs) s = polls inputs (poll chip measured heard s)

-- The phases from the check of a candidate on.
abbrev pub has_candidate : SearchPhase → Bool
has_candidate setup = false
has_candidate hunt = false
has_candidate check = true
has_candidate tone_setup = true
has_candidate tone_wait = true
has_candidate found = true

-- How many polls a candidate still needs at most.
abbrev needs : SearchPhase → ℕ → ℕ
needs setup ticks = 0
needs hunt ticks = 0
needs check ticks = 53
needs tone_setup ticks = 52
needs tone_wait ticks = ticks + 1
needs found ticks = 0

abbrev polls_left : SearchState → ℕ
polls_left s = needs s.phase s.timeout_ticks

few_left : (p : SearchPhase) (ticks : ℕ) → ticks ≤ tone_timeout_ticks → needs p ticks ≤ 53
few_left setup ticks few = omega arith
few_left hunt ticks few = omega arith
few_left check ticks few = omega arith
few_left tone_setup ticks few = omega arith
few_left tone_wait ticks few = omega arith
few_left found ticks few = omega arith

tone_poll-goes :
    (s : SearchState) (heard : RawTone)
    → s.phase ≡ tone_wait
    → (has_candidate (tone_poll s heard).phase ≡ true)
      × (polls_left (tone_poll s heard) ≤ s.timeout_ticks)
      × ((tone_poll s heard).band ≡ s.band)
unfolding tone_poll
tone_poll-goes s nothing waits = elim (Bool-cases (ltb 0 s.timeout_ticks)) [
  | inl more ↦ rw more (
    ap has_candidate waits,
    subst (λ p. needs p (s.timeout_ticks - 1) ≤ s.timeout_ticks) (sym waits) (ground (arith, more)),
    refl,
  )
  | inr over ↦ rw over (refl, omega arith, refl)
]
tone_poll-goes s (ctcss_word raw) waits = (refl, omega arith, refl)
tone_poll-goes s (dcs_word raw) waits = (refl, omega arith, refl)

-- A poll brings a candidate nearer to its end, and keeps the band.
poll_at-goes :
    (p : SearchPhase) (chip : Fd6818) (measured : Option ℕ) (heard : RawTone) (s : SearchState)
    → s.phase ≡ p
    → has_candidate p ≡ true
    → (has_candidate (poll_at p chip measured heard s).phase ≡ true)
      × (polls_left (poll_at p chip measured heard s) ≤ needs p s.timeout_ticks - 1)
      × ((poll_at p chip measured heard s).band ≡ s.band)
unfolding poll_at check_poll
poll_at-goes setup chip measured heard s e h = cc
poll_at-goes hunt chip measured heard s e h = cc
poll_at-goes check chip measured heard s e h = (refl, omega arith, refl)
poll_at-goes tone_setup chip measured heard s e h = (refl, omega arith, refl)
poll_at-goes tone_wait chip measured heard s e h =
    let (still, fewer, same) = tone_poll-goes s heard e in (still, omega (arith, fewer), same)
poll_at-goes found chip measured heard s e h =
    (ap has_candidate e, subst (λ p. needs p s.timeout_ticks ≤ 0) (sym e) (omega arith), refl)

poll-goes :
    (chip : Fd6818) (measured : Option ℕ) (heard : RawTone) (s : SearchState)
    → has_candidate s.phase ≡ true
    → (has_candidate (poll chip measured heard s).phase ≡ true)
      × (polls_left (poll chip measured heard s) ≤ polls_left s - 1)
      × ((poll chip measured heard s).band ≡ s.band)
unfolding poll
poll-goes chip measured heard s h = poll_at-goes s.phase chip measured heard s refl h

at_end : (p : SearchPhase) (ticks : ℕ) → has_candidate p ≡ true → needs p ticks ≤ 0 → p ≡ found
at_end setup ticks h none_left = cc
at_end hunt ticks h none_left = cc
at_end check ticks h none_left = absurd (omega (arith, none_left))
at_end tone_setup ticks h none_left = absurd (omega (arith, none_left))
at_end tone_wait ticks h none_left = absurd (omega (arith, none_left))
at_end found ticks h none_left = refl

runs_out :
    (inputs : List Input) (s : SearchState)
    → IsValid s
    → has_candidate s.phase ≡ true
    → polls_left s ≤ length inputs
    → ((polls inputs s).phase ≡ found) × IsValid (polls inputs s) × ((polls inputs s).band ≡ s.band)
unfolding polls
runs_out [] s v h enough = (at_end s.phase s.timeout_ticks h (omega (arith, enough)), v, refl)
runs_out ((chip, measured, heard) ∷ inputs) s v h enough =
    let (still, fewer, same) = poll-goes chip measured heard s h in
    let (over, valid, kept) =
      runs_out inputs (poll chip measured heard s) (poll-IsValid chip measured heard s v) still
        (omega (arith, fewer, enough)) in
    (over, valid, kept ∙ same)

-- A candidate that the meter has found is taken: from its check on, 53 polls end the search in the
-- phase `found`, whatever the meter measures and the tone detector hears in them, and the frequency
-- that is tuned then lies between the ends of the band that was searched.
pub polls-found :
    (inputs : List Input) (s : SearchState)
    → IsValid s
    → has_candidate s.phase ≡ true
    → 53 ≤ length inputs
    → ((polls inputs s).phase ≡ found)
      × (low_end s.band ≤ (polls inputs s).found_freq_word)
      × ((polls inputs s).found_freq_word ≤ high_end s.band)
polls-found inputs s v h enough =
    let (over, valid, kept) =
      runs_out inputs s v h (omega (arith, enough, few_left s.phase s.timeout_ticks v.wait)) in
    let (low, high) = at_phase found (polls inputs s) over valid in
    (
      over,
      subst (λ b. low_end b ≤ (polls inputs s).found_freq_word) kept low,
      subst (λ b. (polls inputs s).found_freq_word ≤ high_end b) kept high,
    )
