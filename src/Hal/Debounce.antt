-- ===== src/Hal/Debounce.antt =====
-- src/hal/debounce.rs: a level is taken over once it has been sampled five times in a row.
pub mod Steady
use bf_k61_firmware_aura.Prelude.{
  ℕ, zero, suc, ◌+◌, ◌<◌, Bool, true, false, ◌&&◌, not, List, [], ◌∷◌, Option, none, some, ltb, leb,
  bool_eq, if◌then◌else◌,
}

abbrev pub threshold : ℕ
threshold = 4

pub record Debouncer : Type 0 where
  pub stable : Bool
  pub candidate : Bool
  pub count : ℕ

unfoldable pub new : Bool → Debouncer
new initial = record { stable = initial; candidate = initial; count = threshold }

-- The first half of `sample`: counting.
unfoldable pub counted : Debouncer → Bool → Debouncer
counted d raw =
    if bool_eq raw d.candidate
    then (if ltb d.count threshold then record d { count = d.count + 1 } else d)
    else record d { candidate = raw; count = 0 }

-- The second half: reporting.
unfoldable pub settled : Debouncer → Debouncer × Option Bool
settled d =
    if leb threshold d.count && not (bool_eq d.stable d.candidate)
    then (record d { stable = d.candidate }, some d.candidate)
    else (d, none)

unfoldable pub sample : Debouncer → Bool → Debouncer × Option Bool
unfolding counted settled
sample d raw = settled (counted d raw)

unfoldable pub report : Option Bool → List Bool → List Bool
report none bs = bs
report (some b) bs = b ∷ bs

-- The levels reported for a series of samples.
unfoldable pub levels : Debouncer → List Bool → List Bool
unfolding sample report
levels d [] = []
levels d (raw ∷ raws) = let after = sample d raw in report after.1 (levels after.0 raws)
