-- ===== src/Device/BandLock/Allowed.antt =====
-- Which frequencies a band lock lets through.
use bf_k61_firmware_aura.Prelude.{
  ℕ, ◌≤◌, ◌≡◌, List, [], ◌∷◌, true, arith, take, Bool-cases, inl, inr,
}
use bf_k61_firmware_aura.Device.BandLock.{
  FreqRange, contains, FreqRanges, fill, from_slice, hardware, any_contains, allows, lowest,
  highest, bounds_of, bounds, BandLock, ce, fcc, gb, mhz430, mhz438, pmr, gmrs_frs_murs, ca, all,
  unlocked, windows, tx_ranges,
}

-- A band lock never lets through a frequency that the transceiver cannot tune.
pub tx_ranges-hardware :
    (lock : BandLock) (f : ℕ) → allows (tx_ranges lock) f ≡ true → allows hardware f ≡ true
unfolding tx_ranges windows from_slice fill allows any_contains contains hardware
tx_ranges-hardware ce f e = ground (arith, e)
tx_ranges-hardware fcc f e = ground (arith, e)
tx_ranges-hardware gb f e = ground (arith, e)
tx_ranges-hardware mhz430 f e = ground (arith, e)
tx_ranges-hardware mhz438 f e = ground (arith, e)
tx_ranges-hardware pmr f e = ground (arith, e)
tx_ranges-hardware gmrs_frs_murs f e = ground (arith, e)
tx_ranges-hardware ca f e = ground (arith, e)
tx_ranges-hardware all f e = absurd (ground (arith, e))
tx_ranges-hardware unlocked f e = e

bounds_of_lem :
    (w : FreqRange) (ws : List FreqRange) (f : ℕ)
    → any_contains (w ∷ ws) f ≡ true
    → (lowest w ws ≤ f) × (f ≤ highest w ws)
unfolding any_contains contains lowest highest
bounds_of_lem w [] f e = ground (arith, e)
bounds_of_lem w (v ∷ vs) f e = elim (Bool-cases (any_contains (v ∷ vs) f)) [
  | inl later ↦ let rest = bounds_of_lem v vs f later in omega (arith, rest.0, rest.1)
  | inr here ↦ ground (arith, e, here)
]

in_bounds_of :
    (ws : List FreqRange) (f : ℕ)
    → any_contains ws f ≡ true
    → ((bounds_of ws).0 ≤ f) × (f ≤ (bounds_of ws).1)
unfolding bounds_of any_contains
in_bounds_of [] f e = absurd (ground (arith, e))
in_bounds_of (w ∷ ws) f e = bounds_of_lem w ws f e

-- A frequency that is allowed lies between the bounds.
pub allows-bounds :
    (rs : FreqRanges) (f : ℕ) → allows rs f ≡ true → ((bounds rs).0 ≤ f) × (f ≤ (bounds rs).1)
unfolding allows bounds
allows-bounds rs f e = in_bounds_of (take rs.count rs.ranges) f e
