-- ===== src/Device/BandLock.antt =====
-- src/device/radio.rs: the frequency windows in which the radio may transmit.
pub mod Allowed
use bf_k61_firmware_aura.Prelude.{
  ℕ, zero, suc, ◌+◌, ◌-◌, ◌*◌, ◌^◌, min, max, List, [], ◌∷◌, Bool, true, false, ◌&&◌, ◌||◌, take,
  set, get_or, replicate, leb,
}

pub record FreqRange : Type 0 where
  pub low_hz : ℕ
  pub high_hz : ℕ

unfoldable pub contains : FreqRange → ℕ → Bool
contains r freq_hz = leb r.low_hz freq_hz && leb freq_hz r.high_hz

abbrev pub max_freq_ranges : ℕ
max_freq_ranges = 8

pub record FreqRanges : Type 0 where
  pub ranges : List FreqRange
  pub count : ℕ

abbrev pub empty : FreqRanges
empty = record {
  ranges = replicate max_freq_ranges (record { low_hz = 0; high_hz = 0 });
  count = 0;
}

-- The loop of `from_slice`.
unfoldable pub fill : FreqRanges → List FreqRange → FreqRanges
fill out [] = out
fill out (w ∷ ws) = fill (record { ranges = set out.ranges out.count w; count = out.count + 1 }) ws

unfoldable pub from_slice : List FreqRange → FreqRanges
unfolding fill
from_slice windows = fill empty (take max_freq_ranges windows)

abbrev pub r : ℕ → ℕ → FreqRange
r low high = record { low_hz = low; high_hz = high }

abbrev pub hardware_windows : List FreqRange
hardware_windows = r 16_000_000 560_000_000 ∷ r 740_000_000 1_120_000_000 ∷ []

unfoldable pub hardware : FreqRanges
unfolding from_slice
hardware = from_slice hardware_windows

unfoldable pub any_contains : List FreqRange → ℕ → Bool
unfolding contains
any_contains [] freq_hz = false
any_contains (w ∷ ws) freq_hz = contains w freq_hz || any_contains ws freq_hz

unfoldable pub allows : FreqRanges → ℕ → Bool
unfolding any_contains
allows rs freq_hz = any_contains (take rs.count rs.ranges) freq_hz

-- The lowest and the highest frequency of a window and those after it.
unfoldable pub lowest : FreqRange → List FreqRange → ℕ
lowest w [] = w.low_hz
lowest w (v ∷ vs) = min w.low_hz (lowest v vs)

unfoldable pub highest : FreqRange → List FreqRange → ℕ
highest w [] = w.high_hz
highest w (v ∷ vs) = max w.high_hz (highest v vs)

unfoldable pub bounds_of : List FreqRange → ℕ × ℕ
unfolding lowest highest
bounds_of [] = (0, 2 ^ 32 - 1)
bounds_of (w ∷ ws) = (lowest w ws, highest w ws)

unfoldable pub bounds : FreqRanges → ℕ × ℕ
unfolding bounds_of
bounds rs = bounds_of (take rs.count rs.ranges)

pub data BandLock : Type 0 where
  ce : BandLock
  fcc : BandLock
  gb : BandLock
  mhz430 : BandLock
  mhz438 : BandLock
  pmr : BandLock
  gmrs_frs_murs : BandLock
  ca : BandLock
  all : BandLock
  unlocked : BandLock

unfoldable pub from_u8 : ℕ → BandLock
from_u8 v =
    get_or (ce ∷ fcc ∷ gb ∷ mhz430 ∷ mhz438 ∷ pmr ∷ gmrs_frs_murs ∷ ca ∷ all ∷ unlocked ∷ []) v ce

-- The windows that `tx_ranges` lists for each lock.
unfoldable pub windows : BandLock → List FreqRange
windows ce = r 144_000_000 146_000_000 ∷ r 430_000_000 440_000_000 ∷ []
windows fcc = r 144_000_000 148_000_000 ∷ r 420_000_000 450_000_000 ∷ []
windows gb = r 144_000_000 148_000_000 ∷ r 430_000_000 440_000_000 ∷ []
windows mhz430 = r 137_000_000 174_000_000 ∷ r 400_000_000 430_000_000 ∷ []
windows mhz438 = r 137_000_000 174_000_000 ∷ r 400_000_000 438_000_000 ∷ []
windows pmr = r 446_006_250 446_193_750 ∷ []
windows gmrs_frs_murs =
    r 462_550_000 462_725_000
    ∷ r 467_550_000 467_725_000
    ∷ r 151_820_000 151_820_000
    ∷ r 151_880_000 151_880_000
    ∷ r 151_940_000 151_940_000
    ∷ r 154_570_000 154_570_000
    ∷ r 154_600_000 154_600_000
    ∷ []
windows ca = r 144_000_000 148_000_000 ∷ r 430_000_000 450_000_000 ∷ []
windows all = []
windows unlocked = hardware_windows

unfoldable pub tx_ranges : BandLock → FreqRanges
unfolding from_slice windows
tx_ranges lock = from_slice (windows lock)
