-- ===== src/App/Convert/Index.antt =====
-- src/app/convert.rs: the number of a sub-audio tone in the menus, with the table of CTCSS tones of
-- src/app/settings.rs. A number below 0 is no tone.
use bf_k61_firmware_aura.Prelude.{
  ℕ, suc, ◌+◌, ◌-◌, ◌*◌, ◌<◌, ◌≤◌, ◌≡◌, refl, List, [], ◌∷◌, Bool, true, false, Option, none, some,
  min, arith, length, get_or, ltb, if◌then◌else◌,
}
use bf_k61_firmware_aura.Prelude.Int.{ℤ, pos, negsuc}
use bf_k61_firmware_aura.Prelude.Tables.{all_below, same_values}
use bf_k61_firmware_aura.App.Convert.{SubAudio, silent, ctcss, dcs, dcs_table, position, dcs_index}

abbrev pub ctcss_table : List ℕ
ctcss_table =
    670 ∷ 693 ∷ 719 ∷ 744 ∷ 770 ∷ 797 ∷ 825 ∷ 854 ∷ 885 ∷ 915 ∷ 948 ∷ 974 ∷ 1000 ∷ 1035 ∷ 1072
    ∷ 1109 ∷ 1148 ∷ 1188 ∷ 1230 ∷ 1273 ∷ 1318 ∷ 1365 ∷ 1413 ∷ 1462 ∷ 1514 ∷ 1567 ∷ 1598 ∷ 1622
    ∷ 1655 ∷ 1679 ∷ 1713 ∷ 1738 ∷ 1773 ∷ 1799 ∷ 1835 ∷ 1862 ∷ 1899 ∷ 1928 ∷ 1966 ∷ 1995 ∷ 2035
    ∷ 2065 ∷ 2107 ∷ 2181 ∷ 2257 ∷ 2291 ∷ 2336 ∷ 2418 ∷ 2503 ∷ 2541 ∷ []

abbrev pub subaudio_max_index : ℕ
subaudio_max_index = length ctcss_table + 2 * length dcs_table - 1

unfoldable pub ctcss_position : ℕ → Option ℕ
unfolding position
ctcss_position tenths_hz = position 0 ctcss_table tenths_hz

unfoldable pub ctcss_index : Option ℕ → Option ℕ
unfolding ctcss_position
ctcss_index none = none
ctcss_index (some hz) = ctcss_position hz

-- The part of `subaudio_from_index` for a number that is not below 0.
unfoldable pub subaudio_at : ℕ → SubAudio
subaudio_at v =
    if ltb v (length ctcss_table)
    then ctcss (get_or ctcss_table v 0)
    else if ltb (v - length ctcss_table) (length dcs_table)
    then dcs (get_or dcs_table (v - length ctcss_table) 0) false
    else dcs
        (get_or dcs_table (min (v - length ctcss_table - length dcs_table) (length dcs_table - 1))
          0)
        true

unfoldable pub subaudio_from_index : ℤ → SubAudio
unfolding subaudio_at
subaudio_from_index (negsuc n) = silent
subaudio_from_index (pos v) = subaudio_at v

-- `None` is -1.
unfoldable pub index_or_none : ℕ → Option ℕ → ℤ
index_or_none base none = negsuc 0
index_or_none base (some i) = pos (base + i)

unfoldable pub subaudio_index : SubAudio → ℤ
unfolding index_or_none ctcss_index dcs_index
subaudio_index silent = negsuc 0
subaudio_index (ctcss hz) = index_or_none 0 (ctcss_index (some hz))
subaudio_index (dcs code inverted) =
    index_or_none (length ctcss_table + (if inverted then length dcs_table else 0)) (dcs_index code)

-- What `subaudio_index` gives for a number, counted from 1 so that 0 is no tone.
abbrev number : ℤ → ℕ
number (pos n) = suc n
number (negsuc n) = 0

abbrev is_pos : ℤ → Bool
is_pos (pos n) = true
is_pos (negsuc n) = false

from_number : (z : ℤ) (n : ℕ) → number z ≡ suc n → z ≡ pos n
from_number (pos m) n e = ground (arith, e)
from_number (negsuc m) n e = absurd (omega (arith, e))

numbers_kept : (v : ℕ) → v < 260 → number (subaudio_index (subaudio_at v)) ≡ suc v
unfolding subaudio_index subaudio_at all_below
numbers_kept v h = same_values 260 (λ w. number (subaudio_index (subaudio_at w))) suc refl v h

-- Every number of the menu stands for a tone of its own: the number of the tone that it stands for
-- is the number again, and a number below 0 stands for no tone, whose number is -1.
pub subaudio_index-subaudio_from_index :
    (v n : ℕ)
    → v ≤ subaudio_max_index
    → (subaudio_index (subaudio_from_index (pos v)) ≡ pos v)
      × (subaudio_from_index (negsuc n) ≡ silent)
      × (subaudio_index silent ≡ negsuc 0)
unfolding subaudio_from_index subaudio_index
subaudio_index-subaudio_from_index v n h =
    (from_number (subaudio_index (subaudio_at v)) v (numbers_kept v (omega (arith, h))), refl, refl)
