-- ===== src/App/Input.antt =====
-- src/app/input.rs: a decimal number of `n` digits as it is typed, and the coordinates typed so.
-- The number of digits `N` is a type parameter of the source.
pub mod Value
use bf_k61_firmware_aura.Prelude.{
  ℕ, zero, suc, ◌+◌, ◌-◌, ◌*◌, ◌/◌, ◌%◌, ◌^◌, ◌<◌, List, [], ◌∷◌, Bool, length, take, get_or, set,
  replicate, ltb, ◌==◌, if◌then◌else◌,
}

pub record DigitInput : Type 0 where
  pub digits : List ℕ
  pub len : ℕ

-- `acc * 10 + d`, of a `u32`.
abbrev pub shift_in : ℕ → ℕ → ℕ
shift_in acc d = (acc * 10 + d) % 2 ^ 32

-- The fold of `entered_value`.
unfoldable pub fold_digits : ℕ → List ℕ → ℕ
fold_digits acc [] = acc
fold_digits acc (d ∷ ds) = fold_digits (shift_in acc d) ds

-- The loop of `value` from index `i` on, with `k` digits to go.
unfoldable pub value_from : DigitInput → ℕ → ℕ → ℕ → ℕ
value_from d acc i zero = acc
value_from d acc i (suc k) =
    value_from d (shift_in acc (if ltb i d.len then get_or d.digits i 0 else 0)) (i + 1) k

module _ (n : ℕ) where
  unfoldable pub new : DigitInput
  new = record { digits = replicate n 0; len = 0 }

  unfoldable pub clear : DigitInput → DigitInput
  clear d = record d { len = 0 }

  unfoldable pub is_empty : DigitInput → Bool
  is_empty d = d.len == 0

  unfoldable pub is_full : DigitInput → Bool
  is_full d = d.len == n

  unfoldable pub push : DigitInput → ℕ → DigitInput
  push d digit =
      if ltb d.len n then record d { digits = set d.digits d.len digit; len = d.len + 1 } else d

  unfoldable pub backspace : DigitInput → DigitInput
  backspace d = record d { len = d.len - 1 }

  unfoldable pub entered_value : DigitInput → ℕ
  unfolding fold_digits
  entered_value d = fold_digits 0 (take d.len d.digits)

  unfoldable pub value : DigitInput → ℕ
  unfolding value_from
  value d = value_from d 0 0 n

-- Degrees and minutes `DDDMM.mm`, without the point, to units of 1/100000 of a degree.
unfoldable pub ddmm_to_microdeg : ℕ → ℕ
ddmm_to_microdeg ddmm =
    let deg = ddmm / 10000 in
    let min_frac_total = ddmm % 10000 in deg * 100000 + min_frac_total * 100 / 6
