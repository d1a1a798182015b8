-- ===== src/Drivers/Fd6818/Dcs.antt =====
-- src/drivers/fd6818.rs: the code words of DCS codes, and finding the code of a received word.
use bf_k61_firmware_aura.Prelude.{
  ℕ, zero, suc, ◌*◌, ◌/◌, ◌%◌, ◌^◌, ◌<◌, ◌≡◌, refl, bit_or, bit_xor, List, [], ◌∷◌, Bool, true,
  false, Option, none, some, ◌==◌, if◌then◌else◌, bool_eq, ap, arith, get_or, length,
}
use bf_k61_firmware_aura.Prelude.Tables.{all_below, all_below_sound, same_values}
use bf_k61_firmware_aura.App.Convert.{dcs_table}

abbrev pub dcs_golay_poly : ℕ
dcs_golay_poly = 0x0c75

-- The rounds of `dcs_encode`: `source` is shifted down where the code shifts `bit` up.
unfoldable pub encode_rounds : ℕ → ℕ → ℕ → ℕ
encode_rounds zero source remainder = remainder
encode_rounds (suc n) source remainder =
    let feedback : ℕ =
      if bool_eq (source % 2 == 1) (remainder / 2 % 2 == 1) then 0 else dcs_golay_poly in
    encode_rounds n (source / 2) (bit_xor (remainder / 2) feedback)

unfoldable pub dcs_encode : ℕ → ℕ
unfolding encode_rounds
dcs_encode code =
    let source = bit_or code 0x0800 in bit_or source (encode_rounds 12 source 0 * 2 ^ 11)

-- A rotation by one bit of a word of 23 bits.
unfoldable pub rotate : ℕ → ℕ
rotate word = bit_or (word * 2) (word / 2 ^ 22) % 2 ^ 23

unfoldable pub rotates_to : ℕ → ℕ → ℕ → Bool
unfolding rotate
rotates_to zero word raw23 = false
rotates_to (suc n) word raw23 =
    let w : ℕ = rotate word in
    let later = rotates_to n w raw23 in if w == raw23 then true else later

unfoldable pub find_dcs : List ℕ → ℕ → Option ℕ
unfolding rotates_to dcs_encode
find_dcs [] raw23 = none
find_dcs (code ∷ table) raw23 =
    let later = find_dcs table raw23 in
    if rotates_to 23 (dcs_encode code % 2 ^ 23) raw23 then some code else later

unfoldable pub find_standard_dcs : ℕ → Option ℕ
unfolding find_dcs
find_standard_dcs raw = find_dcs dcs_table (raw % 2 ^ 23)

-- A code that the receiver takes for another: 0o645 has the word of 0o526, rotated.
abbrev pub taken_for : ℕ → ℕ
taken_for code = if code == 421 then 342 else code

abbrev code_or_zero : Option ℕ → ℕ
code_or_zero none = 0
code_or_zero (some code) = code

abbrev is_some : Option ℕ → Bool
is_some none = false
is_some (some code) = true

some_of : (o : Option ℕ) (code : ℕ) → is_some o ≡ true → code_or_zero o ≡ code → o ≡ some code
some_of none code h e = cc
some_of (some found) code h e = ap some e

abbrev found_at : ℕ → Option ℕ
found_at i = find_standard_dcs (dcs_encode (get_or dcs_table i 0))

found_right : (i : ℕ) → i < 105 → code_or_zero (found_at i) ≡ taken_for (get_or dcs_table i 0)
unfolding find_standard_dcs all_below
found_right i h =
    same_values 105 (λ k. code_or_zero (found_at k)) (λ k. taken_for (get_or dcs_table k 0)) refl i
      h

found_some : (i : ℕ) → i < 105 → is_some (found_at i) ≡ true
unfolding find_standard_dcs all_below
found_some i h = all_below_sound 105 (λ k. is_some (found_at k)) i refl h

-- The code word of each DCS code of the table is found to be of that code again, but for 0o645: its
-- word is a rotation of that of 0o526, which stands before it in the table.
pub find_standard_dcs-dcs_encode :
    (i : ℕ)
    → i < length dcs_table
    → find_standard_dcs (dcs_encode (get_or dcs_table i 0))
      ≡ some (taken_for (get_or dcs_table i 0))
find_standard_dcs-dcs_encode i h =
    some_of (found_at i) (taken_for (get_or dcs_table i 0)) (found_some i (omega (arith, h)))
      (found_right i (omega (arith, h)))
