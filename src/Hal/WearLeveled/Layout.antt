-- ===== src/Hal/WearLeveled/Layout.antt =====
-- What a sector that `save` has written `k + 1` times since its erase looks like.
use bf_k61_firmware_aura.Prelude.{
  ℕ, suc, ◌+◌, ◌-◌, ◌*◌, ◌/◌, ◌%◌, ◌^◌, ◌≤◌, ◌<◌, ◌≡◌, refl, ap, ◌∙◌, bit_and, List, [], ◌∷◌, false,
  arith, length, get_or, leb, ◌==◌, if◌then◌else◌, Bool-cases, inl, inr,
}
use bf_k61_firmware_aura.Prelude.Tables.{all_below, same_tests, same_values}
use bf_k61_firmware_aura.Drivers.NorFlash.{Chip, sector_size, read_bytes}
use bf_k61_firmware_aura.Drivers.NorFlash.Program.{get_or-read_bytes, length-read_bytes}
use bf_k61_firmware_aura.Hal.WearLeveled.{
  WearLeveledRegion, slot_size, max_slots, scan_bytes, slot_addr, trailing_zeros, first_set_bit,
  find_free_slot, clear_mask,
}

-- What the constants of a region satisfy (`RuntimeState` and `VfoState` in src/flash_map.rs).
pub record IsRegion (r : WearLeveledRegion) : Type 0 where
  pub aligned : r.base_addr % sector_size ≡ 0
  pub addressable : r.base_addr + sector_size ≤ 2 ^ 24
  pub two_slots : 2 ≤ max_slots r
  pub one_scan : scan_bytes r ≤ 32
  pub fits : r.header_size + max_slots r * slot_size r ≤ sector_size
  pub bitmap : max_slots r ≤ r.header_size * 8

-- Byte `j` of the bitmap when slot `k` is the current one.
unfoldable pub marks : ℕ → ℕ → ℕ
marks k j = if leb (8 * (j + 1)) k then 0 else if leb (8 * j) k then 256 - 2 ^ (k - 8 * j) else 0xFF

abbrev pub sector_end : WearLeveledRegion → ℕ
sector_end r = r.base_addr + sector_size

pub record IsLaid (r : WearLeveledRegion) (m : ℕ → ℕ) (k : ℕ) : Type 0 where
  pub current : k < max_slots r
  pub marked : (j : ℕ) → j < scan_bytes r → m (r.base_addr + j) ≡ marks k j
  pub free : (a : ℕ) → slot_addr r (k + 1) ≤ a → a < sector_end r → m a ≡ 0xFF

trailing_table : (t : ℕ) → t < 8 → trailing_zeros (256 - 2 ^ t) ≡ t
unfolding trailing_zeros all_below
trailing_table = same_values 8 _ _ refl

pub clear_table :
    (t : ℕ) → t < 8 → bit_and (256 - 2 ^ t) (get_or clear_mask t 0) ≡ (256 - 2 ^ (t + 1))
unfolding all_below
clear_table = same_values 8 _ _ refl

pub blank_table : (x : ℕ) → x < 256 → bit_and 0xFF x ≡ x
unfolding all_below
blank_table = same_values 256 _ _ refl

power_table : (t : ℕ) → t < 8 → ((256 - 2 ^ t) == 0) ≡ false
unfolding all_below
power_table = same_tests 8 _ _ refl

current_mark : (k j : ℕ) → 8 * j ≤ k → k < 8 * (j + 1) → marks k j ≡ (256 - 2 ^ (k - 8 * j))
unfolding marks
current_mark k j low high = ground arith

-- `save` clears the bit of the current slot.
pub marks_next :
    (k j : ℕ)
    → (if j == k / 8 then bit_and (marks k j) (get_or clear_mask (k % 8) 0) else marks k j)
      ≡ marks (k + 1) j
unfolding marks
marks_next k j = elim (Bool-cases (j == k / 8)) [
  | inl here ↦
      let j_eq : j ≡ k / 8 = ground (arith, here) in
      let now : marks k j ≡ (256 - 2 ^ (k % 8)) =
        current_mark k j (omega arith) (omega arith)
        ∙ ap (λ (e : ℕ). 256 - 2 ^ e) {x = k - 8 * j} {y = k % 8} (omega arith) in
      let cleared : bit_and (marks k j) (get_or clear_mask (k % 8) 0) ≡ (256 - 2 ^ (k % 8 + 1)) =
        ap (λ (b : ℕ). bit_and b (get_or clear_mask (k % 8) 0)) now
        ∙ clear_table (k % 8) (omega arith) in
      ground (
        arith,
        here,
        cleared,
        λ (e : k % 8 ≡ 7). ap (λ (t : ℕ). 256 - 2 ^ (t + 1)) e,
        ap (λ (e : ℕ). 256 - 2 ^ e) {x = k + 1 - 8 * j} {y = k % 8 + 1} (omega arith),
      )
  | inr other ↦ ground (arith, other, λ (e : k + 1 - 8 * j ≡ 0). ap (λ (t : ℕ). 256 - 2 ^ t) e)
]

-- In an erased bitmap slot 0 is the current one.
pub marks_first : (j : ℕ) → marks 0 j ≡ 0xFF
unfolding marks
marks_first j = ground (arith, λ (e : 0 - 8 * j ≡ 0). ap (λ (t : ℕ). 256 - 2 ^ t) e)

first_set_bit_lem :
    (k i : ℕ) (bytes : List ℕ)
    → 8 * i ≤ k
    → k < 8 * (i + length bytes)
    → ((j : ℕ) → j < length bytes → get_or bytes j 0 ≡ marks k (i + j))
    → first_set_bit i bytes ≡ k
unfolding first_set_bit marks
first_set_bit_lem k i [] low high h = absurd (omega arith)
first_set_bit_lem k i (byte ∷ bytes) low high h =
    let head : byte ≡ marks k i =
      h 0 (omega arith) ∙ ap (marks k) {x = i + 0} {y = i} (omega arith) in
    elim (Bool-cases (leb (8 * (i + 1)) k)) [
      | inl more ↦
          let next : first_set_bit (suc i) bytes ≡ k =
            first_set_bit_lem k (suc i) bytes (ground arith) (omega arith) (λ j lt.
              h (suc j) (omega arith)
              ∙ ap (marks k) {x = i + suc j} {y = suc i + j} (omega arith)) in
          ground (arith, next)
      | inr here ↦
          let mark : byte ≡ (256 - 2 ^ (k - 8 * i)) = head ∙ current_mark k i low (ground arith) in
          let some_bit : (byte == 0) ≡ false =
            ap (λ (b : ℕ). b == 0) mark ∙ power_table (k - 8 * i) (ground arith) in
          let zeros : trailing_zeros byte ≡ k - 8 * i =
            ap trailing_zeros mark ∙ trailing_table (k - 8 * i) (ground arith) in
          ground (arith, some_bit, zeros)
    ]

module _ (c : Chip) (r : WearLeveledRegion) where
  -- The scan finds the current slot, and a written sector is never taken for a blank one.
  pub find_free_slot_lem :
      (s : c.State) (k : ℕ) → IsRegion r → IsLaid r (c.read s) k → find_free_slot c r s ≡ k
  unfolding find_free_slot
  find_free_slot_lem s k ok laid =
      let n = scan_bytes r in
      let bytes = read_bytes c s r.base_addr n in
      first_set_bit_lem k 0 bytes (omega arith)
        (omega (arith, length-read_bytes c s r.base_addr n, laid.current))
        (λ j lt.
          get_or-read_bytes c s r.base_addr n j (omega (arith, ok.addressable))
            (omega (arith, length-read_bytes c s r.base_addr n))
          ∙ laid.marked j (omega (arith, length-read_bytes c s r.base_addr n))
          ∙ ap (marks k) {x = j} {y = 0 + j} (omega arith))
