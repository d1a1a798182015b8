-- ===== src/Device/Storage/Satellites.antt =====
-- The table of satellites.
use bf_k61_firmware_aura.Prelude.{
  ℕ, zero, suc, ◌+◌, ◌-◌, ◌*◌, ◌/◌, ◌<◌, ◌≤◌, ◌≡◌, refl, sym, ap, ap₂, ◌∙◌, List, [], ◌∷◌, ◌++◌,
  arith, length, length-append, take-append, drop-append, replicate, get_or, All, ltb, Bool-cases,
  inl, inr, Option, none, some, ◌⊎◌,
}
use bf_k61_firmware_aura.Crc.{IsByte, get_or-IsByte}
use bf_k61_firmware_aura.Drivers.NorFlash.{Chip, sector_size, write_bytes, erase_sector}
use bf_k61_firmware_aura.Drivers.NorFlash.Program.{read_bytes_eq, write_bytes_lem, erase_sector_lem}
use bf_k61_firmware_aura.FlashMap.Sat.{
  SatRecord, IsValid, to_bytes, from_bytes, sat_from_bytes-to_bytes,
}
use bf_k61_firmware_aura.FlashMap.Contact.{all_erased}
use bf_k61_firmware_aura.Hal.WearLeveled.Layout.{blank_table}
use bf_k61_firmware_aura.Device.Storage.{
  sat_addr, max_satellites, sat_record_size, records_from, write_slots, load_satellites,
  save_satellites,
}
use bf_k61_firmware_aura.Device.Storage.Rmw.{get_or-append}

-- The bytes of a slot.
unfoldable pub slot_bytes : Option SatRecord → List ℕ
slot_bytes none = replicate 32 0xFF
slot_bytes (some sat) = to_bytes sat

unfoldable pub table_bytes : List (Option SatRecord) → List ℕ
unfolding slot_bytes
table_bytes [] = []
table_bytes (slot ∷ slots) = slot_bytes slot ++ table_bytes slots

-- A slot is empty, or holds a satellite of the right sizes.
unfoldable pub IsSlot : Option SatRecord → Type 0
IsSlot none = Unit
IsSlot (some sat) = IsValid sat × All IsByte (to_bytes sat)

-- The padding is not kept.
unfoldable pub unpadded : List (Option SatRecord) → List (Option SatRecord)
unpadded [] = []
unpadded (none ∷ slots) = none ∷ unpadded slots
unpadded (some sat ∷ slots) = some (record sat { pad = replicate 3 0 }) ∷ unpadded slots

length-slot_bytes : (slot : Option SatRecord) → length (slot_bytes slot) ≡ 32
unfolding slot_bytes to_bytes
length-slot_bytes none = refl
length-slot_bytes (some sat) = refl

length-table_bytes :
    (slots : List (Option SatRecord)) → length (table_bytes slots) ≡ length slots * 32
unfolding table_bytes
length-table_bytes [] = refl
length-table_bytes (slot ∷ slots) = omega (
  arith,
  length-append (slot_bytes slot) (table_bytes slots),
  length-slot_bytes slot,
  length-table_bytes slots,
)

from_bytes-slot_bytes :
    (slot : Option SatRecord) (slots : List (Option SatRecord))
    → IsSlot slot
    → from_bytes (slot_bytes slot) ∷ unpadded slots ≡ unpadded (slot ∷ slots)
unfolding slot_bytes unpadded IsSlot from_bytes all_erased
from_bytes-slot_bytes none slots ok = refl
from_bytes-slot_bytes (some sat) slots ok =
    ap (λ (read : Option SatRecord). read ∷ unpadded slots) (sat_from_bytes-to_bytes sat ok.0)

records_from-table_bytes :
    (slots : List (Option SatRecord))
    → All IsSlot slots
    → records_from (length slots) (table_bytes slots) ≡ unpadded slots
unfolding records_from table_bytes unpadded
records_from-table_bytes [] ok = refl
records_from-table_bytes (slot ∷ slots) ok =
    ap₂ (λ (front back : List ℕ). from_bytes front ∷ records_from (length slots) back)
      (take-append 32 (slot_bytes slot) (table_bytes slots) (length-slot_bytes slot))
      (drop-append 32 (slot_bytes slot) (table_bytes slots) (length-slot_bytes slot))
    ∙ ap (λ (rest : List (Option SatRecord)). from_bytes (slot_bytes slot) ∷ rest)
        (records_from-table_bytes slots ok.1)
    ∙ from_bytes-slot_bytes slot slots ok.0

erased_byte : (n i : ℕ) → i < n → get_or {A = ℕ} (replicate n 0xFF) i 0 ≡ 0xFF
erased_byte zero i h = absurd (omega (arith, h))
erased_byte (suc n) zero h = refl
erased_byte (suc n) (suc i) h = erased_byte n i (omega (arith, h))

module _ (c : Chip) where
  -- Writing one slot, when there is something to write.
  unfoldable write_slot_of : c.State → ℕ → Option SatRecord → c.State
  write_slot_of s i none = s
  write_slot_of s i (some sat) = write_bytes c s (sat_addr + i * sat_record_size) (to_bytes sat)

  write_slots_step :
      (s : c.State) (i : ℕ) (slot : Option SatRecord) (slots : List (Option SatRecord))
      → write_slots c s i (slot ∷ slots) ≡ write_slots c (write_slot_of s i slot) (i + 1) slots
  unfolding write_slots write_slot_of
  write_slots_step s i none slots = refl
  write_slots_step s i (some sat) slots = refl

  write_slot_of_else :
      (s : c.State) (i : ℕ) (slot : Option SatRecord) (a : ℕ)
      → i < max_satellites
      → (a < sat_addr + i * 32) ⊎ (sat_addr + i * 32 + 32 ≤ a)
      → c.read (write_slot_of s i slot) a ≡ c.read s a
  unfolding write_slot_of to_bytes
  write_slot_of_else s i none a h out = refl
  write_slot_of_else s i (some sat) a h out =
      write_bytes_lem c s (sat_addr + i * sat_record_size) (to_bytes sat) (omega arith) a
      ∙ ground (arith, out)

  write_slot_of_own :
      (s : c.State) (i : ℕ) (slot : Option SatRecord) (k : ℕ)
      → i < max_satellites
      → IsSlot slot
      → k < 32
      → c.read s (sat_addr + i * 32 + k) ≡ 0xFF
      → c.read (write_slot_of s i slot) (sat_addr + i * 32 + k) ≡ get_or (slot_bytes slot) k 0
  unfolding write_slot_of slot_bytes IsSlot
  write_slot_of_own s i none k h ok low blank = blank ∙ sym (erased_byte 32 k low)
  write_slot_of_own s i (some sat) k h ok low blank =
      let l : length (to_bytes sat) ≡ 32 = length-slot_bytes (some sat) in
      write_bytes_lem c s (sat_addr + i * sat_record_size) (to_bytes sat) (omega arith)
        (sat_addr + i * 32 + k)
      ∙ ground (
        arith,
        blank,
        l,
        ap (λ (x : ℕ). get_or (to_bytes sat) x 0) {x = sat_addr + i * 32 + k - (sat_addr + i * 32)}
            {y = k} (omega arith),
        blank_table (get_or (to_bytes sat) k 0) (get_or-IsByte (to_bytes sat) k ok.1),
      )

  write_slots_below :
      (s : c.State) (i : ℕ) (slots : List (Option SatRecord)) (a : ℕ)
      → i + length slots ≤ max_satellites
      → a < sat_addr + i * 32
      → c.read (write_slots c s i slots) a ≡ c.read s a
  unfolding write_slots
  write_slots_below s i [] a fits low = refl
  write_slots_below s i (slot ∷ slots) a fits low =
      ap (λ (t : c.State). c.read t a) (write_slots_step s i slot slots)
      ∙ write_slots_below (write_slot_of s i slot) (i + 1) slots a (omega arith) (omega arith)
      ∙ write_slot_of_else s i slot a (omega arith) (inl low)

  write_slots_lem :
      (s : c.State) (i : ℕ) (slots : List (Option SatRecord))
      → i + length slots ≤ max_satellites
      → All IsSlot slots
      → ((a : ℕ) → sat_addr + i * 32 ≤ a → a < sat_addr + max_satellites * 32 → c.read s a ≡ 0xFF)
      → (k : ℕ) → k < length slots * 32
      → c.read (write_slots c s i slots) (sat_addr + i * 32 + k) ≡ get_or (table_bytes slots) k 0
  unfolding table_bytes
  write_slots_lem s i [] fits ok blank k h = absurd (omega (arith, h))
  write_slots_lem s i (slot ∷ slots) fits ok blank k h =
      let next = write_slot_of s i slot in
      let l = length-slot_bytes slot in
      ap (λ (t : c.State). c.read t (sat_addr + i * 32 + k)) (write_slots_step s i slot slots)
      ∙ elim (Bool-cases (ltb k 32)) [
        | inl own ↦
            let low : k < 32 = ground (arith, own) in
            write_slots_below next (i + 1) slots (sat_addr + i * 32 + k) (omega arith) (omega arith)
            ∙ write_slot_of_own s i slot k (omega arith) ok.0 low
                (blank (sat_addr + i * 32 + k) (omega arith) (omega arith))
            ∙ sym (get_or-append (slot_bytes slot) (table_bytes slots) k ∙ ground (arith, l, low))
        | inr later ↦
            let high : 32 ≤ k = ground (arith, later) in
            ap (c.read (write_slots c next (i + 1) slots)) {x = sat_addr + i * 32 + k}
              {y = sat_addr + (i + 1) * 32 + (k - 32)} (omega arith)
            ∙ write_slots_lem next (i + 1) slots (omega arith) ok.1
                (λ a low below.
                  write_slot_of_else s i slot a (omega arith) (inr (omega arith))
                  ∙ blank a (omega arith) below)
                (k - 32) (omega arith)
            ∙ ap (λ (x : ℕ). get_or (table_bytes slots) (k - x) 0) (sym l)
            ∙ sym (get_or-append (slot_bytes slot) (table_bytes slots) k ∙ ground (arith, l, high))
      ]

  -- A table of 20 slots that is saved reads back, slot for slot, but for the padding, whatever
  -- stood in the sector.
  pub load_satellites-save_satellites :
      (s : c.State) (slots : List (Option SatRecord))
      → length slots ≡ max_satellites
      → All IsSlot slots
      → load_satellites c (save_satellites c s slots) ≡ unpadded slots
  unfolding load_satellites save_satellites
  load_satellites-save_satellites s slots size ok =
      let clean = erase_sector c s (sat_addr / sector_size * sector_size) in
      let saved = write_slots c clean 0 slots in
      let blank =
        λ (a : ℕ) (low : sat_addr + 0 * 32 ≤ a) (high : a < sat_addr + max_satellites * 32).
          erase_sector_lem c s (sat_addr / sector_size * sector_size) (omega arith) a
          ∙ ground arith in
      ap (records_from max_satellites) (
        read_bytes_eq c saved sat_addr (max_satellites * sat_record_size) (table_bytes slots)
          (omega arith) (length-table_bytes slots ∙ omega arith)
          (λ k h.
            ap (c.read saved) {x = sat_addr + k} {y = sat_addr + 0 * 32 + k} (omega arith)
            ∙ write_slots_lem clean 0 slots (omega arith) ok blank k (omega arith)))
      ∙ ap (λ (n : ℕ). records_from n (table_bytes slots)) (sym size)
      ∙ records_from-table_bytes slots ok
