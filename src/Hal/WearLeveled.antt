-- ===== src/Hal/WearLeveled.antt =====
-- src/hal/wear_leveled.rs: one record kept in one flash sector, in a new slot at each save.
-- The header is a bitmap in which the bits of used slots are cleared from the lowest up.
pub mod Layout
pub mod Slots
pub mod Save
use bf_k61_firmware_aura.Prelude.{
  ℕ, zero, suc, ◌+◌, ◌-◌, ◌*◌, ◌/◌, ◌%◌, ◌^◌, ◌<◌, min, List, [], ◌∷◌, Bool, true, false, ◌&&◌,
  Option, none, some, get_or, ltb, leb, ◌==◌, if◌then◌else◌,
}
use bf_k61_firmware_aura.Prelude.Words.{from_le16, le16_lo, le16_hi}
use bf_k61_firmware_aura.Crc.{crc16_xmodem}
use bf_k61_firmware_aura.Drivers.NorFlash.{Chip, sector_size, read_bytes, write_bytes, erase_sector}

-- `CLEAR_MASK`
abbrev pub clear_mask : List ℕ
clear_mask = 0xFE ∷ 0xFC ∷ 0xF8 ∷ 0xF0 ∷ 0xE0 ∷ 0xC0 ∷ 0x80 ∷ 0x00 ∷ []

abbrev pub max_scan_bytes : ℕ
max_scan_bytes = 32

-- `u32::MAX`
abbrev pub u32_max : ℕ
u32_max = 2 ^ 32 - 1

-- `PAYLOAD_LEN` is a type parameter in the source.
pub record WearLeveledRegion : Type 0 where
  pub base_addr : ℕ
  pub header_size : ℕ
  pub payload_len : ℕ

abbrev pub slot_size : WearLeveledRegion → ℕ
slot_size r = r.payload_len + 2

abbrev pub max_slots : WearLeveledRegion → ℕ
max_slots r = min ((sector_size - r.header_size) / slot_size r) (r.header_size * 8)

abbrev pub scan_bytes : WearLeveledRegion → ℕ
scan_bytes r = (max_slots r + 7) / 8

abbrev pub slot_addr : WearLeveledRegion → ℕ → ℕ
slot_addr r index = r.base_addr + r.header_size + index * slot_size r

-- `u8::trailing_zeros`, looking at `n` more bits.
unfoldable pub zeros_below : ℕ → ℕ → ℕ
zeros_below zero byte = 0
zeros_below (suc n) byte =
    let more = zeros_below n (byte / 2) in if byte % 2 == 0 then suc more else 0

unfoldable pub trailing_zeros : ℕ → ℕ
unfolding zeros_below
trailing_zeros byte = zeros_below 8 byte

-- The loop of `find_free_slot` from byte `i` of the bitmap on.
unfoldable pub first_set_bit : ℕ → List ℕ → ℕ
first_set_bit i [] = u32_max
first_set_bit i (byte ∷ bytes) =
    let rest = first_set_bit (suc i) bytes in
    if byte == 0 then rest else i * 8 + trailing_zeros byte

-- Equality of byte arrays.
unfoldable pub bytes_eq : List ℕ → List ℕ → Bool
bytes_eq [] [] = true
bytes_eq [] (y ∷ ys) = false
bytes_eq (x ∷ xs) [] = false
bytes_eq (x ∷ xs) (y ∷ ys) = x == y && bytes_eq xs ys

unfoldable pub holds : Option (List ℕ) → List ℕ → Bool
unfolding bytes_eq
holds none payload = false
holds (some buf) payload = bytes_eq buf payload

module _ (c : Chip) (r : WearLeveledRegion) where
  unfoldable pub find_free_slot : c.State → ℕ
  unfolding first_set_bit trailing_zeros
  find_free_slot flash = first_set_bit 0 (read_bytes c flash r.base_addr (scan_bytes r))

  unfoldable pub read_slot : c.State → ℕ → Option (List ℕ)
  read_slot flash index =
      let addr = slot_addr r index in
      let buf = read_bytes c flash addr r.payload_len in
      let crc_buf = read_bytes c flash (addr + r.payload_len) 2 in
      if from_le16 (get_or crc_buf 0 0) (get_or crc_buf 1 0) == crc16_xmodem buf
      then some buf
      else none

  unfoldable pub write_slot : c.State → ℕ → List ℕ → c.State
  write_slot flash index payload =
      let addr = slot_addr r index in
      let crc = crc16_xmodem payload in
      write_bytes c (write_bytes c flash addr payload) (addr + r.payload_len)
        (le16_lo crc ∷ le16_hi crc ∷ [])

  -- Clearing the bit of slot `index`.
  unfoldable pub write_marker : c.State → ℕ → c.State
  write_marker flash index =
      write_bytes c flash (r.base_addr + index / 8) (get_or clear_mask (index % 8) 0 ∷ [])

  unfoldable pub load : c.State → Option (List ℕ)
  load flash =
      let index = find_free_slot flash in
      if leb (max_slots r) index then none else read_slot flash index

  -- `index.checked_add(1)` fails at `u32::MAX` only.
  abbrev pub has_room : ℕ → Bool
  has_room index = ltb index u32_max && ltb (index + 1) (max_slots r)

  unfoldable pub save : c.State → List ℕ → c.State
  save flash payload =
      let index = find_free_slot flash in
      if ltb index (max_slots r) && holds (read_slot flash index) payload
      then flash
      else if has_room index
      then write_marker (write_slot flash (index + 1) payload) index
      else write_slot (erase_sector c flash r.base_addr) 0 payload
