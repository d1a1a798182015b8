-- ===== src/Hal/WearLeveled/Slots.antt =====
-- src/hal/wear_leveled.rs: what writing one slot and one marker does to the sector.
use bf_k61_firmware_aura.Prelude.{
  ℕ, ◌+◌, ◌-◌, ◌/◌, ◌%◌, ◌^◌, ◌≤◌, ◌<◌, ◌≡◌, refl, ap, ap₂, ◌∙◌, bit_and, List, [], ◌∷◌, true,
  Option, none, some, arith, length, get_or, ◌==◌, if◌then◌else◌, inl, inr, ==_refl, All, ◌⊎◌,
}
use native.Mathlib.Nat.{mul-le-mul_right, suc-mul}
use bf_k61_firmware_aura.Prelude.Words.{from_le16, le16_lo, le16_hi, from_le16-le16}
use bf_k61_firmware_aura.Crc.{crc16_xmodem, IsByte, get_or-IsByte}
use bf_k61_firmware_aura.Crc.Bound.{crc16_xmodem-lt}
use bf_k61_firmware_aura.Drivers.NorFlash.{Chip, programmed, read_bytes, write_bytes}
use bf_k61_firmware_aura.Drivers.NorFlash.Program.{
  read_bytes_eq, get_or-read_bytes, write_bytes_lem, programmed_ext,
}
use bf_k61_firmware_aura.Hal.WearLeveled.{
  WearLeveledRegion, slot_size, max_slots, slot_addr, clear_mask, bytes_eq, holds, read_slot,
  write_slot, write_marker,
}
use bf_k61_firmware_aura.Hal.WearLeveled.Layout.{IsRegion, sector_end, blank_table}

-- A payload of the region's length.
pub record IsPayload (r : WearLeveledRegion) (p : List ℕ) : Type 0 where
  pub sized : length p ≡ r.payload_len
  pub byted : All IsByte p

-- The slot holds a payload and its checksum.
pub record IsStored (r : WearLeveledRegion) (m : ℕ → ℕ) (k : ℕ) (p : List ℕ) : Type 0 where
  pub payload : (i : ℕ) → i < r.payload_len → m (slot_addr r k + i) ≡ get_or p i 0
  pub low : m (slot_addr r k + r.payload_len) ≡ le16_lo (crc16_xmodem p)
  pub high : m (slot_addr r k + r.payload_len + 1) ≡ le16_hi (crc16_xmodem p)

pub next_slot :
    (r : WearLeveledRegion) (k : ℕ) → slot_addr r (k + 1) ≡ slot_addr r k + r.payload_len + 2
next_slot r k = omega (arith, suc-mul k (slot_size r))

-- The slots do not leave the sector.
pub slot_fits :
    (r : WearLeveledRegion) (k : ℕ)
    → IsRegion r
    → k < max_slots r
    → slot_addr r k + r.payload_len + 2 ≤ sector_end r
slot_fits r k ok h =
    omega (arith, ok.fits, mul-le-mul_right (slot_size r) h, suc-mul k (slot_size r))

bytes_eq_sound : (xs ys : List ℕ) → bytes_eq xs ys ≡ true → xs ≡ ys
unfolding bytes_eq
bytes_eq_sound [] [] e = refl
bytes_eq_sound [] (y ∷ ys) e = absurd (ground (arith, e))
bytes_eq_sound (x ∷ xs) [] e = absurd (ground (arith, e))
bytes_eq_sound (x ∷ xs) (y ∷ ys) e =
    ap₂ ◌∷◌ (ground (arith, e)) (bytes_eq_sound xs ys (ground (arith, e)))

pub IsStored-ext :
    (r : WearLeveledRegion) (m m' : ℕ → ℕ) (k : ℕ) (p : List ℕ)
    → ((a : ℕ) → slot_addr r k ≤ a → m' a ≡ m a)
    → IsStored r m k p
    → IsStored r m' k p
IsStored-ext r m m' k p same h = record {
  payload = λ i lt. same (slot_addr r k + i) (omega arith) ∙ h.payload i lt;
  low = same (slot_addr r k + r.payload_len) (omega arith) ∙ h.low;
  high = same (slot_addr r k + r.payload_len + 1) (omega arith) ∙ h.high;
}

pub holds_sound : (o : Option (List ℕ)) (p : List ℕ) → holds o p ≡ true → o ≡ some p
unfolding holds
holds_sound none p e = absurd (ground (arith, e))
holds_sound (some buf) p e = ap some (bytes_eq_sound buf p e)

module _ (c : Chip) (r : WearLeveledRegion) (ok : IsRegion r) where
  pub read_slot_lem :
      (s : c.State) (k : ℕ) (p : List ℕ)
      → k < max_slots r
      → IsPayload r p
      → IsStored r (c.read s) k p
      → read_slot c r s k ≡ some p
  unfolding read_slot
  read_slot_lem s k p h wf stored =
      let at = slot_addr r k in
      let small : at + r.payload_len + 2 ≤ 2 ^ 24 =
        omega (arith, slot_fits r k ok h, ok.addressable) in
      let buf : read_bytes c s at r.payload_len ≡ p =
        read_bytes_eq c s at r.payload_len p (omega arith) wf.sized stored.payload in
      let lo : get_or (read_bytes c s (at + r.payload_len) 2) 0 0 ≡ le16_lo (crc16_xmodem p) =
        get_or-read_bytes c s (at + r.payload_len) 2 0 (omega arith) (omega arith)
        ∙ ap (c.read s) {x = at + r.payload_len + 0} {y = at + r.payload_len} (omega arith)
        ∙ stored.low in
      let hi : get_or (read_bytes c s (at + r.payload_len) 2) 1 0 ≡ le16_hi (crc16_xmodem p) =
        get_or-read_bytes c s (at + r.payload_len) 2 1 (omega arith) (omega arith) ∙ stored.high in
      let same : (from_le16 (le16_lo (crc16_xmodem p)) (le16_hi (crc16_xmodem p)) == crc16_xmodem p)
          ≡ true =
        ap (λ (w : ℕ). w == crc16_xmodem p)
          (from_le16-le16 (crc16_xmodem p) (crc16_xmodem-lt p wf.byted))
        ∙ ==_refl (crc16_xmodem p) in
      rw (buf, lo, hi, same)

  pub write_slot_read :
      (s : c.State) (k : ℕ) (p : List ℕ)
      → k < max_slots r
      → IsPayload r p
      → (a : ℕ)
      → c.read (write_slot c r s k p) a
        ≡ programmed
            (programmed (c.read s) (slot_addr r k) p)
            (slot_addr r k + r.payload_len)
            (le16_lo (crc16_xmodem p) ∷ le16_hi (crc16_xmodem p) ∷ [])
            a
  unfolding write_slot
  write_slot_read s k p h wf a =
      let at = slot_addr r k in
      let small : at + r.payload_len + 2 ≤ 2 ^ 24 =
        omega (arith, slot_fits r k ok h, ok.addressable) in
      let sized : length p ≡ r.payload_len = wf.sized in
      let crc = le16_lo (crc16_xmodem p) ∷ le16_hi (crc16_xmodem p) ∷ [] in
      write_bytes_lem c (write_bytes c s at p) (at + r.payload_len) crc (omega arith) a
      ∙ programmed_ext (c.read (write_bytes c s at p)) (programmed (c.read s) at p)
          (at + r.payload_len) crc a (write_bytes_lem c s at p (omega arith) a)

  pub write_slot_else :
      (s : c.State) (k : ℕ) (p : List ℕ)
      → k < max_slots r
      → IsPayload r p
      → (a : ℕ) → (a < slot_addr r k) ⊎ (slot_addr r k + r.payload_len + 2 ≤ a)
      → c.read (write_slot c r s k p) a ≡ c.read s a
  write_slot_else s k p h wf a (inl below) = write_slot_read s k p h wf a ∙ ground (arith, wf.sized)
  write_slot_else s k p h wf a (inr above) = write_slot_read s k p h wf a ∙ ground (arith, wf.sized)

  pub write_slot-IsStored :
      (s : c.State) (k : ℕ) (p : List ℕ)
      → k < max_slots r
      → IsPayload r p
      → ((a : ℕ) → slot_addr r k ≤ a → a < sector_end r → c.read s a ≡ 0xFF)
      → IsStored r (c.read (write_slot c r s k p)) k p
  write_slot-IsStored s k p h wf free =
      let at = slot_addr r k in
      let n = r.payload_len in
      let sized : length p ≡ n = wf.sized in
      let fits : at + n + 2 ≤ sector_end r = slot_fits r k ok h in
      let lo = le16_lo (crc16_xmodem p) in
      let hi = le16_hi (crc16_xmodem p) in
      record {
        payload = λ i lt.
            write_slot_read s k p h wf (at + i)
            ∙ ground (
              arith,
              free (at + i) (omega arith) (omega arith),
              ap (λ (x : ℕ). get_or p x 0) {x = at + i - at} {y = i} (omega arith),
              blank_table (get_or p i 0) (get_or-IsByte p i wf.byted),
            );
        low =
            write_slot_read s k p h wf (at + n)
            ∙ ground (
              arith,
              free (at + n) (omega arith) (omega arith),
              blank_table lo (omega arith),
              ap (λ (x : ℕ). get_or (lo ∷ hi ∷ []) x 0) {x = at + n - (at + n)} {y = 0}
                  (omega arith),
            );
        high =
            write_slot_read s k p h wf (at + n + 1)
            ∙ ground (
              arith,
              free (at + n + 1) (omega arith) (omega arith),
              blank_table hi (omega arith),
              ap (λ (x : ℕ). get_or (lo ∷ hi ∷ []) x 0) {x = at + n + 1 - (at + n)} {y = 1}
                  (omega arith),
            );
      }

  pub write_marker_read :
      (s : c.State) (k : ℕ)
      → k < max_slots r
      → (a : ℕ)
      → c.read (write_marker c r s k) a ≡ (
          if a == r.base_addr + k / 8
          then bit_and (c.read s a) (get_or clear_mask (k % 8) 0)
          else c.read s a)
  unfolding write_marker
  write_marker_read s k h a =
      let at = r.base_addr + k / 8 in
      let bits = get_or clear_mask (k % 8) 0 in
      write_bytes_lem c s at (bits ∷ [])
        (omega (arith, ok.bitmap, ok.fits, ok.addressable, ok.one_scan)) a
      ∙ ground (arith, ap (λ (x : ℕ). get_or (bits ∷ []) x 0) {x = at - at} {y = 0} (omega arith))
