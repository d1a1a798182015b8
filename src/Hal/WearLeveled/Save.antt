-- ===== src/Hal/WearLeveled/Save.antt =====
-- What `save` leaves behind: the record just saved, in a sector that can be saved to again.
use bf_k61_firmware_aura.Prelude.{
  ℕ, ◌+◌, ◌/◌, ◌%◌, ◌^◌, ◌≤◌, ◌<◌, ◌≡◌, refl, sym, ap, subst, ◌∙◌, bit_and, List, true, false, ◌&&◌,
  some, arith, get_or, leb, ltb, Bool-cases, inl, inr, ◌⊎◌,
}
use bf_k61_firmware_aura.Drivers.NorFlash.{Chip, sector_size, erase_sector}
use bf_k61_firmware_aura.Drivers.NorFlash.Program.{read_bytes_ext, erase_sector_lem}
use bf_k61_firmware_aura.Hal.WearLeveled.{
  WearLeveledRegion, first_set_bit, max_slots, scan_bytes, slot_addr, clear_mask, holds,
  find_free_slot, read_slot, write_slot, write_marker, load, has_room, save,
}
use bf_k61_firmware_aura.Hal.WearLeveled.Layout.{
  IsRegion, IsLaid, sector_end, find_free_slot_lem, marks_next, marks_first,
}
use bf_k61_firmware_aura.Hal.WearLeveled.Slots.{
  IsPayload, IsStored, IsStored-ext, next_slot, slot_fits, holds_sound, read_slot_lem,
  write_slot_else, write_slot-IsStored, write_marker_read,
}

module _ (c : Chip) (r : WearLeveledRegion) (ok : IsRegion r) where
  abbrev next_state : c.State → ℕ → List ℕ → c.State
  next_state s k p = write_marker c r (write_slot c r s (k + 1) p) k

  abbrev first_state : c.State → List ℕ → c.State
  first_state s p = write_slot c r (erase_sector c s r.base_addr) 0 p

  next_state-IsLaid :
      (s : c.State) (k : ℕ) (p : List ℕ)
      → k + 1 < max_slots r
      → IsLaid r (c.read s) k
      → IsPayload r p
      → IsLaid r (c.read (next_state s k p)) (k + 1)
  next_state-IsLaid s k p h laid wf =
      let mid = write_slot c r s (k + 1) p in
      let above : r.base_addr + r.header_size ≤ slot_addr r (k + 1) = omega arith in
      let mark : k / 8 < r.header_size = omega (arith, ok.bitmap) in
      record {
        current = h;
        marked = λ j lt.
            write_marker_read c r ok mid k (omega arith) (r.base_addr + j)
            ∙ ground (
              arith,
              write_slot_else c r ok s (k + 1) p h wf (r.base_addr + j)
                  (inl (omega (arith, ok.bitmap))),
              laid.marked j lt,
              marks_next k j,
              ap (λ (b : ℕ). bit_and b (get_or clear_mask (k % 8) 0)) (laid.marked j lt),
            );
        free = λ a low high.
            write_marker_read c r ok mid k (omega arith) a
            ∙ ground (
              arith,
              write_slot_else c r ok s (k + 1) p h wf a (inr (omega (arith, next_slot r (k + 1)))),
              laid.free a (omega (arith, next_slot r (k + 1))) high,
            );
      }

  next_state-IsStored :
      (s : c.State) (k : ℕ) (p : List ℕ)
      → k + 1 < max_slots r
      → IsLaid r (c.read s) k
      → IsPayload r p
      → IsStored r (c.read (next_state s k p)) (k + 1) p
  next_state-IsStored s k p h laid wf =
      let mid = write_slot c r s (k + 1) p in
      let mark : k / 8 < r.header_size = omega (arith, ok.bitmap) in
      IsStored-ext r (c.read mid) (c.read (next_state s k p)) (k + 1) p
        (λ a low. write_marker_read c r ok mid k (omega arith) a ∙ ground arith)
        (write_slot-IsStored c r ok s (k + 1) p h wf laid.free)

  erased :
      (s : c.State) (a : ℕ)
      → r.base_addr ≤ a
      → a < sector_end r
      → c.read (erase_sector c s r.base_addr) a ≡ 0xFF
  erased s a low high =
      erase_sector_lem c s r.base_addr (omega (arith, ok.addressable)) a
      ∙ ground (arith, ok.aligned)

  first_state-IsLaid :
      (s : c.State) (p : List ℕ) → IsPayload r p → IsLaid r (c.read (first_state s p)) 0
  first_state-IsLaid s p wf =
      let clean = erase_sector c s r.base_addr in
      record {
        current = omega (arith, ok.two_slots);
        marked = λ j lt.
            write_slot_else c r ok clean 0 p (omega (arith, ok.two_slots)) wf (r.base_addr + j)
              (inl (omega (arith, ok.bitmap)))
            ∙ erased s (r.base_addr + j) (omega arith) (omega (arith, ok.one_scan))
            ∙ sym (marks_first j);
        free = λ a low high.
            write_slot_else c r ok clean 0 p (omega (arith, ok.two_slots)) wf a
              (inr (omega (arith, next_slot r 0)))
            ∙ erased s a (omega arith) high;
      }

  load_lem :
      (s : c.State) (k : ℕ) (p : List ℕ)
      → IsLaid r (c.read s) k
      → IsPayload r p
      → IsStored r (c.read s) k p
      → load c r s ≡ some p
  unfolding load
  load_lem s k p laid wf stored =
      let found : find_free_slot c r s ≡ k = find_free_slot_lem c r s k ok laid in
      let full : leb (max_slots r) k ≡ false = ground (arith, laid.current) in
      rw (found, full) (read_slot_lem c r ok s k p laid.current wf stored)

  -- What `save` can run into: a sector that was erased or saved to, or one with no slot left.
  unfoldable pub IsReady : c.State → Type 0
  IsReady s = ((k : ℕ) × IsLaid r (c.read s) k) ⊎ (max_slots r ≤ find_free_slot c r s)

  abbrev Outcome : c.State → List ℕ → Type 0
  Outcome s p = ((k : ℕ) × IsLaid r (c.read s) k) × (load c r s ≡ some p)

  next-Outcome :
      (s : c.State) (k : ℕ) (p : List ℕ)
      → k + 1 < max_slots r
      → IsLaid r (c.read s) k
      → IsPayload r p
      → Outcome (next_state s k p) p
  next-Outcome s k p h laid wf =
      let laid' = next_state-IsLaid s k p h laid wf in
      (
        (k + 1, laid'),
        load_lem (next_state s k p) (k + 1) p laid' wf (next_state-IsStored s k p h laid wf),
      )

  first-Outcome : (s : c.State) (p : List ℕ) → IsPayload r p → Outcome (first_state s p) p
  first-Outcome s p wf =
      let laid' = first_state-IsLaid s p wf in
      (
        (0, laid'),
        load_lem (first_state s p) 0 p laid' wf (
            write_slot-IsStored c r ok (erase_sector c s r.base_addr) 0 p
              (omega (arith, ok.two_slots)) wf (λ a low high. erased s a (omega arith) high)),
      )

  -- `save` finds the payload in place, or takes the next slot, or starts again in an erased sector.
  save-branches :
      (s : c.State) (p : List ℕ)
      → (save c r s p ≡ s)
          × (find_free_slot c r s < max_slots r)
          × (holds (read_slot c r s (find_free_slot c r s)) p ≡ true)
        ⊎ (save c r s p ≡ next_state s (find_free_slot c r s) p)
          × (find_free_slot c r s + 1 < max_slots r)
        ⊎ (save c r s p ≡ first_state s p)
  unfolding save
  save-branches s p =
      let index = find_free_slot c r s in
      let kept = holds (read_slot c r s index) p in
      elim (Bool-cases (ltb index (max_slots r) && kept)) [
        | inl same ↦ inl (simp same refl, ground (arith, same), ground (arith, same))
        | inr other ↦ elim (Bool-cases (has_room c r index)) [
          | inl room ↦ inr (inl (simp (other, room) refl, ground (arith, room)))
          | inr full ↦ inr (inr (simp (other, full) refl))
        ]
      ]

  abbrev Saved : c.State → List ℕ → Type 0
  Saved s p = (load c r s ≡ some p) × IsReady s

  Outcome-Saved : (s t : c.State) (p : List ℕ) → s ≡ t → Outcome t p → Saved s p
  unfolding IsReady
  Outcome-Saved s t p e out = subst (λ (x : c.State). Saved x p) (sym e) (out.1, inl out.0)

  kept_lem :
      (s : c.State) (p : List ℕ)
      → find_free_slot c r s < max_slots r
      → holds (read_slot c r s (find_free_slot c r s)) p ≡ true
      → load c r s ≡ some p
  unfolding load
  kept_lem s p below same =
      let full : leb (max_slots r) (find_free_slot c r s) ≡ false = ground (arith, below) in
      rw full (holds_sound (read_slot c r s (find_free_slot c r s)) p same)

  ready-Outcome :
      (s : c.State) (p : List ℕ)
      → IsReady s
      → find_free_slot c r s + 1 < max_slots r
      → IsPayload r p
      → Outcome (next_state s (find_free_slot c r s) p) p
  unfolding IsReady
  ready-Outcome s p (inr full) room wf = absurd (omega arith)
  ready-Outcome s p (inl (k, laid)) room wf =
      let found = find_free_slot_lem c r s k ok laid in
      subst (λ (i : ℕ). Outcome (next_state s i p) p) (sym found)
        (next-Outcome s k p (omega arith) laid wf)

  -- A save to a sector that was erased, saved to or left without a free slot: the payload is what
  -- `load` finds next, and the sector is ready for the next save.
  pub load-save :
      (s : c.State) (p : List ℕ)
      → IsReady s
      → IsPayload r p
      → (load c r (save c r s p) ≡ some p) × IsReady (save c r s p)
  load-save s p ready wf = elim (save-branches s p) [
    | inl (e, below, same) ↦
        subst (λ (x : c.State). Saved x p) (sym e) (kept_lem s p below same, ready)
    | inr (inl (e, room)) ↦
        Outcome-Saved (save c r s p) (next_state s (find_free_slot c r s) p) p e
          (ready-Outcome s p ready room wf)
    | inr (inr e) ↦ Outcome-Saved (save c r s p) (first_state s p) p e (first-Outcome s p wf)
  ]

  outside_slot :
      (k : ℕ) (a : ℕ)
      → k < max_slots r
      → (a < r.base_addr) ⊎ (sector_end r ≤ a)
      → (a < slot_addr r k) ⊎ (slot_addr r k + r.payload_len + 2 ≤ a)
  outside_slot k a h (inl below) = inl (omega arith)
  outside_slot k a h (inr above) = inr (omega (arith, slot_fits r k ok h))

  next_elsewhere :
      (s : c.State) (k : ℕ) (p : List ℕ)
      → k + 1 < max_slots r
      → IsPayload r p
      → (a : ℕ) → (a < r.base_addr) ⊎ (sector_end r ≤ a)
      → c.read (next_state s k p) a ≡ c.read s a
  next_elsewhere s k p room wf a out =
      let fits : k / 8 < sector_size = omega (arith, ok.bitmap, ok.fits) in
      write_marker_read c r ok (write_slot c r s (k + 1) p) k (omega arith) a
      ∙ ground (
        arith,
        out,
        write_slot_else c r ok s (k + 1) p room wf a (outside_slot (k + 1) a room out),
      )

  first_elsewhere :
      (s : c.State) (p : List ℕ)
      → IsPayload r p
      → (a : ℕ) → (a < r.base_addr) ⊎ (sector_end r ≤ a)
      → c.read (first_state s p) a ≡ c.read s a
  first_elsewhere s p wf a out =
      let two : 0 < max_slots r = omega (arith, ok.two_slots) in
      write_slot_else c r ok (erase_sector c s r.base_addr) 0 p two wf a (outside_slot 0 a two out)
      ∙ erase_sector_lem c s r.base_addr (omega (arith, ok.addressable)) a
      ∙ ground (arith, out, ok.aligned)

  -- No byte outside the region's sector changes, whatever the sector holds.
  pub save_elsewhere :
      (s : c.State) (p : List ℕ)
      → IsPayload r p
      → (a : ℕ) → (a < r.base_addr) ⊎ (sector_end r ≤ a)
      → c.read (save c r s p) a ≡ c.read s a
  save_elsewhere s p wf a out = elim (save-branches s p) [
    | inl (e, below, same) ↦ ap (λ (x : c.State). c.read x a) e
    | inr (inl (e, room)) ↦
        ap (λ (x : c.State). c.read x a) e ∙ next_elsewhere s (find_free_slot c r s) p room wf a out
    | inr (inr e) ↦ ap (λ (x : c.State). c.read x a) e ∙ first_elsewhere s p wf a out
  ]

  read_slot_same :
      (s t : c.State) (k : ℕ)
      → k < max_slots r
      → ((a : ℕ) → a < slot_addr r k + r.payload_len + 2 → c.read t a ≡ c.read s a)
      → read_slot c r t k ≡ read_slot c r s k
  unfolding read_slot
  read_slot_same s t k h same =
      let fits : slot_addr r k + r.payload_len + 2 ≤ 2 ^ 24 =
        omega (arith, slot_fits r k ok h, ok.addressable) in
      let buf =
        read_bytes_ext c t s (slot_addr r k) r.payload_len (omega arith)
          (λ i lt. same (slot_addr r k + i) (omega arith)) in
      let crc =
        read_bytes_ext c t s (slot_addr r k + r.payload_len) 2 (omega arith)
          (λ i lt. same (slot_addr r k + r.payload_len + i) (omega arith)) in
      rw (buf, crc)

  find_free_slot_same :
      (s t : c.State)
      → ((a : ℕ) → a < r.base_addr + r.header_size → c.read t a ≡ c.read s a)
      → find_free_slot c r t ≡ find_free_slot c r s
  unfolding find_free_slot
  find_free_slot_same s t same = ap (first_set_bit 0) (
      read_bytes_ext c t s r.base_addr (scan_bytes r) (omega (arith, ok.addressable))
        (λ i lt. same (r.base_addr + i) (omega (arith, ok.bitmap))))

  load_same :
      (s t : c.State) (k : ℕ)
      → k < max_slots r
      → find_free_slot c r s ≡ k
      → ((a : ℕ) → a < slot_addr r k + r.payload_len + 2 → c.read t a ≡ c.read s a)
      → load c r t ≡ load c r s
  unfolding load
  load_same s t k h found same =
      let still = find_free_slot_same s t (λ a low. same a (omega arith)) ∙ found in
      rw (still, found, read_slot_same s t k h same)

  -- A save cut off before its marker leaves the old record in place.
  pub load_torn :
      (s : c.State) (k : ℕ) (p : List ℕ)
      → IsLaid r (c.read s) k
      → k + 1 < max_slots r
      → IsPayload r p
      → load c r (write_slot c r s (find_free_slot c r s + 1) p) ≡ load c r s
  load_torn s k p laid room wf =
      let found = find_free_slot_lem c r s k ok laid in
      load_same s (write_slot c r s (find_free_slot c r s + 1) p) k laid.current found (λ a low.
        ap (λ (i : ℕ). c.read (write_slot c r s (i + 1) p) a) found
        ∙ write_slot_else c r ok s (k + 1) p room wf a (inl (omega (arith, next_slot r k))))
