-- ===== src/Drivers/NorFlash/Program.antt =====
-- What a write does to the memory, however its data lie across the pages.
use bf_k61_firmware_aura.Prelude.{
  ℕ, zero, suc, ◌+◌, ◌-◌, ◌/◌, ◌%◌, ◌^◌, ◌≤◌, ◌<◌, ◌≡◌, refl, sym, ap, ap₂, ◌∙◌, min, List, [], ◌∷◌,
  arith, length, length-take, length-drop, take, drop, get_or, get_or-take, get_or-drop, ◌==◌,
  if◌then◌else◌,
}
use bf_k61_firmware_aura.Drivers.NorFlash.{
  Chip, programmed, page_size, sector_size, addr24, read_from, read_bytes, write_page, write_chunks,
  write_bytes, erase_sector,
}

programmed_split :
    (m : ℕ → ℕ) (addr n : ℕ) (bytes : List ℕ)
    → n ≤ length bytes
    → (a : ℕ)
    → programmed (programmed m addr (take n bytes)) (addr + n) (drop n bytes) a
      ≡ programmed m addr bytes a
programmed_split m addr n bytes h a = ground (
  arith,
  length-take n bytes,
  length-drop n bytes,
  get_or-take n (a - addr) bytes 0,
  get_or-drop n (a - (addr + n)) bytes 0,
  ap (λ (k : ℕ). get_or bytes k 0) {x = n + (a - (addr + n))} {y = a - addr},
)

pub programmed_ext :
    (m m' : ℕ → ℕ) (addr : ℕ) (bytes : List ℕ) (a : ℕ)
    → m a ≡ m' a
    → programmed m addr bytes a ≡ programmed m' addr bytes a
programmed_ext m m' addr bytes a e = rw e

module _ (c : Chip) where
  write_chunks_lem :
      (fuel : ℕ) (s : c.State) (addr : ℕ) (bytes : List ℕ)
      → length bytes ≤ fuel
      → addr + length bytes ≤ 2 ^ 24
      → (a : ℕ) → c.read (write_chunks c fuel s addr bytes) a ≡ programmed (c.read s) addr bytes a
  unfolding write_chunks
  write_chunks_lem zero s addr [] h fits a = ground arith
  write_chunks_lem zero s addr (b ∷ bytes) h fits a = absurd (omega arith)
  write_chunks_lem (suc fuel) s addr [] h fits a = ground arith
  write_chunks_lem (suc fuel) s addr (b ∷ bytes) h fits a =
      let all = b ∷ bytes in
      let n = min (page_size - addr % page_size) (length all) in
      let low : addr24 addr ≡ addr = omega arith in
      let in_page : addr24 addr % page_size + length (take n all) ≤ page_size =
        omega (arith, length-take n all) in
      write_chunks_lem fuel (write_page c s addr (take n all)) (addr + n) (drop n all)
        (omega (arith, length-drop n all)) (omega (arith, length-drop n all)) a
      ∙ programmed_ext (c.read (write_page c s addr (take n all)))
          (programmed (c.read s) addr (take n all)) (addr + n) (drop n all) a
          (unfold write_page in
            (c.read-program s (addr24 addr) (take n all) in_page a
              ∙ ap (λ k. programmed (c.read s) k (take n all) a) low))
      ∙ programmed_split (c.read s) addr n all (omega arith) a

  -- Below the end of the address space a write of any length, however it lies across the pages,
  -- changes exactly the bytes under the data, each to the `and` of its old value and the data.
  pub write_bytes_lem :
      (s : c.State) (addr : ℕ) (bytes : List ℕ)
      → addr + length bytes ≤ 2 ^ 24
      → (a : ℕ) → c.read (write_bytes c s addr bytes) a ≡ programmed (c.read s) addr bytes a
  unfolding write_bytes
  write_bytes_lem s addr bytes fits a =
      write_chunks_lem (length bytes) s addr bytes (omega arith) fits a

  pub erase_sector_lem :
      (s : c.State) (addr : ℕ)
      → addr < 2 ^ 24
      → (a : ℕ)
      → c.read (erase_sector c s addr) a
        ≡ (if a / sector_size == addr / sector_size then 0xFF else c.read s a)
  unfolding erase_sector
  erase_sector_lem s addr h a =
      c.read-erase s (addr24 addr) a
      ∙ ap (λ (k : ℕ). if a / sector_size == k / sector_size then 0xFF else c.read s a)
          {x = addr24 addr} {y = addr} (omega arith)

  read_from_eq :
      (s : c.State) (addr n : ℕ) (bytes : List ℕ)
      → length bytes ≡ n
      → ((i : ℕ) → i < n → c.read s (addr + i) ≡ get_or bytes i 0)
      → read_from c s addr n ≡ bytes
  unfolding read_from
  read_from_eq s addr zero [] l h = refl
  read_from_eq s addr zero (b ∷ bytes) l h = absurd (omega arith)
  read_from_eq s addr (suc n) [] l h = absurd (omega arith)
  read_from_eq s addr (suc n) (b ∷ bytes) l h =
      ap₂ ◌∷◌ (ap (c.read s) {x = addr} {y = addr + 0} (omega arith) ∙ h 0 (omega arith)) (
        read_from_eq s (suc addr) n bytes (omega arith) (λ i lt.
          ap (c.read s) {x = suc addr + i} {y = addr + suc i} (omega arith)
          ∙ h (suc i) (omega arith)))

  -- A read returns the bytes that stand at the addresses, in order.
  pub read_bytes_eq :
      (s : c.State) (addr n : ℕ) (bytes : List ℕ)
      → addr < 2 ^ 24
      → length bytes ≡ n
      → ((i : ℕ) → i < n → c.read s (addr + i) ≡ get_or bytes i 0)
      → read_bytes c s addr n ≡ bytes
  unfolding read_bytes
  read_bytes_eq s addr n bytes small l h =
      ap (λ k. read_from c s k n) {x = addr24 addr} {y = addr} (omega arith)
      ∙ read_from_eq s addr n bytes l h

  length-read_from : (s : c.State) (addr n : ℕ) → length (read_from c s addr n) ≡ n
  unfolding read_from
  length-read_from s addr zero = refl
  length-read_from s addr (suc n) = ap suc (length-read_from s (suc addr) n)

  pub length-read_bytes : (s : c.State) (addr n : ℕ) → length (read_bytes c s addr n) ≡ n
  unfolding read_bytes
  length-read_bytes s addr n = length-read_from s (addr24 addr) n

  get_or-read_from :
      (s : c.State) (addr n j : ℕ) → j < n → get_or (read_from c s addr n) j 0 ≡ c.read s (addr + j)
  unfolding read_from
  get_or-read_from s addr zero j h = absurd (omega arith)
  get_or-read_from s addr (suc n) zero h = ap (c.read s) {x = addr} {y = addr + 0} (omega arith)
  get_or-read_from s addr (suc n) (suc j) h =
      get_or-read_from s (suc addr) n j (omega arith)
      ∙ ap (c.read s) {x = suc addr + j} {y = addr + suc j} (omega arith)

  pub get_or-read_bytes :
      (s : c.State) (addr n j : ℕ)
      → addr < 2 ^ 24
      → j < n
      → get_or (read_bytes c s addr n) j 0 ≡ c.read s (addr + j)
  unfolding read_bytes
  get_or-read_bytes s addr n j small h =
      get_or-read_from s (addr24 addr) n j h
      ∙ ap (λ (k : ℕ). c.read s (k + j)) {x = addr24 addr} {y = addr} (omega arith)

  read_from_ext :
      (s t : c.State) (addr n : ℕ)
      → ((i : ℕ) → i < n → c.read s (addr + i) ≡ c.read t (addr + i))
      → read_from c s addr n ≡ read_from c t addr n
  unfolding read_from
  read_from_ext s t addr zero h = refl
  read_from_ext s t addr (suc n) h =
      ap₂ ◌∷◌
        (ap (c.read s) {x = addr} {y = addr + 0} (omega arith)
          ∙ h 0 (omega arith)
          ∙ ap (c.read t) {x = addr + 0} {y = addr} (omega arith))
        (read_from_ext s t (suc addr) n (λ i lt.
          ap (c.read s) {x = suc addr + i} {y = addr + suc i} (omega arith)
          ∙ h (suc i) (omega arith)
          ∙ ap (c.read t) {x = addr + suc i} {y = suc addr + i} (omega arith)))

  -- Two chips with the same bytes there read the same.
  pub read_bytes_ext :
      (s t : c.State) (addr n : ℕ)
      → addr < 2 ^ 24
      → ((i : ℕ) → i < n → c.read s (addr + i) ≡ c.read t (addr + i))
      → read_bytes c s addr n ≡ read_bytes c t addr n
  unfolding read_bytes
  read_bytes_ext s t addr n small h =
      let low : addr24 addr ≡ addr = omega arith in
      ap (λ k. read_from c s k n) low
      ∙ read_from_ext s t addr n h
      ∙ sym (ap (λ k. read_from c t k n) low)
