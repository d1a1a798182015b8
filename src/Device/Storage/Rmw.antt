-- ===== src/Device/Storage/Rmw.antt =====
-- Rewriting one record of a sector through the scratch sector.
use bf_k61_firmware_aura.Prelude.{
  ℕ, zero, suc, ◌+◌, ◌-◌, ◌*◌, ◌/◌, ◌%◌, ◌^◌, ◌<◌, ◌≤◌, ◌≡◌, refl, ap, ◌∙◌, min, max, List, [], ◌∷◌,
  ◌++◌, false, ◌≢◌, ◌&&◌, arith, length, length-take, length-drop, length-append, take, drop,
  get_or, get_or-take, get_or-drop, All, ltb, leb, if◌then◌else◌, Bool-cases, inl, inr,
}
use bf_k61_firmware_aura.Crc.{IsByte, get_or-IsByte}
use bf_k61_firmware_aura.Drivers.NorFlash.{Chip, page_size, sector_size, erase_sector}
use bf_k61_firmware_aura.Drivers.NorFlash.Program.{erase_sector_lem}
use bf_k61_firmware_aura.Device.Storage.{
  splice, patch_page, same_page, copy_pages, pages, rmw_sector_record, rmw_scratch_addr,
}
use bf_k61_firmware_aura.Device.Storage.Copy.{IsPatch, IsApart, copy_pages_lem}

pub get_or-append :
    (xs ys : List ℕ) (i : ℕ)
    → get_or (xs ++ ys) i 0
      ≡ (if ltb i (length xs) then get_or xs i 0 else get_or ys (i - length xs) 0)
get_or-append [] ys i =
    ap (λ (k : ℕ). get_or ys k 0) {x = i} {y = i - 0} (omega arith) ∙ ground arith
get_or-append (x ∷ xs) ys zero = ground arith
get_or-append (x ∷ xs) ys (suc i) =
    get_or-append xs ys i
    ∙ ground (
      arith,
      ap (λ (k : ℕ). get_or ys k 0) {x = i - length xs} {y = suc i - suc (length xs)} (omega arith),
    )

length-splice :
    (page : List ℕ) (at : ℕ) (bytes : List ℕ)
    → at + length bytes ≤ length page
    → length (splice page at bytes) ≡ length page
unfolding splice
length-splice page at bytes fits = omega (
  arith,
  length-append (take at page) (bytes ++ drop (at + length bytes) page),
  length-append bytes (drop (at + length bytes) page),
  length-take at page,
  length-drop (at + length bytes) page,
)

get_or-splice :
    (page : List ℕ) (at : ℕ) (bytes : List ℕ) (i : ℕ)
    → at + length bytes ≤ length page
    → get_or (splice page at bytes) i 0
      ≡ (if leb at i && ltb i (at + length bytes) then get_or bytes (i - at) 0 else get_or page i 0)
unfolding splice
get_or-splice page at bytes i fits =
    let rest = drop (at + length bytes) page in
    let l : length (take at page) ≡ at = omega (arith, length-take at page) in
    get_or-append (take at page) (bytes ++ rest) i
    ∙ ap
        (λ (n : ℕ). if ltb i n then get_or (take at page) i 0 else get_or (bytes ++ rest) (i - n) 0)
        l
    ∙ ground (
      arith,
      get_or-take at i page 0,
      get_or-append bytes rest (i - at),
      get_or-drop (at + length bytes) (i - at - length bytes) page 0,
      ap (λ (k : ℕ). get_or page k 0) {x = at + length bytes + (i - at - length bytes)} {y = i},
    )

-- The byte of the sector at offset `x` with the record in place.
unfoldable pub patched : ℕ → List ℕ → ℕ → ℕ → ℕ
patched record_off new_record x old =
    if leb record_off x && ltb x (record_off + length new_record)
    then get_or new_record (x - record_off) 0
    else old

module _ (record_off : ℕ) (new_record : List ℕ) where
  -- The bytes of the record that lie in the page at `off`.
  overlap : ℕ → List ℕ
  overlap off =
      take (min (record_off + length new_record) (off + page_size) - max record_off off)
        (drop (max record_off off - record_off) new_record)

  length-overlap :
      (off : ℕ)
      → record_off < off + page_size
      → off < record_off + length new_record
      → max record_off off + length (overlap off)
        ≡ min (record_off + length new_record) (off + page_size)
  unfolding overlap
  length-overlap off before after =
      let from = max record_off off - record_off in
      let n = min (record_off + length new_record) (off + page_size) - max record_off off in
      omega (arith, length-take n (drop from new_record), length-drop from new_record)

  get_or-patch_page :
      (page : List ℕ) (off i : ℕ)
      → length page ≡ page_size
      → i < page_size
      → get_or (patch_page record_off new_record page off) i 0
        ≡ patched record_off new_record (off + i) (get_or page i 0)
  unfolding patch_page patched overlap
  get_or-patch_page page off i l below =
      let record_end = record_off + length new_record in
      let at = max record_off off - off in
      let from = max record_off off - record_off in
      let n = min record_end (off + page_size) - max record_off off in
      elim (Bool-cases (ltb record_off (off + page_size) && ltb off record_end)) [
        | inl here ↦
            let size = length-overlap off (ground (arith, here)) (ground (arith, here)) in
            rw here (
              get_or-splice page at (overlap off) i (omega (arith, size, l))
              ∙ ground (
                arith,
                here,
                size,
                get_or-take n (i - at) (drop from new_record) 0,
                get_or-drop from (i - at) new_record 0,
                ap (λ (k : ℕ). get_or new_record k 0) {x = from + (i - at)}
                    {y = off + i - record_off},
              ))
        | inr elsewhere ↦ rw elsewhere (ground (arith, elsewhere))
      ]

  length-patch_page :
      (page : List ℕ) (off : ℕ)
      → length page ≡ page_size
      → length (patch_page record_off new_record page off) ≡ page_size
  unfolding patch_page overlap
  length-patch_page page off l =
      let record_end = record_off + length new_record in
      elim (Bool-cases (ltb record_off (off + page_size) && ltb off record_end)) [
        | inl here ↦
            let size = length-overlap off (ground (arith, here)) (ground (arith, here)) in
            rw here (
              length-splice page (max record_off off - off) (overlap off) (omega (arith, size, l))
              ∙ l)
        | inr elsewhere ↦ rw elsewhere l
      ]

  patch_page-IsPatch :
      All IsByte new_record
      → IsPatch (patch_page record_off new_record) (patched record_off new_record)
  unfolding patched
  patch_page-IsPatch bytes = record {
    sized = length-patch_page;
    byted = λ x old h. ground (arith, get_or-IsByte new_record (x - record_off) bytes);
    wanted = get_or-patch_page;
  }

abbrev kept : ℕ → ℕ → ℕ
kept x old = old

same_page-IsPatch : IsPatch same_page kept
unfolding same_page
same_page-IsPatch = record {
  sized = λ page off l. l;
  byted = λ x old h. h;
  wanted = λ page off i l below. refl;
}

-- A record that lies in one sector, which is not the scratch sector.
pub record IsRecord (addr : ℕ) (new_record : List ℕ) : Type 0 where
  pub byted : All IsByte new_record
  pub inside : addr % sector_size + length new_record ≤ sector_size
  pub addressable : addr < 2 ^ 24
  pub no_scratch : addr / sector_size ≢ rmw_scratch_addr / sector_size

module _ (c : Chip) (s : c.State) (addr : ℕ) (new_record : List ℕ)
    (ok : IsRecord addr new_record) where
  abbrev base : ℕ
  base = addr / sector_size * sector_size

  apart : IsApart base rmw_scratch_addr
  apart = ground (arith, ok.no_scratch)

  staged : c.State
  staged =
      copy_pages c (patch_page (addr - base) new_record) base rmw_scratch_addr (pages c)
        (erase_sector c s rmw_scratch_addr) 0

  erased_sector :
      (t : c.State) (sector a : ℕ)
      → sector < 2 ^ 24
      → sector % sector_size ≡ 0
      → c.read (erase_sector c t sector) a
        ≡ (if leb sector a && ltb a (sector + sector_size) then 0xFF else c.read t a)
  erased_sector t sector a low aligned = erase_sector_lem c t sector low a ∙ ground arith

  -- The scratch sector holds the patched sector, and nothing else has changed.
  staged_lem :
      (a : ℕ)
      → c.read staged a ≡ (
          if leb rmw_scratch_addr a && ltb a (rmw_scratch_addr + sector_size)
          then patched
              (addr - base)
              new_record
              (a - rmw_scratch_addr)
              (c.read s (base + (a - rmw_scratch_addr)))
          else c.read s a)
  unfolding staged
  staged_lem a =
      let clean = erase_sector c s rmw_scratch_addr in
      let wiped = λ (b : ℕ). erased_sector s rmw_scratch_addr b (omega arith) refl in
      copy_pages_lem c (patch_page (addr - base) new_record) (patched (addr - base) new_record)
        (patch_page-IsPatch (addr - base) new_record ok.byted) (pages c) clean base rmw_scratch_addr
        0 (omega (arith, ok.addressable)) (omega arith) (omega arith) apart
        (λ b above below. wiped b ∙ ground arith) a
      ∙ ground (
        arith,
        wiped a,
        λ (h : a - rmw_scratch_addr < sector_size).
            ap (patched (addr - base) new_record (a - rmw_scratch_addr))
              (source (a - rmw_scratch_addr) h),
      )
    where
      source :
          (x : ℕ)
          → x < sector_size
          → c.read (erase_sector c s rmw_scratch_addr) (base + x) ≡ c.read s (base + x)
      source x h =
          erased_sector s rmw_scratch_addr (base + x) (omega arith) refl ∙ ground (arith, apart)

  restored :
      (x : ℕ)
      → x < sector_size
      → c.read (erase_sector c staged base) (rmw_scratch_addr + x)
        ≡ patched (addr - base) new_record x (c.read s (base + x))
  restored x h =
      erased_sector staged base (rmw_scratch_addr + x) (omega (arith, ok.addressable)) (omega arith)
      ∙ ground (arith, apart)
      ∙ staged_lem (rmw_scratch_addr + x)
      ∙ ground arith
      ∙ ap (λ (y : ℕ). patched (addr - base) new_record y (c.read s (base + y)))
          {x = rmw_scratch_addr + x - rmw_scratch_addr} {y = x} (omega arith)

  in_place :
      (a : ℕ)
      → base ≤ a
      → a - base < sector_size
      → patched (addr - base) new_record (a - base) (c.read s (base + (a - base))) ≡ (
          if leb addr a && ltb a (addr + length new_record)
          then get_or new_record (a - addr) 0
          else c.read s a)
  unfolding patched
  in_place a above below = ground (
    arith,
    ap (λ (k : ℕ). get_or new_record k 0) {x = a - base - (addr - base)} {y = a - addr}
        (omega arith),
    ap (c.read s) {x = base + (a - base)} {y = a} (omega arith),
  )

  untouched :
      (a : ℕ)
      → (leb base a && ltb a (base + sector_size)) ≡ false
      → a / sector_size ≢ rmw_scratch_addr / sector_size
      → c.read (erase_sector c staged base) a ≡ c.read s a
  untouched a outside elsewhere =
      let no_scratch : (leb rmw_scratch_addr a && ltb a (rmw_scratch_addr + sector_size)) ≡ false =
        ground (arith, elsewhere) in
      erased_sector staged base a (omega (arith, ok.addressable)) (omega arith)
      ∙ rw outside (staged_lem a ∙ rw no_scratch refl)

  -- After a record is rewritten it stands at its address, and no other byte has changed outside
  -- the scratch sector.
  pub rmw_sector_record_lem :
      (a : ℕ)
      → a / sector_size ≢ rmw_scratch_addr / sector_size
      → c.read (rmw_sector_record c s addr new_record) a ≡ (
          if leb addr a && ltb a (addr + length new_record)
          then get_or new_record (a - addr) 0
          else c.read s a)
  unfolding rmw_sector_record staged
  rmw_sector_record_lem a elsewhere =
      let erased = erase_sector c staged base in
      let wiped =
        λ (b : ℕ). erased_sector staged base b (omega (arith, ok.addressable)) (omega arith) in
      copy_pages_lem c same_page kept same_page-IsPatch (pages c) erased rmw_scratch_addr base 0
        (omega arith) (omega (arith, ok.addressable)) (omega arith) (ground (arith, apart))
        (λ b above below. wiped b ∙ ground arith) a
      ∙ elim (Bool-cases (leb base a && ltb a (base + sector_size))) [
        | inl inside ↦
            let x = a - base in
            let h : x < sector_size = ground (arith, inside) in
            ground (arith, inside, restored x h ∙ in_place a (ground (arith, inside)) h)
        | inr outside ↦
            let far : (leb (base + 0) a && ltb a (base + 0 + pages c * page_size)) ≡ false =
              ground (arith, outside) in
            let no_record : (leb addr a && ltb a (addr + length new_record)) ≡ false =
              ground (arith, outside, ok.inside) in
            rw (far, no_record) (untouched a outside elsewhere)
      ]
