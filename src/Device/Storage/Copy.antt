-- ===== src/Device/Storage/Copy.antt =====
-- What copying a sector page by page leaves in the flash.
use bf_k61_firmware_aura.Prelude.{
  ℕ, zero, suc, ◌+◌, ◌-◌, ◌*◌, ◌^◌, ◌<◌, ◌≤◌, ◌≡◌, refl, ap, ◌∙◌, bit_and, List, ◌&&◌, arith,
  length, get_or, ltb, leb, if◌then◌else◌, Bool-cases, inl, inr, ◌⊎◌,
}
use bf_k61_firmware_aura.Crc.{IsByte}
use bf_k61_firmware_aura.Drivers.NorFlash.{Chip, page_size, sector_size, read_bytes, write_bytes}
use bf_k61_firmware_aura.Drivers.NorFlash.Program.{
  get_or-read_bytes, length-read_bytes, write_bytes_lem,
}
use bf_k61_firmware_aura.Hal.WearLeveled.Layout.{blank_table}
use bf_k61_firmware_aura.Device.Storage.{copy_pages}

-- A patch that keeps pages pages, and makes of the byte at offset `x` of the sector what `want` says.
pub record IsPatch (patch : List ℕ → ℕ → List ℕ) (want : ℕ → ℕ → ℕ) : Type 0 where
  pub sized :
      (page : List ℕ) (off : ℕ) → length page ≡ page_size → length (patch page off) ≡ page_size
  pub byted : (x old : ℕ) → IsByte old → IsByte (want x old)
  pub wanted :
      (page : List ℕ) (off i : ℕ)
      → length page ≡ page_size
      → i < page_size
      → get_or (patch page off) i 0 ≡ want (off + i) (get_or page i 0)

-- Sectors that do not overlap.
abbrev pub IsApart : ℕ → ℕ → Type 0
IsApart source target = (source + sector_size ≤ target) ⊎ (target + sector_size ≤ source)

module _ (c : Chip) (patch : List ℕ → ℕ → List ℕ) (want : ℕ → ℕ → ℕ) (ok : IsPatch patch want) where
  -- One page: the bytes that it covers.
  page_written :
      (s : c.State) (source target off : ℕ)
      → source + off + page_size ≤ 2 ^ 24
      → target + off + page_size ≤ 2 ^ 24
      → ((i : ℕ) → i < page_size → c.read s (target + off + i) ≡ 0xFF)
      → (a : ℕ)
      → c.read
          (write_bytes c s (target + off) (patch (read_bytes c s (source + off) page_size) off))
          a
        ≡ (if leb (target + off) a && ltb a (target + off + page_size)
            then want (a - target) (c.read s (source + (a - target)))
            else c.read s a)
  page_written s source target off low high blank a =
      let page = read_bytes c s (source + off) page_size in
      let l : length (patch page off) ≡ page_size =
        ok.sized page off (length-read_bytes c s (source + off) page_size) in
      write_bytes_lem c s (target + off) (patch page off) (omega arith) a
      ∙ ap
          (λ (n : ℕ).
            if leb (target + off) a && ltb a (target + off + n)
            then bit_and (c.read s a) (get_or (patch page off) (a - (target + off)) 0)
            else c.read s a)
          l
      ∙ elim (Bool-cases (leb (target + off) a && ltb a (target + off + page_size))) [
        | inl inside ↦ rw inside (covered a (ground (arith, inside)) (ground (arith, inside)))
        | inr outside ↦ rw outside refl
      ]
    where
      covered :
          (a : ℕ)
          → target + off ≤ a
          → a < target + off + page_size
          → bit_and
              (c.read s a)
              (get_or (patch (read_bytes c s (source + off) page_size) off) (a - (target + off)) 0)
            ≡ want (a - target) (c.read s (source + (a - target)))
      covered a above below =
          let page = read_bytes c s (source + off) page_size in
          let i = a - (target + off) in
          let was : c.read s a ≡ 0xFF =
            ap (c.read s) {x = a} {y = target + off + i} (omega arith) ∙ blank i (omega arith) in
          let old : get_or page i 0 ≡ c.read s (source + (a - target)) =
            get_or-read_bytes c s (source + off) page_size i (omega arith) (omega arith)
            ∙ ap (c.read s) {x = source + off + i} {y = source + (a - target)} (omega arith) in
          let value : get_or (patch page off) i 0
              ≡ want (a - target) (c.read s (source + (a - target))) =
            ok.wanted page off i (length-read_bytes c s (source + off) page_size) (omega arith)
            ∙ ap (λ (o : ℕ). want (off + i) o) old
            ∙ ap (λ (x : ℕ). want x (c.read s (source + (a - target)))) {x = off + i}
                {y = a - target} (omega arith) in
          ap (λ (b : ℕ). bit_and b (get_or (patch page off) i 0)) was
          ∙ ap (bit_and 0xFF) value
          ∙ blank_table (want (a - target) (c.read s (source + (a - target)))) (
              ok.byted (a - target) (c.read s (source + (a - target)))
                (c.read-lt s (source + (a - target))))

  -- `n` pages from offset `off` on.
  pub copy_pages_lem :
      (n : ℕ) (s : c.State) (source target off : ℕ)
      → source + off + n * page_size ≤ 2 ^ 24
      → target + off + n * page_size ≤ 2 ^ 24
      → off + n * page_size ≤ sector_size
      → IsApart source target
      → ((a : ℕ) → target + off ≤ a → a < target + off + n * page_size → c.read s a ≡ 0xFF)
      → (a : ℕ)
      → c.read (copy_pages c patch source target n s off) a ≡ (
          if leb (target + off) a && ltb a (target + off + n * page_size)
          then want (a - target) (c.read s (source + (a - target)))
          else c.read s a)
  unfolding copy_pages
  copy_pages_lem zero s source target off low high fits apart blank a = ground arith
  copy_pages_lem (suc n) s source target off low high fits apart blank a =
      let page = read_bytes c s (source + off) page_size in
      let next = write_bytes c s (target + off) (patch page off) in
      let first =
        page_written s source target off (omega arith) (omega arith)
          (λ i lt. blank (target + off + i) (omega arith) (omega arith)) in
      copy_pages_lem n next source target (off + page_size) (omega arith) (omega arith)
        (omega arith) apart
        (λ b above below. first b ∙ ground (arith, blank b (omega arith) (omega arith))) a
      ∙ again apart
    where
      again :
          IsApart source target
          → (if leb (target + (off + page_size)) a
                && ltb a (target + (off + page_size) + n * page_size)
              then want (a - target) (
                  c.read
                    (write_bytes c s
                      (target + off)
                      (patch (read_bytes c s (source + off) page_size) off))
                    (source + (a - target)))
              else c.read
                  (write_bytes c s
                    (target + off)
                    (patch (read_bytes c s (source + off) page_size) off))
                  a)
            ≡ (if leb (target + off) a && ltb a (target + off + suc n * page_size)
                then want (a - target) (c.read s (source + (a - target)))
                else c.read s a)
      again d =
          let first =
            page_written s source target off (omega arith) (omega arith)
              (λ i lt. blank (target + off + i) (omega arith) (omega arith)) in
          ground (
            arith,
            d,
            first a,
            first (source + (a - target)),
            ap (want (a - target)) (first (source + (a - target))),
          )
