-- ===== src/Drivers/NorFlash.antt =====
-- src/drivers/norflash.rs: reading, programming and erasing the external SPI NOR flash.
-- The chip itself is no code of the repository: it is the parameter `Chip`, of which the driver
-- relies on what the data sheets of such chips say.
pub mod Program
pub mod Ideal
use bf_k61_firmware_aura.Prelude.{
  ℕ, zero, suc, ◌+◌, ◌-◌, ◌/◌, ◌%◌, ◌^◌, ◌≤◌, ◌<◌, ◌≡◌, min, bit_and, List, [], ◌∷◌, ◌&&◌, length,
  take, drop, get_or, leb, ltb, ◌==◌, if◌then◌else◌,
}

-- Programming can only clear bits: a byte under the data becomes the `and` of old and new.
abbrev pub programmed : (ℕ → ℕ) → ℕ → List ℕ → ℕ → ℕ
programmed m addr bytes a =
    if leb addr a && ltb a (addr + length bytes)
    then bit_and (m a) (get_or bytes (a - addr) 0)
    else m a

abbrev pub page_size : ℕ
page_size = 256

abbrev pub sector_size : ℕ
sector_size = 4096

-- A NOR flash chip: a page program that stays in its page, and a sector erase, once the chip has
-- become ready again.
pub record Chip : Type 1 where
  pub State : Type 0
  pub read : State → ℕ → ℕ
  pub program : State → ℕ → List ℕ → State
  pub erase : State → ℕ → State
  pub read-lt : (s : State) (a : ℕ) → read s a < 256
  pub read-program :
      (s : State) (addr : ℕ) (bytes : List ℕ)
      → addr % page_size + length bytes ≤ page_size
      → (a : ℕ) → read (program s addr bytes) a ≡ programmed (read s) addr bytes a
  pub read-erase :
      (s : State) (addr a : ℕ)
      → read (erase s addr) a ≡ (if a / sector_size == addr / sector_size then 0xFF else read s a)

-- The three address bytes that `send_addr24` sends.
abbrev pub addr24 : ℕ → ℕ
addr24 addr = addr % 2 ^ 24

module _ (c : Chip) where
  -- One data byte for each byte clocked out, from consecutive addresses.
  unfoldable pub read_from : c.State → ℕ → ℕ → List ℕ
  read_from s addr zero = []
  read_from s addr (suc n) = c.read s addr ∷ read_from s (suc addr) n

  unfoldable pub read_bytes : c.State → ℕ → ℕ → List ℕ
  unfolding read_from
  read_bytes s addr n = read_from s (addr24 addr) n

  unfoldable pub write_page : c.State → ℕ → List ℕ → c.State
  write_page s addr bytes = c.program s (addr24 addr) bytes

  -- The `while` loop of `write_bytes`, with fuel.
  unfoldable pub write_chunks : ℕ → c.State → ℕ → List ℕ → c.State
  unfolding write_page
  write_chunks zero s addr bytes = s
  write_chunks (suc fuel) s addr [] = s
  write_chunks (suc fuel) s addr (b ∷ bytes) =
      let chunk_len = min (page_size - addr % page_size) (length (b ∷ bytes)) in
      write_chunks fuel (write_page s addr (take chunk_len (b ∷ bytes))) (addr + chunk_len)
        (drop chunk_len (b ∷ bytes))

  -- Each round writes a byte at least, so `data.len()` rounds are enough.
  unfoldable pub write_bytes : c.State → ℕ → List ℕ → c.State
  unfolding write_chunks
  write_bytes s addr bytes = write_chunks (length bytes) s addr bytes

  unfoldable pub erase_sector : c.State → ℕ → c.State
  erase_sector s addr = c.erase s (addr24 addr)
