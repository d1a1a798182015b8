-- ===== src/Cps/Session/Dispatch.antt =====
-- src/cps/mod.rs: the other handlers of a session, the choice between them, and the session's loop.
use bf_k61_firmware_aura.Prelude.{
  ℕ, zero, suc, ◌+◌, ◌*◌, ◌%◌, List, [], ◌∷◌, ◌++◌, Bool, true, false, ◌&&◌, ◌||◌, not, Option,
  none, some, length, take, ltb, leb, ◌==◌, if◌then◌else◌,
}
use bf_k61_firmware_aura.Cps.Frame.{FrameReader, FeedResult, pending, crc_error, feed}
use bf_k61_firmware_aura.Drivers.NorFlash.{Chip}
use bf_k61_firmware_aura.Device.Storage.{
  Storage, boot_logo_size, read_boot_logo_chunk, erase_boot_logo, write_boot_logo_chunk, read_raw,
  erase_sstv_image, write_sstv_chunk,
}
use bf_k61_firmware_aura.Cps.Session.{
  cmd_read, cmd_write, cmd_end, cmd_read_boot, cmd_read_logo, cmd_write_logo, cmd_sstv_erase,
  cmd_sstv_write, cmd_read_flash_raw, err_bad_crc, err_bad_addr, err_bad_len, idle_timeout_ms,
  send_response, send_error, handle_read, handle_write,
}

abbrev pub bootloader_base : ℕ
bootloader_base = 0x08000000

abbrev pub bootloader_len : ℕ
bootloader_len = 0x2000

abbrev pub bootloader_chunk : ℕ
bootloader_chunk = 32

abbrev pub boot_logo_chunk : ℕ
boot_logo_chunk = 64

abbrev pub flash_chip_size : ℕ
flash_chip_size = 0x200000

abbrev pub flash_raw_chunk : ℕ
flash_raw_chunk = 64

abbrev pub sstv_chunk : ℕ
sstv_chunk = 64

-- Bytes of the program memory, from an address on.
unfoldable pub copy_from : (ℕ → ℕ) → ℕ → ℕ → List ℕ
copy_from memory addr zero = []
copy_from memory addr (suc n) = memory addr ∷ copy_from memory (addr + 1) n

module _ (c : Chip) where
  unfoldable pub handle_read_logo : Storage c → ℕ → List ℕ
  handle_read_logo st offset =
      if not (offset % boot_logo_chunk == 0) || ltb boot_logo_size (offset + boot_logo_chunk)
      then send_error offset err_bad_addr
      else send_response cmd_read_logo offset
          (read_boot_logo_chunk c st.flash offset boot_logo_chunk)

  unfoldable pub handle_write_logo : Storage c → ℕ → List ℕ → Storage c × List ℕ
  handle_write_logo st offset bytes =
      if (offset % boot_logo_chunk == 0 && length bytes == boot_logo_chunk)
        && leb (offset + boot_logo_chunk) boot_logo_size
      then (let ready = if offset == 0 then erase_boot_logo c st.flash else st.flash in
          (
            record st { flash = write_boot_logo_chunk c ready offset bytes },
            send_response cmd_write_logo offset [],
          ))
      else (st, send_error offset err_bad_addr)

  unfoldable pub handle_read_boot : (ℕ → ℕ) → ℕ → List ℕ
  unfolding copy_from
  handle_read_boot memory offset =
      if not (offset % bootloader_chunk == 0) || ltb bootloader_len (offset + bootloader_chunk)
      then send_error offset err_bad_addr
      else send_response cmd_read_boot offset
          (copy_from memory (bootloader_base + offset) bootloader_chunk)

  unfoldable pub handle_read_flash_raw : Storage c → ℕ → List ℕ
  handle_read_flash_raw st wire_addr =
      if ltb flash_chip_size (wire_addr * flash_raw_chunk + flash_raw_chunk)
      then send_error wire_addr err_bad_addr
      else send_response cmd_read_flash_raw wire_addr
          (read_raw c st.flash (wire_addr * flash_raw_chunk) flash_raw_chunk)

  unfoldable pub handle_sstv_erase : Storage c → Storage c × List ℕ
  handle_sstv_erase st =
      (record st { flash = erase_sstv_image c st.flash }, send_response cmd_sstv_erase 0 [])

  unfoldable pub handle_sstv_write : Storage c → ℕ → List ℕ → Storage c × List ℕ
  handle_sstv_write st wire_addr bytes =
      if length bytes == sstv_chunk
      then (
        record st { flash = write_sstv_chunk c st.flash (wire_addr * sstv_chunk) bytes },
        send_response cmd_sstv_write wire_addr [],
      )
      else (st, send_error wire_addr err_bad_len)

  -- The `match frame.cmd`: the storage, what is sent, and whether the session ends.
  unfoldable pub dispatch : (ℕ → ℕ) → Storage c → ℕ → ℕ → List ℕ → Storage c × List ℕ × Bool
  unfolding handle_read_logo handle_write_logo handle_read_boot handle_read_flash_raw
      handle_sstv_erase handle_sstv_write
  dispatch memory st cmd addr bytes =
      if cmd == cmd_read
      then (st, handle_read c st addr, false)
      else if cmd == cmd_write
      then (let r = handle_write c st addr bytes in (r.0, r.1, false))
      else if cmd == cmd_read_boot
      then (st, handle_read_boot memory addr, false)
      else if cmd == cmd_read_logo
      then (st, handle_read_logo st addr, false)
      else if cmd == cmd_write_logo
      then (let r = handle_write_logo st addr bytes in (r.0, r.1, false))
      else if cmd == cmd_sstv_erase
      then (let r = handle_sstv_erase st in (r.0, r.1, false))
      else if cmd == cmd_sstv_write
      then (let r = handle_sstv_write st addr bytes in (r.0, r.1, false))
      else if cmd == cmd_read_flash_raw
      then (st, handle_read_flash_raw st addr, false)
      else if cmd == cmd_end
      then (st, send_response cmd_end addr [], true)
      else (st, send_error addr err_bad_len, false)

  -- `run_session`: waiting for bytes, or reset with what is stored.
  pub data Session : Type 0 where
    running : Storage c → FrameReader → ℕ → Session
    reset : Storage c → Session

  -- What `feed` delivers.
  unfoldable pub after_feed : (ℕ → ℕ) → Storage c → FrameReader → FeedResult → Session × List ℕ
  unfolding dispatch
  after_feed memory st reader pending = (running st reader 0, [])
  after_feed memory st reader (crc_error addr) = (running st reader 0, send_error addr err_bad_crc)
  after_feed memory st reader (FeedResult.frame f) =
      let r = dispatch memory st f.cmd f.addr (take f.len f.payload) in
      (if r.2 then reset r.0 else running r.0 reader 0, r.1)

  -- What is received in a round of the loop.
  unfoldable pub receive : (ℕ → ℕ) → Storage c → FrameReader → ℕ → Option ℕ → Session × List ℕ
  unfolding after_feed
  receive memory st reader idle_ms none = (running st reader idle_ms, [])
  receive memory st reader idle_ms (some byte) =
      let r = feed reader byte in after_feed memory st r.0 r.1

  -- A round of the loop: whether the millisecond timer has wrapped, and the byte that is there.
  unfoldable pub round : (ℕ → ℕ) → Session → Bool → Option ℕ → Session × List ℕ
  unfolding receive
  round memory (reset st) wrapped byte = (reset st, [])
  round memory (running st reader idle_ms) wrapped byte =
      let idle = if wrapped then idle_ms + 1 else idle_ms in
      if wrapped && leb idle_timeout_ms idle
      then (reset st, [])
      else receive memory st reader idle byte

  -- Rounds in a row, and all that is sent.
  unfoldable pub rounds : (ℕ → ℕ) → Session → List (Bool × Option ℕ) → Session × List ℕ
  rounds memory session [] = (session, [])
  rounds memory session (r ∷ rs) =
      let now = round memory session r.0 r.1 in
      let later = rounds memory now.0 rs in (later.0, now.1 ++ later.1)

  -- `run_preboot_dump_session`: the same loop, with two commands and no reset.
  unfoldable pub preboot_dispatch : Storage c → ℕ → ℕ → List ℕ × Bool
  unfolding handle_read_flash_raw
  preboot_dispatch st cmd addr =
      if cmd == cmd_read_flash_raw
      then (handle_read_flash_raw st addr, false)
      else if cmd == cmd_end
      then (send_response cmd_end addr [], true)
      else (send_error addr err_bad_len, false)
