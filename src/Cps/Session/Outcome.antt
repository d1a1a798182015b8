-- ===== src/Cps/Session/Outcome.antt =====
-- The two outcomes of a request (src/cps/mod.rs dispatch): an answer, or an error.
use bf_k61_firmware_aura.Prelude.{
  ℕ, ◌+◌, ◌*◌, ◌≡◌, refl, sym, List, [], Bool, true, false, ◌⊎◌, inl, inr, Option-cases, Bool-cases,
  ◌==◌, ==_iff, subst, ◌%◌, length, ltb, leb, ◌&&◌, ◌||◌, not, if◌then◌else◌,
}
use bf_k61_firmware_aura.Drivers.NorFlash.{Chip}
use bf_k61_firmware_aura.Device.Storage.{Storage, boot_logo_size, read_boot_logo_chunk, read_raw}
use bf_k61_firmware_aura.Cps.Session.{
  cmd_read, cmd_write, cmd_end, cmd_read_boot, cmd_read_logo, cmd_write_logo, cmd_sstv_erase,
  cmd_sstv_write, cmd_read_flash_raw, send_response, send_error, read_region, write_region,
  reply_read, reply_write, handle_read, handle_write,
}
use bf_k61_firmware_aura.Cps.Session.Dispatch.{
  handle_read_logo, handle_write_logo, handle_read_boot, handle_read_flash_raw, handle_sstv_erase,
  handle_sstv_write, dispatch, copy_from, bootloader_base, bootloader_len, bootloader_chunk,
  boot_logo_chunk, flash_chip_size, flash_raw_chunk, sstv_chunk,
}

module _ (c : Chip) (memory : ℕ → ℕ) (st : Storage c) (addr : ℕ) (bytes : List ℕ) where
  -- An answer with the command `cmd`, or an error with nothing stored.
  abbrev Answered : ℕ → Storage c × List ℕ → Type 0
  Answered cmd r =
      ((body : List ℕ) × (r.1 ≡ send_response cmd (if cmd == cmd_sstv_erase then 0 else addr) body))
      ⊎ ((code : ℕ) × (r.1 ≡ send_error addr code) × (r.0 ≡ st))

  read-Answered : Answered cmd_read (st, handle_read c st addr)
  unfolding handle_read reply_read
  read-Answered = elim (Option-cases (read_region c st.flash addr)) [
    | inl e ↦ inr (2, rw e, refl)
    | inr (body, e) ↦ inl (body, rw e)
  ]

  write-Answered : Answered cmd_write (handle_write c st addr bytes)
  unfolding handle_write reply_write
  write-Answered = elim (Option-cases (write_region c st addr bytes)) [
    | inl e ↦ inr (2, rw e, rw e)
    | inr (after, e) ↦ inl ([], rw e)
  ]

  read_boot-Answered : Answered cmd_read_boot (st, handle_read_boot c memory addr)
  unfolding handle_read_boot
  read_boot-Answered =
      elim (Bool-cases
        (not (addr % bootloader_chunk == 0) || ltb bootloader_len (addr + bootloader_chunk))) [
          | inl e ↦ rw e (inr (2, refl, refl))
          | inr e ↦ rw e (inl (copy_from memory (bootloader_base + addr) bootloader_chunk, refl))
        ]

  read_logo-Answered : Answered cmd_read_logo (st, handle_read_logo c st addr)
  unfolding handle_read_logo
  read_logo-Answered =
      elim (Bool-cases
        (not (addr % boot_logo_chunk == 0) || ltb boot_logo_size (addr + boot_logo_chunk))) [
          | inl e ↦ rw e (inr (2, refl, refl))
          | inr e ↦ rw e (inl (read_boot_logo_chunk c st.flash addr boot_logo_chunk, refl))
        ]

  write_logo-Answered : Answered cmd_write_logo (handle_write_logo c st addr bytes)
  unfolding handle_write_logo
  write_logo-Answered =
      elim (Bool-cases (
        (addr % boot_logo_chunk == 0 && length bytes == boot_logo_chunk)
        && leb (addr + boot_logo_chunk) boot_logo_size)) [
          | inl e ↦ rw e (inl ([], refl))
          | inr e ↦ rw e (inr (2, refl, refl))
        ]

  read_flash_raw-Answered : Answered cmd_read_flash_raw (st, handle_read_flash_raw c st addr)
  unfolding handle_read_flash_raw
  read_flash_raw-Answered =
      elim (Bool-cases (ltb flash_chip_size (addr * flash_raw_chunk + flash_raw_chunk))) [
        | inl e ↦ rw e (inr (2, refl, refl))
        | inr e ↦ rw e (inl (read_raw c st.flash (addr * flash_raw_chunk) flash_raw_chunk, refl))
      ]

  sstv_write-Answered : Answered cmd_sstv_write (handle_sstv_write c st addr bytes)
  unfolding handle_sstv_write
  sstv_write-Answered = elim (Bool-cases (length bytes == sstv_chunk)) [
    | inl e ↦ rw e (inl ([], refl))
    | inr e ↦ rw e (inr (3, refl, refl))
  ]

  -- One response is sent for each request: an answer that carries the command of the request, or an
  -- error for its address with nothing stored. The session ends at the end command and at no other.
  abbrev pub Outcome : ℕ → Storage c × List ℕ × Bool → Type 0
  Outcome cmd r = (r.2 ≡ (cmd == cmd_end)) × Answered cmd (r.0, r.1)

  Handled : ℕ → Type 0
  Handled cmd = Outcome cmd (dispatch c memory st cmd addr bytes)

  known : (cmd k : ℕ) → Handled k → (cmd == k) ≡ true → Handled cmd
  known cmd k o e = subst (λ (j : ℕ). Handled j) (sym ((==_iff cmd k).0 e)) o

  unknown :
      (cmd : ℕ)
      → (cmd == cmd_read) ≡ false
      → (cmd == cmd_write) ≡ false
      → (cmd == cmd_read_boot) ≡ false
      → (cmd == cmd_read_logo) ≡ false
      → (cmd == cmd_write_logo) ≡ false
      → (cmd == cmd_sstv_erase) ≡ false
      → (cmd == cmd_sstv_write) ≡ false
      → (cmd == cmd_read_flash_raw) ≡ false
      → (cmd == cmd_end) ≡ false
      → Handled cmd
  unfolding dispatch Handled
  unknown cmd n0 n1 n2 n3 n4 n5 n6 n7 n8 =
      rw n0
        (rw n1 (rw n2 (rw n3 (rw n4 (rw n5 (rw n6 (rw n7 (rw n8 (refl, inr (3, refl, refl))))))))))

  -- For every request, known or not, one response is sent: an answer that carries the command of
  -- the request and its address (0 for the erasure of an image), or an error for its address, and
  -- then nothing is stored. The session ends at the end command and at no other.
  pub dispatch-Outcome : (cmd : ℕ) → Outcome cmd (dispatch c memory st cmd addr bytes)
  unfolding dispatch handle_sstv_erase Handled
  dispatch-Outcome cmd = elim (Bool-cases (cmd == cmd_read)) [
    | inl e ↦ known cmd cmd_read (refl, read-Answered) e
    | inr n0 ↦ elim (Bool-cases (cmd == cmd_write)) [
      | inl e ↦ known cmd cmd_write (refl, write-Answered) e
      | inr n1 ↦ elim (Bool-cases (cmd == cmd_read_boot)) [
        | inl e ↦ known cmd cmd_read_boot (refl, read_boot-Answered) e
        | inr n2 ↦ elim (Bool-cases (cmd == cmd_read_logo)) [
          | inl e ↦ known cmd cmd_read_logo (refl, read_logo-Answered) e
          | inr n3 ↦ elim (Bool-cases (cmd == cmd_write_logo)) [
            | inl e ↦ known cmd cmd_write_logo (refl, write_logo-Answered) e
            | inr n4 ↦ elim (Bool-cases (cmd == cmd_sstv_erase)) [
              | inl e ↦ known cmd cmd_sstv_erase (refl, inl ([], refl)) e
              | inr n5 ↦ elim (Bool-cases (cmd == cmd_sstv_write)) [
                | inl e ↦ known cmd cmd_sstv_write (refl, sstv_write-Answered) e
                | inr n6 ↦ elim (Bool-cases (cmd == cmd_read_flash_raw)) [
                  | inl e ↦ known cmd cmd_read_flash_raw (refl, read_flash_raw-Answered) e
                  | inr n7 ↦ elim (Bool-cases (cmd == cmd_end)) [
                    | inl e ↦ known cmd cmd_end (refl, inl ([], refl)) e
                    | inr n8 ↦ unknown cmd n0 n1 n2 n3 n4 n5 n6 n7 n8
                  ]
                ]
              ]
            ]
          ]
        ]
      ]
    ]
  ]
