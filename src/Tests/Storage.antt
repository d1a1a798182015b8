-- ===== src/Tests/Storage.antt =====
-- The flash driver and the wear-leveled sector, on a chip of erased bytes.
use bf_k61_firmware_aura.Prelude.{
  ℕ, ◌+◌, ◌≡◌, refl, List, [], ◌∷◌, some, arith, All-replicate, replicate, inl,
}
use bf_k61_firmware_aura.Crc.{IsByte}
use bf_k61_firmware_aura.Drivers.NorFlash.{programmed, write_bytes}
use bf_k61_firmware_aura.Drivers.NorFlash.Ideal.{ideal_chip, blank}
use bf_k61_firmware_aura.Drivers.NorFlash.Program.{write_bytes_lem}
use bf_k61_firmware_aura.Hal.WearLeveled.{WearLeveledRegion, find_free_slot, write_slot, load, save}
use bf_k61_firmware_aura.Hal.WearLeveled.Layout.{IsRegion, IsLaid, marks_first}
use bf_k61_firmware_aura.Hal.WearLeveled.Slots.{IsPayload}
use bf_k61_firmware_aura.Hal.WearLeveled.Save.{IsReady, load-save, load_torn}

-- Data across two pages.
write_bytes_example :
    ideal_chip.read (write_bytes ideal_chip blank 254 (1 ∷ 2 ∷ 3 ∷ 4 ∷ [])) 257
    ≡ programmed (ideal_chip.read blank) 254 (1 ∷ 2 ∷ 3 ∷ 4 ∷ []) 257
write_bytes_example = write_bytes_lem ideal_chip blank 254 (1 ∷ 2 ∷ 3 ∷ 4 ∷ []) (omega arith) 257

-- `CHANNEL_STATE_REGION` of src/device/storage.rs.
abbrev region : WearLeveledRegion
region = record { base_addr = 0xE000; header_size = 16; payload_len = 8 }

region-IsRegion : IsRegion region
region-IsRegion = record {
  aligned = refl;
  addressable = omega arith;
  two_slots = omega arith;
  one_scan = omega arith;
  fits = omega arith;
  bitmap = omega arith;
}

blank-IsLaid : IsLaid region (ideal_chip.read blank) 0
blank-IsLaid = record {
  current = omega arith;
  marked = λ j lt. omega (arith, marks_first j);
  free = λ a low high. refl;
}

abbrev payload : List ℕ
payload = replicate 8 0x2A

payload-IsPayload : IsPayload region payload
payload-IsPayload = record { sized = refl; byted = All-replicate IsByte 8 0x2A (omega arith) }

blank-IsReady : IsReady ideal_chip region region-IsRegion blank
unfolding IsReady
blank-IsReady = inl (0, blank-IsLaid)

load-save_example :
    (load ideal_chip region (save ideal_chip region blank payload) ≡ some payload)
    × IsReady ideal_chip region region-IsRegion (save ideal_chip region blank payload)
load-save_example =
    load-save ideal_chip region region-IsRegion blank payload blank-IsReady payload-IsPayload

load_torn_example :
    load ideal_chip region
      (write_slot ideal_chip region blank (find_free_slot ideal_chip region blank + 1) payload)
    ≡ load ideal_chip region blank
load_torn_example =
    load_torn ideal_chip region region-IsRegion blank 0 payload blank-IsLaid (omega arith)
      payload-IsPayload
