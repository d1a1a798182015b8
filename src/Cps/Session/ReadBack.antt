-- ===== src/Cps/Session/ReadBack.antt =====
-- What a host writes in a session (src/cps/mod.rs handle_write) and reads again (handle_read).
use bf_k61_firmware_aura.Prelude.{
  ℕ, zero, suc, ◌*◌, ◌≡◌, refl, ap, ◌∙◌, min, List, [], ◌∷◌, ◌++◌, arith, some, All, length, get_or,
  drop, replicate,
}
use bf_k61_firmware_aura.Prelude.Words.{
  span, drop-span_of, from_le16, le16_lo, le16_hi, le16_lo-from, le16_hi-from,
}
use bf_k61_firmware_aura.Crc.{IsByte}
use bf_k61_firmware_aura.Drivers.NorFlash.{Chip}
use bf_k61_firmware_aura.FlashMap.Settings
use bf_k61_firmware_aura.FlashMap.Settings.{u8_as_bool, bool_as_u8, pairs, unpairs}
use bf_k61_firmware_aura.FlashMap.Settings.Sanitised
use bf_k61_firmware_aura.Hal.WearLeveled.Layout.{IsRegion}
use bf_k61_firmware_aura.Hal.WearLeveled.Save.{IsReady, load-save}
use bf_k61_firmware_aura.Device.Storage.{
  Storage, vfo_region, settings_region, vfo_info_addr, load_vfo_raw, save_vfo_raw,
}
use bf_k61_firmware_aura.Device.Storage.Records.{
  settings_region-IsRegion, load_settings-save_settings,
}
use bf_k61_firmware_aura.Cps.Session.Edited.{
  boot_tune-IsValid, boot_text-IsValid, battery_cal-IsValid,
}
use bf_k61_firmware_aura.Cps.Session.{
  boot_text_addr, boot_tune_addr, battery_cal_addr, unwrap_or, settings_or_default, with_boot_text,
  with_boot_tune, with_battery_cal, with_settings, read_region, write_region,
}

-- A boot tune of 48 pairs is its 96 bytes.
unpairs_shift :
    (p : ℕ × ℕ) (xs : List (ℕ × ℕ)) (i n : ℕ) → unpairs (p ∷ xs) (suc i) n ≡ unpairs xs i n
unpairs_shift p xs i zero = refl
unpairs_shift p xs i (suc n) =
    ap (λ l. (get_or xs i (0, 0)).0 ∷ (get_or xs i (0, 0)).1 ∷ l) (unpairs_shift p xs (suc i) n)

pairs_shift :
    (a b : ℕ) (bytes : List ℕ) (i n : ℕ) → pairs (a ∷ b ∷ bytes) (suc (suc i)) n ≡ pairs bytes i n
pairs_shift a b bytes i zero = refl
pairs_shift a b bytes i (suc n) =
    ap (λ l. (get_or bytes i 0, get_or bytes (suc i) 0) ∷ l) (pairs_shift a b bytes (suc (suc i)) n)

unpairs-pairs :
    (n : ℕ) (bytes : List ℕ) → length bytes ≡ 2 * n → unpairs (pairs bytes 0 n) 0 n ≡ bytes
unpairs-pairs zero [] h = refl
unpairs-pairs zero (a ∷ bytes) h = absurd (omega arith)
unpairs-pairs (suc n) [] h = absurd (omega arith)
unpairs-pairs (suc n) (a ∷ []) h = absurd (omega arith)
unpairs-pairs (suc n) (a ∷ b ∷ bytes) h =
    ap (λ l. a ∷ b ∷ l)
      (unpairs_shift (a, b) (pairs (a ∷ b ∷ bytes) 2 n) 0 n
        ∙ ap (λ l. unpairs l 0 n) (pairs_shift a b bytes 0 n)
        ∙ unpairs-pairs n bytes (omega arith))

word_kept :
    (bytes : List ℕ)
    → All IsByte bytes
    → length bytes ≡ 2
    → le16_lo (from_le16 (get_or bytes 0 0) (get_or bytes 1 0))
        ∷ le16_hi (from_le16 (get_or bytes 0 0) (get_or bytes 1 0))
        ∷ []
      ≡ bytes
word_kept [] v h = absurd (omega arith)
word_kept (a ∷ []) v h = absurd (omega arith)
word_kept (a ∷ b ∷ []) v h = rw (le16_lo-from a b v.0) (rw (le16_hi-from a b v.0 v.1.0))
word_kept (a ∷ b ∷ d ∷ bytes) v h = absurd (omega arith)

-- Two lines of 16 characters are 32 characters.
lines_kept :
    (bytes : List ℕ) → length bytes ≡ 34 → span bytes 2 16 ++ span bytes 18 16 ≡ drop 2 bytes
lines_kept bytes h = drop-span_of 0 bytes 2 32 (omega (arith, h))

pub vfo_region-IsRegion : IsRegion vfo_region
vfo_region-IsRegion = record {
  aligned = refl;
  addressable = omega arith;
  two_slots = omega arith;
  one_scan = omega arith;
  fits = omega arith;
  bitmap = omega arith;
}

module _ (c : Chip) (st : Storage c) where
  abbrev pub current : Settings.Settings
  current = settings_or_default c st.flash

  -- Settings that are stored are the ones that a handler loads next.
  loads_next :
      (settings : Settings.Settings)
      → IsReady c settings_region settings_region-IsRegion st.flash
      → Sanitised.IsValid settings
      → All IsByte (Settings.to_bytes settings)
      → settings_or_default c (with_settings c st settings).flash ≡ settings
  unfolding unwrap_or
  loads_next settings ready valid bytes =
      rw (load_settings-save_settings c st.flash settings ready valid bytes).0

  -- `written` is accepted at an address, and `read` is read there next.
  abbrev pub Reads : ℕ → List ℕ → List ℕ → Type 0
  Reads addr written read =
      (after : Storage c) × (write_region c st addr written ≡ some after)
      × (read_region c after.flash addr ≡ some read)

  vfo_Reads :
      (bytes : List ℕ)
      → IsReady c vfo_region vfo_region-IsRegion st.flash
      → All IsByte bytes
      → length bytes ≡ 64
      → Reads vfo_info_addr bytes bytes
  unfolding read_region write_region save_vfo_raw load_vfo_raw unwrap_or
  vfo_Reads bytes ready v size =
      let saved =
        load-save c vfo_region vfo_region-IsRegion st.flash bytes ready
          (record { sized = size; byted = v }) in
      (
        record st { flash = save_vfo_raw c st.flash bytes },
        rw size,
        ap (λ o. some (unwrap_or (replicate 64 0xFF) o)) saved.0,
      )

  tune_Reads :
      (bytes : List ℕ)
      → IsReady c settings_region settings_region-IsRegion st.flash
      → Sanitised.IsValid current
      → All IsByte (Settings.to_bytes (with_boot_tune current bytes))
      → length bytes ≡ 96
      → Reads boot_tune_addr bytes bytes
  unfolding read_region write_region
  tune_Reads bytes ready valid fits size =
      let settings = with_boot_tune current bytes in
      let next = loads_next settings ready (boot_tune-IsValid current bytes valid) fits in
      (
        with_settings c st settings,
        rw size,
        ap (λ (s : Settings.Settings). some (unpairs s.boot_tune 0 48)) next
            ∙ unfold with_boot_tune in ap some (unpairs-pairs 48 bytes size),
      )

  battery_Reads :
      (bytes : List ℕ)
      → IsReady c settings_region settings_region-IsRegion st.flash
      → Sanitised.IsValid current
      → All IsByte (Settings.to_bytes (with_battery_cal current bytes))
      → length bytes ≡ 2
      → All IsByte bytes
      → Reads battery_cal_addr bytes bytes
  unfolding read_region write_region
  battery_Reads bytes ready valid fits size b =
      let settings = with_battery_cal current bytes in
      let next = loads_next settings ready (battery_cal-IsValid current bytes b valid) fits in
      (
        with_settings c st settings,
        rw size,
        ap
              (λ (s : Settings.Settings).
                some (le16_lo s.battery_cal_raw ∷ le16_hi s.battery_cal_raw ∷ []))
              next
            ∙ ap some (unfold with_battery_cal in word_kept bytes b size),
      )

  text_Reads :
      (bytes : List ℕ)
      → IsReady c settings_region settings_region-IsRegion st.flash
      → Sanitised.IsValid current
      → All IsByte (Settings.to_bytes (with_boot_text current bytes))
      → length bytes ≡ 34
      → Reads boot_text_addr bytes
          (min (get_or bytes 0 0) 3 ∷ bool_as_u8 (u8_as_bool (get_or bytes 1 0)) ∷ drop 2 bytes)
  unfolding read_region write_region
  text_Reads bytes ready valid fits size =
      let settings = with_boot_text current bytes in
      let next = loads_next settings ready (boot_text-IsValid current bytes valid) fits in
      (
        with_settings c st settings,
        rw size,
        ap
              (λ (s : Settings.Settings). some (
                s.boot_display_mode
                ∷ bool_as_u8 s.boot_sound_enabled
                ∷ (s.boot_text_line1 ++ s.boot_text_line2)))
              next
            ∙ unfold with_boot_text in
              ap
                (λ l.
                  some (min (get_or bytes 0 0) 3 ∷ bool_as_u8 (u8_as_bool (get_or bytes 1 0)) ∷ l))
                (lines_kept bytes size),
      )

  -- The VFO record of 64 bytes, the boot tune of 96, the battery calibration of 2 and the boot texts
  -- of 34 that a host writes are accepted, and read back as they were written; of the boot texts,
  -- the first byte is read back as 3 if it was above, and the second as 1 if it was not 0. The
  -- sectors are ready, as every save leaves them, the settings are in range, as everything read
  -- from the flash is, and what is saved fits its bytes.
  pub read_region-write_region :
      (vfo tune battery text : List ℕ)
      → IsReady c vfo_region vfo_region-IsRegion st.flash
      → IsReady c settings_region settings_region-IsRegion st.flash
      → Sanitised.IsValid current
      → (All IsByte vfo) × (length vfo ≡ 64)
      → (All IsByte (Settings.to_bytes (with_boot_tune current tune))) × (length tune ≡ 96)
      → (All IsByte (Settings.to_bytes (with_battery_cal current battery)))
        × (length battery ≡ 2)
        × (All IsByte battery)
      → (All IsByte (Settings.to_bytes (with_boot_text current text))) × (length text ≡ 34)
      → Reads vfo_info_addr vfo vfo
        × Reads boot_tune_addr tune tune
        × Reads battery_cal_addr battery battery
        × Reads boot_text_addr text
            (min (get_or text 0 0) 3 ∷ bool_as_u8 (u8_as_bool (get_or text 1 0)) ∷ drop 2 text)
  read_region-write_region vfo tune battery text vfo_ready ready valid (v, vs) (t, ts) (b, bs, bb)
        (x, xs) =
      (
        vfo_Reads vfo vfo_ready v vs,
        tune_Reads tune ready valid t ts,
        battery_Reads battery ready valid b bs bb,
        text_Reads text ready valid x xs,
      )
