-- ===== src/Device/Storage/Records.antt =====
-- Contacts and channels that are edited on the radio.
use bf_k61_firmware_aura.Prelude.{
  ℕ, ◌+◌, ◌-◌, ◌*◌, ◌/◌, ◌^◌, ◌<◌, ◌≤◌, ◌≡◌, ◌≢◌, refl, ap, ◌∙◌, List, ◌&&◌, arith, length, get_or,
  All, ltb, leb, ◌==◌, ==_iff, Bool-cases, if◌then◌else◌, ◌⊎◌, inl, inr, some,
}
use bf_k61_firmware_aura.Crc.{IsByte}
use bf_k61_firmware_aura.Drivers.NorFlash.{Chip, sector_size, read_bytes}
use bf_k61_firmware_aura.Drivers.NorFlash.Program.{read_bytes_eq, read_bytes_ext}
use bf_k61_firmware_aura.FlashMap.Channel
use bf_k61_firmware_aura.FlashMap.Channel.RoundTrip
use bf_k61_firmware_aura.FlashMap.Contact
use bf_k61_firmware_aura.FlashMap.Settings
use bf_k61_firmware_aura.FlashMap.Settings.Sanitised
use bf_k61_firmware_aura.Hal.WearLeveled.Layout.{IsRegion}
use bf_k61_firmware_aura.Hal.WearLeveled.Save.{IsReady, load-save}
use bf_k61_firmware_aura.Device.Storage.{
  chan_addr, chan_size, dtmf_code_addr, contact_size, rmw_scratch_addr, rmw_sector_record,
  read_channel, write_channel_rmw, read_contact, write_contact, settings_region, map_settings,
  load_settings, save_settings,
}
use bf_k61_firmware_aura.Device.Storage.Rmw.{IsRecord, rmw_sector_record_lem}

module _ (c : Chip) (s : c.State) (addr : ℕ) (bytes : List ℕ) (ok : IsRecord addr bytes) where
  -- A record rewritten reads back.
  read_own : read_bytes c (rmw_sector_record c s addr bytes) addr (length bytes) ≡ bytes
  read_own =
      read_bytes_eq c (rmw_sector_record c s addr bytes) addr (length bytes) bytes ok.addressable
        refl
        (λ i lt.
          rmw_sector_record_lem c s addr bytes ok (addr + i) (inside i lt)
          ∙ ground
              (arith, ap (λ (k : ℕ). get_or bytes k 0) {x = addr + i - addr} {y = i} (omega arith)))
    where
      inside :
          (i : ℕ) → i < length bytes → (addr + i) / sector_size ≢ rmw_scratch_addr / sector_size
      inside i lt e = ok.no_scratch (omega (arith, ok.inside, e))

  -- Another one stays.
  read_other :
      (other n : ℕ)
      → other + n ≤ 2 ^ 24
      → 0 < n
      → (other + n ≤ addr) ⊎ (addr + length bytes ≤ other)
      → (other + n ≤ rmw_scratch_addr) ⊎ (rmw_scratch_addr + sector_size ≤ other)
      → read_bytes c (rmw_sector_record c s addr bytes) other n ≡ read_bytes c s other n
  read_other other n low some_byte apart far =
      read_bytes_ext c (rmw_sector_record c s addr bytes) s other n (omega arith) (λ i lt.
        rmw_sector_record_lem c s addr bytes ok (other + i) (away i lt far) ∙ missed i lt apart)
    where
      away :
          (i : ℕ)
          → i < n
          → (other + n ≤ rmw_scratch_addr) ⊎ (rmw_scratch_addr + sector_size ≤ other)
          → (other + i) / sector_size ≢ rmw_scratch_addr / sector_size
      away i lt (inl below) e = omega arith
      away i lt (inr above) e = omega arith

      missed :
          (i : ℕ)
          → i < n
          → (other + n ≤ addr) ⊎ (addr + length bytes ≤ other)
          → (if leb addr (other + i) && ltb (other + i) (addr + length bytes)
              then get_or bytes (other + i - addr) 0
              else c.read s (other + i))
            ≡ c.read s (other + i)
      missed i lt (inl below) = ground arith
      missed i lt (inr above) = ground arith

contact-IsRecord :
    (idx : ℕ) (contact : Contact.Contact)
    → idx < 20
    → All IsByte (Contact.to_bytes contact)
    → IsRecord (dtmf_code_addr + idx * contact_size) (Contact.to_bytes contact)
unfolding Contact.to_bytes
contact-IsRecord idx contact h bytes = record {
  byted = bytes;
  inside = omega arith;
  addressable = omega arith;
  no_scratch = λ e. omega arith;
}

channel-IsRecord :
    (num : ℕ) (channel : Channel.Channel)
    → num < 1024
    → All IsByte (Channel.to_bytes channel)
    → IsRecord (chan_addr + num * chan_size) (Channel.to_bytes channel)
unfolding Channel.to_bytes
channel-IsRecord num channel h bytes = record {
  byted = bytes;
  inside = omega arith;
  addressable = omega arith;
  no_scratch = λ e. omega arith;
}

module _ (c : Chip) (s : c.State) where
  -- After a contact is saved in one of the 20 slots, that slot reads back as the contact, and the
  -- others read as before.
  pub read_contact-write_contact :
      (idx other : ℕ) (contact : Contact.Contact)
      → idx < 20
      → other < 20
      → Contact.IsValid contact
      → All IsByte (Contact.to_bytes contact)
      → read_contact c (write_contact c s idx contact) other
        ≡ (if other == idx then contact else read_contact c s other)
  unfolding read_contact write_contact Contact.to_bytes
  read_contact-write_contact idx other contact h low valid bytes =
      let at = dtmf_code_addr + idx * contact_size in
      let ok = contact-IsRecord idx contact h bytes in
      elim (Bool-cases (other == idx)) [
        | inl e ↦ rw e (
            rw ((==_iff other idx).0 e) (
              ap Contact.from_bytes (read_own c s at (Contact.to_bytes contact) ok)
              ∙ Contact.contact_from_bytes-to_bytes contact valid))
        | inr e ↦ rw e (
            ap Contact.from_bytes (
              read_other c s at (Contact.to_bytes contact) ok
                (dtmf_code_addr + other * contact_size) contact_size (omega arith) (omega arith)
                (ground (arith, e)) (inl (omega arith))))
      ]

  -- After a channel is edited on the radio, it reads back as it was edited, and the other 1023
  -- channels read as before.
  pub read_channel-write_channel_rmw :
      (num other : ℕ) (channel : Channel.Channel)
      → num < 1024
      → other < 1024
      → RoundTrip.IsValid channel
      → All IsByte (Channel.to_bytes channel)
      → read_channel c (write_channel_rmw c s num channel) other
        ≡ (if other == num then channel else read_channel c s other)
  unfolding read_channel write_channel_rmw Channel.to_bytes
  read_channel-write_channel_rmw num other channel h low valid bytes =
      let at = chan_addr + num * chan_size in
      let ok = channel-IsRecord num channel h bytes in
      elim (Bool-cases (other == num)) [
        | inl e ↦ rw e (
            rw ((==_iff other num).0 e) (
              ap Channel.from_bytes (read_own c s at (Channel.to_bytes channel) ok)
              ∙ RoundTrip.channel_from_bytes-to_bytes channel valid))
        | inr e ↦ rw e (
            ap Channel.from_bytes (
              read_other c s at (Channel.to_bytes channel) ok (chan_addr + other * chan_size)
                chan_size (omega arith) (omega arith) (ground (arith, e)) (inl (omega arith))))
      ]

pub settings_region-IsRegion : IsRegion settings_region
settings_region-IsRegion = record {
  aligned = refl;
  addressable = omega arith;
  two_slots = omega arith;
  one_scan = omega arith;
  fits = omega arith;
  bitmap = omega arith;
}

length-settings_to_bytes :
    (settings : Settings.Settings) → length (Settings.to_bytes settings) ≡ 212
unfolding Settings.to_bytes
length-settings_to_bytes settings = refl

module _ (c : Chip) (s : c.State) where
  -- Settings in range that are saved to a sector that is ready are the settings that are loaded
  -- next, and the sector is ready again.
  pub load_settings-save_settings :
      (settings : Settings.Settings)
      → IsReady c settings_region settings_region-IsRegion s
      → Sanitised.IsValid settings
      → All IsByte (Settings.to_bytes settings)
      → (load_settings c (save_settings c s settings) ≡ some settings)
        × IsReady c settings_region settings_region-IsRegion (save_settings c s settings)
  unfolding load_settings save_settings map_settings
  load_settings-save_settings settings ready valid bytes =
      let saved =
        load-save c settings_region settings_region-IsRegion s (Settings.to_bytes settings) ready
          (record { sized = length-settings_to_bytes settings; byted = bytes }) in
      (
        ap map_settings saved.0 ∙ ap some (Sanitised.settings_from_bytes-to_bytes settings valid),
        saved.1,
      )
