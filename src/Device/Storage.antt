-- ===== src/Device/Storage.antt =====
-- src/device/storage.rs: the records of the application in the external flash.
-- `Storage` holds the flash and what a write session of the host has erased so far.
pub mod Copy
pub mod Rmw
pub mod Records
pub mod Satellites
pub mod Calibration
use bf_k61_firmware_aura.Prelude.{
  ℕ, zero, suc, ◌+◌, ◌-◌, ◌*◌, ◌/◌, ◌%◌, ◌^◌, ◌<◌, ◌≤◌, min, max, bit_and, bit_or, List, [], ◌∷◌,
  ◌++◌, Bool, true, false, ◌&&◌, ◌||◌, Option, none, some, length, take, drop, get_or, replicate,
  ltb, leb, ◌==◌, if◌then◌else◌,
}
use bf_k61_firmware_aura.Prelude.Words.{span, from_le16, le16_lo, le16_hi}
use bf_k61_firmware_aura.App.Convert.{Power, high, mid, low}
use bf_k61_firmware_aura.Drivers.NorFlash.{
  Chip, page_size, sector_size, read_bytes, write_bytes, erase_sector,
}
use bf_k61_firmware_aura.Hal.WearLeveled.{WearLeveledRegion, load, save, bytes_eq}
use bf_k61_firmware_aura.FlashMap.Channel
use bf_k61_firmware_aura.FlashMap.Contact
use bf_k61_firmware_aura.FlashMap.Contact.{all_erased}
use bf_k61_firmware_aura.FlashMap.Sat
use bf_k61_firmware_aura.FlashMap.Settings
use bf_k61_firmware_aura.FlashMap.Settings.{settings_bytes}

-- The addresses of `flash_map::addr`.
abbrev pub chan_addr : ℕ
chan_addr = 0x0000

abbrev pub chan_size : ℕ
chan_size = 32

abbrev pub vfo_info_addr : ℕ
vfo_info_addr = 0x8000

abbrev pub radio_imfos_addr : ℕ
radio_imfos_addr = 0x9000

abbrev pub dtmfinfor_addr : ℕ
dtmfinfor_addr = 0xA000

abbrev pub dtmf_code_addr : ℕ
dtmf_code_addr = 0xA020

abbrev pub contact_size : ℕ
contact_size = 16

abbrev pub first_boot_marker_addr : ℕ
first_boot_marker_addr = 0xB000

abbrev pub fm_addr : ℕ
fm_addr = 0xC000

abbrev pub rmw_scratch_addr : ℕ
rmw_scratch_addr = 0xD000

abbrev pub systemran_addr : ℕ
systemran_addr = 0xE000

abbrev pub dev_batt_addr : ℕ
dev_batt_addr = 0xF200

abbrev pub boot_logo_addr : ℕ
boot_logo_addr = 0xC0000

abbrev pub boot_logo_size : ℕ
boot_logo_size = 1024

abbrev pub sat_addr : ℕ
sat_addr = 0xD0000

abbrev pub sstv_image_addr : ℕ
sstv_image_addr = 0xD1000

abbrev pub sstv_image_size : ℕ
sstv_image_size = 115_200

abbrev pub max_satellites : ℕ
max_satellites = 20

abbrev pub sat_record_size : ℕ
sat_record_size = 32

abbrev pub first_boot_magic : List ℕ
first_boot_magic = 65 ∷ 85 ∷ 82 ∷ 65 ∷ []

abbrev pub fm_channel_count : ℕ
fm_channel_count = 30

abbrev pub fm_payload_len : ℕ
fm_payload_len = fm_channel_count * 2

abbrev pub vfo_region : WearLeveledRegion
vfo_region = record { base_addr = vfo_info_addr; header_size = 16; payload_len = 64 }

abbrev pub settings_region : WearLeveledRegion
settings_region = record {
  base_addr = radio_imfos_addr;
  header_size = 16;
  payload_len = settings_bytes;
}

abbrev pub fm_region : WearLeveledRegion
fm_region = record { base_addr = fm_addr; header_size = 16; payload_len = fm_payload_len }

abbrev pub channel_state_region : WearLeveledRegion
channel_state_region = record { base_addr = systemran_addr; header_size = 16; payload_len = 8 }

unfoldable pub map_settings : Option (List ℕ) → Option Settings.Settings
map_settings none = none
map_settings (some b) = some (Settings.from_bytes b)

-- `chunks_exact(2)` and `u16::from_le_bytes`, for `n` words.
unfoldable pub words_from : ℕ → List ℕ → List ℕ
words_from zero buf = []
words_from (suc n) buf = from_le16 (get_or buf 0 0) (get_or buf 1 0) ∷ words_from n (drop 2 buf)

unfoldable pub bytes_from : List ℕ → List ℕ
bytes_from [] = []
bytes_from (v ∷ vs) = le16_lo v ∷ le16_hi v ∷ bytes_from vs

unfoldable pub map_words : Option (List ℕ) → Option (List ℕ)
unfolding words_from
map_words none = none
map_words (some buf) = some (words_from fm_channel_count buf)

-- The slices of `rmw_sector_record`: `bytes` in place of what stands in the page from `at` on.
unfoldable pub splice : List ℕ → ℕ → List ℕ → List ℕ
splice page at bytes = take at page ++ (bytes ++ drop (at + length bytes) page)

-- Patching one page, which starts at offset `off` of the sector.
unfoldable pub patch_page : ℕ → List ℕ → List ℕ → ℕ → List ℕ
unfolding splice
patch_page record_off new_record page off =
    let record_end = record_off + length new_record in
    let page_end = off + page_size in
    let lo = max record_off off in
    let hi = min record_end page_end in
    if ltb record_off page_end && ltb off record_end
    then splice page (lo - off) (take (hi - lo) (drop (lo - record_off) new_record))
    else page

unfoldable pub same_page : List ℕ → ℕ → List ℕ
same_page page off = page

-- The records of `load_satellites`, `n` of them.
unfoldable pub records_from : ℕ → List ℕ → List (Option Sat.SatRecord)
records_from zero buf = []
records_from (suc n) buf =
    Sat.from_bytes (take sat_record_size buf) ∷ records_from n (drop sat_record_size buf)

unfoldable pub pa_table_base : Power → ℕ
pa_table_base high = 0xF000
pa_table_base mid = 0xF040
pa_table_base low = 0xF080

unfoldable pub pa_calibration_addr : ℕ → Power → Option ℕ
pa_calibration_addr freq_hz power =
    let base = pa_table_base power in
    let mhz = freq_hz / 1_000_000 in
    if leb 400_000_000 freq_hz
    then some (base + (mhz - 400) / 10)
    else if leb 200_000_000 freq_hz
    then some (base + 0x20 + (mhz - 200) / 5)
    else if leb 130_000_000 freq_hz
    then some (base + 0x10 + min ((mhz - 130) / 3) 15)
    else none

pub record Storage (c : Chip) : Type 0 where
  pub flash : c.State
  pub channel_erased_mask : ℕ
  pub sat_erased : Bool

module _ (c : Chip) where
  unfoldable pub new : c.State → Storage c
  new norflash = record { flash = norflash; channel_erased_mask = 0; sat_erased = false }

  unfoldable pub load_settings : c.State → Option Settings.Settings
  unfolding map_settings
  load_settings s = map_settings (load c settings_region s)

  unfoldable pub save_settings : c.State → Settings.Settings → c.State
  save_settings s settings = save c settings_region s (Settings.to_bytes settings)

  unfoldable pub load_vfo_raw : c.State → Option (List ℕ)
  load_vfo_raw s = load c vfo_region s

  unfoldable pub save_vfo_raw : c.State → List ℕ → c.State
  save_vfo_raw s buf = save c vfo_region s buf

  unfoldable pub load_channel_state : c.State → Option (List ℕ)
  load_channel_state s = load c channel_state_region s

  unfoldable pub save_channel_state : c.State → List ℕ → c.State
  save_channel_state s buf = save c channel_state_region s buf

  unfoldable pub load_fm_channels : c.State → Option (List ℕ)
  unfolding map_words
  load_fm_channels s = map_words (load c fm_region s)

  unfoldable pub save_fm_channels : c.State → List ℕ → c.State
  unfolding bytes_from
  save_fm_channels s channels = save c fm_region s (bytes_from channels)

  -- Blank flash gives the built-in thresholds.
  unfoldable pub read_battery_calibration : c.State → List ℕ
  read_battery_calibration s =
      let buf = read_bytes c s dev_batt_addr 7 in
      if get_or buf 0 0 == 0x00 || get_or buf 0 0 == 0xFF
      then 130 ∷ 139 ∷ 147 ∷ 156 ∷ 165 ∷ 183 ∷ 0 ∷ []
      else buf

  unfoldable pub read_pa_byte : c.State → Option ℕ → Option ℕ
  read_pa_byte s none = none
  read_pa_byte s (some addr) = some (get_or (read_bytes c s addr 1) 0 0)

  unfoldable pub read_pa_calibration : c.State → ℕ → Power → Option ℕ
  unfolding read_pa_byte
  read_pa_calibration s freq_hz power = read_pa_byte s (pa_calibration_addr freq_hz power)

  unfoldable pub read_channel : c.State → ℕ → Channel.Channel
  read_channel s num = Channel.from_bytes (read_bytes c s (chan_addr + num * chan_size) chan_size)

  unfoldable pub is_channel_empty : c.State → ℕ → Bool
  is_channel_empty s num = all_erased (read_bytes c s (chan_addr + num * chan_size) chan_size)

  unfoldable pub reset_channel_write_session : Storage c → Storage c
  reset_channel_write_session st = record st { channel_erased_mask = 0 }

  unfoldable pub write_channel : Storage c → ℕ → Channel.Channel → Storage c
  write_channel st num channel =
      let addr = chan_addr + num * chan_size in
      let sector = addr / sector_size in
      let bit = 2 ^ sector % 256 in
      let ready =
        if bit_and st.channel_erased_mask bit == 0
        then record st {
          flash = erase_sector c st.flash (sector * sector_size);
          channel_erased_mask = bit_or st.channel_erased_mask bit;
        }
        else st in
      record ready { flash = write_bytes c ready.flash addr (Channel.to_bytes channel) }

  -- The two loops of `rmw_sector_record`, with `n` pages to go: a page at a time from one sector to
  -- another, with `patch` in between.
  unfoldable pub copy_pages : (List ℕ → ℕ → List ℕ) → ℕ → ℕ → ℕ → c.State → ℕ → c.State
  copy_pages patch source target zero s off = s
  copy_pages patch source target (suc n) s off =
      let page = read_bytes c s (source + off) page_size in
      copy_pages patch source target n (write_bytes c s (target + off) (patch page off))
        (off + page_size)

  abbrev pub pages : ℕ
  pages = sector_size / page_size

  unfoldable pub rmw_sector_record : c.State → ℕ → List ℕ → c.State
  unfolding copy_pages patch_page same_page
  rmw_sector_record s record_addr new_record =
      let sector_addr = record_addr / sector_size * sector_size in
      let record_off = record_addr - sector_addr in
      let clean = erase_sector c s rmw_scratch_addr in
      let staged =
        copy_pages (patch_page record_off new_record) sector_addr rmw_scratch_addr pages clean 0 in
      let erased = erase_sector c staged sector_addr in
      copy_pages same_page rmw_scratch_addr sector_addr pages erased 0

  unfoldable pub write_channel_rmw : c.State → ℕ → Channel.Channel → c.State
  unfolding rmw_sector_record
  write_channel_rmw s num channel =
      rmw_sector_record s (chan_addr + num * chan_size) (Channel.to_bytes channel)

  unfoldable pub read_contact : c.State → ℕ → Contact.Contact
  read_contact s idx =
      Contact.from_bytes (read_bytes c s (dtmf_code_addr + idx * contact_size) contact_size)

  unfoldable pub write_contact : c.State → ℕ → Contact.Contact → c.State
  unfolding rmw_sector_record
  write_contact s idx contact =
      rmw_sector_record s (dtmf_code_addr + idx * contact_size) (Contact.to_bytes contact)

  unfoldable pub has_sstv_image : c.State → Bool
  has_sstv_image s = get_or (read_bytes c s (sstv_image_addr + sstv_image_size) 1) 0 0 == 0x00

  -- `n` sectors from one on.
  unfoldable pub erase_sectors : ℕ → c.State → ℕ → c.State
  erase_sectors zero s sector = s
  erase_sectors (suc n) s sector = erase_sectors n (erase_sector c s sector) (sector + sector_size)

  unfoldable pub erase_sstv_sectors : c.State → c.State
  unfolding erase_sectors
  erase_sstv_sectors s =
      let start_sector = sstv_image_addr / sector_size * sector_size in
      let end = sstv_image_addr + sstv_image_size in
      let end_sector = (end + sector_size) / sector_size * sector_size in
      erase_sectors ((end_sector - start_sector) / sector_size) s start_sector

  unfoldable pub erase_sstv_image : c.State → c.State
  unfolding erase_sstv_sectors
  erase_sstv_image s =
      write_bytes c (erase_sstv_sectors s) (sstv_image_addr + sstv_image_size) (0x00 ∷ [])

  unfoldable pub write_sstv_chunk : c.State → ℕ → List ℕ → c.State
  write_sstv_chunk s offset bytes = write_bytes c s (sstv_image_addr + offset) bytes

  unfoldable pub factory_reset : c.State → c.State
  factory_reset s =
      erase_sector c (erase_sector c (erase_sector c s vfo_info_addr) radio_imfos_addr)
        systemran_addr

  unfoldable pub is_first_boot_done : c.State → Bool
  unfolding bytes_eq
  is_first_boot_done s = bytes_eq (read_bytes c s first_boot_marker_addr 4) first_boot_magic

  unfoldable pub mark_first_boot_done : c.State → c.State
  mark_first_boot_done s =
      write_bytes c (erase_sector c s first_boot_marker_addr) first_boot_marker_addr
        first_boot_magic

  unfoldable pub first_boot_format : c.State → c.State
  unfolding factory_reset erase_sstv_sectors
  first_boot_format s =
      let reset = factory_reset s in
      let dtmf = erase_sector c reset dtmfinfor_addr in
      let fm = erase_sector c dtmf fm_addr in
      let sat = erase_sector c fm sat_addr in erase_sstv_sectors (erase_sector c sat boot_logo_addr)

  unfoldable pub load_satellites : c.State → List (Option Sat.SatRecord)
  unfolding records_from
  load_satellites s =
      records_from max_satellites (read_bytes c s sat_addr (max_satellites * sat_record_size))

  -- The loop of `save_satellites` from slot `i` on.
  unfoldable pub write_slots : c.State → ℕ → List (Option Sat.SatRecord) → c.State
  write_slots s i [] = s
  write_slots s i (none ∷ sats) = write_slots s (i + 1) sats
  write_slots s i (some sat ∷ sats) =
      write_slots (write_bytes c s (sat_addr + i * sat_record_size) (Sat.to_bytes sat)) (i + 1) sats

  unfoldable pub save_satellites : c.State → List (Option Sat.SatRecord) → c.State
  unfolding write_slots
  save_satellites s sats =
      write_slots (erase_sector c s (sat_addr / sector_size * sector_size)) 0 sats

  unfoldable pub reset_sat_write_session : Storage c → Storage c
  reset_sat_write_session st = record st { sat_erased = false }

  unfoldable pub write_satellite : Storage c → ℕ → List ℕ → Storage c
  write_satellite st idx bytes =
      let record_addr = sat_addr + idx * sat_record_size in
      let ready = if st.sat_erased then st else record st {
        flash = erase_sector c st.flash (record_addr / sector_size * sector_size);
        sat_erased = true;
      } in
      record ready { flash = write_bytes c ready.flash record_addr bytes }

  unfoldable pub read_boot_logo_chunk : c.State → ℕ → ℕ → List ℕ
  read_boot_logo_chunk s offset n = read_bytes c s (boot_logo_addr + offset) n

  unfoldable pub read_boot_logo : c.State → List ℕ
  read_boot_logo s = read_bytes c s boot_logo_addr boot_logo_size

  unfoldable pub erase_boot_logo : c.State → c.State
  erase_boot_logo s = erase_sector c s boot_logo_addr

  unfoldable pub write_boot_logo_chunk : c.State → ℕ → List ℕ → c.State
  write_boot_logo_chunk s offset bytes = write_bytes c s (boot_logo_addr + offset) bytes

  unfoldable pub read_sstv_chunk : c.State → ℕ → ℕ → List ℕ
  read_sstv_chunk s offset n = read_bytes c s (sstv_image_addr + offset) n

  unfoldable pub read_raw : c.State → ℕ → ℕ → List ℕ
  read_raw s addr n = read_bytes c s addr n

  unfoldable pub read_calibration : c.State → List ℕ
  read_calibration s = read_bytes c s 0xF210 16

  unfoldable pub read_ani_raw : c.State → List ℕ
  read_ani_raw s = read_bytes c s dtmfinfor_addr 11
