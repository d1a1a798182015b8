-- ===== src/FlashMap/Channel.antt =====
-- src/flash_map.rs: `Channel`, the 32-byte channel record, with its flag accessors.
pub mod RoundTrip
pub mod Fields
use bf_k61_firmware_aura.Prelude.{
  ℕ, ◌+◌, ◌*◌, ◌/◌, ◌-◌, bit_and, bit_or, List, [], ◌∷◌, ◌++◌, Bool, not, Option, none, some,
  get_or, ltb, ◌==◌, if◌then◌else◌, min,
}
use bf_k61_firmware_aura.Prelude.Words.{span, from_le16, le16_lo, le16_hi, from_le32, le32}
use bf_k61_firmware_aura.FlashMap.Freq.{bcd4_to_deci_hz, deci_hz_to_bcd4}

abbrev pub name_size : ℕ
name_size = 12

abbrev pub contact_count : ℕ
contact_count = 20

pub record Channel : Type 0 where
  pub rx_freq_bcd : List ℕ
  pub tx_freq_bcd : List ℕ
  pub rx_dcs_cts_num : ℕ
  pub tx_dcs_cts_num : ℕ
  pub dtmf_group : ℕ
  pub ptt_id : ℕ
  pub tx_power : ℕ
  pub flags : ℕ
  pub decoder_code : ℕ
  pub name : List ℕ

unfoldable pub from_bytes : List ℕ → Channel
from_bytes buf = record {
  rx_freq_bcd = span buf 0 4;
  tx_freq_bcd = span buf 4 4;
  rx_dcs_cts_num = from_le16 (get_or buf 8 0) (get_or buf 9 0);
  tx_dcs_cts_num = from_le16 (get_or buf 10 0) (get_or buf 11 0);
  dtmf_group = get_or buf 12 0;
  ptt_id = get_or buf 13 0;
  tx_power = get_or buf 14 0;
  flags = get_or buf 15 0;
  decoder_code = from_le32 (get_or buf 16 0) (get_or buf 17 0) (get_or buf 18 0) (get_or buf 19 0);
  name = span buf 20 name_size;
}

-- The writes to `buf` are in ascending order and leave no gap.
unfoldable pub to_bytes : Channel → List ℕ
to_bytes c =
    span c.rx_freq_bcd 0 4
    ++ (span c.tx_freq_bcd 0 4
        ++ (le16_lo c.rx_dcs_cts_num
            ∷ le16_hi c.rx_dcs_cts_num
            ∷ le16_lo c.tx_dcs_cts_num
            ∷ le16_hi c.tx_dcs_cts_num
            ∷ c.dtmf_group
            ∷ c.ptt_id
            ∷ c.tx_power
            ∷ c.flags
            ∷ (le32 c.decoder_code ++ span c.name 0 name_size)))

unfoldable pub rx_freq_deci_hz : Channel → ℕ
rx_freq_deci_hz c = bcd4_to_deci_hz c.rx_freq_bcd

unfoldable pub set_rx_freq_deci_hz : Channel → ℕ → Channel
set_rx_freq_deci_hz c deci_hz = record c { rx_freq_bcd = deci_hz_to_bcd4 deci_hz }

unfoldable pub tx_freq_deci_hz : Channel → ℕ
tx_freq_deci_hz c = bcd4_to_deci_hz c.tx_freq_bcd

unfoldable pub set_tx_freq_deci_hz : Channel → ℕ → Channel
set_tx_freq_deci_hz c deci_hz = record c { tx_freq_bcd = deci_hz_to_bcd4 deci_hz }

-- `!mask` on a `u8` is `0xff - mask`.
abbrev pub set_flag : ℕ → ℕ → Bool → ℕ
set_flag flags mask on = if on then bit_or flags mask else bit_and flags (0xff - mask)

abbrev pub flag : ℕ → ℕ → Bool
flag flags mask = not (bit_and flags mask == 0)

unfoldable pub wide_narrow : Channel → Bool
wide_narrow c = flag c.flags 0x40

unfoldable pub set_wide_narrow : Channel → Bool → Channel
set_wide_narrow c narrow = record c { flags = set_flag c.flags 0x40 narrow }

unfoldable pub sp_mute : Channel → ℕ
sp_mute c = bit_and (c.flags / 16) 0x03

unfoldable pub busy_lock : Channel → Bool
busy_lock c = flag c.flags 0x08

unfoldable pub set_busy_lock : Channel → Bool → Channel
set_busy_lock c on = record c { flags = set_flag c.flags 0x08 on }

unfoldable pub scan_add : Channel → Bool
scan_add c = flag c.flags 0x04

unfoldable pub set_scan_add : Channel → Bool → Channel
set_scan_add c on = record c { flags = set_flag c.flags 0x04 on }

unfoldable pub ani_target : Channel → Option ℕ
ani_target c =
    let idx = bit_and c.dtmf_group 0x1f in if ltb idx contact_count then some idx else none

abbrev pub target_index : Option ℕ → ℕ
target_index none = 0x1f
target_index (some t) = min t 0x1f

unfoldable pub set_ani_target : Channel → Option ℕ → Channel
set_ani_target c target = record c { dtmf_group = target_index target }
