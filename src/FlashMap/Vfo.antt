-- ===== src/FlashMap/Vfo.antt =====
-- src/flash_map.rs: `VfoMode`, the 32-byte VFO record.
pub mod RoundTrip
use bf_k61_firmware_aura.Prelude.{
  ℕ, ◌*◌, ◌/◌, ◌%◌, ◌-◌, bit_and, bit_or, List, [], ◌∷◌, ◌++◌, Bool, Option, none, some, get_or,
  ltb, if◌then◌else◌,
}
use bf_k61_firmware_aura.Prelude.Words.{span, from_le16, le16_lo, le16_hi, from_le32, le32}
use bf_k61_firmware_aura.FlashMap.Freq.{digits_to_deci_hz, deci_hz_to_digits}
use bf_k61_firmware_aura.FlashMap.Channel.{contact_count, flag, set_flag, target_index}

pub record VfoMode : Type 0 where
  pub freq_digits : List ℕ
  pub rx_dcs_cts_num : ℕ
  pub tx_dcs_cts_num : ℕ
  pub dtmf_group : ℕ
  pub ani : ℕ
  pub tx_power : ℕ
  pub vfo_flags : ℕ
  pub step : ℕ
  pub offset_digits : List ℕ
  pub sp_mute : ℕ
  pub decoder_code : ℕ

unfoldable pub from_bytes : List ℕ → VfoMode
from_bytes buf = record {
  freq_digits = span buf 0 8;
  rx_dcs_cts_num = from_le16 (get_or buf 8 0) (get_or buf 9 0);
  tx_dcs_cts_num = from_le16 (get_or buf 10 0) (get_or buf 11 0);
  dtmf_group = get_or buf 14 0;
  ani = get_or buf 15 0;
  tx_power = get_or buf 16 0;
  vfo_flags = get_or buf 17 0;
  step = get_or buf 19 0;
  offset_digits = span buf 20 7;
  sp_mute = get_or buf 27 0;
  decoder_code = from_le32 (get_or buf 28 0) (get_or buf 29 0) (get_or buf 30 0) (get_or buf 31 0);
}

-- The bytes 12, 13 and 18 are not written and stay 0.
unfoldable pub to_bytes : VfoMode → List ℕ
to_bytes v =
    span v.freq_digits 0 8
    ++ (le16_lo v.rx_dcs_cts_num
        ∷ le16_hi v.rx_dcs_cts_num
        ∷ le16_lo v.tx_dcs_cts_num
        ∷ le16_hi v.tx_dcs_cts_num
        ∷ 0
        ∷ 0
        ∷ v.dtmf_group
        ∷ v.ani
        ∷ v.tx_power
        ∷ v.vfo_flags
        ∷ 0
        ∷ v.step
        ∷ (span v.offset_digits 0 7 ++ (v.sp_mute ∷ le32 v.decoder_code)))

unfoldable pub freq_deci_hz : VfoMode → ℕ
freq_deci_hz v = digits_to_deci_hz v.freq_digits

unfoldable pub set_freq_deci_hz : VfoMode → ℕ → VfoMode
set_freq_deci_hz v deci_hz = record v { freq_digits = deci_hz_to_digits 8 deci_hz }

unfoldable pub offset_deci_hz : VfoMode → ℕ
offset_deci_hz v = digits_to_deci_hz v.offset_digits * 10

unfoldable pub set_offset_deci_hz : VfoMode → ℕ → VfoMode
set_offset_deci_hz v deci_hz = record v { offset_digits = deci_hz_to_digits 7 (deci_hz / 10) }

unfoldable pub freq_dir : VfoMode → ℕ
freq_dir v = v.dtmf_group / 32

-- `dir << 5` on a `u8` drops the bits above the byte.
unfoldable pub set_freq_dir : VfoMode → ℕ → VfoMode
set_freq_dir v dir = record v { dtmf_group = bit_or (dir * 32 % 256) (bit_and v.dtmf_group 0x1f) }

unfoldable pub ani_target : VfoMode → Option ℕ
ani_target v =
    let idx = bit_and v.dtmf_group 0x1f in if ltb idx contact_count then some idx else none

unfoldable pub set_ani_target : VfoMode → Option ℕ → VfoMode
set_ani_target v target = record v {
  dtmf_group = bit_or (bit_and v.dtmf_group 0xe0) (target_index target);
}

unfoldable pub wide_narrow : VfoMode → Bool
wide_narrow v = flag v.vfo_flags 0x40

unfoldable pub set_wide_narrow : VfoMode → Bool → VfoMode
set_wide_narrow v narrow = record v { vfo_flags = set_flag v.vfo_flags 0x40 narrow }
