-- ===== src/FlashMap/Channel/RoundTrip.antt =====
-- `Channel::from_bytes` and `Channel::to_bytes` undo each other.
use bf_k61_firmware_aura.Prelude.{ℕ, ◌^◌, ◌<◌, ◌≡◌, ◌∙◌, List, ◌∷◌, ◌++◌, get_or, All, length}
use bf_k61_firmware_aura.Prelude.Words.{
  span, span_all, from_le16-le16, from_le32-le32, le16_lo-from, le16_hi-from, le32-from_le32,
}
use bf_k61_firmware_aura.Crc.{IsByte, IsU16, get_or-IsByte}
use bf_k61_firmware_aura.FlashMap.Channel.{Channel, name_size, from_bytes, to_bytes}

-- The sizes of the arrays and words of a channel.
pub record IsValid (c : Channel) : Type 0 where
  pub rx_size : length c.rx_freq_bcd ≡ 4
  pub tx_size : length c.tx_freq_bcd ≡ 4
  pub name_fits : length c.name ≡ name_size
  pub rx_word : IsU16 c.rx_dcs_cts_num
  pub tx_word : IsU16 c.tx_dcs_cts_num
  pub code_word : c.decoder_code < 2 ^ 32

-- A channel that is written and read back is the same channel.
pub channel_from_bytes-to_bytes : (c : Channel) → IsValid c → from_bytes (to_bytes c) ≡ c
unfolding from_bytes to_bytes
channel_from_bytes-to_bytes c v = λ i. record {
  rx_freq_bcd = span_all 4 c.rx_freq_bcd v.rx_size i;
  tx_freq_bcd = span_all 4 c.tx_freq_bcd v.tx_size i;
  rx_dcs_cts_num = from_le16-le16 c.rx_dcs_cts_num v.rx_word i;
  tx_dcs_cts_num = from_le16-le16 c.tx_dcs_cts_num v.tx_word i;
  dtmf_group = c.dtmf_group;
  ptt_id = c.ptt_id;
  tx_power = c.tx_power;
  flags = c.flags;
  decoder_code = from_le32-le32 c.decoder_code v.code_word i;
  name = span_all name_size c.name v.name_fits i;
}

-- A buffer of 32 bytes that is read as a channel and written back is the same buffer, so an
-- erased record stays erased.
pub channel_to_bytes-from_bytes :
    (buf : List ℕ) → length buf ≡ 32 → All IsByte buf → to_bytes (from_bytes buf) ≡ buf
unfolding from_bytes to_bytes
channel_to_bytes-from_bytes buf size bytes = rewritten ∙ span_all 32 buf size
  where
    g : ℕ → ℕ
    g k = get_or buf k 0

    b : (k : ℕ) → IsByte (g k)
    b k = get_or-IsByte buf k bytes

    rewritten : to_bytes (from_bytes buf) ≡ span buf 0 32
    rewritten = λ i.
        span buf 0 8
        ++ (le16_lo-from (g 8) (g 9) (b 8) i
            ∷ le16_hi-from (g 8) (g 9) (b 8) (b 9) i
            ∷ le16_lo-from (g 10) (g 11) (b 10) i
            ∷ le16_hi-from (g 10) (g 11) (b 10) (b 11) i
            ∷ g 12
            ∷ g 13
            ∷ g 14
            ∷ g 15
            ∷ (le32-from_le32 (g 16) (g 17) (g 18) (g 19) (b 16) (b 17) (b 18) (b 19) i
                ++ span buf 20 name_size))
