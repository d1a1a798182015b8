-- ===== src/FlashMap/Vfo/RoundTrip.antt =====
-- The VFO record is read back as it was written, and its packed fields do not disturb each other.
use bf_k61_firmware_aura.Prelude.{
  ℕ, ◌+◌, ◌*◌, ◌/◌, ◌%◌, ◌^◌, ◌<◌, ◌≡◌, refl, ap, ◌∙◌, bit_and, bit_or, arith, length, Option, none,
  some, ltb, if◌then◌else◌,
}
use bf_k61_firmware_aura.Prelude.Bits.{bit_and_mask5, bit_or_fields}
use bf_k61_firmware_aura.Prelude.Tables.{all_below, same_values}
use bf_k61_firmware_aura.Prelude.Words.{span_all, from_le16-le16, from_le32-le32}
use bf_k61_firmware_aura.Crc.{IsByte, IsU16}
use bf_k61_firmware_aura.FlashMap.Freq.RoundTrip.{digits_to_deci_hz-deci_hz_to_digits}
use bf_k61_firmware_aura.FlashMap.Channel.{contact_count, target_index}
use bf_k61_firmware_aura.FlashMap.Vfo.{
  VfoMode, from_bytes, to_bytes, freq_deci_hz, set_freq_deci_hz, offset_deci_hz, set_offset_deci_hz,
  freq_dir, set_freq_dir, ani_target, set_ani_target,
}

pub record IsValid (v : VfoMode) : Type 0 where
  pub freq_size : length v.freq_digits ≡ 8
  pub offset_size : length v.offset_digits ≡ 7
  pub rx_word : IsU16 v.rx_dcs_cts_num
  pub tx_word : IsU16 v.tx_dcs_cts_num
  pub code_word : v.decoder_code < 2 ^ 32

-- A VFO record that is written and read back is the same record.
pub vfo_from_bytes-to_bytes : (v : VfoMode) → IsValid v → from_bytes (to_bytes v) ≡ v
unfolding from_bytes to_bytes
vfo_from_bytes-to_bytes v ok = λ i. record v {
  freq_digits = span_all 8 v.freq_digits ok.freq_size i;
  rx_dcs_cts_num = from_le16-le16 v.rx_dcs_cts_num ok.rx_word i;
  tx_dcs_cts_num = from_le16-le16 v.tx_dcs_cts_num ok.tx_word i;
  offset_digits = span_all 7 v.offset_digits ok.offset_size i;
  decoder_code = from_le32-le32 v.decoder_code ok.code_word i;
}

-- The frequency is kept modulo 10 ^ 8 deci-Hz, that is 1 GHz, and the offset in whole 100 Hz
-- modulo 10 ^ 8 deci-Hz.
pub freq_kept :
    (v : VfoMode) (d : ℕ)
    → (freq_deci_hz (set_freq_deci_hz v d) ≡ d % 100_000_000)
      × (offset_deci_hz (set_offset_deci_hz v d) ≡ d / 10 % 10_000_000 * 10)
unfolding freq_deci_hz set_freq_deci_hz offset_deci_hz set_offset_deci_hz
freq_kept v d = (
  digits_to_deci_hz-deci_hz_to_digits 8 d,
  ap (λ (t : ℕ). t * 10) (digits_to_deci_hz-deci_hz_to_digits 7 (d / 10)),
)

high_bits : (b : ℕ) → IsByte b → bit_and b 0xe0 ≡ b / 32 * 2 ^ 5
unfolding all_below
high_bits = same_values 256 _ _ refl

index_small : (target : Option ℕ) → target_index target < 32
index_small none = omega arith
index_small (some t) = omega arith

decoded :
    (target : Option ℕ)
    → (if ltb (target_index target) contact_count then some (target_index target) else none)
      ≡ (elim target [ none ↦ none | some t ↦ if ltb t contact_count then some t else none ])
decoded none = refl
decoded (some t) = ground arith

module _ (v : VfoMode) (byte : IsByte v.dtmf_group) where
  -- A shift direction below 8 is read back, and the call target in the same byte stays.
  pub set_freq_dir_lem :
      (dir : ℕ)
      → dir < 8
      → (freq_dir (set_freq_dir v dir) ≡ dir) × (ani_target (set_freq_dir v dir) ≡ ani_target v)
  unfolding freq_dir set_freq_dir ani_target
  set_freq_dir_lem dir h =
      let small : bit_and v.dtmf_group 0x1f < 32 = omega (arith, bit_and_mask5 v.dtmf_group) in
      let shifted : dir * 32 % 256 ≡ dir * 2 ^ 5 = omega arith in
      let joined : bit_or (dir * 32 % 256) (bit_and v.dtmf_group 0x1f)
          ≡ dir * 32 + bit_and v.dtmf_group 0x1f =
        ap (λ (t : ℕ). bit_or t (bit_and v.dtmf_group 0x1f)) shifted
        ∙ bit_or_fields 5 dir (bit_and v.dtmf_group 0x1f) small
        ∙ omega arith in
      (
        omega (arith, joined),
        ground (
          arith,
          joined,
          bit_and_mask5 (bit_or (dir * 32 % 256) (bit_and v.dtmf_group 0x1f)),
          bit_and_mask5 v.dtmf_group,
        ),
      )

  -- A call target is read back if it is a slot of the contact table, any other reads as none, and
  -- the shift direction in the same byte stays.
  pub set_ani_target_lem :
      (target : Option ℕ)
      → (freq_dir (set_ani_target v target) ≡ freq_dir v)
        × (ani_target (set_ani_target v target)
            ≡ (elim target [ none ↦ none | some t ↦ if ltb t contact_count then some t else none ]))
  unfolding freq_dir set_ani_target ani_target
  set_ani_target_lem target =
      let small : target_index target < 32 = index_small target in
      let joined : bit_or (bit_and v.dtmf_group 0xe0) (target_index target)
          ≡ v.dtmf_group / 32 * 32 + target_index target =
        ap (λ (t : ℕ). bit_or t (target_index target)) (high_bits v.dtmf_group byte)
        ∙ bit_or_fields 5 (v.dtmf_group / 32) (target_index target) small
        ∙ omega arith in
      (
        omega (arith, joined),
        ap (λ (t : ℕ). if ltb t contact_count then some t else none)
              (bit_and_mask5 (bit_or (bit_and v.dtmf_group 0xe0) (target_index target))
                ∙ omega (arith, joined))
            ∙ decoded target,
      )
