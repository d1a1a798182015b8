-- ===== src/FlashMap/Sat.antt =====
-- src/flash_map.rs: `SatRecord`, a satellite of 32 bytes.
use bf_k61_firmware_aura.Prelude.{
  ℕ, ◌^◌, ◌<◌, ◌≡◌, List, [], ◌∷◌, ◌++◌, false, Option, none, some, arith, get_or, length,
  replicate, if◌then◌else◌,
}
use bf_k61_firmware_aura.Prelude.Words.{
  span, span_all, from_le16, le16_lo, le16_hi, from_le32, le32, from_le16-le16, from_le32-le32,
}
use bf_k61_firmware_aura.Crc.{IsU16}
use bf_k61_firmware_aura.FlashMap.Contact.{all_erased}

pub record SatRecord : Type 0 where
  pub name : List ℕ
  pub rx_freq_hz : ℕ
  pub tx_freq_hz : ℕ
  pub rx_tone_hz : ℕ
  pub tx_tone_hz : ℕ
  pub altitude_km : ℕ
  pub flags : ℕ
  pub pad : List ℕ

unfoldable pub from_bytes : List ℕ → Option SatRecord
from_bytes buf =
    if all_erased buf
    then none
    else some (record {
      name = span buf 0 10;
      rx_freq_hz =
          from_le32 (get_or buf 10 0) (get_or buf 11 0) (get_or buf 12 0) (get_or buf 13 0);
      tx_freq_hz =
          from_le32 (get_or buf 14 0) (get_or buf 15 0) (get_or buf 16 0) (get_or buf 17 0);
      rx_tone_hz = from_le16 (get_or buf 18 0) (get_or buf 19 0);
      tx_tone_hz = from_le16 (get_or buf 20 0) (get_or buf 21 0);
      altitude_km = from_le16 (get_or buf 22 0) (get_or buf 23 0);
      flags = get_or buf 24 0;
      pad = span buf 25 3;
    })

-- The last seven bytes stay 0: the padding is not written.
unfoldable pub to_bytes : SatRecord → List ℕ
to_bytes s =
    span s.name 0 10
    ++ (le32 s.rx_freq_hz
        ++ (le32 s.tx_freq_hz
            ++ (le16_lo s.rx_tone_hz
                ∷ le16_hi s.rx_tone_hz
                ∷ le16_lo s.tx_tone_hz
                ∷ le16_hi s.tx_tone_hz
                ∷ le16_lo s.altitude_km
                ∷ le16_hi s.altitude_km
                ∷ s.flags
                ∷ 0
                ∷ 0
                ∷ 0
                ∷ 0
                ∷ 0
                ∷ 0
                ∷ 0
                ∷ [])))

pub record IsValid (s : SatRecord) : Type 0 where
  pub name_size : length s.name ≡ 10
  pub rx_word : s.rx_freq_hz < 2 ^ 32
  pub tx_word : s.tx_freq_hz < 2 ^ 32
  pub rx_tone_word : IsU16 s.rx_tone_hz
  pub tx_tone_word : IsU16 s.tx_tone_hz
  pub altitude_word : IsU16 s.altitude_km

-- The zero bytes at the end keep a written record from reading as an erased slot.
not_erased : (s : SatRecord) → all_erased (to_bytes s) ≡ false
unfolding to_bytes all_erased
not_erased s = ground arith

-- A satellite that is written and read back is the same satellite, with its padding cleared; its
-- slot never reads as empty, whatever the satellite is.
pub sat_from_bytes-to_bytes :
    (s : SatRecord) → IsValid s → from_bytes (to_bytes s) ≡ some (record s { pad = replicate 3 0 })
unfolding from_bytes to_bytes
sat_from_bytes-to_bytes s v = rw (not_erased s) λ i. some (record {
  name = span_all 10 s.name v.name_size i;
  rx_freq_hz = from_le32-le32 s.rx_freq_hz v.rx_word i;
  tx_freq_hz = from_le32-le32 s.tx_freq_hz v.tx_word i;
  rx_tone_hz = from_le16-le16 s.rx_tone_hz v.rx_tone_word i;
  tx_tone_hz = from_le16-le16 s.tx_tone_hz v.tx_tone_word i;
  altitude_km = from_le16-le16 s.altitude_km v.altitude_word i;
  flags = s.flags;
  pad = 0 ∷ 0 ∷ 0 ∷ [];
})
