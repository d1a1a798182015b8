-- ===== src/App/Ax25/Frame/Address.antt =====
-- Addresses (src/app/ax25/frame.rs encode_address) as a receiver reads them.
use bf_k61_firmware_aura.Prelude.{
  ℕ, ◌*◌, ◌/◌, ◌%◌, ◌<◌, ◌≡◌, refl, bit_or, List, [], ◌∷◌, Bool, true, false, arith, length, get_or,
  All, take, ◌==◌, if◌then◌else◌, ◌⊎◌, inl, inr, ◌&&◌, bool_eq,
}
use bf_k61_firmware_aura.Prelude.Tables.{all_below, all_below_sound, bool_eq_sound}
use bf_k61_firmware_aura.App.Ax25.Frame.{call_byte, encode_address, Station, is_call_char}

-- Half of each byte: the characters of a call.
unfoldable pub halves : List ℕ → List ℕ
halves [] = []
halves (b ∷ bytes) = b / 2 ∷ halves bytes

-- The seven bytes of an address as a station; the bit 0 of the last byte ends the address field.
unfoldable pub station_of : List ℕ → Station
unfolding halves
station_of bytes = record { call = halves (take 6 bytes); ssid = get_or bytes 6 0 / 2 % 16 }

abbrev pub is_last : List ℕ → Bool
is_last bytes = get_or bytes 6 0 % 2 == 1

-- A character that a call may hold: a capital letter, a digit, or the space that pads it.
abbrev pub IsCallByte : ℕ → Type 0
IsCallByte c = (is_call_char c ≡ true) ⊎ (c ≡ 32)

pub record IsStation (s : Station) : Type 0 where
  pub six : length s.call ≡ 6
  pub chars : All IsCallByte s.call
  pub ssid_fits : s.ssid < 16

half-call_byte : (c : ℕ) → IsCallByte c → call_byte c / 2 ≡ c
unfolding call_byte
half-call_byte c (inl h) = ground (arith, h)
half-call_byte c (inr h) = ground (arith, h)

-- The byte that holds the SSID and the end mark.
abbrev ssid_byte : Bool → ℕ → ℕ
ssid_byte last ssid = bit_or (bit_or (if last then 1 else 0) 0x60) (ssid % 16 * 2)

ssid_byte_table :
    (last : Bool)
    → all_below 16
        (λ n. (ssid_byte last n / 2 % 16 == n) && bool_eq (ssid_byte last n % 2 == 1) last)
      ≡ true
unfolding all_below
ssid_byte_table true = refl
ssid_byte_table false = refl

ssid_byte_lem :
    (last : Bool) (ssid : ℕ)
    → ssid < 16
    → (ssid_byte last ssid / 2 % 16 ≡ ssid) × ((ssid_byte last ssid % 2 == 1) ≡ last)
ssid_byte_lem last ssid h =
    let t =
      all_below_sound 16
        (λ n. (ssid_byte last n / 2 % 16 == n) && bool_eq (ssid_byte last n % 2 == 1) last) ssid
        (ssid_byte_table last) h in
    ground (arith, t, bool_eq_sound (ssid_byte last ssid % 2 == 1) last)

call_lem :
    (call : List ℕ) (ssid : ℕ) (last : Bool)
    → length call ≡ 6
    → All IsCallByte call
    → halves (take 6 (encode_address call ssid last)) ≡ call
unfolding halves encode_address
call_lem (a ∷ b ∷ c ∷ d ∷ e ∷ f ∷ []) ssid last h (pa, (pb, (pc, (pd, (pe, (pf, end)))))) =
    rw (half-call_byte a pa) (
      rw (half-call_byte b pb) (
        rw (half-call_byte c pc)
          (rw (half-call_byte d pd) (rw (half-call_byte e pe) (rw (half-call_byte f pf))))))
call_lem [] ssid last h p = absurd (omega arith)
call_lem (a ∷ []) ssid last h p = absurd (omega arith)
call_lem (a ∷ b ∷ []) ssid last h p = absurd (omega arith)
call_lem (a ∷ b ∷ c ∷ []) ssid last h p = absurd (omega arith)
call_lem (a ∷ b ∷ c ∷ d ∷ []) ssid last h p = absurd (omega arith)
call_lem (a ∷ b ∷ c ∷ d ∷ e ∷ []) ssid last h p = absurd (omega arith)
call_lem (a ∷ b ∷ c ∷ d ∷ e ∷ f ∷ g ∷ xs) ssid last h p = absurd (omega arith)

-- A receiver reads the station and the end mark back from its address.
pub station_of-encode_address :
    (s : Station) (last : Bool)
    → IsStation s
    → (station_of (encode_address s.call s.ssid last) ≡ s)
      × (is_last (encode_address s.call s.ssid last) ≡ last)
unfolding station_of encode_address
station_of-encode_address s last v =
    let k = ssid_byte_lem last s.ssid v.ssid_fits in
    let c = call_lem s.call s.ssid last v.six v.chars in
    (λ i. record { call = c i; ssid = k.0 i }, k.1)
