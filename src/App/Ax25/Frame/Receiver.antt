-- ===== src/App/Ax25/Frame/Receiver.antt =====
-- What a receiver makes of the line: the bits that the levels stand for, the bits without the
-- stuffed ones, and the bytes. It is the reference for src/app/ax25/frame.rs nrzi_encode_frame.
use bf_k61_firmware_aura.Prelude.{
  ℕ, zero, suc, ◌+◌, ◌*◌, ◌/◌, ◌%◌, ◌<◌, ◌≡◌, refl, ap, ap₂, List, [], ◌∷◌, ◌++◌, Bool, true, false,
  ◌&&◌, arith, length, All, take, drop, ltb, ◌==◌, ==_iff, if◌then◌else◌, Bool-cases, inl, inr,
}
use bf_k61_firmware_aura.Crc.{IsByte}
use bf_k61_firmware_aura.App.Ax25.Frame.{}

-- The bits that the levels stand for, after level `last`: a 1 where the level stays.
unfoldable pub decode_levels : ℕ → List ℕ → List ℕ
decode_levels last [] = []
decode_levels last (level ∷ levels) = (if level == last then 1 else 0) ∷ decode_levels level levels

-- Bit stuffing, with `ones` ones before.
abbrev pub next_ones : ℕ → ℕ → ℕ
next_ones ones bit = if bit == 1 then ones + 1 else 0

unfoldable pub stuffed : ℕ → List ℕ → List ℕ
stuffed ones [] = []
stuffed ones (bit ∷ bits) =
    let plain = stuffed (next_ones ones bit) bits in
    let after = stuffed 0 bits in if next_ones ones bit == 5 then bit ∷ 0 ∷ after else bit ∷ plain

-- A receiver drops the bit after five ones.
unfoldable pub unstuffed : ℕ → List ℕ → List ℕ
unstuffed ones [] = []
unstuffed ones (bit ∷ bits) =
    let dropped = unstuffed 0 bits in
    let kept = unstuffed (next_ones ones bit) bits in if ones == 5 then dropped else bit ∷ kept

-- There are never six ones in a row, with `ones` ones before.
unfoldable pub no_six : ℕ → List ℕ → Bool
no_six ones [] = true
no_six ones (bit ∷ bits) =
    let rest = no_six (next_ones ones bit) bits in ltb (next_ones ones bit) 6 && rest

-- The bits of a byte and of bytes, the lowest first.
unfoldable pub bits_of : ℕ → ℕ → List ℕ
bits_of zero byte = []
bits_of (suc n) byte = byte % 2 ∷ bits_of n (byte / 2)

unfoldable pub bits : List ℕ → List ℕ
unfolding bits_of
bits [] = []
bits (byte ∷ bytes) = bits_of 8 byte ++ bits bytes

abbrev pub IsBit : ℕ → Type 0
IsBit b = b < 2

-- A receiver gets back the bits from what was stuffed.
pub unstuffed-stuffed : (ones : ℕ) (bs : List ℕ) → ones < 5 → unstuffed ones (stuffed ones bs) ≡ bs
unfolding unstuffed stuffed
unstuffed-stuffed ones [] h = refl
unstuffed-stuffed ones (bit ∷ bs) h =
    let five : (ones == 5) ≡ false = ground (arith, h) in
    elim (Bool-cases (next_ones ones bit == 5)) [
      | inl full ↦
          let e : next_ones ones bit ≡ 5 = (==_iff (next_ones ones bit) 5).0 full in
          rw full (rw five (rw e (ap (λ t. bit ∷ t) (unstuffed-stuffed 0 bs (omega arith)))))
      | inr some_room ↦
          let e : next_ones ones bit < 5 = ground (arith, h, some_room) in
          rw some_room (rw five (ap (λ t. bit ∷ t) (unstuffed-stuffed (next_ones ones bit) bs e)))
    ]

pub no_six-stuffed : (ones : ℕ) (bs : List ℕ) → ones < 5 → no_six ones (stuffed ones bs) ≡ true
unfolding no_six stuffed
no_six-stuffed ones [] h = refl
no_six-stuffed ones (bit ∷ bs) h = elim (Bool-cases (next_ones ones bit == 5)) [
  | inl full ↦
      let e : next_ones ones bit ≡ 5 = (==_iff (next_ones ones bit) 5).0 full in
      rw full (rw e (no_six-stuffed 0 bs (omega arith)))
  | inr some_room ↦
      let e : next_ones ones bit < 5 = ground (arith, h, some_room) in
      let below : ltb (next_ones ones bit) 6 ≡ true = ground (arith, e) in
      rw some_room (rw below (no_six-stuffed (next_ones ones bit) bs e))
]

-- The bytes of a run of bits, the lowest bit first.
unfoldable pub byte_of : List ℕ → ℕ
byte_of [] = 0
byte_of (bit ∷ bs) = bit + 2 * byte_of bs

unfoldable pub bytes_of : ℕ → List ℕ → List ℕ
unfolding byte_of
bytes_of zero bs = []
bytes_of (suc n) bs = byte_of (take 8 bs) ∷ bytes_of n (drop 8 bs)

pub bytes_of-bits :
    (bytes : List ℕ) → All IsByte bytes → bytes_of (length bytes) (bits bytes) ≡ bytes
unfolding bytes_of bits bits_of
bytes_of-bits [] h = refl
bytes_of-bits (byte ∷ bytes) h =
    ap₂ (λ b rest. b ∷ rest) (omega (arith, h.0)) (bytes_of-bits bytes h.1)
