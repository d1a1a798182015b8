-- ===== src/Crc/Detect.antt =====
-- A message in which one byte was changed has another check sum.
use bf_k61_firmware_aura.Prelude.{
  ℕ, zero, suc, ◌*◌, ◌%◌, ◌^◌, ◌≡◌, ◌≢◌, sym, ap, ◌∙◌, List, [], ◌∷◌, ◌++◌, bit_xor, arith, All,
}
use bf_k61_firmware_aura.Prelude.Bits.{
  bit_xor_step, bit_xor_assoc, bit_xor_comm, bit_xor_self, zero-bit_xor,
}
use bf_k61_firmware_aura.Crc.{IsByte, IsU16, shift_bit, shift_bits, update, crc_from, crc16_xmodem}
use bf_k61_firmware_aura.Crc.Bound.{
  shift_bit_arith, shift_bit-lt, mixed-lt, update-lt, crc_from-lt, crc_from-append,
}

-- `^` by a constant undoes itself.
pub bit_xor_undo : (x c : ℕ) → bit_xor (bit_xor x c) c ≡ x
bit_xor_undo x c =
    bit_xor_assoc x c c
    ∙ ap (λ (t : ℕ). bit_xor x t) (bit_xor_self c)
    ∙ bit_xor_comm x 0
    ∙ zero-bit_xor x

pub bit_xor_cancel : (x y c : ℕ) → bit_xor x c ≡ bit_xor y c → x ≡ y
bit_xor_cancel x y c e = sym (bit_xor_undo x c) ∙ ap (λ (t : ℕ). bit_xor t c) e ∙ bit_xor_undo y c

pub bit_xor_cancel_left : (c x y : ℕ) → bit_xor c x ≡ bit_xor c y → x ≡ y
bit_xor_cancel_left c x y e = bit_xor_cancel x y c (bit_xor_comm x c ∙ e ∙ bit_xor_comm c y)

-- The polynomial is odd, so the lowest bit after the shift tells the bit that was shifted out.
shift_bit-injective : (a b : ℕ) → IsU16 a → IsU16 b → shift_bit a ≡ shift_bit b → a ≡ b
shift_bit-injective a b ha hb e = ground (
  arith,
  shift_bit_arith a,
  shift_bit_arith b,
  bit_xor_step (a * 2 % 2 ^ 16) 0x1021,
  bit_xor_step (b * 2 % 2 ^ 16) 0x1021,
  bit_xor_cancel (a * 2 % 2 ^ 16) (b * 2 % 2 ^ 16) 0x1021,
)

shift_bits-injective : (n a b : ℕ) → IsU16 a → IsU16 b → shift_bits n a ≡ shift_bits n b → a ≡ b
unfolding shift_bits
shift_bits-injective zero a b ha hb e = e
shift_bits-injective (suc n) a b ha hb e =
    shift_bit-injective a b ha hb
      (shift_bits-injective n (shift_bit a) (shift_bit b) (shift_bit-lt a ha) (shift_bit-lt b hb) e)

update-injective_state :
    (a b x : ℕ) → IsU16 a → IsU16 b → IsByte x → update a x ≡ update b x → a ≡ b
unfolding update
update-injective_state a b x ha hb hx e =
    bit_xor_cancel a b (x * 256)
      (shift_bits-injective 8 _ _ (mixed-lt a x ha hx) (mixed-lt b x hb hx) e)

update-injective_byte :
    (a x y : ℕ) → IsU16 a → IsByte x → IsByte y → update a x ≡ update a y → x ≡ y
unfolding update
update-injective_byte a x y ha hx hy e = omega (
  arith,
  bit_xor_cancel_left a (x * 256) (y * 256)
      (shift_bits-injective 8 _ _ (mixed-lt a x ha hx) (mixed-lt a y ha hy) e),
)

crc_from-injective :
    (a b : ℕ) (bytes : List ℕ)
    → IsU16 a
    → IsU16 b
    → All IsByte bytes
    → crc_from a bytes ≡ crc_from b bytes
    → a ≡ b
unfolding crc_from
crc_from-injective a b [] ha hb h e = e
crc_from-injective a b (x ∷ bytes) ha hb h e = update-injective_state a b x ha hb h.0 (
    crc_from-injective (update a x) (update b x) bytes (update-lt a x ha h.0) (update-lt b x hb h.0)
      h.1 e)

-- Two messages of bytes that differ in exactly one byte, wherever it stands, have different check
-- sums.
pub crc16_xmodem_detects :
    (front back : List ℕ) (x y : ℕ)
    → All IsByte front
    → All IsByte back
    → IsByte x
    → IsByte y
    → x ≢ y
    → crc16_xmodem (front ++ (x ∷ back)) ≢ crc16_xmodem (front ++ (y ∷ back))
unfolding crc16_xmodem
crc16_xmodem_detects front back x y hf hb hx hy ne e = ne (
    update-injective_byte c x y hc hx hy (
      crc_from-injective (update c x) (update c y) back (update-lt c x hc hx) (update-lt c y hc hy)
        hb
        (unfold crc_from in
          (sym (crc_from-append 0 front (x ∷ back)) ∙ e ∙ crc_from-append 0 front (y ∷ back)))))
  where
    c : ℕ
    c = crc_from 0 front

    hc : IsU16 c
    hc = crc_from-lt 0 front (omega arith) hf
