-- ===== src/App/Ax25/Frame/Line.antt =====
-- The levels of nrzi_encode_frame (src/app/ax25/frame.rs) and the bits that they stand for.
use bf_k61_firmware_aura.Prelude.{
  ℕ, zero, suc, ◌/◌, ◌%◌, ◌≡◌, refl, sym, ap, ◌∙◌, max, List, [], ◌∷◌, ◌++◌, Bool, true, false,
  arith, length, All, All-append, subst, replicate, ◌==◌, if◌then◌else◌, Bool-cases, inl, inr,
}
use mathlib.Core.List.{append_assoc, append-nil}
use bf_k61_firmware_aura.Crc.{IsByte}
use bf_k61_firmware_aura.App.Ax25.Frame.{
  flag, Sender, send_bit, send_bits, process_byte, send_flags, send_bytes, lead_flags, line_levels,
}
use bf_k61_firmware_aura.App.Ax25.Frame.Receiver.{
  decode_levels, next_ones, stuffed, unstuffed, no_six, bits_of, bits, IsBit, bytes_of,
  unstuffed-stuffed, no_six-stuffed, bytes_of-bits,
}
use bf_k61_firmware_aura.App.Ax25.Frame.Levels.{last_level, added, Holds, send_bit-Holds}

-- The bits one by one.
unfoldable send_all : Bool → Sender → List ℕ → Sender
send_all stuff line [] = line
send_all stuff line (bit ∷ bs) = send_all stuff (send_bit stuff line bit) bs

send_bits-send_all :
    (stuff : Bool) (n : ℕ) (line : Sender) (byte : ℕ)
    → send_bits stuff n line byte ≡ send_all stuff line (bits_of n byte)
unfolding send_bits send_all bits_of
send_bits-send_all stuff zero line byte = refl
send_bits-send_all stuff (suc n) line byte =
    send_bits-send_all stuff n (send_bit stuff line (byte % 2)) (byte / 2)

send_all-append :
    (stuff : Bool) (line : Sender) (xs ys : List ℕ)
    → send_all stuff line (xs ++ ys) ≡ send_all stuff (send_all stuff line xs) ys
unfolding send_all
send_all-append stuff line [] ys = refl
send_all-append stuff line (x ∷ xs) ys = send_all-append stuff (send_bit stuff line x) xs ys

send_bytes-send_all :
    (line : Sender) (bytes : List ℕ) → send_bytes line bytes ≡ send_all true line (bits bytes)
unfolding send_bytes bits send_all
send_bytes-send_all line [] = refl
send_bytes-send_all line (byte ∷ bytes) =
    send_bytes-send_all (process_byte true line byte) bytes
    ∙ ap (λ l. send_all true l (bits bytes)) (send_bits-send_all true 8 line byte)
    ∙ sym (send_all-append true line (bits_of 8 byte) (bits bytes))

send_bit-ones :
    (line : Sender) (bit : ℕ)
    → (send_bit true line bit).ones
      ≡ (if next_ones line.ones bit == 5 then 0 else next_ones line.ones bit)
unfolding send_bit
send_bit-ones line bit = ground arith

stuffed_step :
    (ones bit : ℕ) (bs : List ℕ)
    → stuffed ones (bit ∷ bs)
      ≡ added true ones bit
        ++ stuffed (if next_ones ones bit == 5 then 0 else next_ones ones bit) bs
unfolding stuffed added
stuffed_step ones bit bs = elim (Bool-cases (next_ones ones bit == 5)) [
  | inl e ↦ rw e
  | inr e ↦ rw e
]

send_all-Holds :
    (line : Sender) (sent bs : List ℕ)
    → Holds line sent
    → All IsBit bs
    → Holds (send_all true line bs) (sent ++ stuffed line.ones bs)
unfolding send_all
send_all-Holds line sent [] v h = unfold stuffed in rw (append-nil sent) v
send_all-Holds line sent (bit ∷ bs) v h = rw (stuffed_step line.ones bit bs) (
    rw (← append_assoc) (
      rw (← send_bit-ones line bit) (
        send_all-Holds (send_bit true line bit) (sent ++ added true line.ones bit) bs
          (send_bit-Holds true line sent bit v h.0) h.1)))

send_all_plain :
    (line : Sender) (sent bs : List ℕ)
    → Holds line sent
    → All IsBit bs
    → Holds (send_all false line bs) (sent ++ bs)
unfolding send_all added
send_all_plain line sent [] v h = rw (append-nil sent) v
send_all_plain line sent (bit ∷ bs) v h = rw (← append_assoc sent (bit ∷ []) bs) (
    send_all_plain (send_bit false line bit) (sent ++ bit ∷ []) bs
      (send_bit-Holds false line sent bit v h.0) h.1)

bits_of-IsBit : (n byte : ℕ) → All IsBit (bits_of n byte)
unfolding bits_of
bits_of-IsBit zero byte = tt
bits_of-IsBit (suc n) byte = (omega arith, bits_of-IsBit n (byte / 2))

bits-IsBit : (bytes : List ℕ) → All IsBit (bits bytes)
unfolding bits
bits-IsBit [] = tt
bits-IsBit (byte ∷ bytes) =
    All-append IsBit (bits_of 8 byte) (bits bytes) (bits_of-IsBit 8 byte) (bits-IsBit bytes)

send_flag-Holds :
    (line : Sender) (sent : List ℕ)
    → Holds line sent
    → Holds (record (process_byte false line flag) { ones = 0 }) (sent ++ bits_of 8 flag)
unfolding process_byte
send_flag-Holds line sent v =
    let w =
      subst (λ l. Holds l (sent ++ bits_of 8 flag)) (sym (send_bits-send_all false 8 line flag))
        (send_all_plain line sent (bits_of 8 flag) v (bits_of-IsBit 8 flag)) in
    record { bits_sent = w.bits_sent; last = w.last; level = w.level }

send_flags-Holds :
    (n : ℕ) (line : Sender) (sent : List ℕ)
    → Holds line sent
    → Holds (send_flags n line) (sent ++ bits (replicate n flag))
unfolding send_flags bits
send_flags-Holds zero line sent v = rw (append-nil sent) v
send_flags-Holds (suc n) line sent v =
    rw (← append_assoc sent (bits_of 8 flag) (bits (replicate n flag))) (
      send_flags-Holds n (record (process_byte false line flag) { ones = 0 })
        (sent ++ bits_of 8 flag) (send_flag-Holds line sent v))

send_flags-ones : (n : ℕ) (line : Sender) → line.ones ≡ 0 → (send_flags n line).ones ≡ 0
unfolding send_flags
send_flags-ones zero line h = h
send_flags-ones (suc n) line h =
    send_flags-ones n (record (process_byte false line flag) { ones = 0 }) refl

frame_bits :
    (lead : Sender) (sent raw : List ℕ) (n : ℕ)
    → Holds lead sent
    → lead.ones ≡ 0
    → decode_levels 1 (send_flags n (send_bytes lead raw)).levels
      ≡ sent ++ (stuffed 0 (bits raw) ++ bits (replicate n flag))
frame_bits lead sent raw n v e =
    let held = send_all-Holds lead sent (bits raw) v (bits-IsBit raw) in
    let sent_bytes =
      subst (λ l. Holds l (sent ++ stuffed lead.ones (bits raw)))
        (sym (send_bytes-send_all lead raw)) held in
    let flagged =
      send_flags-Holds n (send_bytes lead raw) (sent ++ stuffed lead.ones (bits raw)) sent_bytes in
    flagged.bits_sent
    ∙ append_assoc sent (stuffed lead.ones (bits raw)) (bits (replicate n flag))
    ∙ ap (λ k. sent ++ (stuffed k (bits raw) ++ bits (replicate n flag))) e

start_Holds : Holds (record { levels = []; nrzi = 1; ones = 0 }) []
unfolding decode_levels last_level
start_Holds = record { bits_sent = refl; last = refl; level = omega arith }

line_bits :
    (raw : List ℕ) (tail : ℕ)
    → decode_levels 1 (line_levels raw tail)
      ≡ bits (replicate 10 flag) ++ (stuffed 0 (bits raw) ++ bits (replicate (max tail 1) flag))
unfolding line_levels
line_bits raw tail =
    let start : Sender = record { levels = []; nrzi = 1; ones = 0 } in
    frame_bits (send_flags lead_flags start) (bits (replicate 10 flag)) raw (max tail 1)
      (send_flags-Holds lead_flags start [] start_Holds) (send_flags-ones lead_flags start refl)

-- What a receiver makes of the levels that `nrzi_encode_frame` sends: ten flags, the bits of the
-- frame with stuffed bits among them, and the tail flags; there are no six ones in a row in the
-- part between the flags, and without the stuffed bits it is the bits of the frame and no more,
-- from which the receiver makes the bytes of the frame.
pub line_levels_lem :
    (raw : List ℕ) (tail : ℕ)
    → All IsByte raw
    → (middle : List ℕ) × (decode_levels 1 (line_levels raw tail)
        ≡ bits (replicate 10 flag) ++ (middle ++ bits (replicate (max tail 1) flag)))
      × (no_six 0 middle ≡ true)
      × (unstuffed 0 middle ≡ bits raw)
      × (bytes_of (length raw) (unstuffed 0 middle) ≡ raw)
line_levels_lem raw tail h = (
  stuffed 0 (bits raw),
  line_bits raw tail,
  no_six-stuffed 0 (bits raw) (omega arith),
  unstuffed-stuffed 0 (bits raw) (omega arith),
  ap (bytes_of (length raw)) (unstuffed-stuffed 0 (bits raw) (omega arith)) ∙ bytes_of-bits raw h,
)
