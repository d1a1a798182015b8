-- ===== src/Cps/Frame/Corruption.antt =====
-- A data byte that was changed on the line makes the reader refuse the frame.
use bf_k61_firmware_aura.Prelude.{
  ℕ, suc, ◌+◌, ◌/◌, ◌%◌, ◌≤◌, ◌≡◌, ◌≢◌, refl, sym, ap, subst, ◌∙◌, List, [], ◌∷◌, ◌++◌, arith, All,
  set, length, length-append, ne→==,
}
use mathlib.Core.List.{append_assoc}
use bf_k61_firmware_aura.Crc.{IsByte, IsU16}
use bf_k61_firmware_aura.Crc.Detect.{crc16_xmodem_detects}
use bf_k61_firmware_aura.Cps.Frame.{
  crc_error, State, FrameReader, header_byte, max_data, frame_crc, encode, run,
}
use bf_k61_firmware_aura.Cps.Frame.Steps.{reader, run_frame}

set-append :
    (front rest : List ℕ) (x y : ℕ)
    → set (front ++ (x ∷ rest)) (length front) y ≡ front ++ (y ∷ rest)
set-append [] rest x y = refl
set-append (a ∷ front) rest x y = ap (λ t. a ∷ t) (set-append front rest x y)

frame_crc_detects :
    (command address : ℕ) (front back : List ℕ) (x y : ℕ)
    → IsByte command
    → IsU16 address
    → length (front ++ (x ∷ back)) ≤ max_data
    → All IsByte front
    → All IsByte back
    → IsByte x
    → IsByte y
    → x ≢ y
    → frame_crc command address (front ++ (x ∷ back))
      ≢ frame_crc command address (front ++ (y ∷ back))
unfolding frame_crc
frame_crc_detects command address front back x y hc ha fits hf hb hx hy ne =
    let n = length (front ++ (x ∷ back)) in
    let same : length (front ++ (y ∷ back)) ≡ n =
      omega (arith, length-append front (x ∷ back), length-append front (y ∷ back)) in
    let head = command ∷ address / 256 ∷ address % 256 ∷ n / 256 ∷ n % 256 ∷ front in
    rw same (
      crc16_xmodem_detects head back x y
        (hc, (omega arith, (omega arith, (omega arith, (omega arith, hf))))) hb hx hy ne)

module _ (command address : ℕ) (front back : List ℕ) (x y : ℕ) where
  tampered :
      set (encode command address (front ++ (x ∷ back))) (6 + length front) y
      ≡ let w = frame_crc command address (front ++ (x ∷ back)) in
        let m = front ++ (y ∷ back) in
        header_byte
        ∷ command
        ∷ address / 256
        ∷ address % 256
        ∷ length m / 256
        ∷ length m % 256
        ∷ (m ++ (w / 256 ∷ w % 256 ∷ []))
  unfolding encode
  tampered =
      let w = frame_crc command address (front ++ (x ∷ back)) in
      let check = w / 256 ∷ w % 256 ∷ [] in
      let same : length (front ++ (x ∷ back)) ≡ length (front ++ (y ∷ back)) =
        omega (arith, length-append front (x ∷ back), length-append front (y ∷ back)) in
      let place : 6 + length front ≡ suc (suc (suc (suc (suc (suc (length front)))))) =
        omega arith in
      let body : set ((front ++ (x ∷ back)) ++ check) (length front) y
          ≡ (front ++ (y ∷ back)) ++ check =
        ap (λ t. set t (length front) y) (append_assoc front (x ∷ back) check)
        ∙ set-append front (back ++ check) x y
        ∙ sym (append_assoc front (y ∷ back) check) in
      ap (λ k. set (encode command address (front ++ (x ∷ back))) k y) place
      ∙ ap
          (λ t.
            header_byte
            ∷ command
            ∷ address / 256
            ∷ address % 256
            ∷ length (front ++ (x ∷ back)) / 256
            ∷ length (front ++ (x ∷ back)) % 256
            ∷ t)
          body
      ∙ ap
          (λ n.
            header_byte
            ∷ command
            ∷ address / 256
            ∷ address % 256
            ∷ n / 256
            ∷ n % 256
            ∷ ((front ++ (y ∷ back)) ++ check))
          same

  corrupted_from :
      (c a l i k : ℕ) (p : List ℕ)
      → length p ≡ max_data
      → length (front ++ (y ∷ back)) ≤ max_data
      → frame_crc command address (front ++ (x ∷ back))
        ≢ frame_crc command address (front ++ (y ∷ back))
      → let (r', outs) =
          run
            (reader State.header c a l p i k)
            (set (encode command address (front ++ (x ∷ back))) (6 + length front) y) in
        (outs ≡ crc_error address ∷ []) × (r'.state ≡ State.header)
  unfolding run
  corrupted_from c a l i k p room fits differs =
      let w = frame_crc command address (front ++ (x ∷ back)) in
      let (p', i', room', held, ran) =
        run_frame c a l i k command address w p (front ++ (y ∷ back)) [] fits room in
      rw (tampered, ran, ne→== w _ differs) (refl, refl)

-- In an encoded frame of at most 96 data bytes one data byte `x` is replaced by another byte `y`.
-- A reader that waits for a header answers the whole with exactly one check sum error, for the
-- address of the frame, and waits for a header again.
pub run_corrupted :
    (r : FrameReader) (command address : ℕ) (front back : List ℕ) (x y : ℕ)
    → r.state ≡ State.header
    → length r.payload ≡ max_data
    → IsByte command
    → IsU16 address
    → length (front ++ (x ∷ back)) ≤ max_data
    → All IsByte front
    → All IsByte back
    → IsByte x
    → IsByte y
    → x ≢ y
    → let (r', outs) =
        run r (set (encode command address (front ++ (x ∷ back))) (6 + length front) y) in
      (outs ≡ crc_error address ∷ []) × (r'.state ≡ State.header)
run_corrupted r command address front back x y waits room hc ha fits hf hb hx hy ne =
    let fits' : length (front ++ (y ∷ back)) ≤ max_data =
      omega (arith, length-append front (x ∷ back), length-append front (y ∷ back)) in
    subst
      (λ s.
        let (r', outs) =
          run (reader s r.cmd r.addr r.len r.payload r.idx r.crc_hi)
            (set (encode command address (front ++ (x ∷ back))) (6 + length front) y) in
        (outs ≡ crc_error address ∷ []) × (r'.state ≡ State.header))
      (sym waits)
      (corrupted_from command address front back x y r.cmd r.addr r.len r.idx r.crc_hi r.payload
        room fits' (frame_crc_detects command address front back x y hc ha fits hf hb hx hy ne))
