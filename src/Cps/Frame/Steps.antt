-- ===== src/Cps/Frame/Steps.antt =====
-- The reader on each part of an encoded frame.
use bf_k61_firmware_aura.Prelude.{
  ℕ, suc, ◌+◌, ◌*◌, ◌/◌, ◌%◌, ◌≤◌, ◌<◌, ◌≡◌, ◌≢◌, refl, sym, ap, ◌∙◌, bit_or, List, [], ◌∷◌, ◌++◌,
  arith, Bool, true, false, length, length-set, set, take, take-set, ne→==, ◌==◌, if◌then◌else◌,
}
use mathlib.Core.List.{append-nil, append_assoc}
use bf_k61_firmware_aura.Prelude.Bits.{bit_or_fields}
use bf_k61_firmware_aura.Cps.Frame.{
  Frame, FeedResult, crc_error, State, FrameReader, header_byte, max_data, frame_crc, feed_len_lo,
  feed_payload, run, collect,
}

abbrev pub reader : State → ℕ → ℕ → ℕ → List ℕ → ℕ → ℕ → FrameReader
reader s c a l p i k = record {
  state = s;
  cmd = c;
  addr = a;
  len = l;
  payload = p;
  idx = i;
  crc_hi = k;
}

-- `fill p i bs` is the buffer after the bytes `bs` were written from index `i` on.
abbrev pub fill : List ℕ → ℕ → List ℕ → List ℕ
fill p i [] = p
fill p i (b ∷ bs) = fill (set p i b) (i + 1) bs

pub length-fill : (p : List ℕ) (i : ℕ) (bs : List ℕ) → length (fill p i bs) ≡ length p
length-fill p i [] = refl
length-fill p i (b ∷ bs) = length-fill (set p i b) (i + 1) bs ∙ length-set p i b

pub take-fill :
    (p : List ℕ) (i : ℕ) (bs : List ℕ)
    → i + length bs ≤ length p
    → take (i + length bs) (fill p i bs) ≡ take i p ++ bs
take-fill p i [] h = ap (λ n. take n p) (omega arith) ∙ sym (append-nil (take i p))
take-fill p i (b ∷ bs) h =
    let count : i + suc (length bs) ≡ i + 1 + length bs = omega arith in
    let next : i + 1 ≡ suc i = omega arith in
    ap (λ n. take n (fill (set p i b) (i + 1) bs)) count
    ∙ take-fill (set p i b) (i + 1) bs (omega (arith, length-set p i b))
    ∙ ap (λ n. take n (set p i b) ++ bs) next
    ∙ ap (λ t. t ++ bs) (take-set p i b (omega arith))
    ∙ append_assoc (take i p) (b ∷ []) bs

len_lo_step :
    (c a i k n : ℕ) (p : List ℕ)
    → n ≤ max_data
    → feed_len_lo (reader State.len_lo c a (n / 256 * 256) p i k) (n % 256)
      ≡ reader (if n == 0 then State.crc_hi else State.payload) c a n p 0 k
unfolding feed_len_lo
len_lo_step c a i k n p hn =
    let whole_len : bit_or (n / 256 * 256) (n % 256) ≡ n =
      bit_or_fields 8 (n / 256) (n % 256) (omega arith) ∙ omega arith in
    ground arith

-- The six bytes in front of the data bring the reader to the data, or to the check sum if there
-- is none.
pub run_head :
    (c a l i k command address n : ℕ) (p rest : List ℕ)
    → n ≤ max_data
    → run
        (reader State.header c a l p i k)
        (header_byte ∷ command ∷ address / 256 ∷ address % 256 ∷ n / 256 ∷ n % 256 ∷ rest)
      ≡ run (reader (if n == 0 then State.crc_hi else State.payload) command address n p 0 k) rest
unfolding run
run_head c a l i k command address n p rest hn =
    let whole_addr : bit_or (address / 256 * 256) (address % 256) ≡ address =
      bit_or_fields 8 (address / 256) (address % 256) (omega arith) ∙ omega arith in
    rw whole_addr (ap (λ r. run r rest) (len_lo_step command address i k n p hn))

payload_last :
    (c a l i k b : ℕ) (p : List ℕ)
    → i + 1 ≡ l
    → feed_payload (reader State.payload c a l p i k) b ≡ reader State.crc_hi c a l (set p i b) l k
unfolding feed_payload
payload_last c a l i k b p h = ground arith

payload_more :
    (c a l i k b : ℕ) (p : List ℕ)
    → i + 1 < l
    → feed_payload (reader State.payload c a l p i k) b
      ≡ reader State.payload c a l (set p i b) (i + 1) k
unfolding feed_payload
payload_more c a l i k b p h = ground arith

-- The data bytes are written one after the other, and the last brings the reader to the check sum.
pub run_data :
    (c a l i k : ℕ) (p bytes rest : List ℕ) (b : ℕ)
    → i + length (b ∷ bytes) ≡ l
    → run (reader State.payload c a l p i k) ((b ∷ bytes) ++ rest)
      ≡ run (reader State.crc_hi c a l (fill p i (b ∷ bytes)) l k) rest
unfolding run
run_data c a l i k p [] rest b h = ap (λ r. run r rest) (payload_last c a l i k b p (omega arith))
run_data c a l i k p (b' ∷ bytes) rest b h =
    ap (λ r. run r ((b' ∷ bytes) ++ rest)) (payload_more c a l i k b p (omega arith))
    ∙ run_data c a l (i + 1) k (set p i b) bytes rest b' (omega arith)

collect_verdict :
    (t : Bool) (f : Frame) (a : ℕ) (outs : List FeedResult)
    → collect (if t then FeedResult.frame f else crc_error a) outs
      ≡ (if t then FeedResult.frame f else crc_error a) ∷ outs
collect_verdict true f a outs = refl
collect_verdict false f a outs = refl

-- The two bytes of the check sum end the frame: it is delivered, or refused.
pub run_crc :
    (c a l i k w : ℕ) (p rest : List ℕ)
    → run (reader State.crc_hi c a l p i k) (w / 256 ∷ w % 256 ∷ rest)
      ≡ let (r', outs) = run (reader State.header c a l p i (w / 256)) rest in
        (
          r',
          (if w == frame_crc c a (take l p)
                then FeedResult.frame (record { cmd = c; addr = a; payload = p; len = l })
                else crc_error a)
              ∷ outs,
        )
unfolding run
run_crc c a l i k w p rest =
    let whole : bit_or (w / 256 * 256) (w % 256) ≡ w =
      bit_or_fields 8 (w / 256) (w % 256) (omega arith) ∙ omega arith in
    let after = run (reader State.header c a l p i (w / 256)) rest in
    rw whole (
      ap (λ outs. (after.0, outs))
        (collect_verdict (w == frame_crc c a (take l p))
          (record { cmd = c; addr = a; payload = p; len = l }) a after.1))

-- A byte that is no header is skipped by a reader that waits for one.
pub run_noise :
    (c a l i k b : ℕ) (p rest : List ℕ)
    → b ≢ header_byte
    → run (reader State.header c a l p i k) (b ∷ rest) ≡ run (reader State.header c a l p i k) rest
unfolding run
run_noise c a l i k b p rest ne =
    ap (λ r. run r rest) (skipped (b == header_byte) (ne→== b header_byte ne))
  where
    skipped :
        (t : Bool)
        → t ≡ false
        → (if t then reader State.cmd c a l p i k else reader State.header c a l p i k)
          ≡ reader State.header c a l p i k
    skipped t e = rw e

-- One encoded frame with any two bytes for a check sum, and what follows it.
pub run_frame :
    (c a l i k command address w : ℕ) (p bytes rest : List ℕ)
    → length bytes ≤ max_data
    → length p ≡ max_data
    → (p' : List ℕ) × (i' : ℕ) × (length p' ≡ max_data)
      × (take (length bytes) p' ≡ bytes)
      × (run (reader State.header c a l p i k) (
            header_byte
            ∷ command
            ∷ address / 256
            ∷ address % 256
            ∷ length bytes / 256
            ∷ length bytes % 256
            ∷ (bytes ++ (w / 256 ∷ w % 256 ∷ rest)))
          ≡ let (r', outs) =
              run (reader State.header command address (length bytes) p' i' (w / 256)) rest in
            (
              r',
              (if w == frame_crc command address bytes
                    then FeedResult.frame
                        (record { cmd = command; addr = address; payload = p'; len = length bytes })
                    else crc_error address)
                  ∷ outs,
            ))
run_frame c a l i k command address w p [] rest fits room = (
  p,
  0,
  room,
  refl,
  run_head c a l i k command address 0 p _ (omega arith) ∙ run_crc command address 0 0 k w p rest,
)
run_frame c a l i k command address w p (b ∷ bytes) rest fits room =
    let n = length (b ∷ bytes) in
    let p' = fill p 0 (b ∷ bytes) in
    let held : take n p' ≡ b ∷ bytes =
      ap (λ m. take m p') {x = n} {y = 0 + n} (omega arith)
      ∙ take-fill p 0 (b ∷ bytes) (omega arith) in
    let after = run (reader State.header command address n p' n (w / 256)) rest in
    (
      p',
      n,
      length-fill p 0 (b ∷ bytes) ∙ room,
      held,
      run_head c a l i k command address n p _ fits
          ∙ ap
              (λ t.
                run (reader (if t then State.crc_hi else State.payload) command address n p 0 k)
                  ((b ∷ bytes) ++ (w / 256 ∷ w % 256 ∷ rest)))
              (ne→== n 0 (omega arith))
          ∙ run_data command address n 0 k p bytes (w / 256 ∷ w % 256 ∷ rest) b (omega arith)
          ∙ run_crc command address n n k w p' rest
          ∙ ap
              (λ held_bytes. (
                after.0,
                (if w == frame_crc command address held_bytes
                      then FeedResult.frame
                          (record { cmd = command; addr = address; payload = p'; len = n })
                      else crc_error address)
                    ∷ after.1,
              ))
              held,
    )
