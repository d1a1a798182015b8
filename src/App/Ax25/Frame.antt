-- ===== src/App/Ax25/Frame.antt =====
-- src/app/ax25/frame.rs: AX.25 frames, and the line code that carries them: bits from the lowest
-- up, a 0 stuffed in after five ones, and a change of level for each 0.
pub mod Receiver
pub mod Levels
pub mod Line
pub mod Address
pub mod Builder
pub mod Parse
use bf_k61_firmware_aura.Prelude.{
  ℕ, zero, suc, ◌+◌, ◌-◌, ◌*◌, ◌/◌, ◌%◌, ◌^◌, ◌<◌, max, bit_or, bit_xor, List, [], ◌∷◌, ◌++◌, Bool,
  true, false, ◌&&◌, ◌||◌, not, length, get_or, set, take, replicate, ltb, leb, ◌==◌, if◌then◌else◌,
}

abbrev pub flag : ℕ
flag = 0x7E

abbrev pub max_frame : ℕ
max_frame = 400

abbrev pub crc_poly_rev : ℕ
crc_poly_rev = 0x8408

-- The loop of `crc16_update`, with `n` bits to go.
unfoldable pub shift_right : ℕ → ℕ → ℕ
shift_right zero crc = crc
shift_right (suc n) crc =
    shift_right n (if crc % 2 == 0 then crc / 2 else bit_xor (crc / 2) crc_poly_rev)

unfoldable pub crc16_update : ℕ → ℕ → ℕ
unfolding shift_right
crc16_update crc byte = shift_right 8 (bit_xor crc byte)

unfoldable pub crc16_from : ℕ → List ℕ → ℕ
unfolding crc16_update
crc16_from crc [] = crc
crc16_from crc (b ∷ bytes) = crc16_from (crc16_update crc b) bytes

unfoldable pub crc16_ccitt : List ℕ → ℕ
unfolding crc16_from
crc16_ccitt bytes = bit_xor (crc16_from 0xFFFF bytes) 0xFFFF

-- `is_ascii_uppercase() || is_ascii_digit()`
abbrev pub is_call_char : ℕ → Bool
is_call_char c = (leb 65 c && leb c 90) || (leb 48 c && leb c 57)

unfoldable pub call_byte : ℕ → ℕ
call_byte c = if is_call_char c then c * 2 % 256 else 64

unfoldable pub encode_address : List ℕ → ℕ → Bool → List ℕ
unfolding call_byte
encode_address call ssid last =
    call_byte (get_or call 0 0)
    ∷ call_byte (get_or call 1 0)
    ∷ call_byte (get_or call 2 0)
    ∷ call_byte (get_or call 3 0)
    ∷ call_byte (get_or call 4 0)
    ∷ call_byte (get_or call 5 0)
    ∷ bit_or (bit_or (if last then 1 else 0) 0x60) (ssid % 16 * 2)
    ∷ []

-- `Ax25Builder`: the bytes up to `len`; what is pushed beyond the buffer is lost.
unfoldable pub push : List ℕ → ℕ → List ℕ
push buf byte = if ltb (length buf) max_frame then buf ++ (byte ∷ []) else buf

unfoldable pub push_slice : List ℕ → List ℕ → List ℕ
unfolding push
push_slice buf [] = buf
push_slice buf (b ∷ bytes) = push_slice (push buf b) bytes

pub record Station : Type 0 where
  pub call : List ℕ
  pub ssid : ℕ

-- The addresses of the digipeaters: the last one ends the address field.
unfoldable pub push_path : List ℕ → List Station → List ℕ
unfolding push_slice encode_address
push_path buf [] = buf
push_path buf (digi ∷ []) = push_slice buf (encode_address digi.call digi.ssid true)
push_path buf (digi ∷ next ∷ digis) =
    push_path (push_slice buf (encode_address digi.call digi.ssid false)) (next ∷ digis)

unfoldable pub is_empty : List Station → Bool
is_empty [] = true
is_empty (digi ∷ digis) = false

-- The end of `build_ui_frame`: the check sum, the low byte first.
unfoldable pub finish : List ℕ → List ℕ × ℕ
unfolding push crc16_ccitt
finish body = let fcs = crc16_ccitt body in (push (push body (fcs % 256)) (fcs / 256 % 256), fcs)

-- `build_ui_frame`: the frame, and the check sum that it returns.
unfoldable pub build_ui_frame : Station → Station → List Station → List ℕ → List ℕ × ℕ
unfolding push_path is_empty finish
build_ui_frame dest src digi_path info =
    let to = push_slice [] (encode_address dest.call dest.ssid false) in
    let from = push_slice to (encode_address src.call src.ssid (is_empty digi_path)) in
    finish (push_slice (push (push (push_path from digi_path) 0x03) 0xF0) info)

-- The state of the line code: the levels sent so far, the level, and the ones since the last 0.
pub record Sender : Type 0 where
  pub levels : List ℕ
  pub nrzi : ℕ
  pub ones : ℕ

-- One bit of `process_byte`.
unfoldable pub send_bit : Bool → Sender → ℕ → Sender
send_bit stuff line bit =
    let ones = if bit == 1 then line.ones + 1 else 0 in
    let nrzi = if bit == 0 then bit_xor line.nrzi 1 else line.nrzi in
    let sent = line.levels ++ (nrzi ∷ []) in
    if stuff && ones == 5
    then record { levels = sent ++ (bit_xor nrzi 1 ∷ []); nrzi = bit_xor nrzi 1; ones = 0 }
    else record { levels = sent; nrzi = nrzi; ones = ones }

-- The loop of `process_byte`, with `n` bits to go; `byte` is shifted down bit by bit.
unfoldable pub send_bits : Bool → ℕ → Sender → ℕ → Sender
unfolding send_bit
send_bits stuff zero line byte = line
send_bits stuff (suc n) line byte = send_bits stuff n (send_bit stuff line (byte % 2)) (byte / 2)

unfoldable pub process_byte : Bool → Sender → ℕ → Sender
unfolding send_bits
process_byte stuff line byte = send_bits stuff 8 line byte

-- A loop of flags: the count of ones is reset after each.
unfoldable pub send_flags : ℕ → Sender → Sender
unfolding process_byte
send_flags zero line = line
send_flags (suc n) line = send_flags n (record (process_byte false line flag) { ones = 0 })

unfoldable pub send_bytes : Sender → List ℕ → Sender
unfolding process_byte
send_bytes line [] = line
send_bytes line (byte ∷ bytes) = send_bytes (process_byte true line byte) bytes

abbrev pub lead_flags : ℕ
lead_flags = 10

-- The levels that `nrzi_encode_frame` emits, in order.
unfoldable pub line_levels : List ℕ → ℕ → List ℕ
unfolding send_flags send_bytes
line_levels raw num_tail_flags =
    let lead = send_flags lead_flags (record { levels = []; nrzi = 1; ones = 0 }) in
    (send_flags (max num_tail_flags 1) (send_bytes lead raw)).levels

-- `emit`: each level that is 1 sets its bit, the highest bit of a byte first.
unfoldable pub pack : List ℕ → ℕ → List ℕ → List ℕ
pack out bit_pos [] = out
pack out bit_pos (level ∷ levels) =
    let written =
      if ltb (bit_pos / 8) (length out) && not (level == 0)
      then set out (bit_pos / 8) (bit_or (get_or out (bit_pos / 8) 0) (2 ^ (7 - bit_pos % 8)))
      else out in
    pack written (bit_pos + 1) levels

unfoldable pub nrzi_encode_frame : List ℕ → ℕ → List ℕ → List ℕ × ℕ
unfolding line_levels pack
nrzi_encode_frame raw num_tail_flags out =
    let levels = line_levels raw num_tail_flags in (pack out 0 levels, length levels)
