-- ===== src/Cps/Frame.antt =====
-- src/cps/frame.rs: the byte-at-a-time frame decoder and the encoder.
-- `Frame.payload` and `FrameReader.payload` are the fields that the source calls `data`.
pub mod Valid
pub mod Steps
pub mod RoundTrip
pub mod Corruption
pub mod Sound
pub mod Begun
mod Tests
use bf_k61_firmware_aura.Prelude.{
  ℕ, zero, suc, ◌+◌, ◌*◌, ◌/◌, ◌%◌, bit_or, List, [], ◌∷◌, ◌++◌, Bool, length, set, take, replicate,
  ltb, ◌==◌, if◌then◌else◌,
}
use bf_k61_firmware_aura.Crc.{crc16_xmodem}

abbrev pub header_byte : ℕ
header_byte = 0xA6

abbrev pub max_data : ℕ
max_data = 96

pub record Frame : Type 0 where
  pub cmd : ℕ
  pub addr : ℕ
  pub payload : List ℕ
  pub len : ℕ

pub data FeedResult : Type 0 where
  pending : FeedResult
  frame : Frame → FeedResult
  crc_error : ℕ → FeedResult

pub data State : Type 0 where
  header cmd addr_hi addr_lo len_hi len_lo payload crc_hi crc_lo : State

pub record FrameReader : Type 0 where
  pub state : State
  pub cmd : ℕ
  pub addr : ℕ
  pub len : ℕ
  pub payload : List ℕ
  pub idx : ℕ
  pub crc_hi : ℕ

abbrev pub new : FrameReader
new = record {
  state = State.header;
  cmd = 0;
  addr = 0;
  len = 0;
  payload = replicate max_data 0;
  idx = 0;
  crc_hi = 0;
}

abbrev reset : FrameReader → FrameReader
reset r = record r { state = State.header }

-- `buf[..5 + data.len()]` is the header fields, big-endian, and then the data.
unfoldable pub frame_crc : ℕ → ℕ → List ℕ → ℕ
frame_crc command addr bytes =
    crc16_xmodem
      (command ∷ addr / 256 ∷ addr % 256 ∷ length bytes / 256 ∷ length bytes % 256 ∷ bytes)

unfoldable pub feed_len_lo : FrameReader → ℕ → FrameReader
feed_len_lo r byte =
    let len = bit_or r.len byte in
    if ltb max_data len
    then record r { state = State.header; len = len }
    else if len == 0
    then record r { state = State.crc_hi; len = len; idx = 0 }
    else record r { state = State.payload; len = len; idx = 0 }

unfoldable pub feed_payload : FrameReader → ℕ → FrameReader
feed_payload r byte =
    let idx = r.idx + 1 in
    record r {
      payload = set r.payload r.idx byte;
      idx = idx;
      state = if idx == r.len then State.crc_hi else State.payload;
    }

unfoldable pub feed_crc_lo : FrameReader → ℕ → FrameReader × FeedResult
feed_crc_lo r byte =
    let crc_rx = bit_or (r.crc_hi * 256) byte in
    let crc_calc = frame_crc r.cmd r.addr (take r.len r.payload) in
    (
      reset r,
      if crc_rx == crc_calc
          then FeedResult.frame
              (record { cmd = r.cmd; addr = r.addr; payload = r.payload; len = r.len })
          else crc_error r.addr,
    )

-- The `match self.state` of `feed`, one clause for each arm.
unfoldable pub feed_at : State → FrameReader → ℕ → FrameReader × FeedResult
unfolding feed_len_lo feed_payload feed_crc_lo
feed_at State.header r byte =
    (if byte == header_byte then record r { state = State.cmd } else r, pending)
feed_at State.cmd r byte = (record r { cmd = byte; state = State.addr_hi }, pending)
feed_at State.addr_hi r byte = (record r { addr = byte * 256; state = State.addr_lo }, pending)
feed_at State.addr_lo r byte =
    (record r { addr = bit_or r.addr byte; state = State.len_hi }, pending)
feed_at State.len_hi r byte = (record r { len = byte * 256; state = State.len_lo }, pending)
feed_at State.len_lo r byte = (feed_len_lo r byte, pending)
feed_at State.payload r byte = (feed_payload r byte, pending)
feed_at State.crc_hi r byte = (record r { crc_hi = byte; state = State.crc_lo }, pending)
feed_at State.crc_lo r byte = feed_crc_lo r byte

unfoldable pub feed : FrameReader → ℕ → FrameReader × FeedResult
unfolding feed_at
feed r byte = feed_at r.state r byte

-- `encode` writes these bytes to `out` and returns their number.
unfoldable pub encode : ℕ → ℕ → List ℕ → List ℕ
encode command addr bytes =
    let crc = frame_crc command addr bytes in
    (header_byte ∷ command ∷ addr / 256 ∷ addr % 256 ∷ length bytes / 256 ∷ length bytes % 256 ∷ [])
    ++ (bytes ++ (crc / 256 ∷ crc % 256 ∷ []))

-- The session loop's use of the reader: one byte after the other, keeping what is not `Pending`.
abbrev pub collect : FeedResult → List FeedResult → List FeedResult
collect pending rs = rs
collect (FeedResult.frame f) rs = FeedResult.frame f ∷ rs
collect (crc_error a) rs = crc_error a ∷ rs

unfoldable pub run : FrameReader → List ℕ → FrameReader × List FeedResult
unfolding feed
run r [] = (r, [])
run r (byte ∷ rest) =
    let (r', out) = feed r byte in let (r'', outs) = run r' rest in (r'', collect out outs)
