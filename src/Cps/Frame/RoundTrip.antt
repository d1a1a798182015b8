-- ===== src/Cps/Frame/RoundTrip.antt =====
-- What was encoded is decoded, in order, and through noise between the frames.
use bf_k61_firmware_aura.Prelude.{
  ℕ, ◌/◌, ◌%◌, ◌≤◌, ◌≡◌, ◌≢◌, refl, sym, ap₂, subst, List, [], ◌∷◌, ◌++◌, Option, none, some, All,
  length, take, ==_refl,
}
use mathlib.Core.List.{append_assoc}
use bf_k61_firmware_aura.Cps.Frame.{
  FeedResult, pending, crc_error, State, FrameReader, header_byte, max_data, frame_crc, encode, run,
}
use bf_k61_firmware_aura.Cps.Frame.Steps.{reader, run_noise, run_frame}

-- A message as its sender sees it: a command, an address and the data.
pub record Message : Type 0 where
  pub command : ℕ
  pub address : ℕ
  pub bytes : List ℕ

-- What a host may send: a noise byte, or an encoded message.
pub data Item : Type 0 where
  noise : ℕ → Item
  message : Message → Item

abbrev pub IsItem : Item → Type 0
IsItem (noise b) = b ≢ header_byte
IsItem (message m) = length m.bytes ≤ max_data

abbrev pub stream : List Item → List ℕ
stream [] = []
stream (noise b ∷ items) = b ∷ stream items
stream (message m ∷ items) = encode m.command m.address m.bytes ++ stream items

abbrev pub messages : List Item → List Message
messages [] = []
messages (noise b ∷ items) = messages items
messages (message m ∷ items) = m ∷ messages items

-- What the dispatcher uses of a result: `frame.cmd`, `frame.addr` and `frame.data[..frame.len]`.
abbrev pub view : FeedResult → Option Message
view pending = none
view (crc_error a) = none
view (FeedResult.frame f) =
    some (record { command = f.cmd; address = f.addr; bytes = take f.len f.payload })

abbrev pub views : List FeedResult → List (Option Message)
views [] = []
views (r ∷ rs) = view r ∷ views rs

abbrev pub sent : List Message → List (Option Message)
sent [] = []
sent (m ∷ ms) = some m ∷ sent ms

encode_shape :
    (m : Message) (rest : List ℕ)
    → encode m.command m.address m.bytes ++ rest
      ≡ header_byte
        ∷ m.command
        ∷ m.address / 256
        ∷ m.address % 256
        ∷ length m.bytes / 256
        ∷ length m.bytes % 256
        ∷ (m.bytes
            ++ (frame_crc m.command m.address m.bytes / 256
                ∷ frame_crc m.command m.address m.bytes % 256
                ∷ rest))
unfolding encode
encode_shape m rest = rw (append_assoc, append_assoc)

run-stream_from :
    (c a l i k : ℕ) (p : List ℕ) (items : List Item)
    → length p ≡ max_data
    → All IsItem items
    → let (r, outs) = run (reader State.header c a l p i k) (stream items) in
      (r.state ≡ State.header) × (views outs ≡ sent (messages items))
run-stream_from c a l i k p [] room h = unfold run in (refl, refl)
run-stream_from c a l i k p (noise b ∷ items) room (ne, h) =
    rw (run_noise c a l i k b p (stream items) ne) (run-stream_from c a l i k p items room h)
run-stream_from c a l i k p (message m ∷ items) room (fits, h) =
    let w = frame_crc m.command m.address m.bytes in
    let (p', i', room', held, ran) =
      run_frame c a l i k m.command m.address w p m.bytes (stream items) fits room in
    let (waits, rest) =
      run-stream_from m.command m.address (length m.bytes) i' (w / 256) p' items room' h in
    rw (encode_shape m (stream items), ran, ==_refl w)
      (waits, ap₂ (λ held_bytes tail. some (record m { bytes = held_bytes }) ∷ tail) held rest)

-- A reader that waits for a header, fed with encoded messages of at most 96 bytes and with other
-- bytes in between that are no header, delivers exactly the messages, in order, with no check sum
-- error, and waits for a header again.
pub run-stream :
    (r : FrameReader) (items : List Item)
    → r.state ≡ State.header
    → length r.payload ≡ max_data
    → All IsItem items
    → let (r', outs) = run r (stream items) in
      (r'.state ≡ State.header) × (views outs ≡ sent (messages items))
run-stream r items waits room h =
    subst
      (λ s.
        let (r', outs) =
          run (reader s r.cmd r.addr r.len r.payload r.idx r.crc_hi) (stream items) in
        (r'.state ≡ State.header) × (views outs ≡ sent (messages items)))
      (sym waits) (run-stream_from r.cmd r.addr r.len r.idx r.crc_hi r.payload items room h)
