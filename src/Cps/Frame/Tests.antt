-- ===== src/Cps/Frame/Tests.antt =====
-- Concrete runs of the frame reader, and its theorems at concrete inputs.
use bf_k61_firmware_aura.Prelude.{
  ℕ, ◌≤◌, ◌≡◌, refl, List, [], ◌∷◌, arith, All, set, take, replicate,
}
use bf_k61_firmware_aura.Crc.{crc16_xmodem}
use bf_k61_firmware_aura.Cps.Frame.{crc_error, State, new, frame_crc, encode, run}
use bf_k61_firmware_aura.Cps.Frame.Valid.{IsValid, resync}
use bf_k61_firmware_aura.Cps.Frame.Sound.{Sent, run-Sent}
use bf_k61_firmware_aura.Cps.Frame.RoundTrip.{
  Message, Item, noise, message, stream, views, sent, run-stream,
}
use bf_k61_firmware_aura.Cps.Frame.Corruption.{run_corrupted}

-- "123456789" has the published XMODEM check sum.
crc_check_value :
    crc16_xmodem (0x31 ∷ 0x32 ∷ 0x33 ∷ 0x34 ∷ 0x35 ∷ 0x36 ∷ 0x37 ∷ 0x38 ∷ 0x39 ∷ []) ≡ 0x31C3
unfolding crc16_xmodem
crc_check_value = refl

-- A read request for address 0x8000.
encode_read : encode 0x52 0x8000 [] ≡ 0xA6 ∷ 0x52 ∷ 0x80 ∷ 0x00 ∷ 0x00 ∷ 0x00 ∷ 0x8C ∷ 0x89 ∷ []
unfolding encode frame_crc crc16_xmodem
encode_read = refl

-- A length above 96 drops the frame, and the reader waits for the next header.
oversized : (run new (0xA6 ∷ 0x57 ∷ 0x00 ∷ 0x00 ∷ 0x00 ∷ 0x61 ∷ [])).0.state ≡ State.header
unfolding run
oversized = refl

new-IsValid : IsValid new
new-IsValid = omega arith

-- A byte that is no header, the read request, and the same with a wrong check sum.
abbrev noisy : List ℕ
noisy =
    0x11 ∷ 0xA6 ∷ 0x52 ∷ 0x80 ∷ 0x00 ∷ 0x00 ∷ 0x00 ∷ 0x8C ∷ 0x89 ∷ 0xA6 ∷ 0x52 ∷ 0x80 ∷ 0x00 ∷ 0x00
    ∷ 0x00 ∷ 0x8C ∷ 0x88 ∷ []

run-Sent_example : All (Sent noisy) (run new noisy).1
run-Sent_example = run-Sent noisy (omega arith)

abbrev headers : List ℕ
headers = replicate 103 0xA6

resync_example : (n : ℕ) × (n ≤ 103) × ((run new (take n headers)).0.state ≡ State.header)
resync_example = resync new headers new-IsValid (omega arith) refl

abbrev ping : Message
ping = record { command = 0x52; address = 0x8000; bytes = [] }

abbrev write_two : Message
write_two = record { command = 0x57; address = 0x9300; bytes = 0xE9 ∷ 0xA6 ∷ [] }

abbrev traffic : List Item
traffic = noise 0xFF ∷ message ping ∷ noise 0x00 ∷ message write_two ∷ []

run-stream_example :
    let (r, outs) = run new (stream traffic) in
    (r.state ≡ State.header) × (views outs ≡ sent (ping ∷ write_two ∷ []))
run-stream_example =
    run-stream new traffic refl refl
      ((λ e. omega arith), (omega arith, ((λ e. omega arith), (omega arith, tt))))

run_corrupted_example :
    let (r, outs) = run new (set (encode 0x57 0x9300 (0xE9 ∷ 0x09 ∷ [])) 7 0x0A) in
    (outs ≡ crc_error 0x9300 ∷ []) × (r.state ≡ State.header)
run_corrupted_example =
    run_corrupted new 0x57 0x9300 (0xE9 ∷ []) [] 0x09 0x0A refl refl (omega arith) (omega arith)
      (omega arith) (omega arith) (omega arith) (omega arith) (omega arith) (omega arith)
