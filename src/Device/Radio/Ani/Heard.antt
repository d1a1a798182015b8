-- ===== src/Device/Radio/Ani/Heard.antt =====
-- A call that is sent by one radio arrives at another, over the polls of the main loop.
use bf_k61_firmware_aura.Prelude.{
  ℕ, zero, suc, ◌+◌, ◌-◌, ◌≤◌, ◌<◌, ◌≡◌, refl, ap, ◌∙◌, List, [], ◌∷◌, ◌++◌, Bool, true, Option,
  none, some, arith, length, set, All, replicate,
}
use mathlib.Core.List.{append_assoc}
use bf_k61_firmware_aura.Device.Radio.{Radio}
use bf_k61_firmware_aura.Device.Radio.Ani.{
  dtmf_rx_timeout_ticks, take_digit, wait_digit, poll_open, poll_dtmf,
}

-- What a poll finds: whether the squelch is open, and the digit that the chip has decoded.
abbrev pub Poll : Type 0
Poll = Bool × Option ℕ

abbrev pub reported : Option (ℕ × ℕ × ℕ) → List (ℕ × ℕ × ℕ) → List (ℕ × ℕ × ℕ)
reported none callers = callers
reported (some id) callers = id ∷ callers

-- The callers that a series of polls reports.
unfoldable pub callers : Radio → List Poll → List (ℕ × ℕ × ℕ)
unfolding poll_dtmf
callers r [] = []
callers r ((audio_open, ready) ∷ polls) =
    let (r', found) = poll_dtmf (record r { audio_open = audio_open }) ready in
    let rest = callers r' polls in reported found rest

abbrev pub idle_poll : Poll
idle_poll = (true, none)

-- The polls while digits are heard: after each digit some that find none.
abbrev pub heard : List ℕ → List ℕ → List Poll
heard [] gaps = []
heard (digit ∷ digits) [] = (true, some digit) ∷ heard digits []
heard (digit ∷ digits) (gap ∷ gaps) =
    (true, some digit) ∷ (replicate gap idle_poll ++ heard digits gaps)

-- A radio that listens, with what it has received and the time that it waits for more.
abbrev pub with_digits : Radio → List ℕ → ℕ → ℕ → Radio
with_digits r buf len timeout = record r {
  audio_open = true;
  dtmf_rx_buf = buf;
  dtmf_rx_len = len;
  dtmf_rx_timeout = timeout;
}

-- A poll that reports `found`.
pub poll_reports :
    (r r' : Radio) (poll : Poll) (found : Option (ℕ × ℕ × ℕ)) (polls : List Poll)
    → poll_dtmf (record r { audio_open = poll.0 }) poll.1 ≡ (r', found)
    → callers r (poll ∷ polls) ≡ reported found (callers r' polls)
unfolding callers
poll_reports r r' (audio_open, ready) found polls step =
    ap (λ out. reported out.1 (callers out.0 polls)) step

-- Polls without a digit, fewer than the time that is left, only take from it.
waits :
    (r : Radio) (buf : List ℕ) (len timeout n : ℕ) (polls : List Poll)
    → n < timeout
    → callers (with_digits r buf len timeout) (replicate n idle_poll ++ polls)
      ≡ callers (with_digits r buf len (timeout - n)) polls
waits r buf len timeout zero polls some_time =
    ap (λ left. callers (with_digits r buf len left) polls) (omega arith)
waits r buf len timeout (suc n) polls some_time =
    let step : poll_dtmf (with_digits r buf len timeout) none
        ≡ (with_digits r buf len (timeout - 1), none) =
      unfold poll_dtmf in unfold poll_open in unfold wait_digit in ground (arith, some_time) in
    poll_reports (with_digits r buf len timeout) (with_digits r buf len (timeout - 1)) idle_poll
      none (replicate n idle_poll ++ polls) step
    ∙ waits r buf len (timeout - 1) n polls (omega arith)
    ∙ ap (λ left. callers (with_digits r buf len left) polls) (omega arith)

-- A digit is stored, and the wait for the next one begins.
takes :
    (r : Radio) (buf : List ℕ) (len timeout digit gap : ℕ) (polls : List Poll)
    → len < 15
    → gap < dtmf_rx_timeout_ticks
    → callers
        (with_digits r buf len timeout)
        ((true, some digit) ∷ (replicate gap idle_poll ++ polls))
      ≡ callers (with_digits r (set buf len digit) (len + 1) (dtmf_rx_timeout_ticks - gap)) polls
takes r buf len timeout digit gap polls free near =
    let step : poll_dtmf (with_digits r buf len timeout) (some digit)
        ≡ (with_digits r (set buf len digit) (len + 1) dtmf_rx_timeout_ticks, none) =
      unfold poll_dtmf in unfold poll_open in unfold take_digit in ground (arith, free) in
    poll_reports (with_digits r buf len timeout)
      (with_digits r (set buf len digit) (len + 1) dtmf_rx_timeout_ticks) (true, some digit) none
      (replicate gap idle_poll ++ polls) step
    ∙ waits r (set buf len digit) (len + 1) dtmf_rx_timeout_ticks gap polls near

unfoldable pub stored : List ℕ → ℕ → List ℕ → List ℕ
stored buf len [] = buf
stored buf len (digit ∷ digits) = stored (set buf len digit) (len + 1) digits

-- After the polls of the digits they all are stored, and the wait goes on.
abbrev Arrived : Radio → List ℕ → ℕ → List Poll → List Poll → List ℕ → ℕ → Type 0
Arrived r buf timeout polls ends digits len =
    (left : ℕ) × (0 < left)
    × (left ≤ dtmf_rx_timeout_ticks)
    × (callers (with_digits r buf len timeout) polls
        ≡ callers (with_digits r (stored buf len digits) (len + length digits) left) ends)

pub arrives :
    (r : Radio) (buf : List ℕ) (timeout : ℕ) (digits gaps : List ℕ) (len : ℕ) (ends : List Poll)
    → 0 < timeout
    → timeout ≤ dtmf_rx_timeout_ticks
    → len + length digits ≤ 15
    → length gaps ≡ length digits
    → All (λ gap. gap < dtmf_rx_timeout_ticks) gaps
    → Arrived r buf timeout (heard digits gaps ++ ends) ends digits len
unfolding stored
arrives r buf timeout [] gaps len ends some_time few free same near =
    (timeout, some_time, few, ap (λ n. callers (with_digits r buf n timeout) ends) (omega arith))
arrives r buf timeout (digit ∷ digits) [] len ends some_time few free same near =
    absurd (omega (arith, same))
arrives r buf timeout (digit ∷ digits) (gap ∷ gaps) len ends some_time few free same near =
    let (left, some_left, few_left, rest) =
      arrives r (set buf len digit) (dtmf_rx_timeout_ticks - gap) digits gaps (len + 1) ends
        (omega (arith, near.0)) (omega (arith)) (omega (arith, free)) (omega (arith, same))
        near.1 in
    (
      left,
      some_left,
      few_left,
      ap (λ polls. callers (with_digits r buf len timeout) ((true, some digit) ∷ polls))
            (append_assoc (replicate gap idle_poll) (heard digits gaps) ends)
          ∙ takes r buf len timeout digit gap (heard digits gaps ++ ends) (omega (arith, free))
              near.0
          ∙ rest
          ∙ ap
              (λ n.
                callers (with_digits r (stored (set buf len digit) (len + 1) digits) n left) ends)
              (omega arith),
    )

-- With nothing received, polls without a digit report nothing.
pub nothing_left :
    (r : Radio) (buf : List ℕ) (n : ℕ)
    → callers (with_digits r buf 0 0) (replicate n idle_poll) ≡ []
nothing_left r buf zero = unfold callers in refl
nothing_left r buf (suc n) =
    poll_reports (with_digits r buf 0 0) (with_digits r buf 0 0) idle_poll none
      (replicate n idle_poll) (unfold poll_dtmf in unfold poll_open in unfold wait_digit in refl)
    ∙ nothing_left r buf n
