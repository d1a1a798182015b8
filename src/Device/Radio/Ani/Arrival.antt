-- ===== src/Device/Radio/Ani/Arrival.antt =====
-- What the polls report when the digits of a call have been heard.
use bf_k61_firmware_aura.Prelude.{
  ℕ, zero, suc, ◌-◌, ◌≤◌, ◌<◌, ◌≡◌, refl, ap, ◌∙◌, List, [], ◌∷◌, ◌++◌, Bool, true, false, ◌&&◌,
  ◌||◌, Option, none, some, arith, length, All, replicate, ◌==◌, Bool-cases, inl, inr,
}
use bf_k61_firmware_aura.Device.Radio.{Radio, AniConfig}
use bf_k61_firmware_aura.Device.Radio.Ani.{
  ani_frame_len, dtmf_rx_timeout_ticks, finish_dtmf_frame, is_called, is_group, take_digit,
  wait_digit, poll_open, poll_dtmf, ani_digits,
}
use bf_k61_firmware_aura.Device.Radio.Ani.Heard.{
  Poll, reported, callers, idle_poll, heard, with_digits, poll_reports, stored, arrives,
  nothing_left,
}

abbrev id_if : Bool → ℕ × ℕ × ℕ → Option (ℕ × ℕ × ℕ)
id_if true id = some id
id_if false id = none

-- The caller that is reported, if any.
abbrev pub caller_if : Bool → ℕ × ℕ × ℕ → List (ℕ × ℕ × ℕ)
caller_if called id = reported (id_if called id) []

-- The numbers that a radio answers to: its own and that of its group, three times the same digit.
abbrev pub group_numbers : Option ℕ → List (ℕ × ℕ × ℕ)
group_numbers none = []
group_numbers (some g) = (g, g, g) ∷ []

abbrev pub numbers : AniConfig → List (ℕ × ℕ × ℕ)
numbers ani = ani.machine_id ∷ group_numbers ani.group_code

abbrev pub is_among : ℕ × ℕ × ℕ → List (ℕ × ℕ × ℕ) → Bool
is_among target [] = false
is_among target (id ∷ ids) =
    (target.0 == id.0 && target.1 == id.1 && target.2 == id.2) || is_among target ids

is_called_by :
    (machine_id : ℕ × ℕ × ℕ) (separator : ℕ) (group : Option ℕ) (target : ℕ × ℕ × ℕ)
    → is_called
        (record { machine_id = machine_id; separator = separator; group_code = group })
        target
      ≡ is_among target (machine_id ∷ group_numbers group)
unfolding is_called is_group
is_called_by machine_id separator none target = refl
is_called_by machine_id separator (some g) target = ground arith

-- A call is for this radio.
abbrev pub reaches : AniConfig → ℕ × ℕ × ℕ → AniConfig → Bool
reaches caller target ani = caller.separator == ani.separator && is_among target (numbers ani)

-- A radio that has received the digits of a call.
abbrev full : Radio → List ℕ → AniConfig → ℕ × ℕ × ℕ → Radio
full r buf caller target = record r {
  dtmf_rx_buf = stored buf 0 (ani_digits caller target);
  dtmf_rx_len = 7;
}

judges_code :
    (r : Radio) (caller : AniConfig) (target : ℕ × ℕ × ℕ) (a b c d e f g : ℕ) (rest : List ℕ)
    → (finish_dtmf_frame (full r (a ∷ b ∷ c ∷ d ∷ e ∷ f ∷ g ∷ rest) caller target)).1
      ≡ id_if (caller.separator == r.ani.separator && is_called r.ani target) caller.machine_id
unfolding finish_dtmf_frame stored ani_digits
judges_code r caller target a b c d e f g rest = ground arith

judges_at :
    (r : Radio) (caller : AniConfig) (target : ℕ × ℕ × ℕ) (a b c d e f g : ℕ) (rest : List ℕ)
    → (finish_dtmf_frame (full r (a ∷ b ∷ c ∷ d ∷ e ∷ f ∷ g ∷ rest) caller target)).1
      ≡ id_if (reaches caller target r.ani) caller.machine_id
judges_at r caller target a b c d e f g rest =
    judges_code r caller target a b c d e f g rest
    ∙ ap (λ called. id_if (caller.separator == r.ani.separator && called) caller.machine_id)
        (is_called_by r.ani.machine_id r.ani.separator r.ani.group_code target)

judges :
    (r : Radio) (caller : AniConfig) (target : ℕ × ℕ × ℕ) (buf : List ℕ)
    → ani_frame_len ≤ length buf
    → (finish_dtmf_frame (full r buf caller target)).1
      ≡ id_if (reaches caller target r.ani) caller.machine_id
judges r caller target [] h = absurd (omega (arith, h))
judges r caller target (a ∷ []) h = absurd (omega (arith, h))
judges r caller target (a ∷ b ∷ []) h = absurd (omega (arith, h))
judges r caller target (a ∷ b ∷ c ∷ []) h = absurd (omega (arith, h))
judges r caller target (a ∷ b ∷ c ∷ d ∷ []) h = absurd (omega (arith, h))
judges r caller target (a ∷ b ∷ c ∷ d ∷ e ∷ []) h = absurd (omega (arith, h))
judges r caller target (a ∷ b ∷ c ∷ d ∷ e ∷ f ∷ []) h = absurd (omega (arith, h))
judges r caller target (a ∷ b ∷ c ∷ d ∷ e ∷ f ∷ g ∷ rest) h =
    judges_at r caller target a b c d e f g rest

-- A frame that is judged is forgotten.
forgets : (r : Radio) → (finish_dtmf_frame r).0 ≡ record r { dtmf_rx_len = 0 }
unfolding finish_dtmf_frame
forgets r = ground arith

-- The end of the carrier: the squelch is closed.
abbrev pub closed_poll : Poll
closed_poll = (false, none)

closes :
    (r : Radio) (buf : List ℕ) (left : ℕ)
    → callers (with_digits r buf 7 left) (closed_poll ∷ [])
      ≡ reported
          (finish_dtmf_frame (record r {
            audio_open = false;
            dtmf_rx_buf = buf;
            dtmf_rx_len = 7;
            dtmf_rx_timeout = 0;
          })).1
          []
unfolding callers poll_dtmf
closes r buf left = refl

-- The end of the wait, without a closed squelch.
times_out :
    (r : Radio) (buf : List ℕ) (left n : ℕ)
    → 0 < left
    → left ≤ n
    → callers (with_digits r buf 7 left) (replicate n idle_poll)
      ≡ reported (finish_dtmf_frame (with_digits r buf 7 0)).1 []
times_out r buf left zero some_left enough = absurd (omega (arith, some_left, enough))
times_out r buf left (suc n) some_left enough = elim (Bool-cases (left - 1 == 0)) [
  | inl over ↦
      let last : poll_dtmf (with_digits r buf 7 left) none
          ≡ finish_dtmf_frame (with_digits r buf 7 0) =
        unfold poll_dtmf in
        unfold poll_open in unfold wait_digit in ground (arith, over, some_left) in
      let found = (finish_dtmf_frame (with_digits r buf 7 0)).1 in
      poll_reports (with_digits r buf 7 left) (finish_dtmf_frame (with_digits r buf 7 0)).0
        idle_poll found (replicate n idle_poll) last
      ∙ ap (λ r'. reported found (callers r' (replicate n idle_poll)))
          (forgets (with_digits r buf 7 0))
      ∙ ap (reported found) (nothing_left r buf n)
  | inr more ↦
      let step : poll_dtmf (with_digits r buf 7 left) none
          ≡ (with_digits r buf 7 (left - 1), none) =
        unfold poll_dtmf in
        unfold poll_open in unfold wait_digit in ground (arith, more, some_left) in
      poll_reports (with_digits r buf 7 left) (with_digits r buf 7 (left - 1)) idle_poll none
        (replicate n idle_poll) step
      ∙ times_out r buf (left - 1) n (ground (arith, more)) (ground (arith, more))
]

-- The first digit opens the wait, whatever it was.
starts :
    (r : Radio) (digit : ℕ) (polls : List Poll)
    → r.dtmf_rx_len ≡ 0
    → callers r ((true, some digit) ∷ polls)
      ≡ callers (with_digits r r.dtmf_rx_buf 0 dtmf_rx_timeout_ticks) ((true, some digit) ∷ polls)
unfolding callers poll_dtmf poll_open take_digit
starts r digit polls fresh =
    ap
      (λ len.
        callers (with_digits r r.dtmf_rx_buf len dtmf_rx_timeout_ticks)
          ((true, some digit) ∷ polls))
      fresh

-- What is left of the polls when the digits have been heard.
ends_after :
    (r : Radio) (caller : AniConfig) (target : ℕ × ℕ × ℕ) (gaps : List ℕ) (ends : List Poll)
    → r.dtmf_rx_len ≡ 0
    → length gaps ≡ 7
    → All (λ gap. gap < dtmf_rx_timeout_ticks) gaps
    → (left : ℕ) × (0 < left)
      × (left ≤ dtmf_rx_timeout_ticks)
      × (callers r (heard (ani_digits caller target) gaps ++ ends)
          ≡ callers (with_digits r (stored r.dtmf_rx_buf 0 (ani_digits caller target)) 7 left) ends)
unfolding ani_digits
ends_after r caller target [] ends fresh same near = absurd (omega (arith, same))
ends_after r caller target (gap ∷ gaps) ends fresh same near =
    let (left, some_left, few, arrived) =
      arrives r r.dtmf_rx_buf dtmf_rx_timeout_ticks (ani_digits caller target) (gap ∷ gaps) 0 ends
        (omega arith) (omega arith) (omega arith) same near in
    (left, some_left, few, starts r target.0 _ fresh ∙ arrived)

-- A call arrives: when a radio calls `target`, and another one with an open squelch and an empty
-- receive buffer hears the seven digits with fewer than `dtmf_rx_timeout_ticks` polls without a digit
-- after each, it reports the caller exactly once if the two use the same separator and `target` is
-- its own number or that of its group, and nobody otherwise; be it that the squelch closes at the
-- end or that the wait for a further digit runs out.
pub callers-ani_digits :
    (r : Radio) (caller : AniConfig) (target : ℕ × ℕ × ℕ) (gaps : List ℕ)
    → r.dtmf_rx_len ≡ 0
    → ani_frame_len ≤ length r.dtmf_rx_buf
    → length gaps ≡ 7
    → All (λ gap. gap < dtmf_rx_timeout_ticks) gaps
    → (callers r (heard (ani_digits caller target) gaps ++ closed_poll ∷ [])
        ≡ caller_if (reaches caller target r.ani) caller.machine_id)
      × (callers r
            (heard (ani_digits caller target) gaps ++ replicate dtmf_rx_timeout_ticks idle_poll)
          ≡ caller_if (reaches caller target r.ani) caller.machine_id)
callers-ani_digits r caller target gaps fresh room same near =
    let buf = stored r.dtmf_rx_buf 0 (ani_digits caller target) in
    let (left, some_left, few, arrived) =
      ends_after r caller target gaps (closed_poll ∷ []) fresh same near in
    let (left', some_left', few', arrived') =
      ends_after r caller target gaps (replicate dtmf_rx_timeout_ticks idle_poll) fresh same near in
    let closed : Radio = record r { audio_open = false; dtmf_rx_timeout = 0 } in
    let waited : Radio = record r { audio_open = true; dtmf_rx_timeout = 0 } in
    (
      arrived
          ∙ closes r buf left
          ∙ ap (λ o. reported o []) (judges closed caller target r.dtmf_rx_buf room),
      arrived'
          ∙ times_out r buf left' dtmf_rx_timeout_ticks some_left' few'
          ∙ ap (λ o. reported o []) (judges waited caller target r.dtmf_rx_buf room),
    )
