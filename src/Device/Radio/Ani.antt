-- ===== src/Device/Radio/Ani.antt =====
-- src/device/radio.rs: the calls of other radios by DTMF digits.
pub mod Heard
pub mod Arrival
use bf_k61_firmware_aura.Prelude.{
  ℕ, ◌+◌, ◌-◌, ◌≤◌, ◌≡◌, ap, ◌∙◌, List, [], ◌∷◌, Bool, true, false, not, ◌&&◌, ◌||◌, Option, none,
  some, arith, get_or, set, length, ltb, leb, ◌==◌, if◌then◌else◌,
}
use bf_k61_firmware_aura.Device.Radio.{Radio, AniConfig, send_dtmf_digits}

abbrev pub ani_frame_len : ℕ
ani_frame_len = 7

abbrev pub dtmf_rx_timeout_ticks : ℕ
dtmf_rx_timeout_ticks = 40

abbrev pub dtmf_rx_max_digits : ℕ
dtmf_rx_max_digits = 16

abbrev pub separator_symbols : List ℕ
separator_symbols = 10 ∷ 11 ∷ 12 ∷ 13 ∷ 14 ∷ 15 ∷ []

abbrev pub group_symbols : List (Option ℕ)
group_symbols = none ∷ some 10 ∷ some 11 ∷ some 12 ∷ some 13 ∷ some 14 ∷ some 15 ∷ []

unfoldable pub from_raw : ℕ × ℕ × ℕ → ℕ → ℕ → AniConfig
from_raw machine_id separator_idx group_idx = record {
  machine_id = machine_id;
  separator = get_or separator_symbols (if ltb 5 separator_idx then 4 else separator_idx) 0;
  group_code = get_or group_symbols (if ltb 6 group_idx then 5 else group_idx) none;
}

abbrev pub same_code : ℕ × ℕ × ℕ → ℕ × ℕ × ℕ → Bool
same_code a b = a.0 == b.0 && a.1 == b.1 && a.2 == b.2

abbrev pub digits_at : List ℕ → ℕ → ℕ × ℕ × ℕ
digits_at buf i = (get_or buf i 0, get_or buf (i + 1) 0, get_or buf (i + 2) 0)

unfoldable pub is_group : Option ℕ → ℕ × ℕ × ℕ → Bool
is_group none call_code = false
is_group (some g) call_code = same_code call_code (g, g, g)

-- The radio is called by its own number or by that of its group.
unfoldable pub is_called : AniConfig → ℕ × ℕ × ℕ → Bool
unfolding is_group
is_called ani call_code = same_code call_code ani.machine_id || is_group ani.group_code call_code

unfoldable pub finish_dtmf_frame : Radio → Radio × Option (ℕ × ℕ × ℕ)
unfolding is_called
finish_dtmf_frame r =
    let r' : Radio = record r { dtmf_rx_len = 0 } in
    if not (r.dtmf_rx_len == ani_frame_len) || not (get_or r.dtmf_rx_buf 3 0 == r.ani.separator)
    then (r', none)
    else if not (is_called r.ani (digits_at r.dtmf_rx_buf 0))
    then (r', none)
    else (r', some (digits_at r.dtmf_rx_buf 4))

-- The part of `poll_dtmf` for a digit that the chip has decoded.
unfoldable pub take_digit : Radio → ℕ → Radio × Option (ℕ × ℕ × ℕ)
unfolding finish_dtmf_frame
take_digit r digit =
    let r' : Radio = record r {
      dtmf_rx_buf =
          if ltb r.dtmf_rx_len dtmf_rx_max_digits
          then set r.dtmf_rx_buf r.dtmf_rx_len digit
          else r.dtmf_rx_buf;
      dtmf_rx_len =
          if ltb r.dtmf_rx_len dtmf_rx_max_digits then r.dtmf_rx_len + 1 else r.dtmf_rx_len;
      dtmf_rx_timeout = dtmf_rx_timeout_ticks;
    } in
    if leb dtmf_rx_max_digits r'.dtmf_rx_len then finish_dtmf_frame r' else (r', none)

-- The poll without a digit, while the audio is open.
unfoldable pub wait_digit : Radio → Radio × Option (ℕ × ℕ × ℕ)
unfolding finish_dtmf_frame
wait_digit r =
    if ltb 0 r.dtmf_rx_timeout
    then (if r.dtmf_rx_timeout - 1 == 0 && ltb 0 r.dtmf_rx_len
        then finish_dtmf_frame (record r { dtmf_rx_timeout = 0 })
        else (record r { dtmf_rx_timeout = r.dtmf_rx_timeout - 1 }, none))
    else (r, none)

unfoldable pub poll_open : Radio → Option ℕ → Radio × Option (ℕ × ℕ × ℕ)
unfolding take_digit wait_digit
poll_open r none = wait_digit r
poll_open r (some digit) = take_digit r digit

-- `ready` is the digit that the chip has decoded, if any.
unfoldable pub poll_dtmf : Radio → Option ℕ → Radio × Option (ℕ × ℕ × ℕ)
unfolding poll_open finish_dtmf_frame
poll_dtmf r ready =
    if r.audio_open
    then poll_open r ready
    else if ltb 0 r.dtmf_rx_len
    then finish_dtmf_frame (record r { dtmf_rx_timeout = 0 })
    else (record r { dtmf_rx_timeout = 0 }, none)

-- `send_ani`: the digits that a radio sends to call another.
unfoldable pub ani_digits : AniConfig → ℕ × ℕ × ℕ → List ℕ
ani_digits ani target =
    target.0 ∷ target.1 ∷ target.2 ∷ ani.separator ∷ ani.machine_id.0 ∷ ani.machine_id.1
    ∷ ani.machine_id.2 ∷ []

unfoldable pub send_ani : Radio → ℕ × ℕ × ℕ → Radio
unfolding send_dtmf_digits ani_digits
send_ani r target = send_dtmf_digits r (ani_digits r.ani target)
