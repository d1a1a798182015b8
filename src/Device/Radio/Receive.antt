-- ===== src/Device/Radio/Receive.antt =====
-- src/device/radio.rs: the squelch. A poll is given what the chip reports: the tail tone, an open
-- squelch, and a matching sub-audio tone.
use bf_k61_firmware_aura.Prelude.{
  ℕ, zero, suc, ◌+◌, ◌-◌, ◌≤◌, ◌<◌, ◌≡◌, refl, ap, ◌∙◌, Bool, true, false, not, ◌&&◌, ◌||◌, arith,
  leb, bool_eq, if◌then◌else◌, Bool-cases, inl, inr,
}
use bf_k61_firmware_aura.App.Convert.{SubAudio, silent, ctcss, dcs}
use bf_k61_firmware_aura.Device.Radio.{Radio}

pub record Signal : Type 0 where
  pub tail_detected : Bool
  pub squelch_open : Bool
  pub subaudio_matched : Bool

unfoldable pub tone_ok : SubAudio → Bool → Bool
tone_ok silent matched = true
tone_ok (ctcss t) matched = matched
tone_ok (dcs code inverted) matched = matched

-- The first `if` after the tail: the carrier, debounced.
unfoldable pub poll_rssi : Radio → Signal → ℕ → Radio
poll_rssi r sig debounce_ticks =
    if not (bool_eq sig.squelch_open r.rssi_open)
    then (if leb debounce_ticks (r.rssi_debounce + 1)
        then record r { rssi_open = sig.squelch_open; rssi_debounce = 0 }
        else record r { rssi_debounce = r.rssi_debounce + 1 })
    else record r { rssi_debounce = 0 }

-- `open` of the source.
unfoldable pub wants_open : Radio → Signal → Bool
unfolding tone_ok
wants_open r sig = r.monitor || (sig.squelch_open && tone_ok r.cfg.subaudio_rx sig.subaudio_matched)

-- The second: the audio, debounced. The monitor and the configuration are not changed before.
unfoldable pub poll_audio : Radio → Bool → ℕ → Radio
poll_audio r open_now debounce_ticks =
    if not (bool_eq open_now r.audio_open)
    then (if leb debounce_ticks (r.sq_debounce + 1)
        then record r { audio_open = open_now; sq_debounce = 0; speaker = open_now }
        else record r { sq_debounce = r.sq_debounce + 1 })
    else record r { sq_debounce = 0 }

unfoldable pub poll_squelch : Radio → Signal → ℕ → Radio
unfolding poll_rssi wants_open poll_audio
poll_squelch r sig debounce_ticks =
    if r.audio_open && sig.tail_detected && not r.monitor
    then record r { audio_open = false; sq_debounce = 0; speaker = false }
    else poll_audio (poll_rssi r sig debounce_ticks) (wants_open r sig) debounce_ticks

-- The same report, `n` times.
unfoldable pub polls : ℕ → Radio → Signal → ℕ → Radio
polls zero r sig debounce_ticks = r
polls (suc n) r sig debounce_ticks = polls n (poll_squelch r sig debounce_ticks) sig debounce_ticks

-- A poll changes neither what opens the squelch nor, without a tail tone, anything but the
-- debounced values.
wants_open-poll_squelch :
    (r : Radio) (sig : Signal) (d : ℕ) → wants_open (poll_squelch r sig d) sig ≡ wants_open r sig
unfolding poll_squelch poll_rssi poll_audio wants_open
wants_open-poll_squelch r sig d = ground arith

module _ (sig : Signal) (d : ℕ) (no_tail : sig.tail_detected ≡ false) where
  poll_audio_lem :
      (r : Radio)
      → (poll_squelch r sig d).audio_open ≡ (
          if bool_eq (wants_open r sig) r.audio_open || leb d (r.sq_debounce + 1)
          then wants_open r sig
          else r.audio_open)
  unfolding poll_squelch poll_rssi poll_audio
  poll_audio_lem r = ground arith

  poll_count :
      (r : Radio)
      → (poll_squelch r sig d).sq_debounce ≡ (
          if bool_eq (wants_open r sig) r.audio_open || leb d (r.sq_debounce + 1)
          then 0
          else r.sq_debounce + 1)
  unfolding poll_squelch poll_rssi poll_audio
  poll_count r = ground arith

  settled :
      (n : ℕ) (r : Radio) (w : Bool)
      → wants_open r sig ≡ w
      → r.audio_open ≡ w
      → (polls n r sig d).audio_open ≡ w
  unfolding polls
  settled zero r w e a = a
  settled (suc n) r w e a =
      settled n (poll_squelch r sig d) w (wants_open-poll_squelch r sig d ∙ e)
        (ground (arith, poll_audio_lem r))

  pending :
      (n : ℕ) (r : Radio) (w : Bool)
      → wants_open r sig ≡ w
      → d ≤ r.sq_debounce + n
      → 0 < n
      → (polls n r sig d).audio_open ≡ w
  unfolding polls
  pending zero r w e count some_left = absurd (omega arith)
  pending (suc n) r w e count some_left =
      let still = wants_open-poll_squelch r sig d ∙ e in
      elim (Bool-cases (bool_eq (wants_open r sig) r.audio_open || leb d (r.sq_debounce + 1))) [
        | inl now ↦ settled n (poll_squelch r sig d) w still (poll_audio_lem r ∙ rw now e)
        | inr later ↦
            pending n (poll_squelch r sig d) w still (ground (arith, later, poll_count r))
              (ground (arith, later))
      ]

  -- Nothing changes while the counter is short of the debounce time.
  held :
      (n : ℕ) (r : Radio) → n ≤ d - suc r.sq_debounce → (polls n r sig d).audio_open ≡ r.audio_open
  unfolding polls
  held zero r few = refl
  held (suc n) r few =
      let count : (poll_squelch r sig d).sq_debounce ≤ suc r.sq_debounce =
        ground (arith, poll_count r) in
      held n (poll_squelch r sig d) (omega (arith, count)) ∙ ground (arith, poll_audio_lem r)

tail_closes :
    (r : Radio) (sig : Signal) (d : ℕ)
    → (r.audio_open && sig.tail_detected && not r.monitor) ≡ true
    → ((poll_squelch r sig d).audio_open ≡ false) × ((poll_squelch r sig d).speaker ≡ false)
unfolding poll_squelch
tail_closes r sig d h = (ground (arith, h), ground (arith, h))

-- A channel with a sub-audio tone asks for it.
abbrev pub asks_tone : SubAudio → Bool
asks_tone silent = false
asks_tone (ctcss t) = true
asks_tone (dcs code inverted) = true

-- What opens the squelch: the monitor, or a carrier, with the tone if the channel asks for one.
abbrev pub is_wanted : Radio → Signal → Bool
is_wanted r sig =
    r.monitor || (sig.squelch_open && (not (asks_tone r.cfg.subaudio_rx) || sig.subaudio_matched))

tone_ok_lem :
    (tone : SubAudio) (matched : Bool) → tone_ok tone matched ≡ (not (asks_tone tone) || matched)
unfolding tone_ok
tone_ok_lem silent matched = refl
tone_ok_lem (ctcss t) matched = refl
tone_ok_lem (dcs code inverted) matched = refl

wants_open_lem : (r : Radio) (sig : Signal) → wants_open r sig ≡ is_wanted r sig
unfolding wants_open
wants_open_lem r sig =
    ap (λ ok. r.monitor || (sig.squelch_open && ok))
      (tone_ok_lem r.cfg.subaudio_rx sig.subaudio_matched)

-- The squelch follows the signal: when the chip reports the same without a tail tone in
-- `debounce_ticks` polls, one at least, the audio is open after them exactly if the monitor is on or
-- a carrier is there with the sub-audio tone that the channel asks for, whatever it was before; it
-- does not change while the polls are fewer than the counter still lacks. And on a radio with open
-- audio and without the monitor a tail tone closes the audio and the speaker in a single poll.
pub polls_lem :
    (r t : Radio) (sig tail : Signal) (debounce_ticks : ℕ)
    → 0 < debounce_ticks
    → sig.tail_detected ≡ false
    → (t.audio_open && tail.tail_detected && not t.monitor) ≡ true
    → ((polls debounce_ticks r sig debounce_ticks).audio_open ≡ is_wanted r sig)
      × ((polls (debounce_ticks - suc r.sq_debounce) r sig debounce_ticks).audio_open
          ≡ r.audio_open)
      × ((poll_squelch t tail debounce_ticks).audio_open ≡ false)
      × ((poll_squelch t tail debounce_ticks).speaker ≡ false)
polls_lem r t sig tail debounce_ticks some_ticks no_tail ends = (
  pending sig debounce_ticks no_tail debounce_ticks r (is_wanted r sig) (wants_open_lem r sig)
      (omega arith) some_ticks,
  held sig debounce_ticks no_tail (debounce_ticks - suc r.sq_debounce) r (omega arith),
  (tail_closes t tail debounce_ticks ends).0,
  (tail_closes t tail debounce_ticks ends).1,
)
