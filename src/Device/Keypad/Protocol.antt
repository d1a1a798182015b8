-- ===== src/Device/Keypad/Protocol.antt =====
-- The events of a key come in the order that the application relies on.
use bf_k61_firmware_aura.Prelude.{
  ℕ, ◌+◌, ◌-◌, ◌%◌, ◌^◌, ◌≡◌, refl, sym, ap, ◌∙◌, List, [], ◌∷◌, ◌++◌, Bool, true, false, ◌&&◌, not,
  Option, none, some, arith, if◌then◌else◌, Bool-cases, Option-cases, inl, inr, ==_refl, leb,
}
use bf_k61_firmware_aura.Device.Keypad.{
  KeyId, discriminant, key_eq, same_key, supports_long, supports_repeat, KeyEventKind, press,
  release, single, long, repeat, KeyEvent, Keypad, new, Polled, hold_long, hold_repeat, hold,
  let_go, press_new, poll, long_press_ticks, repeat_fire_ticks,
}

-- What is known of the keys from the events so far: no key is down; one is, with its long press
-- reported or not; one is about to be released, after a single press.
pub data Phase : Type 0 where
  idle : Phase
  pressed : KeyId → Bool → Phase
  clicked : KeyId → Phase

abbrev when : Bool → Phase → Option Phase
when b phase = if b then some phase else none

-- One event: the phases that allow it, and the phase it leads to.
unfoldable pub next : Phase → KeyEventKind → KeyId → Option Phase
next idle press k = some (pressed k false)
next idle release k = none
next idle single k = none
next idle long k = none
next idle repeat k = none
next (pressed j fired) press k = none
next (pressed j fired) release k = when (key_eq j k && fired) idle
next (pressed j fired) single k = when (key_eq j k && not fired) (clicked j)
next (pressed j fired) long k = when (key_eq j k && (not fired && supports_long k)) (pressed j true)
next (pressed j fired) repeat k = when (key_eq j k && supports_repeat k) (pressed j fired)
next (clicked j) press k = none
next (clicked j) release k = when (key_eq j k) idle
next (clicked j) single k = none
next (clicked j) long k = none
next (clicked j) repeat k = none

unfoldable pub and_then : Option Phase → (Phase → Option Phase) → Option Phase
and_then none f = none
and_then (some phase) f = f phase

-- The phase after a series of events, if each was allowed.
unfoldable pub accepts : Phase → List KeyEvent → Option Phase
unfolding next and_then
accepts phase [] = some phase
accepts phase (ev ∷ evs) = and_then (next phase ev.kind ev.key) (λ after. accepts after evs)

unfoldable pub phase_of_key : Option KeyId → Bool → Phase
phase_of_key none fired = idle
phase_of_key (some key) fired = pressed key fired

unfoldable pub phase_of : Keypad → Phase
unfolding phase_of_key
phase_of k = phase_of_key k.stable k.long_fired

key_eq_self : (k : KeyId) → key_eq k k ≡ true
unfolding key_eq
key_eq_self k = ==_refl (discriminant k)

accepts-append :
    (phase : Phase) (evs more : List KeyEvent)
    → accepts phase (evs ++ more) ≡ and_then (accepts phase evs) (λ mid. accepts mid more)
unfolding accepts and_then
accepts-append phase [] more = refl
accepts-append phase (ev ∷ evs) more = elim (Option-cases (next phase ev.kind ev.key)) [
  | inl refused ↦ simp refused refl
  | inr (after, allowed) ↦ simp allowed (accepts-append after evs more)
]

-- Two series of events one after the other.
both :
    (a b c : Phase) (evs more : List KeyEvent)
    → accepts a evs ≡ some b
    → accepts b more ≡ some c
    → accepts a (evs ++ more) ≡ some c
unfolding and_then
both a b c evs more first second =
    accepts-append a evs more
    ∙ ap (λ (o : Option Phase). and_then o (λ mid. accepts mid more)) first
    ∙ second

hold_long_lem :
    (k : Keypad) (key : KeyId)
    → accepts (pressed key k.long_fired) (hold_long k key).1
      ≡ some (pressed key (hold_long k key).0.long_fired)
unfolding hold_long accepts next and_then
hold_long_lem k key =
    elim (Bool-cases
      (not k.long_fired && (supports_long key && leb long_press_ticks k.hold_ticks))) [
        | inl e ↦
            let fresh : not k.long_fired ≡ true = ground (arith, e) in
            let long_key : supports_long key ≡ true = ground (arith, e) in
            simp e (simp (key_eq_self key, fresh, long_key) refl)
        | inr e ↦ simp e refl
      ]

hold_repeat_lem :
    (k : Keypad) (key : KeyId)
    → accepts (pressed key k.long_fired) (hold_repeat k key).1
      ≡ some (pressed key (hold_repeat k key).0.long_fired)
unfolding hold_repeat accepts next and_then
hold_repeat_lem k key =
    elim (Bool-cases (supports_repeat key && leb repeat_fire_ticks k.hold_ticks)) [
      | inl e ↦
          let repeat_key : supports_repeat key ≡ true = ground (arith, e) in
          simp e (simp (key_eq_self key, repeat_key) refl)
      | inr e ↦ simp e refl
    ]

let_go_lem :
    (stable : Option KeyId) (fired : Bool)
    → accepts (phase_of_key stable fired) (let_go fired stable) ≡ some idle
unfolding let_go accepts next and_then phase_of_key
let_go_lem none fired = refl
let_go_lem (some key) true = simp (key_eq_self key) refl
let_go_lem (some key) false = simp (key_eq_self key) refl

press_new_lem : (raw : Option KeyId) → accepts idle (press_new raw) ≡ some (phase_of_key raw false)
unfolding press_new accepts next and_then phase_of_key
press_new_lem none = refl
press_new_lem (some key) = refl

stable_kept :
    (k : Keypad) (st : Option KeyId) (elapsed : ℕ) → (hold k st elapsed).0.stable ≡ k.stable
unfolding hold hold_long hold_repeat
stable_kept k none elapsed = refl
stable_kept k (some key) elapsed = ground arith

hold_lem :
    (k : Keypad) (st : Option KeyId) (elapsed : ℕ)
    → accepts (phase_of_key st k.long_fired) (hold k st elapsed).1
      ≡ some (phase_of_key st (hold k st elapsed).0.long_fired)
unfolding hold accepts phase_of_key
hold_lem k none elapsed = refl
hold_lem k (some key) elapsed =
    let timed = record k { hold_ticks = (k.hold_ticks + elapsed) % 2 ^ 32 } in
    let first = hold_long timed key in
    let second = hold_repeat first.0 key in
    both (pressed key k.long_fired) (pressed key first.0.long_fired)
      (pressed key second.0.long_fired) first.1 second.1 (hold_long_lem timed key)
      (hold_repeat_lem first.0 key)

-- From any state, the events of a poll are ones that the phase of the keypad allows, and they lead
-- to the phase of the keypad after it.
pub poll_lem :
    (k : Keypad) (raw : Option KeyId) (now : ℕ)
    → accepts (phase_of k) (poll k raw now).1 ≡ some (phase_of (poll k raw now).0)
unfolding poll phase_of accepts
poll_lem k raw now = elim (Bool-cases (same_key raw k.raw_prev)) [
  | inl steady ↦ elim (Bool-cases (same_key raw k.stable)) [
    | inl held ↦
        let elapsed = (now + 2 ^ 16 - k.last_poll) % 2 ^ 16 in
        let timed = record k { last_poll = now } in
        let out = hold timed k.stable elapsed in
        simp (steady, held)
          (hold_lem timed k.stable elapsed
            ∙ ap (λ (st : Option KeyId). some (phase_of_key st out.0.long_fired))
                (sym (stable_kept timed k.stable elapsed)))
    | inr changed ↦
        simp (steady, changed)
          (both (phase_of_key k.stable k.long_fired) idle (phase_of_key raw false)
            (let_go k.long_fired k.stable) (press_new raw) (let_go_lem k.stable k.long_fired)
            (press_new_lem raw))
  ]
  | inr moved ↦ simp moved refl
]

-- What the scan finds at each poll, and when.
abbrev pub Reading : Type 0
Reading = Option KeyId × ℕ

-- A series of polls: the keypad after it, and all events in order.
unfoldable pub polls : Keypad → List Reading → Polled
unfolding poll
polls k [] = (k, [])
polls k (reading ∷ readings) =
    let first = poll k reading.0 reading.1 in
    let rest = polls first.0 readings in (rest.0, first.1 ++ rest.1)

polls_from :
    (k : Keypad) (readings : List Reading)
    → accepts (phase_of k) (polls k readings).1 ≡ some (phase_of (polls k readings).0)
unfolding polls accepts
polls_from k [] = refl
polls_from k (reading ∷ readings) =
    let first = poll k reading.0 reading.1 in
    let rest = polls first.0 readings in
    both (phase_of k) (phase_of first.0) (phase_of rest.0) first.1 rest.1
      (poll_lem k reading.0 reading.1) (polls_from first.0 readings)

-- Whatever the matrix reads, and whenever it is polled: the events keep to the protocol from the
-- start on. A key is pressed while none is down, is reported long once at most and only if it
-- supports that, repeats only if it supports that, and is released by a click and a release if it
-- was not long, and by a release alone if it was.
pub polls_protocol :
    (now : ℕ) (readings : List Reading)
    → accepts idle (polls (new now) readings).1 ≡ some (phase_of (polls (new now) readings).0)
unfolding new phase_of phase_of_key
polls_protocol now readings = polls_from (new now) readings
