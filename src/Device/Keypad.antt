-- ===== src/Device/Keypad.antt =====
-- src/device/keypad.rs: the scan of the key matrix, and the events made of it.
-- The columns read from the board and the 16-bit time `uptime::now()` are arguments.
pub mod Protocol
use bf_k61_firmware_aura.Prelude.{
  ℕ, zero, suc, ◌+◌, ◌-◌, ◌%◌, ◌^◌, List, [], ◌∷◌, ◌++◌, Bool, true, false, ◌&&◌, not, Option, none,
  some, get_or, set, replicate, ltb, leb, ◌==◌, if◌then◌else◌,
}

abbrev pub long_press_ticks : ℕ
long_press_ticks = 10000

abbrev pub repeat_fire_ticks : ℕ
repeat_fire_ticks = 15000

abbrev pub repeat_reset_ticks : ℕ
repeat_reset_ticks = 14000

abbrev pub event_queue_cap : ℕ
event_queue_cap = 8

pub data KeyId : Type 0 where
  digit0 : KeyId
  digit1 : KeyId
  digit2 : KeyId
  digit3 : KeyId
  digit4 : KeyId
  digit5 : KeyId
  digit6 : KeyId
  digit7 : KeyId
  digit8 : KeyId
  digit9 : KeyId
  asterisk : KeyId
  pound : KeyId
  menu : KeyId
  exit : KeyId
  up : KeyId
  down : KeyId
  vm : KeyId
  ab : KeyId
  band : KeyId
  side1 : KeyId
  side2 : KeyId

-- The place of a key in the enumeration, by which the derived `PartialEq` compares.
unfoldable pub discriminant : KeyId → ℕ
discriminant digit0 = 0
discriminant digit1 = 1
discriminant digit2 = 2
discriminant digit3 = 3
discriminant digit4 = 4
discriminant digit5 = 5
discriminant digit6 = 6
discriminant digit7 = 7
discriminant digit8 = 8
discriminant digit9 = 9
discriminant asterisk = 10
discriminant pound = 11
discriminant menu = 12
discriminant exit = 13
discriminant up = 14
discriminant down = 15
discriminant vm = 16
discriminant ab = 17
discriminant band = 18
discriminant side1 = 19
discriminant side2 = 20

unfoldable pub key_eq : KeyId → KeyId → Bool
unfolding discriminant
key_eq k l = discriminant k == discriminant l

unfoldable pub same_key : Option KeyId → Option KeyId → Bool
unfolding key_eq
same_key none none = true
same_key none (some l) = false
same_key (some k) none = false
same_key (some k) (some l) = key_eq k l

unfoldable pub supports_long : KeyId → Bool
supports_long digit0 = true
supports_long digit1 = false
supports_long digit2 = false
supports_long digit3 = false
supports_long digit4 = false
supports_long digit5 = false
supports_long digit6 = false
supports_long digit7 = false
supports_long digit8 = false
supports_long digit9 = false
supports_long asterisk = true
supports_long pound = true
supports_long menu = false
supports_long exit = true
supports_long up = true
supports_long down = true
supports_long vm = true
supports_long ab = false
supports_long band = true
supports_long side1 = true
supports_long side2 = true

unfoldable pub supports_repeat : KeyId → Bool
unfolding key_eq
supports_repeat k = if key_eq k up then true else key_eq k down

abbrev pub key_table : List (List (Option KeyId))
key_table =
    (none ∷ some side1 ∷ none ∷ some side2 ∷ [])
    ∷ (some digit7 ∷ some digit8 ∷ some pound ∷ some digit9 ∷ [])
    ∷ (some digit4 ∷ some digit5 ∷ some digit0 ∷ some digit6 ∷ [])
    ∷ (some digit1 ∷ some digit2 ∷ some asterisk ∷ some digit3 ∷ [])
    ∷ (some menu ∷ some up ∷ some exit ∷ some down ∷ [])
    ∷ (some vm ∷ some ab ∷ none ∷ some band ∷ [])
    ∷ []

pub data KeyEventKind : Type 0 where
  press : KeyEventKind
  release : KeyEventKind
  single : KeyEventKind
  long : KeyEventKind
  repeat : KeyEventKind

pub record KeyEvent : Type 0 where
  pub key : KeyId
  pub kind : KeyEventKind

pub record EventQueue : Type 0 where
  pub buf : List (Option KeyEvent)
  pub head : ℕ
  pub len : ℕ

unfoldable pub new_queue : EventQueue
new_queue = record { buf = replicate event_queue_cap none; head = 0; len = 0 }

unfoldable pub push : EventQueue → KeyEvent → EventQueue
push q ev =
    let r =
      if q.len == event_queue_cap
      then record q { head = (q.head + 1) % event_queue_cap; len = q.len - 1 }
      else q in
    record r { buf = set r.buf ((r.head + r.len) % event_queue_cap) (some ev); len = r.len + 1 }

unfoldable pub pop : EventQueue → EventQueue × Option KeyEvent
pop q = if q.len == 0 then (q, none) else (
  record q { buf = set q.buf q.head none; head = (q.head + 1) % event_queue_cap; len = q.len - 1 },
  get_or q.buf q.head none,
)

-- The rows of the matrix from `phase` on: the first that has a key down at the column it reads.
unfoldable pub scan_rows : List (List (Option KeyId)) → ℕ → (ℕ → Option ℕ) → Option KeyId
scan_rows [] phase column = none
scan_rows (row ∷ rows) phase column =
    let rest = scan_rows rows (suc phase) column in
    elim (column phase) [
      | none ↦ rest
      | some col ↦ elim (get_or row col none) [ none ↦ rest | some key ↦ some key ]
    ]

unfoldable pub scan : (ℕ → Option ℕ) → Option KeyId
unfolding scan_rows
scan column = scan_rows key_table 0 column

pub record Keypad : Type 0 where
  pub raw_prev : Option KeyId
  pub stable : Option KeyId
  pub hold_ticks : ℕ
  pub last_poll : ℕ
  pub long_fired : Bool

unfoldable pub new : ℕ → Keypad
new now = record {
  raw_prev = none;
  stable = none;
  hold_ticks = 0;
  last_poll = now;
  long_fired = false;
}

-- What a poll pushes into the event queue, in order, with the keypad it leaves.
abbrev pub Polled : Type 0
Polled = Keypad × List KeyEvent

-- `raw == self.stable`, first test: a long press, once.
unfoldable pub hold_long : Keypad → KeyId → Polled
unfolding supports_long
hold_long k key =
    if not k.long_fired && (supports_long key && leb long_press_ticks k.hold_ticks)
    then (record k { long_fired = true }, record { key = key; kind = long } ∷ [])
    else (k, [])

-- Second test: a repeat.
unfoldable pub hold_repeat : Keypad → KeyId → Polled
unfolding supports_repeat
hold_repeat k key =
    if supports_repeat key && leb repeat_fire_ticks k.hold_ticks
    then (record k { hold_ticks = repeat_reset_ticks }, record { key = key; kind = repeat } ∷ [])
    else (k, [])

unfoldable pub hold : Keypad → Option KeyId → ℕ → Polled
unfolding hold_long hold_repeat
hold k none elapsed = (k, [])
hold k (some key) elapsed =
    let held = record k { hold_ticks = (k.hold_ticks + elapsed) % 2 ^ 32 } in
    let first = hold_long held key in
    let second = hold_repeat first.0 key in (second.0, first.1 ++ second.1)

-- The events of letting a key go.
unfoldable pub let_go : Bool → Option KeyId → List KeyEvent
let_go long_fired none = []
let_go long_fired (some old) =
    if long_fired
    then record { key = old; kind = release } ∷ []
    else record { key = old; kind = single } ∷ record { key = old; kind = release } ∷ []

unfoldable pub press_new : Option KeyId → List KeyEvent
press_new none = []
press_new (some key) = record { key = key; kind = press } ∷ []

-- `poll`, for what `scan` has found and the time.
unfoldable pub poll : Keypad → Option KeyId → ℕ → Polled
unfolding same_key hold let_go press_new
poll k raw now =
    let elapsed = (now + 2 ^ 16 - k.last_poll) % 2 ^ 16 in
    let timed = record k { last_poll = now } in
    if not (same_key raw k.raw_prev)
    then (record timed { raw_prev = raw }, [])
    else if same_key raw k.stable
    then hold timed k.stable elapsed
    else (
      record timed { stable = raw; hold_ticks = 0; long_fired = false },
      let_go k.long_fired k.stable ++ press_new raw,
    )

-- The queue after the pushes of a poll.
unfoldable pub push_all : EventQueue → List KeyEvent → EventQueue
unfolding push
push_all q [] = q
push_all q (ev ∷ evs) = push_all (push q ev) evs
