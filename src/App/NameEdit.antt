-- ===== src/App/NameEdit.antt =====
-- src/app/name_edit.rs: a name of `n` bytes typed on the digit keys, each of which stands for
-- several letters. The length `N` is a type parameter of the source.
pub mod Valid
use bf_k61_firmware_aura.Prelude.{
  ℕ, zero, suc, ◌+◌, ◌-◌, ◌%◌, ◌^◌, ◌<◌, min, List, [], ◌∷◌, Bool, true, false, ◌&&◌, not, Option,
  none, some, length, get_or, set, replicate, ltb, leb, ◌==◌, if◌then◌else◌,
}

abbrev pub multitap_timeout_ticks : ℕ
multitap_timeout_ticks = 60

-- `KEY_CHARS`, in ASCII codes.
abbrev pub key_chars : List (List ℕ)
key_chars =
    (32 ∷ [])
    ∷ (44 ∷ 46 ∷ 63 ∷ 49 ∷ [])
    ∷ (65 ∷ 66 ∷ 67 ∷ 97 ∷ 98 ∷ 99 ∷ 50 ∷ [])
    ∷ (68 ∷ 69 ∷ 70 ∷ 100 ∷ 101 ∷ 102 ∷ 51 ∷ [])
    ∷ (71 ∷ 72 ∷ 73 ∷ 103 ∷ 104 ∷ 105 ∷ 52 ∷ [])
    ∷ (74 ∷ 75 ∷ 76 ∷ 106 ∷ 107 ∷ 108 ∷ 53 ∷ [])
    ∷ (77 ∷ 78 ∷ 79 ∷ 109 ∷ 110 ∷ 111 ∷ 54 ∷ [])
    ∷ (80 ∷ 81 ∷ 82 ∷ 83 ∷ 112 ∷ 113 ∷ 114 ∷ 115 ∷ 55 ∷ [])
    ∷ (84 ∷ 85 ∷ 86 ∷ 116 ∷ 117 ∷ 118 ∷ 56 ∷ [])
    ∷ (87 ∷ 88 ∷ 89 ∷ 90 ∷ 119 ∷ 120 ∷ 121 ∷ 122 ∷ 57 ∷ [])
    ∷ []

abbrev pub letters : ℕ → List ℕ
letters digit = get_or key_chars digit []

-- A key that may be pressed again for its next letter, and the letter it stands for now.
pub record Tap : Type 0 where
  pub digit : ℕ
  pub index : ℕ

pub record NameEdit : Type 0 where
  pub buf : List ℕ
  pub cursor : ℕ
  pub pending : Option Tap
  pub idle_ticks : ℕ

-- The first position of a zero byte, or the length.
unfoldable pub first_zero : List ℕ → ℕ
first_zero [] = 0
first_zero (b ∷ bs) = if b == 0 then 0 else suc (first_zero bs)

-- One past the last position of a byte that is not zero.
unfoldable pub end_of_text : List ℕ → ℕ
end_of_text [] = 0
end_of_text (b ∷ bs) =
    let rest = end_of_text bs in if rest == 0 then (if b == 0 then 0 else 1) else suc rest

-- The loop of `backspace`: `k` bytes from `i + 1` on move one place down.
unfoldable pub shift_down : List ℕ → ℕ → ℕ → List ℕ
shift_down buf i zero = buf
shift_down buf i (suc k) = shift_down (set buf i (get_or buf (i + 1) 0)) (i + 1) k

-- The loop of `insert_at_cursor`: `k` bytes from `i` on move one place up, the last one first.
unfoldable pub shift_up : List ℕ → ℕ → ℕ → List ℕ
shift_up buf i zero = buf
shift_up buf i (suc k) = shift_up (set buf (i + k + 1) (get_or buf (i + k) 0)) i k

module _ (n : ℕ) where
  unfoldable pub blank : NameEdit
  blank = record { buf = replicate n 0; cursor = 0; pending = none; idle_ticks = 0 }

  unfoldable pub start : NameEdit → List ℕ → NameEdit
  unfolding first_zero
  start e initial = record {
    buf = initial;
    cursor = first_zero initial;
    pending = none;
    idle_ticks = 0;
  }

  unfoldable pub advance : NameEdit → Option Tap → NameEdit
  advance e none = e
  advance e (some tap) = record e { cursor = min (e.cursor + 1) n; pending = none }

  unfoldable pub finalize_pending : NameEdit → NameEdit
  unfolding advance
  finalize_pending e = advance e e.pending

  unfoldable pub move_cursor : NameEdit → Bool → NameEdit
  unfolding finalize_pending end_of_text
  move_cursor e left =
      let f = finalize_pending e in
      record f { cursor = if left then f.cursor - 1 else min (f.cursor + 1) (end_of_text f.buf) }

  -- `backspace` once the pending letter is settled.
  unfoldable pub delete_before : NameEdit → NameEdit
  unfolding shift_down
  delete_before f = if f.cursor == 0 then f else record f {
    buf = set (shift_down f.buf (f.cursor - 1) (n - f.cursor)) (n - 1) 0;
    cursor = f.cursor - 1;
  }

  unfoldable pub backspace : NameEdit → NameEdit
  unfolding finalize_pending delete_before
  backspace e = delete_before (finalize_pending e)

  unfoldable pub insert_at_cursor : NameEdit → ℕ → NameEdit × Bool
  unfolding shift_up
  insert_at_cursor e ch =
      if leb n e.cursor
      then (e, false)
      else (record e { buf = set (shift_up e.buf e.cursor (n - 1 - e.cursor)) e.cursor ch }, true)

  -- The second arm of `press_digit`: another key.
  unfoldable pub press_other : NameEdit → ℕ → NameEdit
  unfolding finalize_pending insert_at_cursor
  press_other e digit =
      let inserted = insert_at_cursor (finalize_pending e) (get_or (letters digit) 0 0) in
      if inserted.1
      then record inserted.0 {
        pending = some (record { digit = digit; index = 0 });
        idle_ticks = 0;
      }
      else record inserted.0 { idle_ticks = 0 }

  -- The first arm: the next letter of the same key.
  unfoldable pub press_again : NameEdit → ℕ → ℕ → NameEdit
  press_again e digit idx =
      let following = (idx + 1) % length (letters digit) in
      record e {
        buf = set e.buf e.cursor (get_or (letters digit) following 0);
        pending = some (record { digit = digit; index = following });
        idle_ticks = 0;
      }

  unfoldable pub press_with : NameEdit → ℕ → Option Tap → NameEdit
  unfolding press_other press_again
  press_with e digit none = press_other e digit
  press_with e digit (some tap) =
      if tap.digit == digit then press_again e digit tap.index else press_other e digit

  unfoldable pub press_digit : NameEdit → ℕ → NameEdit
  unfolding press_with
  press_digit e digit = press_with e digit e.pending

  unfoldable pub tick_with : NameEdit → Option Tap → NameEdit
  unfolding finalize_pending
  tick_with e none = e
  tick_with e (some tap) =
      let waited = record e { idle_ticks = (e.idle_ticks + 1) % 2 ^ 16 } in
      if leb multitap_timeout_ticks waited.idle_ticks then finalize_pending waited else waited

  unfoldable pub tick : NameEdit → NameEdit
  unfolding tick_with
  tick e = tick_with e e.pending
