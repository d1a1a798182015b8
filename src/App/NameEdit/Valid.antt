-- ===== src/App/NameEdit/Valid.antt =====
-- The cursor stays in the name, and no key writes outside it.
use native.Mathlib.Nat.{mod-lt}
use bf_k61_firmware_aura.Prelude.{
  ℕ, zero, suc, ◌+◌, ◌-◌, ◌%◌, ◌≤◌, ◌<◌, ◌≡◌, refl, subst, ◌^◌, ◌∙◌, List, [], ◌∷◌, Bool, true,
  Option, none, some, arith, length, length-set, get_or, set, leb, ltb, ◌==◌, Bool-cases, inl, inr,
  All,
}
use bf_k61_firmware_aura.Prelude.Tables.{all_below, same_tests}
use bf_k61_firmware_aura.App.NameEdit.{
  Tap, NameEdit, letters, first_zero, end_of_text, shift_down, shift_up, start, advance,
  finalize_pending, move_cursor, delete_before, backspace, insert_at_cursor, press_other,
  press_again, press_with, press_digit, tick_with, tick, multitap_timeout_ticks,
}

-- A pending letter stands at the cursor, inside the name, and is one of its key's letters.
unfoldable pub IsPending : ℕ → ℕ → Option Tap → Type 0
IsPending n cursor none = Unit
IsPending n cursor (some tap) =
    (cursor < n) × (tap.digit < 10) × (tap.index < length (letters tap.digit))

pub record IsValid (n : ℕ) (e : NameEdit) : Type 0 where
  pub sized : length e.buf ≡ n
  pub cursor_in : e.cursor ≤ n
  pub tap_in : IsPending n e.cursor e.pending

length-shift_down : (buf : List ℕ) (i k : ℕ) → length (shift_down buf i k) ≡ length buf
unfolding shift_down
length-shift_down buf i zero = refl
length-shift_down buf i (suc k) =
    length-shift_down (set buf i (get_or buf (i + 1) 0)) (i + 1) k
    ∙ length-set buf i (get_or buf (i + 1) 0)

length-shift_up : (buf : List ℕ) (i k : ℕ) → length (shift_up buf i k) ≡ length buf
unfolding shift_up
length-shift_up buf i zero = refl
length-shift_up buf i (suc k) =
    length-shift_up (set buf (i + k + 1) (get_or buf (i + k) 0)) i k
    ∙ length-set buf (i + k + 1) (get_or buf (i + k) 0)

first_zero-le : (bs : List ℕ) → first_zero bs ≤ length bs
unfolding first_zero
first_zero-le [] = omega arith
first_zero-le (b ∷ bs) = ground (arith, first_zero-le bs)

end_of_text-le : (bs : List ℕ) → end_of_text bs ≤ length bs
unfolding end_of_text
end_of_text-le [] = omega arith
end_of_text-le (b ∷ bs) = ground (arith, end_of_text-le bs)

letters_some : (digit : ℕ) → digit < 10 → ltb 0 (length (letters digit)) ≡ true
unfolding all_below
letters_some = same_tests 10 _ _ refl

module _ (n : ℕ) where
  pub start-IsValid :
      (e : NameEdit) (initial : List ℕ) → length initial ≡ n → IsValid n (start n e initial)
  unfolding start IsPending
  start-IsValid e initial h = record {
    sized = h;
    cursor_in = omega (arith, first_zero-le initial);
    tap_in = tt;
  }

  advance-IsValid :
      (e : NameEdit) (p : Option Tap) → e.pending ≡ p → IsValid n e → IsValid n (advance n e p)
  unfolding advance IsPending
  advance-IsValid e none same v = v
  advance-IsValid e (some tap) same v = record {
    sized = v.sized;
    cursor_in = omega arith;
    tap_in = tt;
  }

  -- Nothing is pending any more.
  advance_settles : (e : NameEdit) (p : Option Tap) → e.pending ≡ p → (advance n e p).pending ≡ none
  unfolding advance
  advance_settles e none same = same
  advance_settles e (some tap) same = refl

  finalize-IsValid : (e : NameEdit) → IsValid n e → IsValid n (finalize_pending n e)
  unfolding finalize_pending
  finalize-IsValid e v = advance-IsValid e e.pending refl v

  pub finalize_settles : (e : NameEdit) → (finalize_pending n e).pending ≡ none
  unfolding finalize_pending
  finalize_settles e = advance_settles e e.pending refl

  nothing-IsPending : (cursor : ℕ) (p : Option Tap) → p ≡ none → IsPending n cursor p
  unfolding IsPending
  nothing-IsPending cursor none same = tt
  nothing-IsPending cursor (some tap) same = absurd (cc same)

  move_cursor-IsValid :
      (e : NameEdit) (left : Bool) → IsValid n e → IsValid n (move_cursor n e left)
  unfolding move_cursor
  move_cursor-IsValid e left v =
      let f = finalize_pending n e in
      let w = finalize-IsValid e v in
      record {
        sized = w.sized;
        cursor_in = ground (arith, w.cursor_in, end_of_text-le f.buf, w.sized);
        tap_in = nothing-IsPending (move_cursor n e left).cursor f.pending (finalize_settles e);
      }

  delete-IsValid : (f : NameEdit) → f.pending ≡ none → IsValid n f → IsValid n (delete_before n f)
  unfolding delete_before
  delete-IsValid f settled v =
      let k = n - f.cursor in
      elim (Bool-cases (f.cursor == 0)) [
        | inl e ↦ rw e v
        | inr e ↦ rw e (record {
          sized =
              length-set (shift_down f.buf (f.cursor - 1) k) (n - 1) 0
              ∙ length-shift_down f.buf (f.cursor - 1) k
              ∙ v.sized;
          cursor_in = omega (arith, v.cursor_in);
          tap_in = nothing-IsPending (f.cursor - 1) f.pending settled;
        })
      ]

  backspace-IsValid : (e : NameEdit) → IsValid n e → IsValid n (backspace n e)
  unfolding backspace
  backspace-IsValid e v =
      delete-IsValid (finalize_pending n e) (finalize_settles e) (finalize-IsValid e v)

  press_other-IsValid :
      (e : NameEdit) (d : ℕ) → d < 10 → IsValid n e → IsValid n (press_other n e d)
  unfolding press_other insert_at_cursor IsPending
  press_other-IsValid e d h v =
      let f = finalize_pending n e in
      let w = finalize-IsValid e v in
      let ch = get_or (letters d) 0 0 in
      let moved = shift_up f.buf f.cursor (n - 1 - f.cursor) in
      elim (Bool-cases (leb n f.cursor)) [
        | inl full ↦ rw full (record {
          sized = w.sized;
          cursor_in = w.cursor_in;
          tap_in = nothing-IsPending f.cursor f.pending (finalize_settles e);
        })
        | inr room ↦ rw room (record {
          sized =
              length-set moved f.cursor ch
              ∙ length-shift_up f.buf f.cursor (n - 1 - f.cursor)
              ∙ w.sized;
          cursor_in = w.cursor_in;
          tap_in = (ground (arith, room), h, ground (arith, letters_some d h));
        })
      ]

  press_with-IsValid :
      (e : NameEdit) (d : ℕ) (p : Option Tap)
      → d < 10
      → e.pending ≡ p
      → IsValid n e
      → IsValid n (press_with n e d p)
  unfolding press_with press_again IsPending
  press_with-IsValid e d none h same v = press_other-IsValid e d h v
  press_with-IsValid e d (some tap) h same v =
      let some_letter : 0 < length (letters d) = ground (arith, letters_some d h) in
      let at : (e.cursor < n) × (tap.digit < 10) × (tap.index < length (letters tap.digit)) =
        subst (IsPending n e.cursor) same v.tap_in in
      elim (Bool-cases (tap.digit == d)) [
        | inl again ↦ rw again (record {
          sized =
              length-set e.buf e.cursor
                (get_or (letters d) ((tap.index + 1) % length (letters d)) 0)
              ∙ v.sized;
          cursor_in = v.cursor_in;
          tap_in = (at.0, h, mod-lt (tap.index + 1) some_letter);
        })
        | inr other ↦ rw other (press_other-IsValid e d h v)
      ]

  press_digit-IsValid :
      (e : NameEdit) (d : ℕ) → d < 10 → IsValid n e → IsValid n (press_digit n e d)
  unfolding press_digit
  press_digit-IsValid e d h v = press_with-IsValid e d e.pending h refl v

  tick_with-IsValid : (e : NameEdit) (p : Option Tap) → IsValid n e → IsValid n (tick_with n e p)
  unfolding tick_with
  tick_with-IsValid e none v = v
  tick_with-IsValid e (some tap) v =
      let late = record e { idle_ticks = (e.idle_ticks + 1) % 2 ^ 16 } in
      let w : IsValid n late = record {
        sized = v.sized;
        cursor_in = v.cursor_in;
        tap_in = v.tap_in;
      } in
      elim (Bool-cases (leb multitap_timeout_ticks late.idle_ticks)) [
        | inl settle ↦ rw settle (finalize-IsValid late w)
        | inr wait ↦ rw wait w
      ]

-- What the user and the clock do to a name being typed.
pub data Action : Type 0 where
  typed : ℕ → Action
  moved : Bool → Action
  erased : Action
  waited : Action

unfoldable pub act : ℕ → NameEdit → Action → NameEdit
unfolding press_digit move_cursor backspace tick
act n e (typed d) = press_digit n e d
act n e (moved left) = move_cursor n e left
act n e erased = backspace n e
act n e waited = tick n e

unfoldable pub act_all : ℕ → NameEdit → List Action → NameEdit
unfolding act
act_all n e [] = e
act_all n e (a ∷ actions) = act_all n (act n e a) actions

-- A digit key is one of ten.
unfoldable pub IsKey : Action → Type 0
IsKey (typed d) = d < 10
IsKey (moved left) = Unit
IsKey erased = Unit
IsKey waited = Unit

act-IsValid : (n : ℕ) (e : NameEdit) (a : Action) → IsKey a → IsValid n e → IsValid n (act n e a)
unfolding act IsKey tick
act-IsValid n e (typed d) h v = press_digit-IsValid n e d h v
act-IsValid n e (moved left) h v = move_cursor-IsValid n e left v
act-IsValid n e erased h v = backspace-IsValid n e v
act-IsValid n e waited h v = tick_with-IsValid n e e.pending v

-- Whatever is typed into a name that starts with its right length: it keeps its length, the cursor
-- stays in it, and a letter still to be settled stands inside it.
pub act_all-IsValid :
    (n : ℕ) (e : NameEdit) (actions : List Action)
    → All IsKey actions
    → IsValid n e
    → IsValid n (act_all n e actions)
unfolding act_all
act_all-IsValid n e [] h v = v
act_all-IsValid n e (a ∷ actions) h v =
    act_all-IsValid n (act n e a) actions h.1 (act-IsValid n e a h.0 v)
