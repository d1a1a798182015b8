-- ===== src/App/Input/Value.antt =====
-- What has been typed, as a number.
use native.Mathlib.Nat.{pow-suc, pow-le-pow_right}
use bf_k61_firmware_aura.Prelude.{
  ℕ, zero, suc, ◌+◌, ◌-◌, ◌*◌, ◌^◌, ◌≤◌, ◌<◌, ◌≡◌, refl, ap, ◌∙◌, List, [], ◌∷◌, ◌++◌, arith, All,
  length, length-take, take, take-set, All-take, All-set, length-set, set, ltb, true, Bool-cases,
  inl, inr,
}
use bf_k61_firmware_aura.App.Input.{
  DigitInput, shift_in, fold_digits, push, backspace, entered_value,
}

abbrev pub IsDigit : ℕ → Type 0
IsDigit d = d < 10

-- At most nine digits fit into a `u32`.
pub record IsValid (n : ℕ) (d : DigitInput) : Type 0 where
  pub short : n ≤ 9
  pub sized : length d.digits ≡ n
  pub len_in : d.len ≤ n
  pub digital : All IsDigit d.digits

fold_digits-append :
    (acc : ℕ) (xs : List ℕ) (x : ℕ)
    → fold_digits acc (xs ++ x ∷ []) ≡ shift_in (fold_digits acc xs) x
unfolding fold_digits
fold_digits-append acc [] x = refl
fold_digits-append acc (y ∷ xs) x = fold_digits-append (shift_in acc y) xs x

take_before : (xs : List ℕ) (i x : ℕ) → take i (set xs i x) ≡ take i xs
take_before [] zero x = refl
take_before [] (suc i) x = refl
take_before (y ∷ xs) zero x = refl
take_before (y ∷ xs) (suc i) x = ap (λ (ys : List ℕ). y ∷ ys) (take_before xs i x)

power_small : (j : ℕ) → j ≤ 9 → 10 ^ j ≤ 2 ^ 32
power_small j h = omega (arith, pow-le-pow_right {n = 10} (omega arith) {i = j} {j = 9} h)

fold_digits-lt :
    (acc : ℕ) (ds : List ℕ) (j : ℕ)
    → acc < 10 ^ j
    → j + length ds ≤ 9
    → All IsDigit ds
    → fold_digits acc ds < 10 ^ (j + length ds)
unfolding fold_digits
fold_digits-lt acc [] j h fits all =
    omega (arith, ap (λ (e : ℕ). 10 ^ e) {x = j} {y = j + 0} (omega arith))
fold_digits-lt acc (d ∷ ds) j h fits all =
    let more : shift_in acc d < 10 ^ suc j = omega (arith, pow-suc 10 j, all.0) in
    omega (
      arith,
      fold_digits-lt (shift_in acc d) ds (suc j) more (omega arith) all.1,
      ap (λ (e : ℕ). 10 ^ e) {x = suc j + length ds} {y = j + length (d ∷ ds)} (omega arith),
    )

module _ (n : ℕ) where
  pub push-IsValid : (d : DigitInput) (x : ℕ) → x < 10 → IsValid n d → IsValid n (push n d x)
  unfolding push
  push-IsValid d x h v = elim (Bool-cases (ltb d.len n)) [
    | inl room ↦ rw room (record {
      short = v.short;
      sized = length-set d.digits d.len x ∙ v.sized;
      len_in = ground (arith, room);
      digital = All-set IsDigit d.digits d.len x h v.digital;
    })
    | inr full ↦ rw full v
  ]

  entered_value-lt : (d : DigitInput) → IsValid n d → entered_value n d < 10 ^ d.len
  unfolding entered_value
  entered_value-lt d v =
      let k : length (take d.len d.digits) ≡ d.len =
        omega (arith, length-take d.len d.digits, v.sized, v.len_in) in
      omega (
        arith,
        fold_digits-lt 0 (take d.len d.digits) 0 (omega arith) (omega (arith, v.len_in, v.short))
            (All-take IsDigit d.len d.digits v.digital),
        ap (λ (e : ℕ). 10 ^ e) {x = 0 + length (take d.len d.digits)} {y = d.len} (omega arith),
      )

  -- Typing a digit into a number with room left shifts it in, and taking it back restores the
  -- number; no step leaves 32 bits.
  pub entered_value-push :
      (d : DigitInput) (x : ℕ)
      → x < 10
      → d.len < n
      → IsValid n d
      → (entered_value n (push n d x) ≡ entered_value n d * 10 + x)
        × (entered_value n (backspace n (push n d x)) ≡ entered_value n d)
  unfolding entered_value push backspace
  entered_value-push d x h room v =
      let test : ltb d.len n ≡ true = ground (arith, room) in
      let before : entered_value n d < 10 ^ d.len = entered_value-lt d v in
      let typed : fold_digits 0 (take (d.len + 1) (set d.digits d.len x))
          ≡ entered_value n d * 10 + x =
        ap (λ (k : ℕ). fold_digits 0 (take k (set d.digits d.len x))) {x = d.len + 1}
          {y = suc d.len} (omega arith)
        ∙ ap (fold_digits 0) (take-set d.digits d.len x (omega (arith, v.sized)))
        ∙ fold_digits-append 0 (take d.len d.digits) x
        ∙ omega
            (arith, v.short, pow-suc 10 d.len, power_small (suc d.len) (omega (arith, v.short))) in
      let undone : fold_digits 0 (take (d.len + 1 - 1) (set d.digits d.len x)) ≡ entered_value n d =
        ap (λ (k : ℕ). fold_digits 0 (take k (set d.digits d.len x))) {x = d.len + 1 - 1}
          {y = d.len} (omega arith)
        ∙ ap (fold_digits 0) (take_before d.digits d.len x) in
      rw test (typed, undone)
