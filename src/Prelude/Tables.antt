-- ===== src/Prelude/Tables.antt =====
-- Facts about every number below a bound, checked by evaluation.
use Prim.Native.Nat.{ℕ, zero, suc, ◌<◌}
use mathlib.Core.Path.{◌≡◌, refl, sym}
use mathlib.Core.Bool.{Bool, true, false, ◌&&◌}
use bf_k61_firmware_aura.Prelude.Compare.{◌==◌, ==_iff, bool_eq}
use native.Mathlib.Omega.{arith}

unfoldable pub all_below : ℕ → (ℕ → Bool) → Bool
all_below zero p = true
all_below (suc n) p = p n && all_below n p

pub all_below_sound :
    (bound : ℕ) (test : ℕ → Bool) (k : ℕ) → all_below bound test ≡ true → k < bound → test k ≡ true
unfolding all_below
all_below_sound zero test k all_pass below = absurd (omega (arith, below))
all_below_sound (suc bound) test k all_pass below =
    ground (arith, all_pass, all_below_sound bound test k)

pub bool_eq_sound : (a b : Bool) → bool_eq a b ≡ true → a ≡ b
bool_eq_sound true b h = sym h
bool_eq_sound false true h = cc
bool_eq_sound false false h = refl

-- Two tests, or two functions, that agree below `n`.
pub same_tests :
    (n : ℕ) (f g : ℕ → Bool)
    → all_below n (λ x. bool_eq (f x) (g x)) ≡ true
    → (x : ℕ) → x < n
    → f x ≡ g x
same_tests n f g h x lt = bool_eq_sound (f x) (g x) (all_below_sound n _ x h lt)

pub same_values :
    (n : ℕ) (f g : ℕ → ℕ) → all_below n (λ x. f x == g x) ≡ true → (x : ℕ) → x < n → f x ≡ g x
same_values n f g h x lt = (==_iff (f x) (g x)).0 (all_below_sound n _ x h lt)
