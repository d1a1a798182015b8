-- ===== src/Prelude/Window.antt =====
-- A run of positions of a circular buffer, as a list.
use Prim.Native.Nat.{ℕ, zero, suc, ◌+◌, ◌%◌, ◌≤◌, ◌<◌}
use mathlib.Core.Logic.{◌≢◌}
use mathlib.Core.Path.{◌≡◌, refl, ap, ap₂, ◌∙◌, sym}
use mathlib.Core.List.{List, [], ◌∷◌, ◌++◌}
use native.Mathlib.Nat.{suc-mod, mod-mod}
use native.Mathlib.Omega.{arith}
use bf_k61_firmware_aura.Prelude.Lists.{length, get_or, set, get_or-set_ne}

-- Positions less than a turn apart are different.
abbrev pub Apart : ℕ → Type 0
Apart cap = (s i k : ℕ) → i < k → k < cap → (s + i) % cap ≢ (s + k) % cap

module _ {ℓ} {A : Type ℓ} (d : A) (cap : ℕ) where
  unfoldable pub window : List A → ℕ → ℕ → List A
  window buf s zero = []
  window buf s (suc n) = get_or buf (s % cap) d ∷ window buf (suc s) n

  pub length-window : (buf : List A) (s n : ℕ) → length (window buf s n) ≡ n
  unfolding window
  length-window buf s zero = refl
  length-window buf s (suc n) = ap suc (length-window buf (suc s) n)

  window_cong : (buf : List A) (s t n : ℕ) → s % cap ≡ t % cap → window buf s n ≡ window buf t n
  unfolding window
  window_cong buf s t zero e = refl
  window_cong buf s t (suc n) e = ap₂ ◌∷◌ (ap (λ (k : ℕ). get_or buf k d) e) (
      window_cong buf (suc s) (suc t) n
        (suc-mod s cap ∙ ap (λ (k : ℕ). suc k % cap) e ∙ sym (suc-mod t cap)))

  pub window_mod : (buf : List A) (s n : ℕ) → window buf (s % cap) n ≡ window buf s n
  window_mod buf s n = window_cong buf (s % cap) s n (mod-mod s cap)

  -- One more position at the end.
  pub window_snoc :
      (buf : List A) (s n : ℕ)
      → window buf s (suc n) ≡ window buf s n ++ get_or buf ((s + n) % cap) d ∷ []
  unfolding window
  window_snoc buf s zero =
      ap (λ (k : ℕ). get_or buf (k % cap) d ∷ []) {x = s} {y = s + 0} (omega arith)
  window_snoc buf s (suc n) =
      ap (λ (xs : List A). get_or buf (s % cap) d ∷ xs)
        (window_snoc buf (suc s) n
          ∙ ap (λ (k : ℕ). window buf (suc s) n ++ get_or buf (k % cap) d ∷ []) {x = suc s + n}
              {y = s + suc n} (omega arith))

  -- A write behind the window, less than a turn away, does not show in it.
  pub window-set :
      Apart cap
      → (buf : List A) (s n k : ℕ) (v : A) → n ≤ k
      → k < cap
      → window (set buf ((s + k) % cap) v) s n ≡ window buf s n
  unfolding window
  window-set apart buf s zero k v h below = refl
  window-set apart buf s (suc n) zero v h below = absurd (omega arith)
  window-set apart buf s (suc n) (suc k) v h below =
      ap₂ ◌∷◌
        (get_or-set_ne buf ((s + suc k) % cap) (s % cap) v d (λ e.
          apart s 0 (suc k) (omega arith) (omega arith)
            (ap (λ (i : ℕ). i % cap) {x = s + 0} {y = s} (omega arith) ∙ sym e)))
        (ap (λ (i : ℕ). window (set buf (i % cap) v) (suc s) n) {x = s + suc k} {y = suc s + k}
            (omega arith)
          ∙ window-set apart buf (suc s) n k v (omega arith) (omega arith))
