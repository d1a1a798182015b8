-- ===== src/App/Scan/Channels.antt =====
-- The next channel of a scan (src/app/scan.rs find_next_scan_channel).
use bf_k61_firmware_aura.Prelude.{
  ℕ, zero, suc, ◌+◌, ◌-◌, ◌%◌, ◌<◌, ◌≤◌, ◌≡◌, refl, sym, ap, subst, ◌∙◌, Bool, true, false, ◌&&◌,
  not, Option, none, some, arith, if◌then◌else◌, Bool-cases, inl, inr,
}
use bf_k61_firmware_aura.Prelude.Tables.{all_below}
use bf_k61_firmware_aura.Drivers.NorFlash.{Chip}
use bf_k61_firmware_aura.App.Scan.{next_number, find_next, is_wanted, find_next_scan_channel}

-- The channel `d + 1` steps away from a channel, around the 1000 channels.
abbrev pub away : Bool → ℕ → ℕ → ℕ
away forward from d = if forward then (from + d + 1) % 1000 else (from + 999 - d) % 1000

-- What a search from a channel should give: the nearest channel that is wanted in its direction,
-- itself last, and nothing only where none of the `n` channels on the way is wanted.
unfoldable pub Nearest : (ℕ → Bool) → Bool → ℕ → ℕ → Option ℕ → Type 0
unfolding all_below
Nearest wanted forward from n none = all_below n (λ d. not (wanted (away forward from d))) ≡ true
Nearest wanted forward from n (some k) =
    (d : ℕ) × (d < n)
    × (k ≡ away forward from d)
    × (wanted k ≡ true)
    × (all_below d (λ i. not (wanted (away forward from i))) ≡ true)

next_number-away : (forward : Bool) (n : ℕ) → n < 1000 → next_number forward n ≡ away forward n 0
unfolding next_number
next_number-away true n h = ground arith
next_number-away false n h = ground arith

away-lt : (forward : Bool) (from d : ℕ) → away forward from d < 1000
away-lt true from d = omega arith
away-lt false from d = omega arith

away-away :
    (forward : Bool) (from d : ℕ)
    → from < 1000
    → d < 999
    → away forward (away forward from 0) d ≡ away forward from (suc d)
away-away true from d h k = omega arith
away-away false from d h k = omega arith

and_parts : (a b : Bool) → (a && b) ≡ true → (a ≡ true) × (b ≡ true)
and_parts true b h = (refl, h)
and_parts false b h = cc

and_both : (a b : Bool) → a ≡ true → b ≡ true → (a && b) ≡ true
and_both a b p q = rw p q

-- A property of the first number below a bound and of those after it.
all_below-suc :
    (n : ℕ) (p q : ℕ → Bool)
    → p 0 ≡ true
    → ((i : ℕ) → i < n → q i ≡ p (suc i))
    → all_below n q ≡ true
    → all_below (suc n) p ≡ true
unfolding all_below
all_below-suc zero p q first same h = rw first
all_below-suc (suc n) p q first same h =
    let parts = and_parts (q n) (all_below n q) h in
    and_both (p (suc n)) (all_below (suc n) p) (sym (same n (omega arith)) ∙ parts.0)
      (all_below-suc n p q first (λ i lt. same i (omega arith)) parts.1)

-- The nearest one seen from the next channel is the nearest one, if the next is not wanted.
step-Nearest :
    (wanted : ℕ → Bool) (forward : Bool) (n from : ℕ) (result : Option ℕ)
    → from < 1000
    → suc n ≤ 1000
    → wanted (away forward from 0) ≡ false
    → Nearest wanted forward (away forward from 0) n result
    → Nearest wanted forward from (suc n) result
unfolding Nearest
step-Nearest wanted forward n from none h k e near =
    all_below-suc n (λ d. not (wanted (away forward from d)))
      (λ d. not (wanted (away forward (away forward from 0) d))) (ap not e)
      (λ i lt. ap (λ (x : ℕ). not (wanted x)) (away-away forward from i h (omega arith))) near
step-Nearest wanted forward n from (some found) h k e (d, lt, at, is, before) = (
  suc d,
  omega arith,
  at ∙ away-away forward from d h (omega arith),
  is,
  all_below-suc d (λ i. not (wanted (away forward from i)))
      (λ i. not (wanted (away forward (away forward from 0) i))) (ap not e)
      (λ i low. ap (λ (x : ℕ). not (wanted x)) (away-away forward from i h (omega arith))) before,
)

find_next-Nearest :
    (wanted : ℕ → Bool) (forward : Bool) (n from : ℕ)
    → from < 1000
    → n ≤ 1000
    → Nearest wanted forward from n (find_next wanted forward n from)
unfolding find_next
find_next-Nearest wanted forward zero from h k = unfold Nearest in unfold all_below in refl
find_next-Nearest wanted forward (suc n) from h k =
    let next = next_number-away forward from h in
    elim (Bool-cases (wanted (next_number forward from))) [
      | inl here ↦
          rw here (unfold Nearest in unfold all_below in (0, omega arith, next, here, refl))
      | inr past ↦ rw past (
          step-Nearest wanted forward n from (find_next wanted forward n (next_number forward from))
            h k (ap wanted (sym next) ∙ past)
            (subst
              (λ (x : ℕ).
                Nearest wanted forward x n (find_next wanted forward n (next_number forward from)))
              next
              (find_next-Nearest wanted forward n (next_number forward from)
                (subst (λ (x : ℕ). x < 1000) (sym next) (away-lt forward from 0)) (omega arith))))
    ]

-- From a channel below 1000, the search gives the nearest channel in its direction that is in use
-- and marked for the scan, around the 1000 channels and with the channel itself last, and nothing
-- exactly where there is none.
pub find_next_scan_channel-Nearest :
    (c : Chip) (s : c.State) (from : ℕ) (forward : Bool)
    → from < 1000
    → Nearest (is_wanted c s) forward from 1000 (find_next_scan_channel c s from forward)
unfolding find_next_scan_channel
find_next_scan_channel-Nearest c s from forward h =
    find_next-Nearest (is_wanted c s) forward 1000 from h (omega arith)
