-- ===== src/Prelude/Bits.antt =====
-- Laws of `bit_and`, `bit_or` and `bit_xor` at every width, from the recursion on binary digits
-- that the native operations stand for.
use Prim.Native.Nat.{
  ℕ, zero, suc, ◌+◌, ◌*◌, ◌/◌, ◌%◌, ◌^◌, ◌≤◌, ◌<◌, min, max, bit_and, bit_or, bit_xor, digits,
  differ, bitwise, bit_and-bitwise, bit_or-bitwise, bit_xor-bitwise,
}
use mathlib.Core.Path.{◌≡◌, refl, ap, ap₂, ◌∙◌, sym}
use native.Mathlib.Nat.{le_refl, pow-suc, div-div-eq-div-mul}
use native.Mathlib.Omega.{arith}

module _ (tail : ℕ → ℕ) (op : ℕ → ℕ → ℕ) where
  -- Fuel beyond the left number makes no difference.
  enough_fuel :
      (x y fuel more : ℕ)
      → x ≤ fuel
      → fuel ≤ more
      → digits tail op more x y ≡ digits tail op fuel x y
  enough_fuel zero y zero zero low high = refl
  enough_fuel zero y zero (suc more) low high = refl
  enough_fuel zero y (suc fuel) (suc more) low high = refl
  enough_fuel zero y (suc fuel) zero low high = absurd (omega (arith, high))
  enough_fuel (suc x) y zero more low high = absurd (omega (arith, low))
  enough_fuel (suc x) y (suc fuel) zero low high = absurd (omega (arith, high))
  enough_fuel (suc x) y (suc fuel) (suc more) low high =
      ap (λ (q : ℕ). q * 2 + op (suc x % 2) (y % 2))
        (enough_fuel (suc x / 2) (y / 2) fuel more (omega (arith, low)) (omega (arith, high)))

  digit_split :
      (x y : ℕ)
      → bitwise tail op (suc x) y ≡ bitwise tail op (suc x / 2) (y / 2) * 2 + op (suc x % 2) (y % 2)
  digit_split x y =
      ap (λ (q : ℕ). q * 2 + op (suc x % 2) (y % 2))
        (enough_fuel (suc x / 2) (y / 2) (suc x / 2) x (le_refl (suc x / 2)) (omega arith))

differ-mod : (x y : ℕ) → x < 2 → y < 2 → differ x y ≡ (x + y) % 2
differ-mod zero y p q = omega arith
differ-mod (suc zero) zero p q = refl
differ-mod (suc zero) (suc zero) p q = refl
differ-mod (suc zero) (suc (suc y)) p q = absurd (omega arith)
differ-mod (suc (suc x)) y p q = absurd (omega arith)

pub bit_xor_step : (x y : ℕ) → bit_xor x y ≡ bit_xor (x / 2) (y / 2) * 2 + (x % 2 + y % 2) % 2
bit_xor_step zero y = simp bit_xor-bitwise (omega arith)
bit_xor_step (suc x) y =
    simp bit_xor-bitwise (digit_split (λ k. k) differ x y)
    ∙ ap (λ (t : ℕ). bit_xor (suc x / 2) (y / 2) * 2 + t)
        (differ-mod (suc x % 2) (y % 2) (omega arith) (omega arith))

pub bit_and_step : (x y : ℕ) → bit_and x y ≡ bit_and (x / 2) (y / 2) * 2 + min (x % 2) (y % 2)
bit_and_step zero y = simp bit_and-bitwise (omega arith)
bit_and_step (suc x) y = simp bit_and-bitwise (digit_split (λ k. 0) min x y)

pub zero-bit_xor : (b : ℕ) → bit_xor 0 b ≡ b
zero-bit_xor b = simp bit_xor-bitwise

pub bit_xor-lt : (k a b : ℕ) → a < 2 ^ k → b < 2 ^ k → bit_xor a b < 2 ^ k
bit_xor-lt zero zero zero p q = omega (arith, zero-bit_xor 0)
bit_xor-lt zero zero (suc b) p q = absurd (omega arith)
bit_xor-lt zero (suc a) b p q = absurd (omega arith)
bit_xor-lt (suc k) a b p q = omega (
  arith,
  pow-suc 2 k,
  bit_xor_step a b,
  bit_xor-lt k (a / 2) (b / 2) (omega (arith, pow-suc 2 k)) (omega (arith, pow-suc 2 k)),
)

bit_xor_self_fuel : (n a : ℕ) → a ≤ n → bit_xor a a ≡ 0
bit_xor_self_fuel n zero h = zero-bit_xor 0
bit_xor_self_fuel zero (suc a) h = absurd (omega arith)
bit_xor_self_fuel (suc n) (suc a) h =
    omega (arith, bit_xor_step (suc a) (suc a), bit_xor_self_fuel n (suc a / 2) (omega arith))

pub bit_xor_self : (a : ℕ) → bit_xor a a ≡ 0
bit_xor_self a = bit_xor_self_fuel a a (le_refl a)

bit_xor_comm_fuel : (n a b : ℕ) → a ≤ n → b ≤ n → bit_xor a b ≡ bit_xor b a
bit_xor_comm_fuel zero zero zero p q = refl
bit_xor_comm_fuel zero zero (suc b) p q = absurd (omega arith)
bit_xor_comm_fuel zero (suc a) b p q = absurd (omega arith)
bit_xor_comm_fuel (suc n) a b p q = omega (
  arith,
  bit_xor_step a b,
  bit_xor_step b a,
  bit_xor_comm_fuel n (a / 2) (b / 2) (omega arith) (omega arith),
)

pub bit_xor_comm : (a b : ℕ) → bit_xor a b ≡ bit_xor b a
bit_xor_comm a b = bit_xor_comm_fuel (a + b) a b (omega arith) (omega arith)

bit_xor_assoc_fuel :
    (n a b c : ℕ) → a ≤ n → b ≤ n → c ≤ n → bit_xor (bit_xor a b) c ≡ bit_xor a (bit_xor b c)
bit_xor_assoc_fuel zero zero zero zero p q r = refl
bit_xor_assoc_fuel zero zero zero (suc c) p q r = absurd (omega arith)
bit_xor_assoc_fuel zero zero (suc b) c p q r = absurd (omega arith)
bit_xor_assoc_fuel zero (suc a) b c p q r = absurd (omega arith)
bit_xor_assoc_fuel (suc n) a b c p q r =
    bit_xor_step (bit_xor a b) c
    ∙ ap₂ (λ (s t : ℕ). s * 2 + t)
        (ap (λ (t : ℕ). bit_xor t (c / 2)) (omega (arith, bit_xor_step a b))
          ∙ bit_xor_assoc_fuel n (a / 2) (b / 2) (c / 2) (omega arith) (omega arith) (omega arith)
          ∙ ap (λ (t : ℕ). bit_xor (a / 2) t) (omega (arith, bit_xor_step b c)))
        (omega (arith, bit_xor_step a b, bit_xor_step b c))
    ∙ sym (bit_xor_step a (bit_xor b c))

pub bit_xor_assoc : (a b c : ℕ) → bit_xor (bit_xor a b) c ≡ bit_xor a (bit_xor b c)
bit_xor_assoc a b c = bit_xor_assoc_fuel (a + b + c) a b c (omega arith) (omega arith) (omega arith)

-- `(q << k) | r` and `(q << k) ^ r` are sums when `r` fits `k` bits.
pub bit_or_step : (x y : ℕ) → bit_or x y ≡ bit_or (x / 2) (y / 2) * 2 + max (x % 2) (y % 2)
bit_or_step zero y = simp bit_or-bitwise (omega arith)
bit_or_step (suc x) y = simp bit_or-bitwise (digit_split (λ k. k) max x y)

bit_or-zero_fuel : (fuel x : ℕ) → x ≤ fuel → bit_or x 0 ≡ x
bit_or-zero_fuel fuel zero low = omega (arith, bit_or-bitwise 0 0)
bit_or-zero_fuel zero (suc x) low = absurd (omega (arith, low))
bit_or-zero_fuel (suc fuel) (suc x) low =
    omega (arith, bit_or-zero_fuel fuel (suc x / 2) (omega (arith, low)), bit_or_step (suc x) 0)

pub bit_or-zero : (a : ℕ) → bit_or a 0 ≡ a
bit_or-zero a = bit_or-zero_fuel a a (le_refl a)

pub doubled : (top width : ℕ) → top * 2 ^ suc width ≡ 2 * (top * 2 ^ width)
doubled top width = omega (arith, ap (λ (power : ℕ). top * power) (pow-suc 2 width))

-- Fields that do not overlap are joined as they are added.
pub bit_or_fields :
    (width top low : ℕ) → low < 2 ^ width → bit_or (top * 2 ^ width) low ≡ top * 2 ^ width + low
bit_or_fields zero top (suc low) fits = absurd (omega (arith, fits))
bit_or_fields zero top zero fits = omega (arith, bit_or-zero (top * 1))
bit_or_fields (suc width) top low fits =
    let half : top * 2 ^ suc width / 2 ≡ top * 2 ^ width = omega (arith, doubled top width) in
    omega (
      arith,
      bit_or_fields width top (low / 2) (omega (arith, fits, pow-suc 2 width)),
      bit_or_step (top * 2 ^ suc width) low,
      doubled top width,
      ap (λ (kept : ℕ). bit_or kept (low / 2)) half,
    )

bit_and-zero_fuel : (x fuel : ℕ) → x ≤ fuel → bit_and x 0 ≡ 0
bit_and-zero_fuel zero fuel low = omega (arith, bit_and-bitwise 0 0)
bit_and-zero_fuel (suc x) zero low = absurd (omega (arith, low))
bit_and-zero_fuel (suc x) (suc fuel) low =
    omega (arith, bit_and-zero_fuel (suc x / 2) fuel (omega (arith, low)), bit_and_step (suc x) 0)

pub bit_and-zero : (x : ℕ) → bit_and x 0 ≡ 0
bit_and-zero x = bit_and-zero_fuel x x (le_refl x)

-- `x & (1 << k)` is the digit `k` of `x`, in its place.
pub bit_and_digit : (k a : ℕ) → bit_and a (2 ^ k) ≡ a / 2 ^ k % 2 * 2 ^ k
bit_and_digit zero a = omega (arith, bit_and_step a 1, bit_and-zero (a / 2))
bit_and_digit (suc k) a =
    let half : 2 ^ suc k / 2 ≡ 2 ^ k = omega (arith, pow-suc 2 k) in
    let whole : 2 ^ suc k ≡ 2 * 2 ^ k = omega (arith, pow-suc 2 k) in
    let deep : a / 2 ^ suc k ≡ a / 2 / 2 ^ k =
      ap (λ (t : ℕ). a / t) whole ∙ sym (div-div-eq-div-mul a 2 (2 ^ k)) in
    omega (
      arith,
      bit_and_step a (2 ^ suc k),
      ap (λ (t : ℕ). bit_and (a / 2) t) half,
      bit_and_digit k (a / 2),
      deep,
      pow-suc 2 k,
      ap (λ (t : ℕ). t % 2 * 2 ^ suc k) deep,
      ap (λ (t : ℕ). a / 2 / 2 ^ k % 2 * t) (pow-suc 2 k),
    )

pub bit_or-lt : (k a b : ℕ) → a < 2 ^ k → b < 2 ^ k → bit_or a b < 2 ^ k
bit_or-lt zero zero zero p q = omega (arith, bit_or-zero 0)
bit_or-lt zero zero (suc b) p q = absurd (omega arith)
bit_or-lt zero (suc a) b p q = absurd (omega arith)
bit_or-lt (suc k) a b p q = omega (
  arith,
  pow-suc 2 k,
  bit_or_step a b,
  bit_or-lt k (a / 2) (b / 2) (omega (arith, pow-suc 2 k)) (omega (arith, pow-suc 2 k)),
)

-- The low five bits.
pub bit_and_mask5 : (a : ℕ) → bit_and a 0x1f ≡ a % 32
bit_and_mask5 a = omega (
  arith,
  bit_and_step a 31,
  bit_and_step (a / 2) 15,
  bit_and_step (a / 2 / 2) 7,
  bit_and_step (a / 2 / 2 / 2) 3,
  bit_and_step (a / 2 / 2 / 2 / 2) 1,
  bit_and-zero (a / 2 / 2 / 2 / 2 / 2),
)

pub bit_and-lt : (k a b : ℕ) → a < 2 ^ k → bit_and a b < 2 ^ k
bit_and-lt zero zero b p = omega (arith, bit_and_step 0 b, bit_and-bitwise 0 b)
bit_and-lt zero (suc a) b p = absurd (omega arith)
bit_and-lt (suc k) a b p = omega (
  arith,
  pow-suc 2 k,
  bit_and_step a b,
  bit_and-lt k (a / 2) (b / 2) (omega (arith, pow-suc 2 k)),
)
