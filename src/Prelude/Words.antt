-- ===== src/Prelude/Words.antt =====
-- Fixed arrays and their parts, little-endian words, and signed words as their bit patterns.
use Prim.Native.Nat.{ℕ, zero, suc, ◌+◌, ◌*◌, ◌/◌, ◌%◌, ◌^◌, ◌<◌}
use mathlib.Core.Path.{◌≡◌, refl, ap, sym, ◌∙◌}
use mathlib.Core.List.{List, [], ◌∷◌}
use native.Mathlib.Omega.{arith}
use bf_k61_firmware_aura.Prelude.Lists.{length, get_or, drop}

module _ {ℓ} {A : Type ℓ} where
  -- `xs[i..i + n]`, read one element after the other, with a default out of range.
  abbrev pub span_of : A → List A → ℕ → ℕ → List A
  span_of d xs i zero = []
  span_of d xs i (suc n) = get_or xs i d ∷ span_of d xs (suc i) n

  drop_get :
      (d : A) (xs : List A) (i : ℕ) → i < length xs → drop i xs ≡ get_or xs i d ∷ drop (suc i) xs
  drop_get d [] i h = absurd (omega arith)
  drop_get d (x ∷ xs) zero h = refl
  drop_get d (x ∷ xs) (suc i) h = drop_get d xs i (omega arith)

  drop_end : (xs : List A) (n : ℕ) → length xs ≡ n → drop n xs ≡ []
  drop_end [] zero h = refl
  drop_end [] (suc n) h = refl
  drop_end (x ∷ xs) zero h = absurd (omega arith)
  drop_end (x ∷ xs) (suc n) h = drop_end xs n (omega arith)

  pub drop-span_of :
      (d : A) (xs : List A) (i n : ℕ) → i + n ≡ length xs → span_of d xs i n ≡ drop i xs
  drop-span_of d xs i zero h = sym (drop_end xs i (omega arith))
  drop-span_of d xs i (suc n) h =
      ap (λ t. get_or xs i d ∷ t) (drop-span_of d xs (suc i) n (omega arith))
      ∙ sym (drop_get d xs i (omega arith))

  -- All elements of an array of length `n`.
  pub span_of_all : (d : A) (n : ℕ) (xs : List A) → length xs ≡ n → span_of d xs 0 n ≡ xs
  span_of_all d n xs h = drop-span_of d xs 0 n (omega arith)

  pub length-span_of : (d : A) (xs : List A) (i n : ℕ) → length (span_of d xs i n) ≡ n
  length-span_of d xs i zero = refl
  length-span_of d xs i (suc n) = ap suc (length-span_of d xs (suc i) n)

-- The same of bytes.
abbrev pub span : List ℕ → ℕ → ℕ → List ℕ
span xs i n = span_of 0 xs i n

pub span_all : (n : ℕ) (xs : List ℕ) → length xs ≡ n → span xs 0 n ≡ xs
span_all n xs h = span_of_all 0 n xs h

-- `u16::from_le_bytes`, `u16::to_le_bytes` and their `u32` kin.
abbrev pub from_le16 : ℕ → ℕ → ℕ
from_le16 a b = a + b * 256

abbrev pub le16_lo : ℕ → ℕ
le16_lo w = w % 256

abbrev pub le16_hi : ℕ → ℕ
le16_hi w = w / 256 % 256

abbrev pub from_le32 : ℕ → ℕ → ℕ → ℕ → ℕ
from_le32 a b c d = a + b * 256 + c * 65536 + d * 16777216

abbrev pub le32 : ℕ → List ℕ
le32 w = w % 256 ∷ w / 256 % 256 ∷ w / 65536 % 256 ∷ w / 16777216 % 256 ∷ []

pub from_le16-le16 : (w : ℕ) → w < 65536 → from_le16 (le16_lo w) (le16_hi w) ≡ w
from_le16-le16 w h = omega arith

pub le16_lo-from : (a b : ℕ) → a < 256 → le16_lo (from_le16 a b) ≡ a
le16_lo-from a b h = omega arith

pub le16_hi-from : (a b : ℕ) → a < 256 → b < 256 → le16_hi (from_le16 a b) ≡ b
le16_hi-from a b h k = omega arith

pub from_le32-le32 :
    (w : ℕ)
    → w < 2 ^ 32
    → from_le32 (w % 256) (w / 256 % 256) (w / 65536 % 256) (w / 16777216 % 256) ≡ w
from_le32-le32 w h = omega arith

pub le32-from_le32 :
    (a b c d : ℕ)
    → a < 256
    → b < 256
    → c < 256
    → d < 256
    → le32 (from_le32 a b c d) ≡ a ∷ b ∷ c ∷ d ∷ []
le32-from_le32 a b c d ha hb hc hd = ground arith
