-- ===== src/App/Convert/Storable.antt =====
-- The sub-audio tones that a stored code stands for.
use bf_k61_firmware_aura.Prelude.{
  ℕ, suc, ◌+◌, ◌-◌, ◌%◌, ◌^◌, ◌<◌, ◌≤◌, ◌≡◌, refl, ap, ◌∙◌, List, [], ◌∷◌, Bool, true, false, ◌&&◌,
  Option, none, some, length, arith, ltb, ◌==◌, Bool-cases, inl, inr,
}
use bf_k61_firmware_aura.Crc.{IsU16}
use bf_k61_firmware_aura.FlashMap.Freq.{decode, dcs_normal, dcs_inverted}
use bf_k61_firmware_aura.App.Convert.{
  SubAudio, silent, ctcss, dcs, subaudio_from_code, subaudio_to_code, subaudio_of, code_of_index,
  dcs_of, dcs_from_table_index, dcs_index, dcs_table, position, lookup,
}

-- A tone that a stored code stands for: one of the DCS table, or a CTCSS tone above the codes.
unfoldable pub in_table : Option ℕ → Bool
in_table none = false
in_table (some i) = true

unfoldable pub is_storable : SubAudio → Bool
unfolding in_table dcs_index
is_storable silent = true
is_storable (ctcss t) = ltb 250 t && ltb t 65536
is_storable (dcs code inverted) = in_table (dcs_index code)

lookup_first :
    (k c code i : ℕ) (cs : List ℕ)
    → (c == code) ≡ true
    → some k ≡ some i
    → (k ≤ i) × (i < k + suc (length cs)) × (lookup (c ∷ cs) (i - k) ≡ some code)
unfolding lookup
lookup_first k c code i cs e h =
    let same : k ≡ i = cc in
    (
      omega arith,
      omega arith,
      ap (lookup (c ∷ cs)) {x = i - k} {y = 0} (omega arith) ∙ ap some (ground (arith, e)),
    )

lookup_later :
    (k c i : ℕ) (cs : List ℕ) {code : ℕ}
    → suc k ≤ i
    → lookup cs (i - suc k) ≡ some code
    → lookup (c ∷ cs) (i - k) ≡ some code
unfolding lookup
lookup_later k c i cs above h =
    ap (lookup (c ∷ cs)) {x = i - k} {y = suc (i - suc k)} (omega arith) ∙ h

lookup-position :
    (k : ℕ) (codes : List ℕ) (code i : ℕ)
    → position k codes code ≡ some i
    → (k ≤ i) × (i < k + length codes) × (lookup codes (i - k) ≡ some code)
unfolding position
lookup-position k [] code i h = cc
lookup-position k (c ∷ cs) code i h = elim (Bool-cases (c == code)) [
  | inl e ↦ lookup_first k c code i cs e (ground (arith, h, e))
  | inr e ↦
      let (above, below, found) = lookup-position (suc k) cs code i (ground (arith, h, e)) in
      (omega arith, omega arith, lookup_later k c i cs above found)
]

decode_dcs :
    (i : ℕ)
    → i < 105
    → (decode (i + 1) ≡ dcs_normal (i + 1)) × (decode (i + 1 + 105) ≡ dcs_inverted (i + 1 + 105))
unfolding decode
decode_dcs i below = (ground arith, ground arith)

from_table :
    (i code idx : ℕ) (inverted : Bool)
    → i < 105
    → lookup dcs_table (i - 0) ≡ some code
    → idx ≡ i + 1
    → dcs_from_table_index idx inverted ≡ dcs code inverted
unfolding dcs_from_table_index dcs_of
from_table i code idx inverted below found e =
    ap (λ (t : ℕ). dcs_of (lookup dcs_table t) inverted) {x = (idx + 2 ^ 32 - 1) % 2 ^ 32}
      {y = i - 0} (omega arith)
    ∙ ap (λ o. dcs_of o inverted) found

code_kept :
    (code i : ℕ) (inverted : Bool)
    → dcs_index code ≡ some i
    → subaudio_from_code (code_of_index (some i) inverted) ≡ dcs code inverted
unfolding subaudio_from_code subaudio_of dcs_index code_of_index
code_kept code i true e =
    let (_, below, found) = lookup-position 0 dcs_table code i e in
    ap subaudio_of (decode_dcs i (omega arith)).1
    ∙ from_table i code (i + 1 + 105 - 105) true (omega arith) found (omega arith)
code_kept code i false e =
    let (_, below, found) = lookup-position 0 dcs_table code i e in
    ap subaudio_of (decode_dcs i (omega arith)).0
    ∙ from_table i code (i + 1) false (omega arith) found refl

index_small :
    (code i : ℕ) (inverted : Bool)
    → dcs_index code ≡ some i
    → code_of_index (some i) inverted < 65536
unfolding dcs_index code_of_index
index_small code i true e = let (_, below, _) = lookup-position 0 dcs_table code i e in omega arith
index_small code i false e = let (_, below, _) = lookup-position 0 dcs_table code i e in omega arith

dcs_kept :
    (code : ℕ) (inverted : Bool) (o : Option ℕ)
    → dcs_index code ≡ o
    → in_table o ≡ true
    → (subaudio_from_code (code_of_index o inverted) ≡ dcs code inverted)
      × (code_of_index o inverted < 65536)
unfolding in_table
dcs_kept code inverted none e h = cc
dcs_kept code inverted (some i) e h = (code_kept code i inverted e, index_small code i inverted e)

ctcss_code : (t : ℕ) → ltb 250 t ≡ true → subaudio_from_code t ≡ ctcss t
unfolding subaudio_from_code subaudio_of decode
ctcss_code t h = ground arith

pub subaudio_kept :
    (sub : SubAudio)
    → is_storable sub ≡ true
    → (subaudio_from_code (subaudio_to_code sub) ≡ sub) × IsU16 (subaudio_to_code sub)
unfolding is_storable subaudio_to_code
subaudio_kept silent h =
    (unfold subaudio_from_code in unfold subaudio_of in unfold decode in refl, omega arith)
subaudio_kept (ctcss t) h = (ctcss_code t (ground (arith, h)), ground (arith, h))
subaudio_kept (dcs code inverted) h = dcs_kept code inverted (dcs_index code) refl h
