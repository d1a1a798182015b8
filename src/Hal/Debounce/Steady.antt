-- ===== src/Hal/Debounce/Steady.antt =====
-- Bounces are swallowed, and a level that stays is reported once.
use bf_k61_firmware_aura.Prelude.{
  ℕ, zero, suc, ◌+◌, ◌≤◌, ◌<◌, ◌≡◌, refl, ◌∙◌, ap, Bool, true, false, ◌&&◌, leb, not, Bool-cases,
  inl, inr, bool_eq, ltb, if◌then◌else◌, All, List, [], ◌∷◌, ◌++◌, Option, none, some, arith,
  replicate,
}
use bf_k61_firmware_aura.Hal.Debounce.{
  Debouncer, threshold, new, counted, settled, sample, report, levels,
}

-- At rest at a level, which it has sampled `n + 1` times in a row.
abbrev resting : Bool → ℕ → Debouncer
resting v n = record { stable = v; candidate = v; count = n }

-- The other level has been sampled `n + 1` times.
abbrev wavering : Bool → ℕ → Debouncer
wavering v n = record { stable = v; candidate = not v; count = n }

-- A series of samples of the other level, with a sample of the resting level after each,
-- before the samples `raws`.
unfoldable pub noise : Bool → List ℕ → List Bool → List Bool
noise v [] raws = raws
noise v (k ∷ ks) raws = replicate k (not v) ++ v ∷ noise v ks raws

abbrev pub Short : ℕ → Type 0
Short k = k ≤ threshold

next_count : ℕ → ℕ
next_count n = if ltb n threshold then n + 1 else n

silent :
    (d d' : Debouncer) (raw : Bool) (raws : List Bool)
    → sample d raw ≡ (d', none)
    → levels d (raw ∷ raws) ≡ levels d' raws
unfolding levels report
silent d d' raw raws e = ap (λ (r : Debouncer × Option Bool). report r.1 (levels r.0 raws)) e

spoken :
    (d d' : Debouncer) (raw b : Bool) (raws : List Bool)
    → sample d raw ≡ (d', some b)
    → levels d (raw ∷ raws) ≡ b ∷ levels d' raws
unfolding levels report
spoken d d' raw b raws e = ap (λ (r : Debouncer × Option Bool). report r.1 (levels r.0 raws)) e

bool_eq_self : (b : Bool) → bool_eq b b ≡ true
bool_eq_self true = refl
bool_eq_self false = refl

bool_eq-not : (b : Bool) → bool_eq (not b) b ≡ false
bool_eq-not true = refl
bool_eq-not false = refl

not-bool_eq : (b : Bool) → bool_eq b (not b) ≡ false
not-bool_eq true = refl
not-bool_eq false = refl

and_false : (b : Bool) → (b && false) ≡ false
and_false true = refl
and_false false = refl

sample_same : (v : Bool) (n : ℕ) → sample (resting v n) v ≡ (resting v (next_count n), none)
unfolding sample counted settled next_count
sample_same v n = elim (Bool-cases (ltb n threshold)) [
  | inl e ↦ simp (bool_eq_self v, e, and_false) refl
  | inr e ↦ simp (bool_eq_self v, e, and_false) refl
]

sample_other : (v : Bool) (n : ℕ) → sample (resting v n) (not v) ≡ (wavering v 0, none)
unfolding sample counted settled
sample_other v n = simp (bool_eq-not v) refl

sample_back : (v : Bool) (n : ℕ) → sample (wavering v n) v ≡ (resting v 0, none)
unfolding sample counted settled
sample_back v n = simp (not-bool_eq v) refl

sample_still :
    (v : Bool) (n : ℕ) → n < 3 → sample (wavering v n) (not v) ≡ (wavering v (n + 1), none)
unfolding sample counted settled
sample_still v n h =
    let low : ltb n threshold ≡ true = ground arith in
    let few : leb threshold (n + 1) ≡ false = ground arith in
    simp (bool_eq_self (not v), low, few) refl

sample_over : (v : Bool) → sample (wavering v 3) (not v) ≡ (resting (not v) threshold, some (not v))
unfolding sample counted settled
sample_over true = refl
sample_over false = refl

-- A shorter burst is forgotten.
burst_short :
    (v : Bool) (n k : ℕ) (raws : List Bool)
    → n + k ≤ 3
    → levels (wavering v n) (replicate k (not v) ++ v ∷ raws) ≡ levels (resting v 0) raws
burst_short v n zero raws h = silent (wavering v n) (resting v 0) v raws (sample_back v n)
burst_short v n (suc k) raws h =
    silent (wavering v n) (wavering v (n + 1)) (not v) (replicate k (not v) ++ v ∷ raws)
      (sample_still v n (omega arith))
    ∙ burst_short v (n + 1) k raws (omega arith)

burst :
    (v : Bool) (n k : ℕ) (raws : List Bool)
    → k ≤ threshold
    → (m : ℕ) × (levels (resting v n) (replicate k (not v) ++ v ∷ raws) ≡ levels (resting v m) raws)
burst v n zero raws h =
    (next_count n, silent (resting v n) (resting v (next_count n)) v raws (sample_same v n))
burst v n (suc k) raws h = (
  0,
  silent (resting v n) (wavering v 0) (not v) (replicate k (not v) ++ v ∷ raws) (sample_other v n)
      ∙ burst_short v 0 k raws (omega arith),
)

held : (v : Bool) (n k : ℕ) → levels (resting v n) (replicate k v) ≡ []
unfolding levels
held v n zero = refl
held v n (suc k) =
    silent (resting v n) (resting v (next_count n)) v (replicate k v) (sample_same v n)
    ∙ held v (next_count n) k

pressed :
    (v : Bool) (n k : ℕ)
    → levels (resting v n) (not v ∷ not v ∷ not v ∷ not v ∷ not v ∷ replicate k (not v))
      ≡ not v ∷ []
pressed v n k =
    silent (resting v n) (wavering v 0) (not v)
      (not v ∷ not v ∷ not v ∷ not v ∷ replicate k (not v)) (sample_other v n)
    ∙ silent (wavering v 0) (wavering v 1) (not v) (not v ∷ not v ∷ not v ∷ replicate k (not v))
        (sample_still v 0 (omega arith))
    ∙ silent (wavering v 1) (wavering v 2) (not v) (not v ∷ not v ∷ replicate k (not v))
        (sample_still v 1 (omega arith))
    ∙ silent (wavering v 2) (wavering v 3) (not v) (not v ∷ replicate k (not v))
        (sample_still v 2 (omega arith))
    ∙ spoken (wavering v 3) (resting (not v) threshold) (not v) (not v) (replicate k (not v))
        (sample_over v)
    ∙ ap (λ (bs : List Bool). not v ∷ bs) (held (not v) threshold k)

noisy :
    (v : Bool) (n : ℕ) (ks : List ℕ) (k : ℕ)
    → All Short ks
    → levels
        (resting v n)
        (noise v ks (not v ∷ not v ∷ not v ∷ not v ∷ not v ∷ replicate k (not v)))
      ≡ not v ∷ []
unfolding noise
noisy v n [] k h = pressed v n k
noisy v n (b ∷ ks) k (short, h) =
    let rest = noise v ks (not v ∷ not v ∷ not v ∷ not v ∷ not v ∷ replicate k (not v)) in
    let next = burst v n b rest short in next.1 ∙ noisy v next.0 ks k h

-- From the start at a level, bursts of at most four samples of the other level are swallowed, and
-- five such samples in a row report it, once, however long it then stays.
pub levels_once :
    (v : Bool) (ks : List ℕ) (k : ℕ)
    → All Short ks
    → levels (new v) (noise v ks (replicate (5 + k) (not v))) ≡ not v ∷ []
unfolding new
levels_once v ks k h =
    ap (λ (m : ℕ). levels (new v) (noise v ks (replicate m (not v)))) {x = 5 + k}
      {y = suc (suc (suc (suc (suc k))))} (omega arith)
    ∙ noisy v threshold ks k h
