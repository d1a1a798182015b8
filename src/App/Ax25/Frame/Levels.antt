-- ===== src/App/Ax25/Frame/Levels.antt =====
-- What one bit of process_byte (src/app/ax25/frame.rs) adds to the levels on the line.
use bf_k61_firmware_aura.Prelude.{
  ℕ, zero, suc, ◌+◌, ◌<◌, ◌≡◌, refl, ◌∙◌, bit_xor, List, [], ◌∷◌, ◌++◌, Bool, true, false, ◌&&◌,
  arith, ◌==◌, ==_refl, if◌then◌else◌, Bool-cases, inl, inr,
}
use mathlib.Core.List.{append_assoc}
use bf_k61_firmware_aura.App.Ax25.Frame.{Sender, send_bit}
use bf_k61_firmware_aura.App.Ax25.Frame.Receiver.{decode_levels, next_ones}

-- The last level on the line.
unfoldable pub last_level : ℕ → List ℕ → ℕ
last_level last [] = last
last_level last (level ∷ levels) = last_level level levels

decode_levels-append :
    (last : ℕ) (xs ys : List ℕ)
    → decode_levels last (xs ++ ys) ≡ decode_levels last xs ++ decode_levels (last_level last xs) ys
unfolding decode_levels last_level
decode_levels-append last [] ys = refl
decode_levels-append last (x ∷ xs) ys = rw (decode_levels-append x xs ys)

last_level-append :
    (last : ℕ) (xs ys : List ℕ) → last_level last (xs ++ ys) ≡ last_level (last_level last xs) ys
unfolding last_level
last_level-append last [] ys = refl
last_level-append last (x ∷ xs) ys = last_level-append x xs ys

-- The line holds the bits `sent`, and its level is the last one.
pub record Holds (line : Sender) (sent : List ℕ) : Type 0 where
  pub bits_sent : decode_levels 1 line.levels ≡ sent
  pub last : last_level 1 line.levels ≡ line.nrzi
  pub level : line.nrzi < 2

-- What one bit adds to the line.
unfoldable pub added : Bool → ℕ → ℕ → List ℕ
added stuff ones bit = if stuff && next_ones ones bit == 5 then bit ∷ 0 ∷ [] else bit ∷ []

-- One more level on the line.
emit_decoded :
    (levels sent : List ℕ) (nrzi level : ℕ)
    → decode_levels 1 levels ≡ sent
    → last_level 1 levels ≡ nrzi
    → decode_levels 1 (levels ++ level ∷ []) ≡ sent ++ (if level == nrzi then 1 else 0) ∷ []
unfolding decode_levels
emit_decoded levels sent nrzi level p q = decode_levels-append 1 levels (level ∷ []) ∙ rw p (rw q)

emit_last : (levels : List ℕ) (level : ℕ) → last_level 1 (levels ++ level ∷ []) ≡ level
unfolding last_level
emit_last levels level = last_level-append 1 levels (level ∷ [])

toggled : (n : ℕ) → n < 2 → (bit_xor n 1 < 2) × ((bit_xor n 1 == n) ≡ false)
toggled zero h = (omega arith, refl)
toggled (suc zero) h = (omega arith, refl)
toggled (suc (suc n)) h = absurd (omega arith)

toggle-Holds :
    (line : Sender) (sent : List ℕ) (ones : ℕ)
    → Holds line sent
    → Holds
        (record {
          levels = line.levels ++ bit_xor line.nrzi 1 ∷ [];
          nrzi = bit_xor line.nrzi 1;
          ones = ones;
        })
        (sent ++ 0 ∷ [])
toggle-Holds line sent ones v =
    let t = toggled line.nrzi v.level in
    record {
      bits_sent =
          emit_decoded line.levels sent line.nrzi (bit_xor line.nrzi 1) v.bits_sent v.last
          ∙ rw (t.1);
      last = emit_last line.levels (bit_xor line.nrzi 1);
      level = t.0;
    }

stay-Holds :
    (line : Sender) (sent : List ℕ) (ones : ℕ)
    → Holds line sent
    → Holds
        (record { levels = line.levels ++ line.nrzi ∷ []; nrzi = line.nrzi; ones = ones })
        (sent ++ 1 ∷ [])
stay-Holds line sent ones v = record {
  bits_sent =
      emit_decoded line.levels sent line.nrzi line.nrzi v.bits_sent v.last ∙ rw (==_refl line.nrzi);
  last = emit_last line.levels line.nrzi;
  level = v.level;
}

pub send_bit-Holds :
    (stuff : Bool) (line : Sender) (sent : List ℕ) (bit : ℕ)
    → Holds line sent
    → bit < 2
    → Holds (send_bit stuff line bit) (sent ++ added stuff line.ones bit)
unfolding send_bit added
send_bit-Holds false line sent zero v h = toggle-Holds line sent 0 v
send_bit-Holds true line sent zero v h = toggle-Holds line sent 0 v
send_bit-Holds false line sent (suc zero) v h = stay-Holds line sent (line.ones + 1) v
send_bit-Holds true line sent (suc zero) v h =
    let kept = stay-Holds line sent (line.ones + 1) v in
    elim (Bool-cases (line.ones + 1 == 5)) [
      | inl full ↦ rw full (
          rw (← append_assoc sent (1 ∷ []) (0 ∷ [])) (
            toggle-Holds
              (record {
                levels = line.levels ++ line.nrzi ∷ [];
                nrzi = line.nrzi;
                ones = line.ones + 1;
              })
              (sent ++ 1 ∷ []) 0 kept))
      | inr some_room ↦ rw some_room kept
    ]
send_bit-Holds stuff line sent (suc (suc bit)) v h = absurd (omega arith)
