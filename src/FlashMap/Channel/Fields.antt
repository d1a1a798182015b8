-- ===== src/FlashMap/Channel/Fields.antt =====
-- The flag accessors of `Channel`: a setter is read back, and the other fields of the byte stay.
use bf_k61_firmware_aura.Prelude.{
  ℕ, ◌/◌, ◌≡◌, refl, bit_and, Bool, true, false, Option, none, some, arith, ltb, if◌then◌else◌, min,
}
use bf_k61_firmware_aura.Prelude.Tables.{all_below, same_tests, same_values}
use bf_k61_firmware_aura.Prelude.Bits.{bit_and_mask5}
use bf_k61_firmware_aura.Crc.{IsByte}
use bf_k61_firmware_aura.FlashMap.Channel.{
  Channel, contact_count, flag, set_flag, wide_narrow, set_wide_narrow, sp_mute, busy_lock,
  set_busy_lock, scan_add, set_scan_add, ani_target, set_ani_target,
}

-- A mask is one bit, and the masks below are different bits.
read_back_64 : (on : Bool) (f : ℕ) → IsByte f → flag (set_flag f 0x40 on) 0x40 ≡ on
unfolding all_below
read_back_64 true = same_tests 256 _ _ refl
read_back_64 false = same_tests 256 _ _ refl

-- `m` is untouched by writes under the mask `k`.
abbrev Untouched : ℕ → ℕ → Type 0
Untouched k m = (on : Bool) (f : ℕ) → IsByte f → flag (set_flag f k on) m ≡ flag f m

Untouched-64_8 : Untouched 0x40 0x08
unfolding all_below
Untouched-64_8 true = same_tests 256 _ _ refl
Untouched-64_8 false = same_tests 256 _ _ refl

Untouched-64_4 : Untouched 0x40 0x04
unfolding all_below
Untouched-64_4 true = same_tests 256 _ _ refl
Untouched-64_4 false = same_tests 256 _ _ refl

Untouched-8_64 : Untouched 0x08 0x40
unfolding all_below
Untouched-8_64 true = same_tests 256 _ _ refl
Untouched-8_64 false = same_tests 256 _ _ refl

Untouched-8_4 : Untouched 0x08 0x04
unfolding all_below
Untouched-8_4 true = same_tests 256 _ _ refl
Untouched-8_4 false = same_tests 256 _ _ refl

Untouched-4_64 : Untouched 0x04 0x40
unfolding all_below
Untouched-4_64 true = same_tests 256 _ _ refl
Untouched-4_64 false = same_tests 256 _ _ refl

Untouched-4_8 : Untouched 0x04 0x08
unfolding all_below
Untouched-4_8 true = same_tests 256 _ _ refl
Untouched-4_8 false = same_tests 256 _ _ refl

read_back_8 : (on : Bool) (f : ℕ) → IsByte f → flag (set_flag f 0x08 on) 0x08 ≡ on
unfolding all_below
read_back_8 true = same_tests 256 _ _ refl
read_back_8 false = same_tests 256 _ _ refl

read_back_4 : (on : Bool) (f : ℕ) → IsByte f → flag (set_flag f 0x04 on) 0x04 ≡ on
unfolding all_below
read_back_4 true = same_tests 256 _ _ refl
read_back_4 false = same_tests 256 _ _ refl

mute_untouched :
    (on : Bool) (f : ℕ) → IsByte f → bit_and (set_flag f 0x40 on / 16) 0x03 ≡ bit_and (f / 16) 0x03
unfolding all_below
mute_untouched true = same_values 256 _ _ refl
mute_untouched false = same_values 256 _ _ refl

-- On a flag byte, writing the bandwidth flag reads back as written and leaves the busy lock, the
-- scan flag and the mute mode as they were.
pub set_wide_narrow_lem :
    (c : Channel) (narrow : Bool)
    → IsByte c.flags
    → let c' = set_wide_narrow c narrow in
      (wide_narrow c' ≡ narrow)
      × (busy_lock c' ≡ busy_lock c)
      × (scan_add c' ≡ scan_add c)
      × (sp_mute c' ≡ sp_mute c)
unfolding set_wide_narrow wide_narrow busy_lock scan_add sp_mute
set_wide_narrow_lem c narrow h = (
  read_back_64 narrow c.flags h,
  Untouched-64_8 narrow c.flags h,
  Untouched-64_4 narrow c.flags h,
  mute_untouched narrow c.flags h,
)

pub set_busy_lock_lem :
    (c : Channel) (on : Bool)
    → IsByte c.flags
    → let c' = set_busy_lock c on in
      (busy_lock c' ≡ on) × (wide_narrow c' ≡ wide_narrow c) × (scan_add c' ≡ scan_add c)
unfolding set_busy_lock wide_narrow busy_lock scan_add
set_busy_lock_lem c on h =
    (read_back_8 on c.flags h, Untouched-8_64 on c.flags h, Untouched-8_4 on c.flags h)

pub set_scan_add_lem :
    (c : Channel) (on : Bool)
    → IsByte c.flags
    → let c' = set_scan_add c on in
      (scan_add c' ≡ on) × (wide_narrow c' ≡ wide_narrow c) × (busy_lock c' ≡ busy_lock c)
unfolding set_scan_add wide_narrow busy_lock scan_add
set_scan_add_lem c on h =
    (read_back_4 on c.flags h, Untouched-4_64 on c.flags h, Untouched-4_8 on c.flags h)

-- A call target is read back exactly when it is a slot of the contact table; any other reads as none.
pub ani_target-set_ani_target :
    (c : Channel) (target : Option ℕ)
    → ani_target (set_ani_target c target)
      ≡ (elim target [ none ↦ none | some t ↦ if ltb t contact_count then some t else none ])
unfolding ani_target set_ani_target
ani_target-set_ani_target c none = refl
ani_target-set_ani_target c (some t) = ground (arith, bit_and_mask5 (min t 0x1f))
