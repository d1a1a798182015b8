-- ===== src/FlashMap/Contact.antt =====
-- src/flash_map.rs: `Contact`, a DTMF contact of 16 bytes.
use bf_k61_firmware_aura.Prelude.{
  ℕ, ◌≡◌, List, [], ◌∷◌, ◌++◌, Bool, true, ◌&&◌, get_or, length, replicate, ◌==◌,
}
use bf_k61_firmware_aura.Prelude.Words.{span, span_all}

pub record Contact : Type 0 where
  pub id_raw : List ℕ
  pub name : List ℕ

abbrev pub blank : Contact
blank = record { id_raw = replicate 5 0xFF; name = replicate 11 0xFF }

unfoldable pub from_bytes : List ℕ → Contact
from_bytes buf = record { id_raw = span buf 0 5; name = span buf 5 11 }

unfoldable pub to_bytes : Contact → List ℕ
to_bytes c = span c.id_raw 0 5 ++ span c.name 0 11

unfoldable pub id : Contact → List ℕ
id c = get_or c.id_raw 0 0 ∷ get_or c.id_raw 1 0 ∷ get_or c.id_raw 2 0 ∷ []

-- The array has five elements: three are given anew.
unfoldable pub set_id : Contact → List ℕ → Contact
set_id c new_id = record c {
  id_raw =
      get_or new_id 0 0
      ∷ get_or new_id 1 0
      ∷ get_or new_id 2 0
      ∷ get_or c.id_raw 3 0
      ∷ get_or c.id_raw 4 0
      ∷ [];
}

-- `iter().all(|&b| b == 0xFF)`
unfoldable pub all_erased : List ℕ → Bool
all_erased [] = true
all_erased (b ∷ bytes) = b == 0xFF && all_erased bytes

unfoldable pub is_empty : Contact → Bool
unfolding all_erased
is_empty c = all_erased c.id_raw

pub record IsValid (c : Contact) : Type 0 where
  pub id_size : length c.id_raw ≡ 5
  pub name_size : length c.name ≡ 11

-- A contact that is written and read back is the same contact.
pub contact_from_bytes-to_bytes : (c : Contact) → IsValid c → from_bytes (to_bytes c) ≡ c
unfolding from_bytes to_bytes
contact_from_bytes-to_bytes c v = λ i. record {
  id_raw = span_all 5 c.id_raw v.id_size i;
  name = span_all 11 c.name v.name_size i;
}

-- Any 16 bytes that are read as a contact are written back as they were.
pub contact_to_bytes-from_bytes : (buf : List ℕ) → length buf ≡ 16 → to_bytes (from_bytes buf) ≡ buf
unfolding from_bytes to_bytes
contact_to_bytes-from_bytes buf size = span_all 16 buf size

-- After `set_id` the id is the given one, and the slot is empty only if it is all ones.
pub id-set_id : (c : Contact) (new_id : List ℕ) → length new_id ≡ 3 → id (set_id c new_id) ≡ new_id
unfolding id set_id
id-set_id c new_id size = span_all 3 new_id size
